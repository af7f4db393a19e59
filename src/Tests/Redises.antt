-- ===== src/Tests/Redises.antt =====
-- The Redis storage over a server that keeps what it is given, and a format that writes the
-- serializable form itself.
use mathlib.Core.Logic.{ite, if_pos}
use mathlib.Core.Option
use mathlib.Core.List.{List-discrete}
use native.Mathlib.Decide.{ℕ_discrete}
use tracing_throttle.Prelude.{
  ◌∙◌, ℕ, suc, ◌≡◌, refl, sym, ap, true, false, List, [], ◌∷◌, map, Option, none, some, arith,
  from_secs, inl, Run,
}
use tracing_throttle.Text.{Text, codes}
use tracing_throttle.Signature.{EventSignature}
use tracing_throttle.Policy.{count_based}
use tracing_throttle.Storage.{returned}
use tracing_throttle.Registry.{EventState}
use tracing_throttle.Redis.{
  Codec, Server, RedisStorage, get_with_conn, set_with_conn, put, serialize_event_state,
  retain_keys, got, loaded,
}
use tracing_throttle.Redis.Threads
use tracing_throttle.Redis.Threads.{with_entry_mut-overlap, with_entry_mut-alone}
use tracing_throttle.Storage.Threads.{Calls}
use tracing_throttle.Limiter.{LimitDecision}
use tracing_throttle.Limiter.Threads.{Checked, checks}
use tracing_throttle.Redis.Keys.{key}
use tracing_throttle.Redis.State.{SerializableEventState, from_event_state}
use tracing_throttle.Redis.State.RoundTrip.{Storable}
use tracing_throttle.Redis.Reload.{
  ServerLaws, ExpiryLaws, CodecLaws, IsDerived, get_with_conn-set_with_conn,
}
use tracing_throttle.Redis.Scan.{HasLetter, retain_keys-letters}
use tracing_throttle.Tests.Floats.{whole}

abbrev codec : Codec whole
codec = record {
  Bytes = SerializableEventState whole;
  same = λ a b. true;
  serialize = λ s. some s;
  deserialize = λ s. some s;
  deserialize_reported = λ s. none;
  deserialize_legacy = λ s. none;
}

abbrev Text-discrete : Discrete Text
Text-discrete = List-discrete ℕ_discrete

abbrev server : Server (SerializableEventState whole)
server = record {
  Conn = Text → Option (SerializableEventState whole);
  get = λ c k. (c, some (c k));
  set_ex = λ c k bytes ttl. ((λ j. ite (Text-discrete k j) (some bytes) (c j)), true);
  del = λ c k. ((λ j. ite (Text-discrete k j) none (c j)), true);
  del_all = λ c ks. (c, false);
}

abbrev server-Laws : ServerLaws Text-discrete server
server-Laws = record {
  content = λ c k. c k;
  get-content = λ c c' k reply e. sym (ap (λ x. Option.get_or x.1 none) e);
  set_ex-content = λ c c' k j bytes ttl e. sym (ap (λ x. x.0 j) e);
}

abbrev expiry : ExpiryLaws server
expiry = record {
  time = λ c. 0;
  content = λ c at k. c k;
  get-content = λ c c' k reply e. sym (ap (λ x. Option.get_or x.1 none) e);
  set_ex-content = λ c c' k bytes ttl at e alive.
      sym (ap (λ x. x.0 k) e) ∙ if_pos (Text-discrete k k) refl (some bytes) (c k);
}

abbrev format : CodecLaws codec
format = record { deserialize-serialize = λ s bytes derived e. sym e }

abbrev storage : RedisStorage
storage = record {
  config = record { ttl = from_secs 60; key_prefix = codes "events:" };
  base_instant = 5;
}

-- Twice suppressed, once reported; the counters' base is 10.
abbrev state : EventState whole ℕ
state = record {
  policy = count_based (record { max_count = 1; current_count = 1 });
  counter = record {
    suppressed_count = 2;
    reported_count = 1;
    first_suppressed_nanos = 3;
    last_suppressed_nanos = 2_000_000_007;
    last_reported_nanos = 9;
    first_unreported_nanos = 2_000_000_007;
  };
  metadata = some 7;
}

state-Storable : Storable 10 5 state.counter
state-Storable = record {
  reported_le = omega arith;
  first_suppressed = (omega arith, omega arith);
  last_suppressed = (omega arith, omega arith);
  last_reported = (omega arith, omega arith);
  first_unreported = (omega arith, omega arith);
}

abbrev empty : server.Conn
empty k = none

abbrev stored : server.Conn
stored j =
    ite (Text-discrete (key (codes "events:") 0xab) j) (some (from_event_state whole 10 5 state))
      none

get_with_conn-set_with_conn_example :
    get_with_conn whole ℕ 10 codec server storage 0xab stored
    ≡ (stored, returned (some (some (record state { metadata = none }))))
unfolding set_with_conn put serialize_event_state IsDerived
get_with_conn-set_with_conn_example =
    get_with_conn-set_with_conn whole ℕ 10 codec format server expiry storage 0xab state empty
      stored stored (from_event_state whole 10 5 state) (stored (key (codes "events:") 0xab)) tt
      (omega arith) state-Storable refl refl (omega arith) refl

abbrev letters : List EventSignature
letters = 0xab ∷ 0x1f ∷ []

-- A visit that counts, and keeps every entry.
retain_keys-letters_example :
    retain_keys whole ℕ 10 codec server storage
      (λ n k s. (suc n, s, true))
      0
      stored
      (map (key (codes "events:")) letters)
    ≡ (stored, returned 0)
unfolding HasLetter
retain_keys-letters_example =
    retain_keys-letters whole ℕ 10 codec server storage (λ n k s. (suc n, s, true)) 0 stored letters
      (inl (omega arith), (inl (omega arith), tt))

-- Each call asks the policy of the state.
abbrev asking : Calls EventSignature (EventState whole ℕ) LimitDecision
asking = checks whole 10 (count_based (record { max_count = 1; current_count = 0 })) ℕ_discrete

abbrev first_check : Checked ℕ ℕ
first_check = record { signature = 0xab; metadata = 1; time = 20 }

abbrev second_check : Checked ℕ ℕ
second_check = record { signature = 0xab; metadata = 2; time = 30 }

abbrev first_answer : EventState whole ℕ × LimitDecision
first_answer = asking.accessor first_check (asking.fresh first_check)

abbrev second_answer : EventState whole ℕ × LimitDecision
second_answer = asking.accessor second_check (asking.fresh second_check)

abbrev after_first : server.Conn
after_first = (set_with_conn whole ℕ 10 codec server storage 0xab first_answer.0 empty).0

abbrev after_both : server.Conn
after_both = (set_with_conn whole ℕ 10 codec server storage 0xab second_answer.0 after_first).0

with_entry_mut-overlap_example :
    ((pc : ℕ → Threads.Pc asking) × Run
        (Threads.Move whole ℕ 10 codec server storage asking)
        2
        (record { shared = empty; pc = λ i. Threads.idle })
        (Threads.quiet
          ∷ Threads.quiet
          ∷ Threads.answered first_check first_answer.1
          ∷ Threads.answered second_check second_answer.1
          ∷ [])
        (record { shared = after_both; pc = pc })
      × (pc 0 ≡ Threads.idle)
      × (pc 1 ≡ Threads.idle))
    × (after_both (key (codes "events:") 0xab) ≡ some (from_event_state whole 10 5 second_answer.0))
unfolding set_with_conn put serialize_event_state get_with_conn got loaded
with_entry_mut-overlap_example =
    with_entry_mut-overlap whole ℕ 10 codec server storage asking Text-discrete server-Laws
      first_check second_check empty after_both (some none)
      (from_event_state whole 10 5 second_answer.0) refl refl refl refl
