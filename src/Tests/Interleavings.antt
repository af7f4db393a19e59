-- ===== src/Tests/Interleavings.antt =====
-- Calls of two threads, over logs.
use native.Mathlib.Decide.{ℕ_discrete}
use tracing_throttle.Prelude.{
  System, pick, Run, stop, first, ℕ, ◌+◌, ◌≤◌, ◌≡◌, ◌≢◌, refl, none, some, List, [], ◌∷◌, suc, true,
  arith,
}
use tracing_throttle.Metrics.{Metrics}
use tracing_throttle.Eviction.{lru}
use tracing_throttle.Storage.{
  ShardedStorage, Outcome, StorageEntry, new_entry, len, is_some, with_entry_mut,
}
use tracing_throttle.Storage.Map.{DashMap}
use tracing_throttle.Storage.Threads.{
  Calls, Pc, Effect, quiet, accessed, Shared, Sampling, Move, with_table, enter_new, enter_old,
  stored,
}
use tracing_throttle.Storage.Threads.Atomic.{view}
use tracing_throttle.Storage.Threads.Sequential.{Keeps, InTurn, Run-InTurn}
use tracing_throttle.Storage.Threads.Overshoot.{snapshot, len-threads}
use tracing_throttle.Eviction.Oldest.{select_oldest-All}
use tracing_throttle.Policy.{Policy, count_based}
use tracing_throttle.Registry.{EventState}
use tracing_throttle.Limiter.{LimitDecision}
use tracing_throttle.Limiter.Threads.{Checked, checks}
use tracing_throttle.Tests.Floats.{whole}
use tracing_throttle.Tests.Logs.{logged, logged-Laws, get, iter, without}

get_self : {W : Type 0} (k : ℕ) (w : W) (t : List (ℕ × W)) → get ((k, w) ∷ t) k ≡ some w
unfolding get
get_self k w t = ground arith

abbrev store : (V : Type 0) → DashMap ℕ (StorageEntry V)
store V = logged (StorageEntry V)

module _ {V R : Type 0} (calls : Calls ℕ V R) (c : calls.Call) where
  abbrev anything : Sampling (store V)
  anything s cs = Unit

  abbrev empty : Shared (store V)
  empty = record {
    storage = record {
      table = [];
      epoch = 0;
      has_metrics = true;
      eviction_policy = none;
      current_memory_bytes = 0;
    };
    metrics = record { events_allowed = 0; events_suppressed = 0; signatures_evicted = 0 };
  }

  abbrev start : System (Shared (store V)) (Pc calls)
  start = record { shared = empty; pc = λ i. Pc.idle }

  -- Both threads look the key up before either of them inserts it.
  abbrev first_two : List (Effect calls)
  first_two =
      quiet
      ∷ quiet
      ∷ quiet
      ∷ quiet
      ∷ accessed c (calls.accessor c (calls.fresh c)).1
      ∷ accessed c (calls.accessor c (calls.accessor c (calls.fresh c)).0).1
      ∷ []

  abbrev entered : Shared (store V)
  entered = enter_new calls (store V) anything empty c true 5

  abbrev last : StorageEntry V
  last = stored calls (store V) anything empty c (new_entry (calls.fresh c) 5 0) 5

  abbrev both :
      (t : System (Shared (store V)) (Pc calls)) × Run
        (Move calls (store V) anything)
        2
        start
        first_two
        t
  unfolding ℕ_discrete is_some get enter_new enter_old with_table stored new_entry
  both = (
    _,
    first (pick 0 (omega arith) (Move.begin c)) (
        first (pick 1 (omega arith) (Move.begin c)) (
          first (pick 0 (omega arith) (Move.unlimited refl)) (
            first (pick 1 (omega arith) (Move.unlimited refl)) (
              first (pick 0 (omega arith) (Move.access_new 5 refl)) (
                first (pick 1 (omega arith) (Move.access_old _ 6 (get_self (calls.key c) last [])))
                  stop))))),
  )

-- Each access counts up and gives what it finds.
abbrev counting : Calls ℕ ℕ ℕ
counting = record { Call = ℕ; key = λ c. c; fresh = λ c. 7; accessor = λ c v. (suc v, v) }

Run-InTurn_example :
    InTurn ℕ_discrete counting 3
      (view ℕ_discrete counting
        (store ℕ)
        (logged-Laws (StorageEntry ℕ))
        (anything counting 3)
        (empty counting 3)
        3)
      (view ℕ_discrete counting
        (store ℕ)
        (logged-Laws (StorageEntry ℕ))
        (anything counting 3)
        (both counting 3).0.shared
        3)
      (first_two counting 3)
unfolding Keeps
Run-InTurn_example =
    Run-InTurn ℕ_discrete counting (store ℕ) (logged-Laws (StorageEntry ℕ)) (anything counting 3) 3
      (both counting 3).1 (tt, (tt, (tt, (tt, (tt, (tt, tt))))))

abbrev one_each : Policy whole
one_each = count_based (record { max_count = 1; current_count = 0 })

abbrev checked : Checked ℕ ℕ
checked = record { signature = 4; metadata = 0; time = 9 }

abbrev checking : Calls ℕ (EventState whole ℕ) LimitDecision
checking = checks whole 0 one_each ℕ_discrete

-- No key of the log is as large.
bound : {W : Type 0} → List (ℕ × W) → ℕ
bound [] = 0
bound ((k, w) ∷ t) = k + suc (bound t)

get-bound : {W : Type 0} (k : ℕ) (t : List (ℕ × W)) → bound t ≤ k → get t k ≡ none
unfolding get bound
get-bound k [] h = refl
get-bound k ((j, w) ∷ t) h = ground (arith, get-bound k t, h)

spare :
    {W : Type 0} (t : List (ℕ × W))
    → (c : ℕ) × (d : ℕ) × (get t c ≡ none) × (get t d ≡ none) × (c ≢ d)
spare t = (
  bound t,
  suc (bound t),
  get-bound (bound t) t (omega arith),
  get-bound (suc (bound t)) t (omega arith),
  λ e. omega (arith, e),
)

-- One entry, and no room for another.
abbrev full : Shared (store ℕ)
full = record (empty counting 0) {
  storage = record (empty counting 0).storage {
    table = (5, record { value = 1; last_access_nanos = 0 }) ∷ [];
    eviction_policy = some (lru 1);
  };
}

len-threads_example :
    (es : List (Effect counting)) × (t : System (Shared (store ℕ)) (Pc counting)) × Run
      (Move counting
        (store ℕ)
        (snapshot ℕ_discrete counting (store ℕ) (logged-Laws (StorageEntry ℕ))))
      2
      (record { shared = full; pc = λ i. Pc.idle })
      es
      t
    × (t.pc 0 ≡ Pc.idle)
    × (t.pc 1 ≡ Pc.idle)
    × (len (store ℕ) t.shared.storage ≡ 1000 + len (store ℕ) full.storage)
unfolding lru len iter without
len-threads_example =
    len-threads ℕ_discrete counting (store ℕ) (logged-Laws (StorageEntry ℕ)) (lru 1)
      select_oldest-All 1 (λ n b. refl) spare full 1000
      (record { has_policy = refl; positive = omega arith; full = omega arith })

-- What a call of key 3 at 9 leaves and answers as a whole.
abbrev whole_call : (ShardedStorage (store ℕ) × Metrics) × Outcome ℕ
whole_call = with_entry_mut (store ℕ) full.storage full.metrics 3 7 9 (λ v. (suc v, v))

abbrev left_behind : Shared (store ℕ)
left_behind = record { storage = whole_call.0.0; metrics = whole_call.0.1 }
