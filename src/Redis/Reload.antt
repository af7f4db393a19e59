-- ===== src/Redis/Reload.antt =====
-- infrastructure/redis_storage.rs: loads after stores.
use mathlib.Core.Logic.{ite}
use mathlib.Core.Option
use mathlib.Core.Option.{some-injective}
use tracing_throttle.Prelude.{
  ℕ, ◌≡◌, sym, ap, ◌∙◌, ◌+◌, ◌≤◌, ◌<◌, true, Option, none, some, Instant, u64_max, instant_max,
}
use tracing_throttle.Text.{Text}
use tracing_throttle.Policy.Float.{F64}
use tracing_throttle.Policy.{Policy}
use tracing_throttle.Signature.{EventSignature}
use tracing_throttle.Storage.{Outcome, returned}
use tracing_throttle.Registry.{EventState}
use tracing_throttle.Redis.{
  Codec, Server, RedisStorage, decode, decoded, first_of, found, got, get_with_conn, set_with_conn,
  put, serialize_event_state,
}
use tracing_throttle.Redis.Keys.{key}
use tracing_throttle.Redis.State.{
  as_secs, SerializableEventState, from_event_state, to_event_state, reported_to_event_state,
  legacy_to_event_state,
}
use tracing_throttle.Redis.State.RoundTrip.{Storable, to_event_state-from_event_state}

-- What the server's documentation says of the commands: `content` is what it holds under a key.
pub record ServerLaws {Bytes : Type 0} (dec : Discrete Text) (server : Server Bytes) : Type 0 where
  pub content : server.Conn → Text → Option Bytes
  pub get-content :
      (c c' : server.Conn) (k : Text) (reply : Option Bytes)
      → server.get c k ≡ (c', some reply)
      → reply ≡ content c k
  pub set_ex-content :
      (c c' : server.Conn) (k j : Text) (bytes : Bytes) (ttl : ℕ)
      → server.set_ex c k bytes ttl ≡ (c', true)
      → content c' j ≡ ite (dec k j) (some bytes) (content c j)

-- The same with the time to live. `time` is the server's time at the next command, in seconds, and
-- `content` what it holds under a key at a time.
pub record ExpiryLaws {Bytes : Type 0} (server : Server Bytes) : Type 0 where
  pub time : server.Conn → ℕ
  pub content : server.Conn → ℕ → Text → Option Bytes
  pub get-content :
      (c c' : server.Conn) (k : Text) (reply : Option Bytes)
      → server.get c k ≡ (c', some reply)
      → reply ≡ content c (time c) k
  pub set_ex-content :
      (c c' : server.Conn) (k : Text) (bytes : Bytes) (ttl at : ℕ)
      → server.set_ex c k bytes ttl ≡ (c', true)
      → at < time c + ttl
      → content c' at k ≡ some bytes

-- The policies whose serialization is derived: the other two write their own, and leave times out.
unfoldable pub IsDerived : {f : F64} → Policy f → Type 0
IsDerived (Policy.count_based p) = Unit
IsDerived (Policy.exponential_backoff p) = Unit
IsDerived p = ⊥

-- What the format's documentation says of derived serialization.
pub record CodecLaws {f : F64} (codec : Codec f) : Type 0 where
  pub deserialize-serialize :
      (s : SerializableEventState f) (bytes : codec.Bytes)
      → IsDerived s.policy
      → codec.serialize s ≡ some bytes
      → codec.deserialize bytes ≡ some s

module _ (f : F64) (M : Type 0) (base : Instant) (codec : Codec f) (format : CodecLaws codec)
    (server : Server codec.Bytes) (laws : ExpiryLaws server) (storage : RedisStorage) where
  open codec use {Bytes}
  open server use {Conn}

  -- A state with a count-based or a backoff policy that was stored is what the next load finds,
  -- without its metadata, if the server answers that load before the time to live is over, and the
  -- load comes directly after the store. The state's times must lie within 64 bits of nanoseconds
  -- after the counters' base and not before the storage's, its counts must be in order, and no
  -- instant of a counter may lie beyond the platform's last one.
  pub get_with_conn-set_with_conn :
      (signature : EventSignature) (state : EventState f M) (c c' c'' : server.Conn)
      (bytes : codec.Bytes) (reply : Option codec.Bytes)
      → IsDerived state.policy
      → base + u64_max ≤ instant_max
      → Storable base storage.base_instant state.counter
      → serialize_event_state f M base codec server storage state ≡ some bytes
      → set_with_conn f M base codec server storage signature state c ≡ (c', true)
      → laws.time c' < laws.time c + as_secs storage.config.ttl
      → server.get c' (key storage.config.key_prefix signature) ≡ (c'', some reply)
      → get_with_conn f M base codec server storage signature c'
        ≡ (c'', returned (some (some (record state { metadata = none }))))
  unfolding get_with_conn set_with_conn put got decoded decode found first_of serialize_event_state
  get_with_conn-set_with_conn signature state c c' c'' bytes reply derived fits storable written
        stored alive answered =
      let k = key storage.config.key_prefix signature in
      let stored' =
        sym (ap (λ o. put f M base codec server storage signature o c) written) ∙ stored in
      let form = from_event_state f base storage.base_instant state in
      let read : codec.deserialize bytes ≡ some form =
        format.deserialize-serialize form bytes (unfold from_event_state in derived) written in
      let held : reply ≡ some bytes =
        laws.get-content c' c'' k reply answered
        ∙ laws.set_ex-content c c' k bytes _ (laws.time c') stored' alive in
      let answer = answered ∙ ap (λ r. (c'', some r)) held in
      let back = to_event_state-from_event_state base storage.base_instant fits f state storable in
      ap (got f M base codec server storage signature) answer
      ∙ ap (decoded f M base codec server storage signature c'') (
          ap
            (λ o.
              first_of (Option.map (to_event_state f base storage.base_instant) o) (others bytes))
            read
          ∙ ap some back)
    where
      others : codec.Bytes → Option (Outcome (EventState f M))
      others b =
          first_of
            (Option.map (reported_to_event_state f base storage.base_instant)
              (codec.deserialize_reported b))
            (Option.map (legacy_to_event_state f base storage.base_instant)
              (codec.deserialize_legacy b))
