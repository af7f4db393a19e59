-- ===== src/Redis.antt =====
-- infrastructure/redis_storage.rs: `RedisStorage`. The server is a parameter: what each command
-- replies, none for an error, and what it leaves of the connection's state. So is the binary format.
-- The locks, the runtimes and the warnings are left out.
pub mod Keys
pub mod State
pub mod Reload
pub mod Scan
pub mod Threads
use mathlib.Core.Option
use tracing_throttle.Prelude.{
  ℕ, ◌/◌, ◌≡◌, Bool, true, false, not, Option, none, some, List, [], ◌∷◌, Instant, Duration,
  from_secs, if◌then◌else◌,
}
use tracing_throttle.Text.{Text}
use tracing_throttle.Signature.{EventSignature}
use tracing_throttle.Policy.Float.{F64}
use tracing_throttle.Storage.{Outcome, unwound, returned}
use tracing_throttle.Registry.{EventState}
use Keys.{key, scanned_signature}
use State.{
  SerializableEventState, ReportedSerializableEventState, LegacySerializableEventState,
  from_event_state, to_event_state, reported_to_event_state, legacy_to_event_state, as_secs,
}

-- `bincode`, on the three forms of a state.
pub record Codec (f : F64) : Type 1 where
  pub Bytes : Type 0
  pub same : Bytes → Bytes → Bool
  pub serialize : SerializableEventState f → Option Bytes
  pub deserialize : Bytes → Option (SerializableEventState f)
  pub deserialize_reported : Bytes → Option (ReportedSerializableEventState f)
  pub deserialize_legacy : Bytes → Option (LegacySerializableEventState f)

-- The commands, with the connection's state before and after. `set_ex` takes seconds to live.
pub record Server (Bytes : Type 0) : Type 1 where
  pub Conn : Type 0
  pub get : Conn → Text → Conn × Option (Option Bytes)
  pub set_ex : Conn → Text → Bytes → ℕ → Conn × Bool
  pub del : Conn → Text → Conn × Bool
  pub del_all : Conn → List Text → Conn × Bool

pub record RedisStorageConfig : Type 0 where
  pub ttl : Duration
  pub key_prefix : Text

pub default_config : Text → RedisStorageConfig
default_config key_prefix = record { ttl = from_secs 3600; key_prefix = key_prefix }

pub record RedisStorage : Type 0 where
  pub config : RedisStorageConfig
  pub base_instant : Instant

pub connect_with_config : RedisStorageConfig → Instant → RedisStorage
connect_with_config config now = record { config = config; base_instant = now }

unfoldable pub first_of : {A : Type 0} → Option A → Option A → Option A
first_of none o = o
first_of (some a) o = some a

module _ (f : F64) (M : Type 0) (base : Instant) (codec : Codec f) (server : Server codec.Bytes)
    (storage : RedisStorage) where
  open codec use {Bytes}
  open server use {Conn}

  -- The three forms are tried in turn; none is corrupted data.
  unfoldable pub decode : codec.Bytes → Option (Outcome (EventState f M))
  unfolding first_of
  decode bytes =
      let origin = storage.base_instant in
      first_of (Option.map (to_event_state f base origin) (codec.deserialize bytes)) (
        first_of
          (Option.map (reported_to_event_state f base origin) (codec.deserialize_reported bytes))
          (Option.map (legacy_to_event_state f base origin) (codec.deserialize_legacy bytes)))

  -- An outcome within a reply that is no error.
  unfoldable pub found : Outcome (EventState f M) → Outcome (Option (Option (EventState f M)))
  found unwound = unwound
  found (returned state) = returned (some (some state))

  -- Corrupted data is deleted.
  unfoldable pub decoded :
      EventSignature
      → server.Conn
      → Option (Outcome (EventState f M))
      → server.Conn × Outcome (Option (Option (EventState f M)))
  unfolding found
  decoded signature conn none =
      let (conn', deleted) = server.del conn (key storage.config.key_prefix signature) in
      (conn', returned (if deleted then some none else none))
  decoded signature conn (some outcome) = (conn, found outcome)

  unfoldable pub got :
      EventSignature
      → server.Conn × Option (Option codec.Bytes)
      → server.Conn × Outcome (Option (Option (EventState f M)))
  unfolding decoded
  got signature (conn, none) = (conn, returned none)
  got signature (conn, some none) = (conn, returned (some none))
  got signature (conn, some (some bytes)) = decoded signature conn (decode bytes)

  unfoldable pub get_with_conn :
      EventSignature → server.Conn → server.Conn × Outcome (Option (Option (EventState f M)))
  unfolding got
  get_with_conn signature conn =
      got signature (server.get conn (key storage.config.key_prefix signature))

  unfoldable pub serialize_event_state : EventState f M → Option codec.Bytes
  serialize_event_state state = codec.serialize (from_event_state f base storage.base_instant state)

  unfoldable pub put : EventSignature → Option codec.Bytes → server.Conn → server.Conn × Bool
  put signature none conn = (conn, true)
  put signature (some bytes) conn =
      server.set_ex conn (key storage.config.key_prefix signature) bytes
        (as_secs storage.config.ttl)

  -- The state that cannot be serialized is not stored, and that is no error.
  unfoldable pub set_with_conn : EventSignature → EventState f M → server.Conn → server.Conn × Bool
  unfolding put
  set_with_conn signature state conn = put signature (serialize_event_state state) conn

  unfoldable pub loaded : Option (Option (EventState f M)) → EventState f M → EventState f M
  loaded none factory = factory
  loaded (some none) factory = factory
  loaded (some (some state)) factory = state

  unfoldable pub with_entry_mut :
      {R : Type 0}
      → server.Conn
      → EventSignature
      → EventState f M
      → (EventState f M → EventState f M × R)
      → server.Conn × Outcome R
  unfolding loaded
  with_entry_mut conn signature factory accessor =
      let (conn', reply) = get_with_conn signature conn in
      elim reply [
        | unwound ↦ (conn', unwound)
        | returned found ↦
            let (state, result) = accessor (loaded found factory) in
            ((set_with_conn signature state conn').0, returned result)
      ]

  pub len : server.Conn → ℕ
  len conn = 0

  pub is_empty : server.Conn → Bool
  is_empty conn = false

  -- The pages of keys that a scan returns, up to the cursor 0, are an argument of what follows.
  unfoldable pub clear : server.Conn → List (List Text) → server.Conn
  clear conn [] = conn
  clear conn ([] ∷ pages) = clear conn pages
  clear conn ((k ∷ keys) ∷ pages) = clear (server.del_all conn (k ∷ keys)).0 pages

  same_option : Option codec.Bytes → Option codec.Bytes → Bool
  same_option none none = true
  same_option none (some b) = false
  same_option (some a) none = false
  same_option (some a) (some b) = codec.same a b

  -- `f` of `for_each` and `retain`, with a state of its own.
  module _ {S : Type 0} where
    unfoldable pub each :
        (S → EventSignature → EventState f M → S)
        → S
        → EventSignature
        → server.Conn × Outcome (Option (Option (EventState f M)))
        → server.Conn × Outcome S
    each visit a signature (conn, unwound) = (conn, unwound)
    each visit a signature (conn, returned none) = (conn, returned a)
    each visit a signature (conn, returned (some none)) = (conn, returned a)
    each visit a signature (conn, returned (some (some state))) =
        (conn, returned (visit a signature state))

    unfoldable pub for_each_keys :
        (S → EventSignature → EventState f M → S)
        → S
        → server.Conn
        → List Text
        → server.Conn × Outcome S
    unfolding each
    for_each_keys visit a conn [] = (conn, returned a)
    for_each_keys visit a conn (scanned ∷ keys) =
        elim (scanned_signature storage.config.key_prefix scanned) [
          | none ↦ for_each_keys visit a conn keys
          | some signature ↦
              let (conn', outcome) = each visit a signature (get_with_conn signature conn) in
              elim outcome [
                | unwound ↦ (conn', unwound)
                | returned a' ↦ for_each_keys visit a' conn' keys
              ]
        ]

    -- A state that the visit gives up is deleted under the scanned key; one that it changed is
    -- stored under the signature's.
    unfoldable pub keep_or_delete :
        Text
        → EventSignature
        → EventState f M
        → S × EventState f M × Bool
        → server.Conn
        → server.Conn × Outcome S
    unfolding same_option
    keep_or_delete scanned signature state (a, state', keep) conn =
        if not keep
        then ((server.del conn scanned).0, returned a)
        else if not (same_option (serialize_event_state state) (serialize_event_state state'))
        then ((set_with_conn signature state' conn).0, returned a)
        else (conn, returned a)

    unfoldable pub retain_one :
        (S → EventSignature → EventState f M → S × EventState f M × Bool)
        → S
        → Text
        → EventSignature
        → server.Conn × Outcome (Option (Option (EventState f M)))
        → server.Conn × Outcome S
    unfolding keep_or_delete
    retain_one visit a scanned signature (conn, unwound) = (conn, unwound)
    retain_one visit a scanned signature (conn, returned none) = (conn, returned a)
    retain_one visit a scanned signature (conn, returned (some none)) = (conn, returned a)
    retain_one visit a scanned signature (conn, returned (some (some state))) =
        keep_or_delete scanned signature state (visit a signature state) conn

    unfoldable pub retain_keys :
        (S → EventSignature → EventState f M → S × EventState f M × Bool)
        → S
        → server.Conn
        → List Text
        → server.Conn × Outcome S
    unfolding retain_one
    retain_keys visit a conn [] = (conn, returned a)
    retain_keys visit a conn (scanned ∷ keys) =
        elim (scanned_signature storage.config.key_prefix scanned) [
          | none ↦ retain_keys visit a conn keys
          | some signature ↦
              let (conn', outcome) =
                retain_one visit a scanned signature (get_with_conn signature conn) in
              elim outcome [
                | unwound ↦ (conn', unwound)
                | returned a' ↦ retain_keys visit a' conn' keys
              ]
        ]
