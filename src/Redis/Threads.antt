-- ===== src/Redis/Threads.antt =====
-- infrastructure/redis_storage.rs, `with_entry_mut` of several threads. The lock of the connection
-- is held for a load, and again for a store, but not from one to the other.
use mathlib.Core.Path.{subst}
use mathlib.Core.Logic.{if_pos}
use tracing_throttle.Prelude.{
  ℕ, ◌≡◌, refl, sym, ap, ◌∙◌, Bool, true, Option, some, List, [], ◌∷◌, Instant, Run, Duo, settled,
  left, right, Duo-Run,
}
use tracing_throttle.Text.{Text}
use tracing_throttle.Policy.Float.{F64}
use tracing_throttle.Signature.{EventSignature}
use tracing_throttle.Storage.{Outcome, unwound, returned}
use tracing_throttle.Storage.Threads.{Calls}
use tracing_throttle.Registry.{EventState}
use tracing_throttle.Redis.{
  Codec, Server, RedisStorage, get_with_conn, set_with_conn, put, serialize_event_state, loaded,
  with_entry_mut,
}
use tracing_throttle.Redis.Keys.{key as redis_key}
use tracing_throttle.Redis.Reload.{ServerLaws}

module _ {V R : Type 0} (calls : Calls EventSignature V R) where
  open calls use {Call}

  -- A thread in a call holds the state that it loaded or made.
  pub data Pc : Type 0 where
    idle : Pc
    holding : (c : Call) (state : V) → Pc

  pub data Effect : Type 0 where
    quiet : Effect
    answered : (c : Call) (r : R) → Effect

module _ (f : F64) (M : Type 0) (base : Instant) (codec : Codec f) (server : Server codec.Bytes)
    (storage : RedisStorage) {R : Type 0} (calls : Calls EventSignature (EventState f M) R) where
  open calls use {Call, key, fresh, accessor}
  open server use {Conn}

  -- A load that panics ends the call.
  pub data Move (conn : server.Conn)
      : Pc calls → Effect calls → server.Conn → Pc calls → Type 0 where
    load :
        (c : Call) {conn' : server.Conn} (found : Option (Option (EventState f M)))
        → get_with_conn f M base codec server storage (key c) conn ≡ (conn', returned found)
        → Move conn idle quiet conn'
            (holding c (loaded f M base codec server storage found (fresh c)))
    panic :
        (c : Call) {conn' : server.Conn}
        → get_with_conn f M base codec server storage (key c) conn ≡ (conn', unwound)
        → Move conn idle quiet conn' idle
    store :
        {c : Call} {state : EventState f M}
        → Move conn
            (holding c state)
            (answered c (accessor c state).1)
            (set_with_conn f M base codec server storage (key c) (accessor c state).0 conn).0
            idle

  -- What a call does, by its outcome.
  unfoldable pub effects : Call → Outcome R → List (Effect calls)
  effects c unwound = quiet ∷ []
  effects c (returned r) = quiet ∷ answered c r ∷ []

  -- A call, from what its load gives.
  continued :
      Call → server.Conn × Outcome (Option (Option (EventState f M))) → server.Conn × Outcome R
  continued c p = elim p.1 [
    | unwound ↦ (p.0, unwound)
    | returned found ↦
        let a = accessor c (loaded f M base codec server storage found (fresh c)) in
        ((set_with_conn f M base codec server storage (key c) a.0 p.0).0, returned a.1)
  ]

  continued-Duo :
      (c : Call) (conn : server.Conn) (p : server.Conn × Outcome (Option (Option (EventState f M))))
      (q : Pc calls)
      → get_with_conn f M base codec server storage (key c) conn ≡ p
      → Duo Move conn Pc.idle q (effects c (continued c p).1) (continued c p).0 Pc.idle q
  unfolding continued effects
  continued-Duo c conn (conn', unwound) q e = left (Move.panic c e) settled
  continued-Duo c conn (conn', returned found) q e =
      left (Move.load c found e) (left Move.store settled)

  -- A call that no other one overlaps does what `with_entry_mut` does as a whole.
  pub with_entry_mut-alone :
      (c : Call) (conn : server.Conn) (q : Pc calls)
      → let (conn', outcome) =
          with_entry_mut f M base codec server storage conn (key c) (fresh c) (accessor c) in
        Duo Move conn Pc.idle q (effects c outcome) conn' Pc.idle q
  unfolding with_entry_mut continued
  with_entry_mut-alone c conn q =
      continued-Duo c conn (get_with_conn f M base codec server storage (key c) conn) q refl

  -- Both threads load before either of them stores.
  overlap :
      (c d : Call) (conn : server.Conn) (found : Option (Option (EventState f M)))
      → key d ≡ key c
      → get_with_conn f M base codec server storage (key c) conn ≡ (conn, returned found)
      → let a = accessor c (loaded f M base codec server storage found (fresh c)) in
        let b = accessor d (loaded f M base codec server storage found (fresh d)) in
        Duo Move conn Pc.idle Pc.idle
          (quiet ∷ quiet ∷ answered c a.1 ∷ answered d b.1 ∷ [])
          (set_with_conn f M base codec server storage
            (key d)
            b.0
            (set_with_conn f M base codec server storage (key c) a.0 conn).0).0
          Pc.idle
          Pc.idle
  overlap c d conn found same e =
      left (Move.load c found e)
        (right (Move.load d found (rw same e)) (left Move.store (right Move.store settled)))

  -- Two calls on a signature may overlap: each gives what it would give on the state that is stored
  -- before both, and what the first one stores is overwritten by what the second one makes of that
  -- state. The server must answer the loads and the second store, and the format write the state.
  pub with_entry_mut-overlap :
      (dec : Discrete Text) (laws : ServerLaws dec server) (c d : Call) (conn conn' : server.Conn)
      (found : Option (Option (EventState f M))) (bytes : codec.Bytes)
      → key d ≡ key c
      → get_with_conn f M base codec server storage (key c) conn ≡ (conn, returned found)
      → let a = accessor c (loaded f M base codec server storage found (fresh c)) in
        let b = accessor d (loaded f M base codec server storage found (fresh d)) in
        serialize_event_state f M base codec server storage b.0 ≡ some bytes
        → set_with_conn f M base codec server storage
            (key d)
            b.0
            (set_with_conn f M base codec server storage (key c) a.0 conn).0
          ≡ (conn', true)
        → ((pc : ℕ → Pc calls) × Run Move 2
              (record { shared = conn; pc = λ i. Pc.idle })
              (quiet ∷ quiet ∷ answered c a.1 ∷ answered d b.1 ∷ [])
              (record { shared = conn'; pc = pc })
            × (pc 0 ≡ Pc.idle)
            × (pc 1 ≡ Pc.idle))
          × (laws.content conn' (redis_key storage.config.key_prefix (key c)) ≡ some bytes)
  unfolding set_with_conn put
  with_entry_mut-overlap dec laws c d conn conn' found bytes same e written stored =
      let a = accessor c (loaded f M base codec server storage found (fresh c)) in
      let b = accessor d (loaded f M base codec server storage found (fresh d)) in
      let mid = (set_with_conn f M base codec server storage (key c) a.0 conn).0 in
      let name : Call → Text = λ x. redis_key storage.config.key_prefix (key x) in
      let stored' =
        sym (ap (λ o. put f M base codec server storage (key d) o mid) written) ∙ stored in
      let duo =
        subst
          (λ t.
            Duo Move conn Pc.idle Pc.idle (quiet ∷ quiet ∷ answered c a.1 ∷ answered d b.1 ∷ []) t
              Pc.idle Pc.idle)
          (ap (λ (r : server.Conn × Bool). r.0) stored) (overlap c d conn found same e) in
      let (pc, at_0, at_1, run) = Duo-Run Move duo (λ i. Pc.idle) refl refl in
      (
        (pc, run, at_0, at_1),
        laws.set_ex-content mid conn' (name d) (name c) bytes _ stored'
            ∙ if_pos (dec (name d) (name c)) (ap (redis_key storage.config.key_prefix) same)
                (some bytes) (laws.content mid (name c)),
      )
