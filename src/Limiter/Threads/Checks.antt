-- ===== src/Limiter/Threads/Checks.antt =====
-- application/limiter.rs: whole checks of several threads, from the breaker over the storage to the
-- metrics. The clocks and the accessor do not panic; an eviction policy may.
use tracing_throttle.Prelude.{◌≡◌, List, [], ◌∷◌}
use tracing_throttle.Breaker.{CircuitBreaker}
use tracing_throttle.Breaker.Threads.{Pc as BreakerPc, Effect as BreakerEffect, Move as BreakerMove}
use tracing_throttle.Storage.Map.{DashMap}
use tracing_throttle.Storage.{StorageEntry}
use tracing_throttle.Storage.Threads.{
  Calls, Shared, Sampling, Pc as StoragePc, Effect as StorageEffect, Move as StorageMove,
}
use tracing_throttle.Limiter.{LimitDecision, allowed, record_decision}

-- Within `allow_request`, `record_success` and `record_failure`.
unfoldable pub InRequest : BreakerPc → Type 0
InRequest (BreakerPc.asking now) = Unit
InRequest BreakerPc.exchanging = Unit
InRequest BreakerPc.rereading = Unit
InRequest _ = ⊥

unfoldable pub InSuccess : BreakerPc → Type 0
InSuccess BreakerPc.clearing = Unit
InSuccess BreakerPc.recovering = Unit
InSuccess BreakerPc.closing = Unit
InSuccess _ = ⊥

unfoldable pub InFailure : BreakerPc → Type 0
InFailure (BreakerPc.failing failures) = Unit
InFailure (BreakerPc.stamped failures) = Unit
InFailure BreakerPc.opening = Unit
InFailure _ = ⊥

module _ {K V : Type 0} (calls : Calls K V LimitDecision) where
  open calls use {Call}

  -- Within `with_entry_mut` of a call.
  unfoldable pub InCall : Call → StoragePc calls → Type 0
  InCall c StoragePc.idle = ⊥
  InCall c (StoragePc.looked d is_new_entry) = d ≡ c
  InCall c (StoragePc.measured d policy entries) = d ≡ c
  InCall c (StoragePc.sampling d policy) = d ≡ c
  InCall c (StoragePc.chosen d policy victim) = d ≡ c
  InCall c (StoragePc.freed d policy victim value) = d ≡ c
  InCall c (StoragePc.counted d) = d ≡ c
  InCall c (StoragePc.entering d is_new_entry) = d ≡ c

  pub data CheckPc : Type 0 where
    idle : CheckPc
    requesting : (c : Call) (pc : BreakerPc) → CheckPc
    storing : (c : Call) (pc : StoragePc calls) → CheckPc
    succeeding : (c : Call) (decision : LimitDecision) (pc : BreakerPc) → CheckPc
    failing : (c : Call) (pc : BreakerPc) → CheckPc
    recording : (c : Call) (decision : LimitDecision) → CheckPc

  -- The start of a check, a step of the storage, an event that passes without a decision of the
  -- accessor, or the end of a check with what it returns.
  pub data CheckEffect : Type 0 where
    quiet : CheckEffect
    started : Call → CheckEffect
    stepped : StorageEffect calls → CheckEffect
    passed : Call → CheckEffect
    finished : Call → LimitDecision → CheckEffect

  module _ (m : DashMap K (StorageEntry V)) (Sample : Sampling m) where
    -- The storage with the metrics, and the breaker.
    pub record Limiter : Type 0 where
      pub shared : Shared m
      pub breaker : CircuitBreaker

    unfoldable pub with_breaker : Limiter → CircuitBreaker → Limiter
    with_breaker s b = record s { breaker = b }

    unfoldable pub recorded : Limiter → LimitDecision → Limiter
    recorded s d = record s {
      shared = record s.shared { metrics = record_decision d s.shared.metrics };
    }

    pub data CheckMove (s : Limiter) : CheckPc → CheckEffect → Limiter → CheckPc → Type 0 where
      start : (c : Call) → CheckMove s idle (started c) s (requesting c BreakerPc.idle)
      request :
          {c : Call} {p p' : BreakerPc} {b : CircuitBreaker}
          → BreakerMove s.breaker p BreakerEffect.quiet b p'
          → InRequest p'
          → CheckMove s (requesting c p) quiet (with_breaker s b) (requesting c p')
      granted :
          {c : Call} {p : BreakerPc} {b : CircuitBreaker}
          → BreakerMove s.breaker p BreakerEffect.granted b BreakerPc.idle
          → CheckMove s (requesting c p) quiet (with_breaker s b) (storing c StoragePc.idle)
      probes :
          {c : Call} {p : BreakerPc} {b : CircuitBreaker}
          → BreakerMove s.breaker p BreakerEffect.probes b BreakerPc.idle
          → CheckMove s (requesting c p) quiet (with_breaker s b) (storing c StoragePc.idle)
      denied :
          {c : Call} {p : BreakerPc} {b : CircuitBreaker}
          → BreakerMove s.breaker p BreakerEffect.denied b BreakerPc.idle
          → CheckMove s (requesting c p) (passed c) (with_breaker s b) (recording c allowed)
      store :
          {c : Call} {p p' : StoragePc calls} {e : StorageEffect calls} {t : Shared m}
          → StorageMove calls m Sample s.shared p e t p'
          → InCall c p'
          → CheckMove s (storing c p) (stepped e) (record s { shared = t }) (storing c p')
      decided :
          {c : Call} {p : StoragePc calls} {decision : LimitDecision} {t : Shared m}
          → StorageMove calls m Sample s.shared p
              (StorageEffect.accessed c decision)
              t
              StoragePc.idle
          → CheckMove s
              (storing c p)
              (stepped (StorageEffect.accessed c decision))
              (record s { shared = t })
              (succeeding c decision BreakerPc.idle)
      panicked :
          {c : Call} {p : StoragePc calls} {t : Shared m}
          → StorageMove calls m Sample s.shared p StorageEffect.quiet t StoragePc.idle
          → CheckMove s
              (storing c p)
              (passed c)
              (record s { shared = t })
              (failing c BreakerPc.idle)
      success :
          {c : Call} {decision : LimitDecision} {p p' : BreakerPc} {b : CircuitBreaker}
          → BreakerMove s.breaker p BreakerEffect.quiet b p'
          → InSuccess p'
          → CheckMove s
              (succeeding c decision p)
              quiet
              (with_breaker s b)
              (succeeding c decision p')
      succeeded :
          {c : Call} {decision : LimitDecision} {p : BreakerPc} {b : CircuitBreaker}
          → BreakerMove s.breaker p BreakerEffect.quiet b BreakerPc.idle
          → CheckMove s (succeeding c decision p) quiet (with_breaker s b) (recording c decision)
      failure :
          {c : Call} {p p' : BreakerPc} {b : CircuitBreaker}
          → BreakerMove s.breaker p BreakerEffect.quiet b p'
          → InFailure p'
          → CheckMove s (failing c p) quiet (with_breaker s b) (failing c p')
      failed :
          {c : Call} {p : BreakerPc} {e : BreakerEffect} {b : CircuitBreaker}
          → InFailure p
          → BreakerMove s.breaker p e b BreakerPc.idle
          → CheckMove s (failing c p) quiet (with_breaker s b) (recording c allowed)
      finish :
          {c : Call} {decision : LimitDecision}
          → CheckMove s (recording c decision) (finished c decision) (recorded s decision) idle

  -- The steps of the storage.
  unfoldable pub storage_steps : List CheckEffect → List (StorageEffect calls)
  storage_steps [] = []
  storage_steps (quiet ∷ es) = storage_steps es
  storage_steps (stepped e ∷ es) = e ∷ storage_steps es
  storage_steps (started c ∷ es) = storage_steps es
  storage_steps (passed c ∷ es) = storage_steps es
  storage_steps (finished c d ∷ es) = storage_steps es
