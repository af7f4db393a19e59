-- ===== src/Limiter/Decided.antt =====
-- application/limiter.rs: what a call decides, and what it counts.
use tracing_throttle.Prelude.{
  ◌≡◌, refl, sym, ap, ◌∙◌, Bool-cases, inl, inr, Bool, true, false, Option, none, some, Instant,
  arith, wrapping_inc,
}
use tracing_throttle.Policy.Float.{F64}
use tracing_throttle.Metrics.{Metrics, record_allowed, record_suppressed}
use tracing_throttle.Breaker.{CircuitBreaker, allow_request, record_success, record_failure}
use tracing_throttle.Storage.{Outcome, unwound, returned}
use tracing_throttle.Ports.{Storage, StorageLaws, seen}
use tracing_throttle.Registry.{EventState, SuppressionRegistry, with_event_state, new}
use tracing_throttle.Limiter.{
  LimitDecision, allowed, suppressed, RateLimiter, Readings, record_decision, settle, attempt,
  check,
}

-- The counts before and after a call that decides `d`.
unfoldable pub Counted : LimitDecision → Metrics → Metrics → Type 0
Counted allowed m m' =
    (m'.events_allowed ≡ wrapping_inc m.events_allowed)
    × (m'.events_suppressed ≡ m.events_suppressed)
Counted suppressed m m' =
    (m'.events_allowed ≡ m.events_allowed)
    × (m'.events_suppressed ≡ wrapping_inc m.events_suppressed)

record_decision-Counted :
    (d : LimitDecision) (m m' : Metrics)
    → m'.events_allowed ≡ m.events_allowed
    → m'.events_suppressed ≡ m.events_suppressed
    → Counted d m (record_decision d m')
unfolding Counted record_decision record_allowed record_suppressed
record_decision-Counted allowed m m' a s = (ap wrapping_inc a, s)
record_decision-Counted suppressed m m' a s = (a, ap wrapping_inc s)

module _ {K M : Type 0} (f : F64) (base : Instant) (p : Storage K (EventState f M))
    (laws : StorageLaws p) where
  -- What a call leaves that decides `d`.
  pub data Decided (l l' : RateLimiter f M p) (k : K) (r : Readings)
      (closure : EventState f M → Instant → EventState f M × LimitDecision) (d : LimitDecision)
      : Type 0 where
    -- The breaker refuses: the event passes, and its state is not touched.
    bypassed :
        (allow_request l.circuit_breaker r.at_request).1 ≡ false
        → d ≡ allowed
        → l'.registry ≡ l.registry
        → l'.circuit_breaker ≡ (allow_request l.circuit_breaker r.at_request).0
        → Decided l l' k r closure d
    -- The operation panics: the event passes, and the breaker hears of the failure.
    failed :
        (allow_request l.circuit_breaker r.at_request).1 ≡ true
        → (with_event_state f base p l.registry l.metrics k r.clock r.at_access closure).1 ≡ unwound
        → d ≡ allowed
        → l'.registry
          ≡ (with_event_state f base p l.registry l.metrics k r.clock r.at_access closure).0.0
        → l'.circuit_breaker
          ≡ record_failure (allow_request l.circuit_breaker r.at_request).0 r.at_failure
        → Decided l l' k r closure d
    -- The closure decides on the state of the signature, or a new one, and its state is stored.
    decided :
        (allow_request l.circuit_breaker r.at_request).1 ≡ true
        → (with_event_state f base p l.registry l.metrics k r.clock r.at_access closure).1
          ≡ returned d
        → (now : Instant) → r.clock ≡ some now
        → (let before = seen p l.registry.storage k (new f base l.registry.default_policy now) in
            (d ≡ (closure before now).1)
            × (p.peek l'.registry.storage k ≡ some (closure before now).0))
        → l'.circuit_breaker ≡ record_success (allow_request l.circuit_breaker r.at_request).0
        → Decided l l' k r closure d

  -- What `with_event_state` returns comes from the closure on the state of the signature.
  pub with_event_state-returned :
      (registry registry' : SuppressionRegistry f M p) (m m' : Metrics) (k : K)
      (clock : Option Instant) (at : Instant)
      (closure : EventState f M → Instant → EventState f M × LimitDecision) (d : LimitDecision)
      → with_event_state f base p registry m k clock at closure ≡ ((registry', m'), returned d)
      → (now : Instant) × (clock ≡ some now)
        × (let before = seen p registry.storage k (new f base registry.default_policy now) in
            (d ≡ (closure before now).1)
            × (p.peek registry'.storage k ≡ some (closure before now).0))
  unfolding with_event_state
  with_event_state-returned registry registry' m m' k none at closure d h = cc
  with_event_state-returned registry registry' m m' k (some now) at closure d h =
      let fresh = new f base registry.default_policy now in
      let accessor = λ (state : EventState f M). closure state now in
      let a = p.with_entry_mut registry.storage m k fresh at accessor in
      let e : a ≡ ((registry'.storage, m'), returned d) = ground arith in
      (now, refl, laws.access registry.storage registry'.storage m m' k fresh at accessor d e)

  with_event_state-counts :
      (registry : SuppressionRegistry f M p) (m : Metrics) (k : K) (clock : Option Instant)
      (at : Instant) (closure : EventState f M → Instant → EventState f M × LimitDecision)
      → let m' = (with_event_state f base p registry m k clock at closure).0.1 in
        (m'.events_allowed ≡ m.events_allowed) × (m'.events_suppressed ≡ m.events_suppressed)
  unfolding with_event_state
  with_event_state-counts registry m k none at closure = (refl, refl)
  with_event_state-counts registry m k (some now) at closure =
      laws.counts_kept registry.storage m k (new f base registry.default_policy now) at
        (λ state. closure state now)

  attempt-Counted :
      (l : RateLimiter f M p) (k : K) (r : Readings)
      (closure : EventState f M → Instant → EventState f M × LimitDecision) (granted : Bool)
      → let (l', d) = attempt f base p l k r closure granted in Counted d l.metrics l'.metrics
  unfolding attempt Counted record_allowed
  attempt-Counted l k r closure false = (refl, refl)
  attempt-Counted l k r closure true =
      let ((registry, m), o) =
        with_event_state f base p l.registry l.metrics k r.clock r.at_access closure in
      let (a, s) = with_event_state-counts l.registry l.metrics k r.clock r.at_access closure in
      record_decision-Counted (settle f base p o l.circuit_breaker r.at_failure).1 l.metrics m a s

  -- Each call counts its event once, as allowed or as suppressed, the way it decides: also where
  -- the breaker is open, the clock panics or the storage does, and whatever the storage evicts.
  pub check-Counted :
      (l : RateLimiter f M p) (k : K) (r : Readings)
      (closure : EventState f M → Instant → EventState f M × LimitDecision)
      → let (l', d) = check f base p l k r closure in Counted d l.metrics l'.metrics
  unfolding check
  check-Counted l k r closure =
      let (breaker, granted) = allow_request l.circuit_breaker r.at_request in
      attempt-Counted (record l { circuit_breaker = breaker }) k r closure granted

  attempt-Decided :
      (l : RateLimiter f M p) (k : K) (r : Readings)
      (closure : EventState f M → Instant → EventState f M × LimitDecision)
      → (allow_request l.circuit_breaker r.at_request).1 ≡ true
      → let (l', d) =
          attempt f base p
            (record l { circuit_breaker = (allow_request l.circuit_breaker r.at_request).0 })
            k
            r
            closure
            true in
        Decided l l' k r closure d
  unfolding attempt settle
  attempt-Decided l k r closure granted =
      go (with_event_state f base p l.registry l.metrics k r.clock r.at_access closure).1 refl
    where
      b : CircuitBreaker
      b = (allow_request l.circuit_breaker r.at_request).0

      w : (SuppressionRegistry f M p × Metrics) × Outcome LimitDecision
      w = with_event_state f base p l.registry l.metrics k r.clock r.at_access closure

      go :
          (o : Outcome LimitDecision)
          → w.1 ≡ o
          → let (l', d) = attempt f base p (record l { circuit_breaker = b }) k r closure true in
            Decided l l' k r closure d
      go unwound e =
          failed granted e (ap (λ o. (settle f base p o b r.at_failure).1) e) refl
            (ap (λ o. (settle f base p o b r.at_failure).0) e)
      go (returned d) e =
          let (now, clock, (same, stored)) =
            with_event_state-returned l.registry w.0.0 l.metrics w.0.1 k r.clock r.at_access closure
              d (ap (λ o. (w.0, o)) e) in
          decided granted (e ∙ ap returned (sym (ap (λ o. (settle f base p o b r.at_failure).1) e)))
            now clock (ap (λ o. (settle f base p o b r.at_failure).1) e ∙ same, stored)
            (ap (λ o. (settle f base p o b r.at_failure).0) e)

  -- Every call either passes its event by an open breaker; or the breaker grants it, the access
  -- panics, and it passes its event and records a failure; or the access returns, and the call
  -- decides by the closure on the state of its signature, the stored one or a new one at the
  -- reading of the clock, stores the state that the closure leaves, and records a success.
  pub check-Decided :
      (l : RateLimiter f M p) (k : K) (r : Readings)
      (closure : EventState f M → Instant → EventState f M × LimitDecision)
      → let (l', d) = check f base p l k r closure in Decided l l' k r closure d
  unfolding check attempt
  check-Decided l k r closure = elim (Bool-cases (allow_request l.circuit_breaker r.at_request).1) [
    | inl granted ↦ rw (granted, check) (attempt-Decided l k r closure granted)
    | inr refused ↦ rw (refused, check) (bypassed refused refl refl refl)
  ]
