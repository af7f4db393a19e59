-- ===== src/Limiter/Run.antt =====
-- application/limiter.rs: the calls for the events of one signature, one after the other.
use mathlib.Core.Path.{subst}
use tracing_throttle.Prelude.{
  ◌≡◌, refl, sym, ap, inl, inr, Option-cases, ◌∙◌, none, some, Instant, List, [], ◌∷◌, map,
}
use tracing_throttle.Metrics.{Metrics}
use tracing_throttle.Policy.Float.{F64}
use tracing_throttle.Policy
use tracing_throttle.Breaker
use tracing_throttle.Breaker.Closed.{allow_request-closed, record_success-closed}
use tracing_throttle.Breaker.{CircuitBreaker, closed, allow_request, record_success}
use tracing_throttle.Storage.{returned}
use tracing_throttle.Ports.{Storage, StorageLaws, seen}
use tracing_throttle.Registry.{EventState, SuppressionRegistry, with_event_state, new}
use tracing_throttle.Limiter.Decisions.{of_policy, policy_decisions, decide-policy}
use tracing_throttle.Limiter.{
  LimitDecision, RateLimiter, Readings, decide, settle, attempt, check, check_event,
}

-- An event at the time that the registry's clock reads, with the readings of the other clocks.
pub record Event : Type 0 where
  pub at_request : Instant
  pub time : Instant
  pub at_access : Instant
  pub at_failure : Instant

pub readings : Event → Readings
readings e = record {
  at_request = e.at_request;
  clock = some e.time;
  at_access = e.at_access;
  at_failure = e.at_failure;
}

module _ {K M : Type 0} (f : F64) (base : Instant) (p : Storage K (EventState f M)) where
  -- A condition of the storage under which no access panics.
  pub record Reliable : Type 1 where
    pub Safe : p.State → Type 0
    pub access_returns :
        (s : p.State) (metrics : Metrics) (k : K) (fresh : EventState f M) (now : Instant)
        (accessor : EventState f M → EventState f M × LimitDecision)
        → Safe s
        → (s' : p.State) × (metrics' : Metrics) × (d : LimitDecision) × (p.with_entry_mut s metrics
              k fresh now accessor
            ≡ ((s', metrics'), returned d))
          × Safe s'

  pub decisions : RateLimiter f M p → K → List Event → List LimitDecision
  decisions l k [] = []
  decisions l k (e ∷ es) =
      let (l', d) = check_event f base p l k (readings e) in d ∷ decisions l' k es

  -- The policy of a signature, which is the default one at first.
  unfoldable pub current_policy : SuppressionRegistry f M p → K → Policy.Policy f
  current_policy r k = elim (p.peek r.storage k) [
    | none ↦ r.default_policy
    | some state ↦ state.policy
  ]

  seen-policy :
      (r : SuppressionRegistry f M p) (k : K) (now : Instant)
      → (seen p r.storage k (new f base r.default_policy now)).policy ≡ current_policy r k
  unfolding current_policy new
  seen-policy r k now = elim (Option-cases (p.peek r.storage k)) [
    | inl e ↦ rw (e, current_policy)
    | inr (w, e) ↦ rw (e, current_policy)
  ]

  stored-policy :
      (r : SuppressionRegistry f M p) (k : K) (state : EventState f M)
      → p.peek r.storage k ≡ some state
      → current_policy r k ≡ state.policy
  unfolding current_policy
  stored-policy r k state e = rw (e, current_policy)

  check-returned :
      (l : RateLimiter f M p) (k : K) (r : Readings)
      (closure : EventState f M → Instant → EventState f M × LimitDecision)
      (registry : SuppressionRegistry f M p) (m : Metrics) (d : LimitDecision)
      → Breaker.state l.circuit_breaker ≡ closed
      → with_event_state f base p l.registry l.metrics k r.clock r.at_access closure
        ≡ ((registry, m), returned d)
      → ((check f base p l k r closure).0.registry ≡ registry)
        × ((check f base p l k r closure).0.circuit_breaker ≡ record_success l.circuit_breaker)
        × ((check f base p l k r closure).1 ≡ d)
  unfolding check attempt settle
  check-returned l k r closure registry m d h e =
      let granted = allow_request-closed l.circuit_breaker r.at_request h in
      (
        rw (granted, check) (ap (λ x. x.0.0) e),
        rw (granted, check) (ap (λ x. (settle f base p x.1 l.circuit_breaker r.at_failure).0) e),
        rw (granted, check) (ap (λ x. (settle f base p x.1 l.circuit_breaker r.at_failure).1) e),
      )

  module _ (laws : StorageLaws p) (reliable : Reliable) where
    open reliable use {Safe, access_returns}

    -- A limiter whose breaker is closed and whose storage does not panic.
    pub record Ready (l : RateLimiter f M p) : Type 0 where
      pub safe : Safe l.registry.storage
      pub closed_breaker : Breaker.state l.circuit_breaker ≡ closed

    -- A call whose closure decides as the policy does.
    pub check-policy :
        (l : RateLimiter f M p) (k : K) (e : Event)
        (closure : EventState f M → Instant → EventState f M × LimitDecision)
        → ((state : EventState f M) (now : Instant)
            → let (policy, d) = Policy.register_event f state.policy now in
              ((closure state now).0.policy ≡ policy) × ((closure state now).1 ≡ of_policy d))
        → Ready l
        → let (l', d) = check f base p l k (readings e) closure in
          let (policy, decision) = Policy.register_event f (current_policy l.registry k) e.time in
          (d ≡ of_policy decision) × (current_policy l'.registry k ≡ policy) × Ready l'
    unfolding readings with_event_state
    check-policy l k e closure decides ready =
        let fresh = new f base l.registry.default_policy e.time in
        let (s, m, d, returns, safe) =
          access_returns l.registry.storage l.metrics k fresh e.at_access
            (λ state. closure state e.time) ready.safe in
        let registry : SuppressionRegistry f M p = record l.registry { storage = s } in
        let (same_registry, breaker, same_decision) =
          check-returned l k (readings e) closure registry m d ready.closed_breaker
            (ap (λ x. ((record l.registry { storage = x.0.0 }, x.0.1), x.1)) returns) in
        let (result, stored) =
          laws.access l.registry.storage s l.metrics m k fresh e.at_access
            (λ state. closure state e.time) d returns in
        let (policy, decision) = decides (seen p l.registry.storage k fresh) e.time in
        let start = seen-policy l.registry k e.time in
        (
          same_decision
              ∙ result
              ∙ decision
              ∙ ap (λ q. of_policy (Policy.register_event f q e.time).1) start,
          ap (λ r. current_policy r k) same_registry
              ∙ stored-policy registry k _ stored
              ∙ policy
              ∙ ap (λ q. (Policy.register_event f q e.time).0) start,
          record {
            safe = subst (λ r. Safe r.storage) (sym same_registry) safe;
            closed_breaker =
                subst (λ b. Breaker.state b ≡ closed) (sym breaker)
                  (record_success-closed l.circuit_breaker ready.closed_breaker);
          },
        )

    -- The decisions on the events of one signature are those of its policy, the default one if the
    -- signature is new, at the readings of the registry's clock, as long as the breaker is closed
    -- at first and no access panics.
    pub decisions-policy :
        (l : RateLimiter f M p) (k : K) (es : List Event)
        → Ready l
        → decisions l k es
          ≡ map of_policy (policy_decisions f (current_policy l.registry k) (map (λ e. e.time) es))
    unfolding decisions policy_decisions check_event
    decisions-policy l k [] ready = refl
    decisions-policy l k (e ∷ es) ready =
        let (decision, policy, ready') =
          check-policy l k e (decide f base) (decide-policy f base) ready in
        let l' = (check_event f base p l k (readings e)).0 in
        let rest =
          decisions-policy l' k es ready'
          ∙ ap (λ q. map of_policy (policy_decisions f q (map (λ e. e.time) es))) policy in
        ap (λ d. d ∷ decisions l' k es) decision
        ∙ ap (λ ds. of_policy (Policy.register_event f (current_policy l.registry k) e.time).1 ∷ ds)
            rest
