-- ===== src/Limiter.antt =====
-- application/limiter.rs: the rate limiter, one event at a time.
pub mod Decided
pub mod Decisions
pub mod Threads
pub mod Run
pub mod Sharded
use tracing_throttle.Prelude.{Bool, true, false, Option, none, some, Instant}
use tracing_throttle.Policy.Float.{F64}
use tracing_throttle.Policy
use tracing_throttle.Policy.Decision.{PolicyDecision, allow, suppress}
use tracing_throttle.Summary
use tracing_throttle.Metrics.{Metrics, record_allowed, record_suppressed}
use tracing_throttle.Breaker.{CircuitBreaker, allow_request, record_success, record_failure}
use tracing_throttle.Storage.{Outcome, unwound, returned}
use tracing_throttle.Ports.{Storage}
use tracing_throttle.Registry.{EventState, SuppressionRegistry, set_metadata, with_event_state}

-- `LimitDecision`; its constructors are spelled apart from those of a policy's decision.
pub data LimitDecision : Type 0 where
  allowed suppressed : LimitDecision

pub record RateLimiter {K : Type 0} (f : F64) (M : Type 0) (p : Storage K (EventState f M))
    : Type 0 where
  pub registry : SuppressionRegistry f M p
  pub metrics : Metrics
  pub circuit_breaker : CircuitBreaker

-- The clock readings of one call: the breaker's at the request, the registry's (none if its clock
-- panics), the storage's, and the breaker's at a failure.
pub record Readings : Type 0 where
  pub at_request : Instant
  pub clock : Option Instant
  pub at_access : Instant
  pub at_failure : Instant

unfoldable pub record_decision : LimitDecision → Metrics → Metrics
record_decision allowed metrics = record_allowed metrics
record_decision suppressed metrics = record_suppressed metrics

module _ (f : F64) {M : Type 0} (base : Instant) where
  -- What the closure does with the decision of the policy.
  unfoldable pub limit : PolicyDecision → EventState f M → Instant → EventState f M × LimitDecision
  limit allow state now = (state, allowed)
  limit suppress state now =
      (record state { counter = Summary.record_suppression base state.counter now }, suppressed)

  unfoldable pub decide : EventState f M → Instant → EventState f M × LimitDecision
  unfolding limit
  decide state now =
      let (policy, decision) = Policy.register_event f state.policy now in
      limit decision (record state { policy = policy }) now

  -- The closure of `check_event_with_metadata`.
  unfoldable pub decide_with_metadata :
      M → EventState f M → Instant → EventState f M × LimitDecision
  unfolding decide
  decide_with_metadata metadata state now = decide (set_metadata f base state metadata) now

  module _ {K : Type 0} (p : Storage K (EventState f M)) where
    -- The state and the decision after the operation, or after its panic.
    unfoldable pub settle :
        Outcome LimitDecision → CircuitBreaker → Instant → CircuitBreaker × LimitDecision
    settle (returned decision) breaker now = (record_success breaker, decision)
    settle unwound breaker now = (record_failure breaker now, allowed)

    unfoldable pub attempt :
        RateLimiter f M p
        → K
        → Readings
        → (EventState f M → Instant → EventState f M × LimitDecision)
        → Bool
        → RateLimiter f M p × LimitDecision
    unfolding settle record_decision
    attempt l signature readings closure false =
        (record l { metrics = record_allowed l.metrics }, allowed)
    attempt l signature readings closure true =
        let ((registry, metrics), outcome) =
          with_event_state f base p l.registry l.metrics signature readings.clock readings.at_access
            closure in
        let (breaker, decision) = settle outcome l.circuit_breaker readings.at_failure in
        (
          record {
            registry = registry;
            metrics = record_decision decision metrics;
            circuit_breaker = breaker;
          },
          decision,
        )

    unfoldable pub check :
        RateLimiter f M p
        → K
        → Readings
        → (EventState f M → Instant → EventState f M × LimitDecision)
        → RateLimiter f M p × LimitDecision
    unfolding attempt
    check l signature readings closure =
        let (breaker, granted) = allow_request l.circuit_breaker readings.at_request in
        attempt (record l { circuit_breaker = breaker }) signature readings closure granted

    unfoldable pub check_event :
        RateLimiter f M p → K → Readings → RateLimiter f M p × LimitDecision
    unfolding check decide
    check_event l signature readings = check l signature readings decide

    unfoldable pub check_event_with_metadata :
        RateLimiter f M p → K → M → Readings → RateLimiter f M p × LimitDecision
    unfolding check decide_with_metadata
    check_event_with_metadata l signature metadata readings =
        check l signature readings (decide_with_metadata metadata)
