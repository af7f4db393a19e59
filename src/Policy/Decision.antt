-- ===== src/Policy/Decision.antt =====
-- domain/policy.rs: the decision of a policy and the errors of its constructors.
use tracing_throttle.Prelude.{Bool, true, false}

pub data PolicyError : Type 0 where
  zero_max_count zero_max_events zero_window_duration zero_capacity zero_refill_rate : PolicyError

pub data PolicyDecision : Type 0 where
  allow suppress : PolicyDecision

pub is_allow : PolicyDecision → Bool
is_allow allow = true
is_allow suppress = false

pub is_suppress : PolicyDecision → Bool
is_suppress allow = false
is_suppress suppress = true
