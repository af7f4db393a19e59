-- ===== src/Limiter/Decisions.antt =====
-- application/limiter.rs: the closures of the checks decide as the policy does.
use tracing_throttle.Prelude.{◌≡◌, refl, Instant, List, [], ◌∷◌}
use tracing_throttle.Policy.Float.{F64}
use tracing_throttle.Policy
use tracing_throttle.Policy.Decision.{PolicyDecision, allow, suppress}
use tracing_throttle.Registry.{EventState, set_metadata}
use tracing_throttle.Limiter.{
  LimitDecision, allowed, suppressed, limit, decide, decide_with_metadata,
}

unfoldable pub of_policy : PolicyDecision → LimitDecision
of_policy allow = allowed
of_policy suppress = suppressed

module _ (f : F64) where
  -- The decisions of a policy on events at the given times.
  unfoldable pub policy_decisions : Policy.Policy f → List Instant → List PolicyDecision
  policy_decisions policy [] = []
  policy_decisions policy (t ∷ ts) =
      let (policy', d) = Policy.register_event f policy t in d ∷ policy_decisions policy' ts

  limit-policy :
      {M : Type 0} (base : Instant) (d : PolicyDecision) (state : EventState f M) (now : Instant)
      → ((limit f base d state now).0.policy ≡ state.policy)
        × ((limit f base d state now).1 ≡ of_policy d)
  unfolding limit of_policy
  limit-policy base allow state now = (refl, refl)
  limit-policy base suppress state now = (refl, refl)

  -- The closure of `check_event` decides as the policy does.
  pub decide-policy :
      {M : Type 0} (base : Instant) (state : EventState f M) (now : Instant)
      → let (policy, d) = Policy.register_event f state.policy now in
        ((decide f base state now).0.policy ≡ policy) × ((decide f base state now).1 ≡ of_policy d)
  unfolding decide
  decide-policy base state now =
      let (policy, d) = Policy.register_event f state.policy now in
      limit-policy base d (record state { policy = policy }) now

  pub decide_with_metadata-policy :
      {M : Type 0} (base : Instant) (metadata : M) (state : EventState f M) (now : Instant)
      → let (policy, d) = Policy.register_event f state.policy now in
        ((decide_with_metadata f base metadata state now).0.policy ≡ policy)
        × ((decide_with_metadata f base metadata state now).1 ≡ of_policy d)
  unfolding decide_with_metadata set_metadata
  decide_with_metadata-policy base metadata state now =
      decide-policy base (set_metadata f base state metadata) now
