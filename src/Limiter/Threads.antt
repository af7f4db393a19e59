-- ===== src/Limiter/Threads.antt =====
-- application/limiter.rs over infrastructure/storage.rs: calls of several threads.
pub mod Checks
pub mod Metered
pub mod Whole
use mathlib.Core.Option
use Prim.Native.Nat.{ℕ}
use tracing_throttle.Prelude.{
  System, Run, ◌≡◌, refl, ap, ◌∙◌, Option, none, some, Instant, List, [], ◌∷◌, map, All,
}
use tracing_throttle.Policy.Float.{F64}
use tracing_throttle.Policy
use tracing_throttle.Storage.Map.{DashMap, DashMapLaws}
use tracing_throttle.Storage.{StorageEntry}
use tracing_throttle.Storage.Threads.{Calls, Pc, Effect, Shared, Sampling, Move}
use tracing_throttle.Storage.Threads.Atomic.{view}
use tracing_throttle.Storage.Threads.Sequential.{accesses, Keeps, results, Run-InTurn, InTurn}
use tracing_throttle.Registry.{EventState, new}
use tracing_throttle.Limiter.{LimitDecision, decide_with_metadata}
use tracing_throttle.Limiter.Decisions.{of_policy, policy_decisions, decide_with_metadata-policy}

-- A call behind the breaker: the signature, the metadata and the reading of the registry's clock.
pub record Checked (K M : Type 0) : Type 0 where
  pub signature : K
  pub metadata : M
  pub time : Instant

module _ {M : Type 0} (f : F64) (base : Instant) (default_policy : Policy.Policy f) where
  -- The policy of a signature, the default one at first.
  unfoldable pub policy_of : Option (EventState f M) → Policy.Policy f
  policy_of none = default_policy
  policy_of (some state) = state.policy

  fresh-policy :
      (o : Option (EventState f M)) (now : Instant)
      → (Option.get_or o (new f base default_policy now)).policy ≡ policy_of o
  unfolding policy_of new
  fresh-policy none now = refl
  fresh-policy (some state) now = refl

  module _ {K : Type 0} (dec : Discrete K) where
    abbrev pub checks : Calls K (EventState f M) LimitDecision
    checks = record {
      Call = Checked K M;
      key = λ c. c.signature;
      fresh = λ c. new f base default_policy c.time;
      accessor = λ c state. decide_with_metadata f base c.metadata state c.time;
    }

    pub results-policy :
        (o : Option (EventState f M)) (cs : List (Checked K M))
        → results dec checks o cs
          ≡ map of_policy (policy_decisions f (policy_of o) (map (λ c. c.time) cs))
    unfolding results policy_decisions policy_of
    results-policy o [] = refl
    results-policy o (c ∷ cs) =
        let state = Option.get_or o (new f base default_policy c.time) in
        let (policy, decision) = decide_with_metadata-policy f base c.metadata state c.time in
        let start = fresh-policy o c.time in
        let next = (decide_with_metadata f base c.metadata state c.time).0 in
        let rest =
          results-policy (some next) cs
          ∙ ap (λ q. map of_policy (policy_decisions f q (map (λ c. c.time) cs)))
              (policy ∙ ap (λ q. (Policy.register_event f q c.time).0) start) in
        ap (λ d. d ∷ results dec checks (some next) cs)
          (decision ∙ ap (λ q. of_policy (Policy.register_event f q c.time).1) start)
        ∙ ap (λ ds. of_policy (Policy.register_event f (policy_of o) c.time).1 ∷ ds) rest

    module _ (m : DashMap K (StorageEntry (EventState f M))) (l : DashMapLaws dec m)
        (Sample : Sampling m) where
      -- However the checks of several threads interleave: the decisions on the events of a
      -- signature that no eviction removes meanwhile are, in the order in which the threads enter
      -- its state, those of its policy, the default one if the signature is new, at the readings
      -- that the calls made of the registry's clock.
      pub decisions-threads :
          {n : ℕ} {s t : System (Shared m) (Pc checks)} {es : List (Effect checks)} (k : K)
          → Run (Move checks m Sample) n s es t
          → All (Keeps dec checks k) es
          → map (λ a. a.1) (accesses dec checks k es)
            ≡ map of_policy (
                policy_decisions f
                  (policy_of (view dec checks m l Sample s.shared k))
                  (map (λ c. c.time) (map (λ a. a.0) (accesses dec checks k es))))
      unfolding InTurn
      decisions-threads {s} {es} k run keeps =
          (Run-InTurn dec checks m l Sample k run keeps).0
          ∙ results-policy (view dec checks m l Sample s.shared k)
              (map (λ a. a.0) (accesses dec checks k es))
