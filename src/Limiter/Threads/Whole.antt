-- ===== src/Limiter/Threads/Whole.antt =====
-- application/limiter.rs: the decisions of whole checks of several threads.
use Prim.Native.Nat.{ℕ}
use tracing_throttle.Prelude.{
  ◌≡◌, refl, ◌∙◌, Option, List, ◌∷◌, map, All, Instant, System, Run, stop, first, pick, total,
  weigh, Run-weigh, arith, ◌+◌,
}
use tracing_throttle.Policy.Float.{F64}
use tracing_throttle.Policy
use tracing_throttle.Storage.Map.{DashMap, DashMapLaws}
use tracing_throttle.Storage.{StorageEntry}
use tracing_throttle.Storage.Threads.{
  Calls, Shared, Sampling, Pc as StoragePc, Effect as StorageEffect, Move as StorageMove,
}
use tracing_throttle.Storage.Threads.Atomic.{view, Move-apply}
use tracing_throttle.Storage.Threads.Sequential.{
  accesses, Keeps, InTurn, cons-InTurn, results, left,
}
use tracing_throttle.Registry.{EventState}
use tracing_throttle.Limiter.{LimitDecision, allowed}
use tracing_throttle.Limiter.Decisions.{of_policy, policy_decisions}
use tracing_throttle.Limiter.Threads.{Checked, policy_of, checks, results-policy}
use tracing_throttle.Limiter.Threads.Checks.{
  CheckPc, CheckEffect, quiet, started, stepped, passed, finished, Limiter, CheckMove, with_breaker,
  recorded, storage_steps, InCall,
}

module _ {K V : Type 0} (dec : Discrete K) (calls : Calls K V LimitDecision)
    (m : DashMap K (StorageEntry V)) (l : DashMapLaws dec m) (Sample : Sampling m) where
  stored-InTurn :
      (k : K) {s t : Shared m} {p q : StoragePc calls} (e : StorageEffect calls)
      (es : List (StorageEffect calls)) (after : Option V)
      → StorageMove calls m Sample s p e t q
      → All (Keeps dec calls k) (e ∷ es)
      → InTurn dec calls k (view dec calls m l Sample t k) after es
      → InTurn dec calls k (view dec calls m l Sample s k) after (e ∷ es)
  stored-InTurn k e es after mv keeps ih =
      let (same, answers) = Move-apply dec calls m l Sample mv in
      cons-InTurn dec calls k e es _ _ after same answers keeps.0 ih

  -- A step of the storage, or one that leaves it.
  step-InTurn :
      (k : K) {s t : Limiter calls m Sample} {p q : CheckPc calls} {e : CheckEffect calls}
      (es : List (CheckEffect calls)) (after : Option V)
      → CheckMove calls m Sample s p e t q
      → All (Keeps dec calls k) (storage_steps calls (e ∷ es))
      → InTurn dec calls k (view dec calls m l Sample t.shared k) after (storage_steps calls es)
      → InTurn dec calls k
          (view dec calls m l Sample s.shared k)
          after
          (storage_steps calls (e ∷ es))
  unfolding storage_steps with_breaker recorded view InTurn accesses Keeps
  step-InTurn k es after (CheckMove.store {e} mv h) keeps ih =
      stored-InTurn k e (storage_steps calls es) after mv keeps ih
  step-InTurn k es after (CheckMove.decided mv) keeps ih =
      stored-InTurn k _ (storage_steps calls es) after mv keeps ih
  step-InTurn k es after (CheckMove.panicked mv) keeps ih =
      stored-InTurn k _ (storage_steps calls es) after mv (tt, keeps) ih
  step-InTurn k es after mv keeps ih = ih

  steps-Keeps :
      (k : K) (e : CheckEffect calls) (es : List (CheckEffect calls))
      → All (Keeps dec calls k) (storage_steps calls (e ∷ es))
      → All (Keeps dec calls k) (storage_steps calls es)
  unfolding storage_steps
  steps-Keeps k quiet es keeps = keeps
  steps-Keeps k (stepped e) es keeps = keeps.1
  steps-Keeps k (started c) es keeps = keeps
  steps-Keeps k (passed c) es keeps = keeps
  steps-Keeps k (finished c d) es keeps = keeps

  whole-InTurn :
      {n : ℕ} {s t : System (Limiter calls m Sample) (CheckPc calls)}
      {es : List (CheckEffect calls)} (k : K)
      → Run (CheckMove calls m Sample) n s es t
      → All (Keeps dec calls k) (storage_steps calls es)
      → InTurn dec calls k
          (view dec calls m l Sample s.shared.shared k)
          (view dec calls m l Sample t.shared.shared k)
          (storage_steps calls es)
  unfolding storage_steps InTurn accesses results left
  whole-InTurn k stop keeps = (refl, refl)
  whole-InTurn k (first {e} {es} (pick i lt mv) run) keeps =
      step-InTurn k es _ mv keeps (whole-InTurn k run (steps-Keeps k e es keeps))

module _ {K V : Type 0} (calls : Calls K V LimitDecision) (w : calls.Call → LimitDecision → ℕ) where
  -- What a step adds to the decisions that checks are to return: that of the accessor, or to allow
  -- the event where the breaker denies the request or the access panics.
  unfoldable pub decides : CheckEffect calls → ℕ
  decides (stepped (StorageEffect.accessed c d)) = w c d
  decides (passed c) = w c allowed
  decides _ = 0

  -- What a step adds to the decisions that checks have returned.
  unfoldable pub returns : CheckEffect calls → ℕ
  returns (finished c d) = w c d
  returns _ = 0

  -- The decision that a thread has not returned yet.
  unfoldable pub pending : CheckPc calls → ℕ
  pending (CheckPc.succeeding c d pc) = w c d
  pending (CheckPc.failing c pc) = w c allowed
  pending (CheckPc.recording c d) = w c d
  pending _ = 0

  module _ (m : DashMap K (StorageEntry V)) (Sample : Sampling m) where
    StorageMove-inside :
        (c : calls.Call) {s t : Shared m} {p q : StoragePc calls} {e : StorageEffect calls}
        → StorageMove calls m Sample s p e t q
        → InCall calls c q
        → decides (stepped e) ≡ 0
    unfolding decides InCall
    StorageMove-inside c (StorageMove.access_old entry now e) h = elim h [ ]
    StorageMove-inside c (StorageMove.access_new now e) h = elim h [ ]
    StorageMove-inside c mv h = refl

    CheckMove-returns :
        (s t : Limiter calls m Sample) (p q : CheckPc calls) (e : CheckEffect calls)
        → CheckMove calls m Sample s p e t q
        → decides e + pending p ≡ returns e + pending q
    unfolding decides returns pending
    CheckMove-returns s t p q e (CheckMove.store {c} mv h) =
        omega (arith, StorageMove-inside c mv h)
    CheckMove-returns s t p q e (CheckMove.decided mv) = omega arith
    CheckMove-returns s t p q e (CheckMove.denied mv) = omega arith
    CheckMove-returns s t p q e (CheckMove.panicked mv) = omega arith
    CheckMove-returns s t p q e CheckMove.finish = omega arith
    CheckMove-returns s t p q e mv = refl

module _ {K M : Type 0} (f : F64) (base : Instant) (default_policy : Policy.Policy f)
    (dec : Discrete K) (m : DashMap K (StorageEntry (EventState f M))) (l : DashMapLaws dec m)
    (Sample : Sampling m) where
  -- However whole checks of several threads interleave, with the breaker, the storage and the
  -- metrics: the decisions on the events of a signature that no eviction removes meanwhile are, in
  -- the order in which the checks that the breaker grants enter its state, those of its policy,
  -- the default one if the signature is new, at the readings that the checks made of the
  -- registry's clock. And what the checks return, with what is still to be returned at the end, is
  -- what was to be returned before, with a decision to allow the event for each check that the
  -- breaker denies or whose access panics, and for each other check the decision of its access:
  -- whatever weight is given to a check with its decision, the sums are the same.
  pub decisions-checks :
      {n : ℕ}
      {s t : System
        (Limiter (checks f base default_policy dec) m Sample)
        (CheckPc (checks f base default_policy dec))}
      {es : List (CheckEffect (checks f base default_policy dec))} (k : K)
      (w : Checked K M → LimitDecision → ℕ)
      → Run (CheckMove (checks f base default_policy dec) m Sample) n s es t
      → All
          (Keeps dec (checks f base default_policy dec) k)
          (storage_steps (checks f base default_policy dec) es)
      → let calls = checks f base default_policy dec in
        let entered = accesses dec calls k (storage_steps calls es) in
        (map (λ a. a.1) entered
          ≡ map of_policy (
              policy_decisions f
                (policy_of f base default_policy (view dec calls m l Sample s.shared.shared k))
                (map (λ c. c.time) (map (λ a. a.0) entered))))
        × (total (decides calls w) es + weigh (pending calls w) n s.pc
            ≡ total (returns calls w) es + weigh (pending calls w) n t.pc)
  unfolding InTurn
  decisions-checks {s} {es} k w run keeps =
      let calls = checks f base default_policy dec in
      (
        (whole-InTurn dec calls m l Sample k run keeps).0
            ∙ results-policy f base default_policy dec (view dec calls m l Sample s.shared.shared k)
                (map (λ a. a.0) (accesses dec calls k (storage_steps calls es))),
        Run-weigh (CheckMove calls m Sample) (pending calls w) (decides calls w) (returns calls w)
            (CheckMove-returns calls w m Sample) run,
      )
