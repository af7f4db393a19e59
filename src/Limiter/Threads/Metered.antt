-- ===== src/Limiter/Threads/Metered.antt =====
-- application/limiter.rs: what the metrics count over checks of several threads.
use Prim.Native.Nat.{ℕ}
use tracing_throttle.Prelude.{
  ◌+◌, ◌<◌, ◌≡◌, refl, List, [], ◌∷◌, arith, u64_mod, System, Run, stop, first, pick, total, weigh,
  Run-weigh,
}
use tracing_throttle.Metrics.{record_allowed, record_suppressed, record_eviction}
use tracing_throttle.Storage.Map.{DashMap}
use tracing_throttle.Storage.{StorageEntry}
use tracing_throttle.Storage.Threads.{
  Calls, Shared, Sampling, Pc as StoragePc, Effect as StorageEffect, Move as StorageMove,
  with_table, enter_old, enter_new, stored,
}
use tracing_throttle.Limiter.{LimitDecision, allowed, suppressed, record_decision}
use tracing_throttle.Limiter.Threads.Checks.{
  CheckPc, CheckEffect, started, finished, Limiter, CheckMove, with_breaker, recorded,
}

-- 1 for the same decision, or else 0.
unfoldable pub same_decision : LimitDecision → LimitDecision → ℕ
same_decision allowed allowed = 1
same_decision suppressed suppressed = 1
same_decision allowed suppressed = 0
same_decision suppressed allowed = 0

module _ {K V : Type 0} (calls : Calls K V LimitDecision) where
  -- 1 where a check starts, or where it ends with a decision.
  unfoldable pub starting : CheckEffect calls → ℕ
  starting (started c) = 1
  starting _ = 0

  unfoldable pub ending : LimitDecision → CheckEffect calls → ℕ
  ending d (finished c e) = same_decision d e
  ending d _ = 0

  -- How many checks started, how many ended with a decision, and whether a thread is in a check.
  unfoldable pub starts : List (CheckEffect calls) → ℕ
  starts es = total starting es

  unfoldable pub ends : LimitDecision → List (CheckEffect calls) → ℕ
  ends d es = total (ending d) es

  unfoldable pub busy : CheckPc calls → ℕ
  busy CheckPc.idle = 0
  busy _ = 1

  module _ (m : DashMap K (StorageEntry V)) (Sample : Sampling m) where
    -- The metrics' counts of decisions.
    unfoldable pub decided_count : LimitDecision → Shared m → ℕ
    decided_count allowed s = s.metrics.events_allowed
    decided_count suppressed s = s.metrics.events_suppressed

    StorageMove-count :
        (d : LimitDecision) {s t : Shared m} {p q : StoragePc calls} {e : StorageEffect calls}
        → StorageMove calls m Sample s p e t q
        → decided_count d t ≡ decided_count d s
    unfolding decided_count with_table enter_old enter_new stored record_eviction
    StorageMove-count allowed {s} StorageMove.count = ground arith
    StorageMove-count suppressed {s} StorageMove.count = ground arith
    StorageMove-count allowed mv = refl
    StorageMove-count suppressed mv = refl

    recorded-count :
        (d c : LimitDecision) (s : Limiter calls m Sample)
        → decided_count d s.shared + same_decision d c < u64_mod
        → decided_count d (recorded calls m Sample s c).shared
          ≡ decided_count d s.shared + same_decision d c
    unfolding decided_count recorded record_decision record_allowed record_suppressed same_decision
    recorded-count allowed allowed s small = omega arith
    recorded-count allowed suppressed s small = omega arith
    recorded-count suppressed allowed s small = omega arith
    recorded-count suppressed suppressed s small = omega arith

    CheckMove-count :
        (d : LimitDecision) {s t : Limiter calls m Sample} {p q : CheckPc calls}
        {e : CheckEffect calls}
        → CheckMove calls m Sample s p e t q
        → decided_count d s.shared + ending d e < u64_mod
        → decided_count d t.shared ≡ decided_count d s.shared + ending d e
    unfolding ending with_breaker
    CheckMove-count d (CheckMove.store mv h) small = omega (arith, StorageMove-count d mv)
    CheckMove-count d (CheckMove.decided mv) small = omega (arith, StorageMove-count d mv)
    CheckMove-count d (CheckMove.panicked mv) small = omega (arith, StorageMove-count d mv)
    CheckMove-count d {s} (CheckMove.finish {decision}) small =
        omega (arith, recorded-count d decision s (omega arith))
    CheckMove-count d mv small = omega arith

    counted-Run :
        (d : LimitDecision) {n : ℕ} {s t : System (Limiter calls m Sample) (CheckPc calls)}
        {es : List (CheckEffect calls)}
        → Run (CheckMove calls m Sample) n s es t
        → decided_count d s.shared.shared + ends d es < u64_mod
        → decided_count d t.shared.shared ≡ decided_count d s.shared.shared + ends d es
    unfolding ends total
    counted-Run d stop small = omega arith
    counted-Run d (first {e} {es} (pick i lt mv) run) small =
        let now = CheckMove-count d mv (omega arith) in
        let later = counted-Run d run (omega arith) in omega arith

    CheckMove-busy :
        (s t : Limiter calls m Sample) (p q : CheckPc calls) (e : CheckEffect calls)
        → CheckMove calls m Sample s p e t q
        → starting e + busy p ≡ ending allowed e + ending suppressed e + busy q
    unfolding starting ending busy same_decision
    CheckMove-busy s t p q e (CheckMove.finish {decision}) =
        elim decision as (λ d. 1 ≡ same_decision allowed d + same_decision suppressed d + 0) [
          | allowed ↦ refl
          | suppressed ↦ refl
        ]
    CheckMove-busy s t p q e mv = refl

    ends-both :
        (es : List (CheckEffect calls))
        → total (λ e. ending allowed e + ending suppressed e) es
          ≡ ends allowed es + ends suppressed es
    unfolding ends total
    ends-both [] = refl
    ends-both (e ∷ es) = let rest = ends-both es in omega arith

    -- However whole checks of several threads interleave: the metrics count each check that has
    -- ended once, under the decision that it returned, unless they wrap; and the checks that have
    -- started, with those under way before, are those that have ended, with those still under way.
    pub Run-count :
        (d : LimitDecision) {n : ℕ} {s t : System (Limiter calls m Sample) (CheckPc calls)}
        {es : List (CheckEffect calls)}
        → Run (CheckMove calls m Sample) n s es t
        → decided_count d s.shared.shared + ends d es < u64_mod
        → (decided_count d t.shared.shared ≡ decided_count d s.shared.shared + ends d es)
          × (starts es + weigh busy n s.pc
              ≡ ends allowed es + ends suppressed es + weigh busy n t.pc)
    unfolding starts
    Run-count d {es} run small =
        let balance =
          Run-weigh (CheckMove calls m Sample) busy starting
            (λ e. ending allowed e + ending suppressed e) CheckMove-busy run in
        (counted-Run d run small, omega (arith, ends-both es))
