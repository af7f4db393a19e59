-- ===== src/Tests/Checks.antt =====
-- Whole checks of two threads, over logs.
use native.Mathlib.Decide.{ℕ_discrete}
use tracing_throttle.Prelude.{
  ℕ, ◌+◌, ◌<◌, ◌≡◌, refl, List, [], ◌∷◌, map, arith, Run, Duo, left, right, settled, Duo-Run, none,
  total, weigh, true,
}
use tracing_throttle.Policy.{Policy, count_based}
use tracing_throttle.Breaker.{default_config, state, from_u8}
use tracing_throttle.Breaker.Threads.{Move as BreakerMove}
use tracing_throttle.Storage.{StorageEntry, is_some, new_entry}
use tracing_throttle.Storage.Map.{DashMap}
use tracing_throttle.Storage.Threads
use tracing_throttle.Storage.Threads.{
  Calls, Sampling, Move as StorageMove, enter_new, enter_old, with_table, stored,
}
use tracing_throttle.Storage.Threads.Atomic.{view}
use tracing_throttle.Storage.Threads.Sequential.{accesses, Keeps}
use tracing_throttle.Registry.{EventState}
use tracing_throttle.Limiter.{LimitDecision, allowed, suppressed}
use tracing_throttle.Limiter.Decisions.{of_policy, policy_decisions}
use tracing_throttle.Limiter.Threads.{Checked, policy_of, checks}
use tracing_throttle.Limiter.Threads.Checks.{
  CheckPc, CheckEffect, quiet, started, stepped, finished, Limiter, CheckMove, with_breaker,
  storage_steps, InCall, InSuccess,
}
use tracing_throttle.Limiter.Threads.Metered.{
  decided_count, starts, ends, ending, busy, same_decision, Run-count,
}
use tracing_throttle.Limiter.Threads.Whole.{decides, returns, pending, decisions-checks}
use tracing_throttle.Tests.Floats.{whole}
use tracing_throttle.Tests.Logs.{logged, logged-Laws, get}

abbrev store : DashMap ℕ (StorageEntry (EventState whole ℕ))
store = logged (StorageEntry (EventState whole ℕ))

abbrev one_each : Policy whole
one_each = count_based (record { max_count = 1; current_count = 0 })

abbrev checking : Calls ℕ (EventState whole ℕ) LimitDecision
checking = checks whole 0 one_each ℕ_discrete

abbrev anything : Sampling store
anything s cs = Unit

abbrev checked : Checked ℕ ℕ
checked = record { signature = 4; metadata = 0; time = 9 }

abbrev limiter : Limiter checking store anything
limiter = record {
  shared = record {
    storage = record {
      table = [];
      epoch = 0;
      has_metrics = true;
      eviction_policy = none;
      current_memory_bytes = 0;
    };
    metrics = record { events_allowed = 0; events_suppressed = 0; signatures_evicted = 0 };
  };
  breaker = record {
    state_byte = 0;
    consecutive_failures = 0;
    last_failure_time_nanos = 0;
    config = default_config;
    epoch = 0;
  };
}

abbrev decision : LimitDecision
decision = (checking.accessor checked (checking.fresh checked)).1

-- The first thread ends its check; the second one has got as far as the storage.
abbrev effects : List (CheckEffect checking)
effects =
    started checked
    ∷ started checked
    ∷ quiet
    ∷ stepped Threads.quiet
    ∷ quiet
    ∷ stepped Threads.quiet
    ∷ stepped (Threads.accessed checked decision)
    ∷ quiet
    ∷ quiet
    ∷ finished checked decision
    ∷ []

abbrev both :
    (t : Limiter checking store anything) × Duo
      (CheckMove checking store anything)
      limiter
      CheckPc.idle
      CheckPc.idle
      effects
      t
      CheckPc.idle
      (CheckPc.storing checked Threads.idle)
unfolding state from_u8 is_some get InCall InSuccess with_breaker enter_new enter_old with_table
    stored new_entry
both = (
  _,
  left (CheckMove.start checked) (
      right (CheckMove.start checked) (
        left (CheckMove.granted (BreakerMove.ask_closed refl)) (
          left (CheckMove.store (StorageMove.begin checked) refl) (
            right (CheckMove.granted (BreakerMove.ask_closed refl)) (
              left (CheckMove.store (StorageMove.unlimited refl) refl) (
                left (CheckMove.decided (StorageMove.access_new 5 refl)) (
                  left (CheckMove.success (BreakerMove.success_closed refl) tt) (
                    left (CheckMove.succeeded BreakerMove.clear)
                      (left CheckMove.finish settled))))))))),
)

abbrev ended :
    (at : ℕ → CheckPc checking) × (at 0 ≡ CheckPc.idle)
    × (at 1 ≡ CheckPc.storing checked Threads.idle)
    × Run
        (CheckMove checking store anything)
        2
        (record { shared = limiter; pc = λ i. CheckPc.idle })
        effects
        (record { shared = both.0; pc = at })
ended = Duo-Run (CheckMove checking store anything) both.1 (λ i. CheckPc.idle) refl refl

-- One check is returned, and none is still to be returned: the one under way has not decided yet.
abbrev weight : Checked ℕ ℕ → LimitDecision → ℕ
weight c d = 1

decisions-checks_example :
    (let entered = accesses ℕ_discrete checking 4 (storage_steps checking effects) in
      map (λ a. a.1) entered
      ≡ map of_policy (
          policy_decisions whole
            (policy_of whole 0 one_each (
              view ℕ_discrete checking store
                (logged-Laws (StorageEntry (EventState whole ℕ)))
                anything
                limiter.shared
                4))
            (map (λ c. c.time) (map (λ a. a.0) entered))))
    × (total (decides checking weight) effects
          + weigh (pending checking weight) 2 (λ i. CheckPc.idle)
        ≡ total (returns checking weight) effects + weigh (pending checking weight) 2 ended.0)
unfolding Keeps storage_steps
decisions-checks_example =
    decisions-checks whole 0 one_each ℕ_discrete store
      (logged-Laws (StorageEntry (EventState whole ℕ))) anything 4 weight ended.3
      (tt, (tt, (tt, tt)))

at_most_one : (d : LimitDecision) → same_decision allowed d < 2
unfolding same_decision
at_most_one allowed = omega arith
at_most_one suppressed = omega arith

Run-count_example :
    (decided_count checking store anything allowed both.0.shared
      ≡ decided_count checking store anything allowed limiter.shared
        + ends checking allowed effects)
    × (starts checking effects + weigh (busy checking) 2 (λ i. CheckPc.idle)
        ≡ ends checking allowed effects
          + ends checking suppressed effects
          + weigh (busy checking) 2 ended.0)
unfolding decided_count ends ending total same_decision
Run-count_example =
    Run-count checking store anything allowed ended.3 (omega (arith, at_most_one decision))
