-- ===== src/Tests/Emitters.antt =====
-- The emitter on two entries; the base instant of the counters is 0.
use tracing_throttle.Prelude.{
  ℕ, zero, suc, ◌+◌, ◌<◌, ◌≡◌, refl, List, [], ◌∷◌, true, none, false, arith, Instant,
}
use tracing_throttle.Policy.{count_based}
use tracing_throttle.Summary.{SuppressionCounter}
use tracing_throttle.Summary.Claims.{IsValid}
use tracing_throttle.Registry.{EventState}
use tracing_throttle.Emitter.{default_config, collect_claimed_summaries, emit_claimed_summaries}
use tracing_throttle.Emitter.Rollback.{meanwhile, Distinct, Sound, emit_claimed_summaries-collect}
use tracing_throttle.Emitter.Conservation.{reported, unreported}
use tracing_throttle.Emitter.Task.{Poll, stops, history, task, task-stops}
use tracing_throttle.Emitter.Task.Recorded.{recordings}
use tracing_throttle.Emitter.Task.Reported.{task-reported}
use tracing_throttle.Tests.Floats.{whole}
use tracing_throttle.Tests.Maps.{Key, login, logout, Key-discrete}

-- A counter of `n` suppressions, of which one was reported.
abbrev counter : ℕ → SuppressionCounter
counter n = record {
  suppressed_count = n;
  reported_count = 1;
  first_suppressed_nanos = 10;
  last_suppressed_nanos = 30;
  last_reported_nanos = 10;
  first_unreported_nanos = 20;
}

abbrev state_of : ℕ → EventState whole ℕ
state_of n = record {
  policy = count_based (record { max_count = 1; current_count = 5 });
  counter = counter n;
  metadata = none;
}

abbrev entries : List (Key × EventState whole ℕ)
entries = (login, state_of 3) ∷ (logout, state_of 1) ∷ []

counter-IsValid : (n : ℕ) → 1 < n + 1 → n < 10 → IsValid (counter n)
counter-IsValid n h h' = record {
  reported_le = omega arith;
  count_fits = omega arith;
  last_reported_fits = omega arith;
  last_suppressed_fits = omega arith;
  first_unreported_fits = omega arith;
}

entries-Distinct : Distinct whole 0 entries
unfolding Distinct
entries-Distinct = (((λ e. cc), tt), (tt, tt))

abbrev one_more : Key → List Instant
one_more k = 40 ∷ []

entries-Sound : Sound whole 0 one_more entries
unfolding Sound
entries-Sound = (
  (counter-IsValid 3 (omega arith) (omega arith), omega arith),
  ((counter-IsValid 1 (omega arith) (omega arith), omega arith), tt),
)

emit_claimed_summaries-collect_example :
    let (batch, entries') = collect_claimed_summaries whole 0 default_config entries in
    (emit_claimed_summaries whole 0 Key-discrete batch
      (λ ss. false)
      (meanwhile whole 0 one_more entries')).0
    ≡ meanwhile whole 0 one_more entries
emit_claimed_summaries-collect_example =
    emit_claimed_summaries-collect whole 0 Key-discrete (omega arith) default_config one_more
      entries (λ ss. false) entries-Distinct entries-Sound refl

-- A poll on which nothing is ready.
abbrev waiting : Poll Key ℕ
waiting = record {
  changed = false;
  shutdown = false;
  ticked = false;
  emit_fn = λ ss. true;
  before = one_more;
  during = λ k. [];
}

abbrev stopping : Poll Key ℕ
stopping = record waiting { changed = true; shutdown = true }

-- A tick, at which `emit_fn` panics while suppressions are recorded, and later a shutdown.
abbrev polls : ℕ → Poll Key ℕ
polls zero = record waiting { ticked = true; emit_fn = λ ss. false; during = one_more }
polls (suc zero) = waiting
polls (suc (suc n)) = stopping

history-Sound : Sound whole 0 (history 5 polls) entries
unfolding Sound history stops
history-Sound = (
  (counter-IsValid 3 (omega arith) (omega arith), omega arith),
  ((counter-IsValid 1 (omega arith) (omega arith), omega arith), tt),
)

task-reported_example :
    let p = task whole 0 Key-discrete default_config true 5 polls entries in
    reported p.emitted + unreported whole 0 p.entries
    ≡ unreported whole 0 entries + recordings whole 0 (history 5 polls) entries
task-reported_example =
    task-reported whole 0 Key-discrete default_config (omega arith) true 5 polls entries
      entries-Distinct history-Sound

task-stops_example :
    ((task whole 0 Key-discrete default_config true 5 polls entries).ended ≡ true)
    × (task whole 0 Key-discrete default_config true 5 polls entries
        ≡ task whole 0 Key-discrete default_config true 3 polls entries)
unfolding stops
task-stops_example =
    task-stops whole 0 Key-discrete default_config true 2 5 polls entries (omega arith) refl
