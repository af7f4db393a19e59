-- ===== src/Tests/Policies.antt =====
-- The policies at concrete events.
use tracing_throttle.Prelude.{
  ◌+◌, ◌≤◌, ◌≡◌, ◌↔◌, refl, [], ◌∷◌, length, replicate, select, none, ok, arith,
}
use tracing_throttle.Policy.Decision.{allow, suppress}
use tracing_throttle.Policy.Quota.{quota}
use tracing_throttle.Policy.CountBased
use tracing_throttle.Policy.CountBased.{CountBasedPolicy}
use tracing_throttle.Policy.TimeWindow
use tracing_throttle.Policy.TimeWindow.{TimeWindowPolicy}
use tracing_throttle.Policy.TimeWindow.Spec.{sliding_window}
use tracing_throttle.Policy.TimeWindow.Refinement.{decisions-sliding_window}
use tracing_throttle.Policy.TimeWindow.Bound.{passed, between, passed-between-le}
use tracing_throttle.Policy.Backoff
use tracing_throttle.Policy.Backoff.{IsPowerOfTwo, allow-IsPowerOfTwo_iff}
use tracing_throttle.Policy.TokenBucket
use tracing_throttle.Policy.TokenBucket.{TokenBucketPolicy}
use tracing_throttle.Policy.TokenBucket.Bound.{IsBounded, after-IsBounded}
use tracing_throttle.Policy.TokenBucket.Burst.{new-burst}
use tracing_throttle.Policy.TokenBucket.Nan.{new-nan}
use tracing_throttle.Tests.Floats.{
  whole, whole_order, whole_exact, whole_nan, num, nan, leb_whole, is_num,
}

abbrev two_of : CountBasedPolicy
two_of = record { max_count = 2; current_count = 0 }

decisions-quota_example : CountBased.decisions two_of (10 ∷ 20 ∷ 30 ∷ []) ≡ quota 2 3
decisions-quota_example = CountBased.decisions-quota two_of (10 ∷ 20 ∷ 30 ∷ []) (omega arith)

abbrev one_per_second : TimeWindowPolicy
one_per_second = record { max_events = 1; window_duration = 1000000000; event_timestamps = [] }

decisions-sliding_window_example :
    TimeWindow.decisions one_per_second (10 ∷ 20 ∷ 2000000000 ∷ [])
    ≡ sliding_window 1 1000000000 [] (10 ∷ 20 ∷ 2000000000 ∷ [])
decisions-sliding_window_example =
    decisions-sliding_window one_per_second (10 ∷ 20 ∷ 2000000000 ∷ []) refl
      (omega arith, (omega arith, (omega arith, tt)))

passed-between-le_example :
    length (
      select (between 5 (5 + 1000000000)) (
        passed
          (TimeWindow.decisions one_per_second (10 ∷ 20 ∷ 2000000000 ∷ []))
          (10 ∷ 20 ∷ 2000000000 ∷ [])))
    ≤ 1
passed-between-le_example =
    passed-between-le one_per_second (10 ∷ 20 ∷ 2000000000 ∷ []) 5 refl
      (omega arith, (omega arith, (omega arith, tt)))

allow-IsPowerOfTwo_iff_example :
    ((Backoff.register_event (Backoff.after Backoff.new (1 ∷ 2 ∷ 3 ∷ [])) 4).1 ≡ allow)
    ↔ IsPowerOfTwo 4
allow-IsPowerOfTwo_iff_example = allow-IsPowerOfTwo_iff (1 ∷ 2 ∷ 3 ∷ []) 4 (omega arith)

abbrev bucket : TokenBucketPolicy whole
bucket = record { capacity = num 2; refill_rate = num 1; tokens = num 2; last_refill = none }

bucket-IsBounded : IsBounded whole bucket
unfolding leb_whole is_num
bucket-IsBounded = record {
  from_zero = refl;
  to_capacity = refl;
  capacity_number = refl;
  rate_nonneg = refl;
  rate_finite = refl;
}

after-IsBounded_example :
    IsBounded whole (TokenBucket.after whole bucket (10 ∷ 5 ∷ 3000000000 ∷ []))
after-IsBounded_example =
    after-IsBounded whole whole_order bucket (10 ∷ 5 ∷ 3000000000 ∷ []) bucket-IsBounded

new-burst_example : TokenBucket.decisions whole bucket (replicate 3 7) ≡ quota 2 3
unfolding leb_whole is_num whole_exact TokenBucket.new
new-burst_example = new-burst whole whole_exact 2 (num 1) bucket 7 3 (omega arith) refl refl

new-nan_example :
    (p : TokenBucketPolicy whole) × (TokenBucket.new whole nan (num 1) ≡ ok p)
    × (TokenBucket.decisions whole p (1 ∷ 2 ∷ []) ≡ replicate 2 suppress)
unfolding leb_whole whole_nan
new-nan_example = new-nan whole whole_nan (num 1) (1 ∷ 2 ∷ []) refl
