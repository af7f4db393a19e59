-- ===== src/Policy.antt =====
-- domain/policy.rs: the enumeration of the policies, over the operations of `f64`.
pub mod Decision
pub mod Decoding
pub mod Quota
pub mod CountBased
pub mod TimeWindow
pub mod Backoff
pub mod Float
pub mod TokenBucket
pub mod Reset
use tracing_throttle.Prelude.{Result, ok, err, ◌>>=◌, ℕ, Instant, Duration, List, [], ◌∷◌}
use Decision.{PolicyError, PolicyDecision}
use CountBased.{CountBasedPolicy}
use TimeWindow.{TimeWindowPolicy}
use Backoff.{ExponentialBackoffPolicy}
use TokenBucket.{TokenBucketPolicy}
use Float.{F64}

pub data Policy (f : F64) : Type 0 where
  count_based : CountBasedPolicy → Policy f
  time_window : TimeWindowPolicy → Policy f
  exponential_backoff : ExponentialBackoffPolicy → Policy f
  token_bucket : TokenBucketPolicy f → Policy f

module _ (f : F64) where
  open f use {Float}

  unfoldable pub new_count_based : ℕ → Result PolicyError (Policy f)
  new_count_based max_count = do p ← CountBased.new max_count; ok (count_based p)

  unfoldable pub new_time_window : ℕ → Duration → Result PolicyError (Policy f)
  new_time_window max_events window = do p ← TimeWindow.new max_events window; ok (time_window p)

  unfoldable pub new_exponential_backoff : Policy f
  new_exponential_backoff = exponential_backoff Backoff.new

  unfoldable pub new_token_bucket : Float → Float → Result PolicyError (Policy f)
  new_token_bucket capacity refill_rate = do
    p ← TokenBucket.new f capacity refill_rate
    ok (token_bucket p)

  unfoldable pub register_event : Policy f → Instant → Policy f × PolicyDecision
  register_event (count_based p) t =
      let (q, d) = CountBased.register_event p t in (count_based q, d)
  register_event (time_window p) t =
      let (q, d) = TimeWindow.register_event p t in (time_window q, d)
  register_event (exponential_backoff p) t =
      let (q, d) = Backoff.register_event p t in (exponential_backoff q, d)
  register_event (token_bucket p) t =
      let (q, d) = TokenBucket.register_event f p t in (token_bucket q, d)

  unfoldable pub reset : Policy f → Policy f
  reset (count_based p) = count_based (CountBased.reset p)
  reset (time_window p) = time_window (TimeWindow.reset p)
  reset (exponential_backoff p) = exponential_backoff (Backoff.reset p)
  reset (token_bucket p) = token_bucket (TokenBucket.reset f p)

  -- The policy after a sequence of events.
  unfoldable pub after : Policy f → List Instant → Policy f
  after p [] = p
  after p (t ∷ ts) = after (register_event p t).0 ts
