-- ===== src/Policy/Reset.antt =====
-- domain/policy.rs: what `reset` brings back.
use tracing_throttle.Prelude.{◌≡◌, ◌∙◌, refl, ap, List, [], ◌∷◌, ℕ, ok, Instant, Duration, arith}
use tracing_throttle.Policy.Float.{F64}
use tracing_throttle.Policy.CountBased
use tracing_throttle.Policy.TimeWindow
use tracing_throttle.Policy.Backoff
use tracing_throttle.Policy.TokenBucket
use tracing_throttle.Policy.{
  Policy, count_based, time_window, exponential_backoff, token_bucket, new_count_based,
  new_time_window, new_exponential_backoff, new_token_bucket, register_event, reset, after,
}

module _ (f : F64) where
  -- A policy as one of the constructors of the program makes it.
  pub data IsNew (p : Policy f) : Type 0 where
    counting : (n : ℕ) → new_count_based f n ≡ ok p → IsNew p
    windowed : (n : ℕ) (d : Duration) → new_time_window f n d ≡ ok p → IsNew p
    backing_off : p ≡ new_exponential_backoff f → IsNew p
    filled : (c r : f.Float) → new_token_bucket f c r ≡ ok p → IsNew p

  reset-token_bucket :
      (p : TokenBucket.TokenBucketPolicy f) (t : Instant)
      → TokenBucket.reset f (TokenBucket.register_event f p t).0 ≡ TokenBucket.reset f p
  unfolding TokenBucket.reset TokenBucket.register_event TokenBucket.take_token TokenBucket.refill
  reset-token_bucket p t = ground arith

  reset-register_event : (p : Policy f) (t : Instant) → reset f (register_event f p t).0 ≡ reset f p
  unfolding reset register_event
  reset-register_event (count_based p) t = unfold CountBased.reset CountBased.register_event in refl
  reset-register_event (time_window p) t =
      unfold TimeWindow.reset TimeWindow.register_event in ground arith
  reset-register_event (exponential_backoff p) t =
      unfold Backoff.reset Backoff.register_event in ground arith
  reset-register_event (token_bucket p) t = ap token_bucket (reset-token_bucket p t)

  reset-after : (p : Policy f) (ts : List Instant) → reset f (after f p ts) ≡ reset f p
  unfolding after
  reset-after p [] = refl
  reset-after p (t ∷ ts) = reset-after (register_event f p t).0 ts ∙ reset-register_event p t

  reset-IsNew : (p : Policy f) → IsNew p → reset f p ≡ p
  unfolding reset
  reset-IsNew p (counting n e) =
      unfold new_count_based CountBased.new CountBased.reset in ground arith
  reset-IsNew p (windowed n d e) =
      unfold new_time_window TimeWindow.new TimeWindow.reset in ground arith
  reset-IsNew p (backing_off e) =
      unfold new_exponential_backoff Backoff.new Backoff.reset in ground arith
  reset-IsNew p (filled c r e) =
      unfold new_token_bucket TokenBucket.new TokenBucket.reset in ground arith

  -- Whatever events a policy has seen, `reset` brings back the policy that its constructor made.
  pub reset-after_new : (p : Policy f) (ts : List Instant) → IsNew p → reset f (after f p ts) ≡ p
  reset-after_new p ts h = reset-after p ts ∙ reset-IsNew p h
