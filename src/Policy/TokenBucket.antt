-- ===== src/Policy/TokenBucket.antt =====
-- domain/policy.rs, `TokenBucketPolicy`, over the operations of `f64`.
pub mod Bound
pub mod Burst
pub mod Nan
pub mod Serde
use tracing_throttle.Prelude.{
  ◌-◌, List, [], ◌∷◌, Option, none, some, ltb, if◌then◌else◌, Result, ok, err, Instant,
  saturating_duration_since,
}
use tracing_throttle.Policy.Decision.{
  PolicyError, PolicyDecision, zero_capacity, zero_refill_rate, allow, suppress,
}
use tracing_throttle.Policy.Float.{F64}

pub record TokenBucketPolicy (f : F64) : Type 0 where
  pub capacity : f.Float
  pub refill_rate : f.Float
  pub tokens : f.Float
  pub last_refill : Option Instant

module _ (f : F64) where
  open f use {Float, zero_f, one_f, leb_f, add_f, sub_f, mul_f, min_f, as_secs_f64}

  unfoldable pub new : Float → Float → Result PolicyError (TokenBucketPolicy f)
  new capacity refill_rate =
      if leb_f capacity zero_f
      then err zero_capacity
      else if leb_f refill_rate zero_f
      then err zero_refill_rate
      else ok (record {
        capacity = capacity;
        refill_rate = refill_rate;
        tokens = capacity;
        last_refill = none;
      })

  unfoldable pub refill : TokenBucketPolicy f → Instant → TokenBucketPolicy f
  refill p now = elim p.last_refill [
    | none ↦ record p { last_refill = some now }
    | some last ↦
        if ltb now last
        then record p { last_refill = some now }
        else let elapsed = as_secs_f64 (saturating_duration_since now last) in
          let new_tokens = mul_f elapsed p.refill_rate in
          record p { tokens = min_f (add_f p.tokens new_tokens) p.capacity; last_refill = some now }
  ]

  -- The part of `register_event` behind the refill.
  unfoldable pub take_token : TokenBucketPolicy f → TokenBucketPolicy f × PolicyDecision
  take_token p =
      if leb_f one_f p.tokens
      then (record p { tokens = sub_f p.tokens one_f }, allow)
      else (p, suppress)

  unfoldable pub register_event :
      TokenBucketPolicy f → Instant → TokenBucketPolicy f × PolicyDecision
  register_event p timestamp = take_token (refill p timestamp)

  unfoldable pub reset : TokenBucketPolicy f → TokenBucketPolicy f
  reset p = record p { tokens = p.capacity; last_refill = none }

  -- The decisions on a sequence of events, in order, and the policy after them.
  unfoldable pub decisions : TokenBucketPolicy f → List Instant → List PolicyDecision
  decisions p [] = []
  decisions p (t ∷ ts) = let (q, d) = register_event p t in d ∷ decisions q ts

  unfoldable pub after : TokenBucketPolicy f → List Instant → TokenBucketPolicy f
  after p [] = p
  after p (t ∷ ts) = after (register_event p t).0 ts
