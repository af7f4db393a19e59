-- ===== src/Policy/TokenBucket/Nan.antt =====
-- What the checks of `TokenBucketPolicy::new` let through.
use tracing_throttle.Prelude.{
  ◌≡◌, refl, false, List, [], ◌∷◌, none, ◌-◌, Instant, arith, ok, length, replicate, Option-cases,
  inl, inr,
}
use tracing_throttle.Policy.Decision.{suppress}
use tracing_throttle.Policy.Float.{F64, NanLaws}
use tracing_throttle.Policy.TokenBucket.{
  TokenBucketPolicy, new, refill, take_token, register_event, decisions,
}

module _ (f : F64) (l : NanLaws f) where
  open l use {nan}

  -- A bucket of NaN tokens out of NaN.
  record IsStarved (p : TokenBucketPolicy f) : Type 0 where
    no_tokens : p.tokens ≡ nan
    no_capacity : p.capacity ≡ nan

  refill-IsStarved :
      (p : TokenBucketPolicy f) (t : Instant) → IsStarved p → IsStarved (refill f p t)
  unfolding refill
  refill-IsStarved p t v = elim (Option-cases p.last_refill) [
    | inl first ↦
        rw (first, refill) (record { no_tokens = v.no_tokens; no_capacity = v.no_capacity })
    | inr (last, again) ↦
        ground (arith, l.nan-add (f.mul_f (f.as_secs_f64 (t - last)) p.refill_rate), l.min-nan)
  ]

  register_event-IsStarved :
      (p : TokenBucketPolicy f) (t : Instant)
      → IsStarved p
      → register_event f p t ≡ (refill f p t, suppress)
  unfolding register_event take_token
  register_event-IsStarved p t v = ground (arith, refill-IsStarved p t v, l.leb-nan f.one_f)

  starved_decisions :
      (p : TokenBucketPolicy f) (ts : List Instant)
      → IsStarved p
      → decisions f p ts ≡ replicate (length ts) suppress
  unfolding decisions
  starved_decisions p [] v = refl
  starved_decisions p (t ∷ ts) v =
      rw (
        register_event-IsStarved p t v,
        starved_decisions (refill f p t) ts (refill-IsStarved p t v),
      )

  -- A capacity that is NaN passes the checks of the constructor, with any rate that does, and the
  -- bucket that results never lets an event pass.
  pub new-nan :
      (rate : f.Float) (ts : List Instant)
      → f.leb_f rate f.zero_f ≡ false
      → (p : TokenBucketPolicy f) × (new f nan rate ≡ ok p)
        × (decisions f p ts ≡ replicate (length ts) suppress)
  unfolding new
  new-nan rate ts positive = (
    bucket,
    rw (l.nan-leb f.zero_f, positive),
    starved_decisions bucket ts (record { no_tokens = refl; no_capacity = refl }),
  )
    where
      bucket : TokenBucketPolicy f
      bucket = record { capacity = nan; refill_rate = rate; tokens = nan; last_refill = none }
