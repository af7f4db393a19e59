-- ===== src/Policy/TokenBucket/Bound.antt =====
-- The tokens of a bucket stay between 0 and its capacity.
use tracing_throttle.Prelude.{
  ◌≡◌, true, List, [], ◌∷◌, Instant, Duration, ◌-◌, arith, Option-cases, inl, inr,
}
use tracing_throttle.Policy.Float.{F64, OrderLaws}
use tracing_throttle.Policy.TokenBucket.{
  TokenBucketPolicy, refill, take_token, register_event, after,
}

pub record IsBounded (f : F64) (p : TokenBucketPolicy f) : Type 0 where
  pub from_zero : f.leb_f f.zero_f p.tokens ≡ true
  pub to_capacity : f.leb_f p.tokens p.capacity ≡ true
  pub capacity_number : f.leb_f p.capacity p.capacity ≡ true
  pub rate_nonneg : f.leb_f f.zero_f p.refill_rate ≡ true
  pub rate_finite : f.is_finite p.refill_rate ≡ true

module _ (f : F64) (l : OrderLaws f) where
  -- The tokens after `d` nanoseconds of refilling.
  refilled-bounds :
      (p : TokenBucketPolicy f) (d : Duration)
      → IsBounded f p
      → let filled =
          f.min_f (f.add_f p.tokens (f.mul_f (f.as_secs_f64 d) p.refill_rate)) p.capacity in
        (f.leb_f f.zero_f filled ≡ true) × (f.leb_f filled p.capacity ≡ true)
  refilled-bounds p d v = (
    l.zero-leb-min _ _
        (l.zero-leb-add _ _ v.from_zero
          (l.zero-leb-mul d p.refill_rate v.rate_finite v.rate_nonneg))
        (l.leb-trans _ p.tokens _ v.from_zero v.to_capacity),
    l.min-leb _ _ v.capacity_number,
  )

  refill-IsBounded :
      (p : TokenBucketPolicy f) (now : Instant) → IsBounded f p → IsBounded f (refill f p now)
  unfolding refill
  refill-IsBounded p now v = elim (Option-cases p.last_refill) [
    | inl first ↦
        rw (first, refill)
          (record {
            from_zero = v.from_zero;
            to_capacity = v.to_capacity;
            capacity_number = v.capacity_number;
            rate_nonneg = v.rate_nonneg;
            rate_finite = v.rate_finite;
          })
    | inr (last, again) ↦ let (low, high) = refilled-bounds p (now - last) v in ground arith
  ]

  take_token-IsBounded : (p : TokenBucketPolicy f) → IsBounded f p → IsBounded f (take_token f p).0
  unfolding take_token
  take_token-IsBounded p v = ground (
    arith,
    l.zero-leb-sub_one p.tokens,
    l.sub_one-leb p.tokens,
    l.leb-trans (f.sub_f p.tokens f.one_f) p.tokens p.capacity,
  )

  register_event-IsBounded :
      (p : TokenBucketPolicy f) (t : Instant) → IsBounded f p → IsBounded f (register_event f p t).0
  register_event-IsBounded p t v =
      unfold register_event in take_token-IsBounded (refill f p t) (refill-IsBounded p t v)

  -- Of a bucket whose tokens lie between 0 and its capacity, and whose rate is finite and not
  -- negative, no sequence of events, in whatever order of time, brings the tokens out of that range.
  pub after-IsBounded :
      (p : TokenBucketPolicy f) (ts : List Instant) → IsBounded f p → IsBounded f (after f p ts)
  unfolding after
  after-IsBounded p [] v = v
  after-IsBounded p (t ∷ ts) v =
      after-IsBounded (register_event f p t).0 ts (register_event-IsBounded p t v)
