-- ===== src/Policy/TokenBucket/Burst.antt =====
-- A full bucket lets a burst of its capacity pass, and no more until time goes by.
use tracing_throttle.Prelude.{
  ℕ, zero, suc, ◌-◌, ◌≤◌, ◌≡◌, refl, true, ◌∷◌, some, Instant, arith, ok, replicate, ap,
  Option-cases, inl, inr,
}
use tracing_throttle.Policy.Decision.{allow, suppress}
use tracing_throttle.Policy.Quota.{quota, quota-nil, quota-suc, quota-zero}
use tracing_throttle.Policy.Float.{F64, WholeLaws}
use tracing_throttle.Policy.TokenBucket.{
  TokenBucketPolicy, new, refill, take_token, register_event, decisions,
}

module _ (f : F64) (l : WholeLaws f) where
  open l use {from_nat}

  -- A bucket of capacity `c` with `k` tokens left, refilled at `t` if at all.
  record Holds (k c : ℕ) (t : Instant) (p : TokenBucketPolicy f) : Type 0 where
    tokens_left : p.tokens ≡ from_nat k
    whole : p.capacity ≡ from_nat c
    finite_rate : f.is_finite p.refill_rate ≡ true
    current : (last : Instant) → p.last_refill ≡ some last → last ≡ t

  refill-Holds :
      (k c : ℕ) (t : Instant) (p : TokenBucketPolicy f)
      → k ≤ c
      → c ≤ 0x20_0000_0000_0000
      → Holds k c t p
      → refill f p t ≡ record p { last_refill = some t }
  unfolding refill
  refill-Holds k c t p kc small h = elim (Option-cases p.last_refill) [
    | inl first ↦ rw (first, refill)
    | inr (last, again) ↦
        let same : last ≡ t = h.current last again in
        let none_elapsed : t - last ≡ 0 = omega arith in
        let kept = l.add_none k p.refill_rate (omega arith) h.finite_rate in
        ground (arith, l.min_whole k c kc small)
  ]

  -- The bucket once an event has refilled it at `t`.
  Holds-refilled :
      (j k c : ℕ) (t : Instant) (p : TokenBucketPolicy f)
      → Holds j c t p
      → Holds k c t (record p { tokens = from_nat k; last_refill = some t })
  Holds-refilled j k c t p h = record {
    tokens_left = refl;
    whole = h.whole;
    finite_rate = h.finite_rate;
    current = λ last e. cc;
  }

  decisions_from :
      (k c : ℕ) (t : Instant) (p : TokenBucketPolicy f) (n : ℕ)
      → k ≤ c
      → c ≤ 0x20_0000_0000_0000
      → Holds k c t p
      → decisions f p (replicate n t) ≡ quota k n
  unfolding decisions register_event take_token
  decisions_from k c t p zero kc small h = rw quota-nil
  decisions_from zero c t p (suc n) kc small h =
      rw (refill-Holds 0 c t p kc small h, h.tokens_left, l.from_nat-zero, quota-zero)
        (ap (◌∷◌ suppress) (decisions_from 0 c t _ n kc small (Holds-refilled 0 0 c t p h)))
  decisions_from (suc k) c t p (suc n) kc small h =
      rw
        (
          refill-Holds (suc k) c t p kc small h,
          quota-suc,
          h.tokens_left,
          l.from_nat-suc k (omega arith),
          l.sub_one k (omega arith),
        )
        (ap (◌∷◌ allow)
          (decisions_from k c t _ n (omega arith) small (Holds-refilled (suc k) k c t p h)))

  -- A new bucket whose capacity is a whole number, at most 2 ^ 53, and whose rate is positive and
  -- finite lets just that many of the events of one instant pass, and those come first.
  pub new-burst :
      (c : ℕ) (rate : f.Float) (p : TokenBucketPolicy f) (t : Instant) (n : ℕ)
      → c ≤ 0x20_0000_0000_0000
      → f.is_finite rate ≡ true
      → new f (from_nat c) rate ≡ ok p
      → decisions f p (replicate n t) ≡ quota c n
  unfolding new
  new-burst c rate p t n small finite e = decisions_from c c t p n (omega arith) small (record {
    tokens_left = ground arith;
    whole = ground arith;
    finite_rate = ground arith;
    current = λ last again. ground arith;
  })
