-- ===== src/Summary/Claims.antt =====
-- domain/summary.rs: what a claim reports and what a rollback gives back.
use tracing_throttle.Prelude.{
  ℕ, ◌+◌, ◌≤◌, ◌<◌, ◌≡◌, refl, ◌∙◌, sym, ap, true, some, Instant, List, [], ◌∷◌, length, arith,
  u64_mod, u64_max, instant_max, wrapping_inc,
}
use tracing_throttle.Summary.{
  SuppressionCounter, ClaimedSuppressions, instant_to_nanos, nanos_to_instant, record_suppression,
  claimed, mark_reported, claim_unreported, rollback_claim, record_all,
}

-- The counts are in order, and the cursors of the unreported period are 64-bit numbers.
pub record IsValid (c : SuppressionCounter) : Type 0 where
  pub reported_le : c.reported_count ≤ c.suppressed_count
  pub count_fits : c.suppressed_count < u64_mod
  pub last_reported_fits : c.last_reported_nanos < u64_mod
  pub last_suppressed_fits : c.last_suppressed_nanos < u64_mod
  pub first_unreported_fits : c.first_unreported_nanos < u64_mod

module _ (base : Instant) where
  instant_to_nanos-lt : (t : Instant) → instant_to_nanos base t < u64_mod
  unfolding instant_to_nanos
  instant_to_nanos-lt t = omega arith

  -- No instant that a counter can hold is beyond the platform's last one.
  module _ (fits : base + u64_max ≤ instant_max) where
    pub instant_to_nanos-nanos_to_instant :
        (n : ℕ) → n < u64_mod → instant_to_nanos base (nanos_to_instant base n) ≡ n
    unfolding instant_to_nanos nanos_to_instant
    instant_to_nanos-nanos_to_instant n h = ground arith

  pub record_suppression-IsValid :
      (c : SuppressionCounter) (t : Instant)
      → c.suppressed_count + 1 < u64_mod
      → IsValid c
      → IsValid (record_suppression base c t)
  unfolding record_suppression
  record_suppression-IsValid c t small v = ground (arith, instant_to_nanos-lt t)

  pub claim_unreported-IsValid :
      (c : SuppressionCounter) (n : ℕ) → IsValid c → IsValid (claim_unreported base c n).0
  unfolding claim_unreported mark_reported
  claim_unreported-IsValid c n v = ground arith

  pub count-record_suppression :
      (c : SuppressionCounter) (t : Instant)
      → c.suppressed_count + 1 < u64_mod
      → (record_suppression base c t).suppressed_count ≡ c.suppressed_count + 1
  unfolding record_suppression
  count-record_suppression c t small = omega arith

  -- The counter with an older report put back.
  abbrev restored : SuppressionCounter → SuppressionCounter → SuppressionCounter
  restored c d = record d {
    reported_count = c.reported_count;
    last_reported_nanos = c.last_reported_nanos;
    first_unreported_nanos = c.first_unreported_nanos;
  }

  -- Suppressions after a claim do not touch what a rollback puts back.
  record_all-restored :
      (c d : SuppressionCounter) (ts : List Instant)
      → c.reported_count < d.suppressed_count
      → d.suppressed_count + length ts < u64_mod
      → record_all base (restored c d) ts ≡ restored c (record_all base d ts)
  unfolding record_all
  record_all-restored c d [] h small = refl
  record_all-restored c d (t ∷ ts) h small =
      let e : wrapping_inc d.suppressed_count ≡ d.suppressed_count + 1 = omega arith in
      let step : record_suppression base (restored c d) t
          ≡ restored c (record_suppression base d t) =
        unfold record_suppression in ground arith in
      rw step (
        record_all-restored c (record_suppression base d t) ts
          (omega (arith, count-record_suppression d t (omega arith)))
          (omega (arith, count-record_suppression d t (omega arith))))

  reported-record_all :
      (c : SuppressionCounter) (ts : List Instant)
      → (record_all base c ts).reported_count ≡ c.reported_count
  unfolding record_all record_suppression
  reported-record_all c [] = refl
  reported-record_all c (t ∷ ts) = reported-record_all (record_suppression base c t) ts

  claim_cases :
      (c : SuppressionCounter) (n : ℕ) (claim : ClaimedSuppressions)
      → (claim_unreported base c n).1 ≡ some claim
      → (c.reported_count < c.suppressed_count)
        × (claim ≡ claimed base c)
        × ((claim_unreported base c n).0 ≡ mark_reported c)
  unfolding claim_unreported
  claim_cases c n claim h = (ground arith, ground arith, ground arith)

  -- Where no instant of a counter lies beyond the platform's last one: a claim that is rolled back,
  -- after any suppressions that came in between, leaves the counter as those suppressions alone
  -- would have left it, its timestamps included, and the rollback reports success. The counter
  -- must be valid, and must not wrap.
  pub rollback_claim-claim_unreported :
      base + u64_max ≤ instant_max
      → (c : SuppressionCounter) (n : ℕ) (ts : List Instant) (claim : ClaimedSuppressions)
      → IsValid c
      → c.suppressed_count + length ts < u64_mod
      → (claim_unreported base c n).1 ≡ some claim
      → rollback_claim base (record_all base (claim_unreported base c n).0 ts) claim
        ≡ (record_all base c ts, true)
  rollback_claim-claim_unreported fits c n ts claim v small h =
      let (some_left, e, f) = claim_cases c n claim h in
      rw (e, f)
        (put_back (record_all base (mark_reported c) ts)
            (reported-record_all (mark_reported c) ts ∙ (unfold mark_reported in refl))
          ∙ ap (λ d. (d, true)) recorded)
    where
      put_back :
          (d : SuppressionCounter)
          → d.reported_count ≡ c.suppressed_count
          → rollback_claim base d (claimed base c) ≡ (restored c d, true)
      put_back d same =
          let e =
            instant_to_nanos-nanos_to_instant fits c.last_reported_nanos v.last_reported_fits in
          let g =
            instant_to_nanos-nanos_to_instant fits c.first_unreported_nanos
              v.first_unreported_fits in
          unfold rollback_claim claimed in ground (arith, e, g)

      recorded : restored c (record_all base (mark_reported c) ts) ≡ record_all base c ts
      recorded = sym (
          unfold mark_reported in
          record_all-restored c (mark_reported c) ts (ground (arith, claim_cases c n claim h))
            small)
