-- ===== src/Summary/Period.antt =====
-- domain/summary.rs: the period that a claim covers.
use tracing_throttle.Prelude.{
  ℕ, ◌+◌, ◌-◌, ◌≤◌, ◌<◌, ◌≡◌, refl, some, Instant, List, [], ◌∷◌, length, All, arith, u64_mod,
  u64_max, instant_max, wrapping_inc,
}
use tracing_throttle.Summary.{
  SuppressionCounter, instant_to_nanos, nanos_to_instant, record_suppression, claimed,
  mark_reported, unreported_count, claim_unreported, record_all,
}

abbrev pub last_of : Instant → List Instant → Instant
last_of t [] = t
last_of t (u ∷ us) = last_of u us

module _ (base : Instant) where
  -- An instant that 64 bits of nanoseconds after `base` can express.
  abbrev pub Expressible : Instant → Type 0
  Expressible t = (base ≤ t) × (t ≤ base + u64_max)

  nanos_to_instant-instant_to_nanos :
      base + u64_max ≤ instant_max
      → (t : Instant) → Expressible t
      → nanos_to_instant base (instant_to_nanos base t) ≡ t
  unfolding instant_to_nanos nanos_to_instant
  nanos_to_instant-instant_to_nanos fits t h = ground arith

  last_of-Expressible :
      (t : Instant) (ts : List Instant)
      → Expressible t
      → All Expressible ts
      → Expressible (last_of t ts)
  last_of-Expressible t [] h hs = h
  last_of-Expressible t (u ∷ us) h hs = last_of-Expressible u us hs.0 hs.1

  record_suppression-unreported :
      (c : SuppressionCounter) (t : Instant)
      → c.reported_count < c.suppressed_count
      → c.suppressed_count + 1 < u64_mod
      → let d = record_suppression base c t in
        (d.suppressed_count ≡ c.suppressed_count + 1)
        × (d.reported_count ≡ c.reported_count)
        × (d.first_unreported_nanos ≡ c.first_unreported_nanos)
        × (d.last_reported_nanos ≡ c.last_reported_nanos)
        × (d.last_suppressed_nanos ≡ instant_to_nanos base t)
  unfolding record_suppression
  record_suppression-unreported c t left small =
      let w : wrapping_inc c.suppressed_count ≡ c.suppressed_count + 1 = omega arith in ground arith

  -- The first suppression since all was reported.
  record_suppression-settled :
      (c : SuppressionCounter) (t : Instant)
      → c.reported_count ≡ c.suppressed_count
      → c.suppressed_count + 1 < u64_mod
      → let d = record_suppression base c t in
        (d.suppressed_count ≡ c.suppressed_count + 1)
        × (d.reported_count ≡ c.reported_count)
        × (d.first_unreported_nanos ≡ instant_to_nanos base t)
        × (d.last_reported_nanos ≡ c.last_reported_nanos)
        × (d.last_suppressed_nanos ≡ instant_to_nanos base t)
  unfolding record_suppression
  record_suppression-settled c t settled small =
      let w : wrapping_inc c.suppressed_count ≡ c.suppressed_count + 1 = omega arith in ground arith

  -- Suppressions on top of an unreported one.
  record_all-unreported :
      (c : SuppressionCounter) (t : Instant) (ts : List Instant)
      → c.reported_count < c.suppressed_count
      → c.suppressed_count + length ts < u64_mod
      → c.last_suppressed_nanos ≡ instant_to_nanos base t
      → let d = record_all base c ts in
        (d.suppressed_count ≡ c.suppressed_count + length ts)
        × (d.reported_count ≡ c.reported_count)
        × (d.first_unreported_nanos ≡ c.first_unreported_nanos)
        × (d.last_reported_nanos ≡ c.last_reported_nanos)
        × (d.last_suppressed_nanos ≡ instant_to_nanos base (last_of t ts))
  unfolding record_all
  record_all-unreported c t [] left small e = (omega arith, refl, refl, refl, e)
  record_all-unreported c t (u ∷ us) left small e =
      let (n, r, f, l, k) = record_suppression-unreported c u left (omega arith) in
      let rest =
        record_all-unreported (record_suppression base c u) u us (omega arith) (omega arith) k in
      ground (arith, rest)

  -- Where the counter has reported all it holds, and no instant is beyond what it can express: once
  -- at least `min_count` suppressions have come, the next claim counts just these, from the first
  -- of them to the last, and the counter has nothing left to report. The counter must not wrap.
  pub claim_unreported-record_all :
      base + u64_max ≤ instant_max
      → (c : SuppressionCounter) (t : Instant) (ts : List Instant) (min_count : ℕ)
      → c.reported_count ≡ c.suppressed_count
      → c.suppressed_count + length (t ∷ ts) < u64_mod
      → All Expressible (t ∷ ts)
      → min_count ≤ length (t ∷ ts)
      → let d = record_all base c (t ∷ ts) in
        ((claim_unreported base d min_count).1
          ≡ some (record {
            previous_reported_count = c.reported_count;
            previous_last_reported = nanos_to_instant base c.last_reported_nanos;
            count = length (t ∷ ts);
            total_count = c.suppressed_count + length (t ∷ ts);
            first_suppressed = t;
            last_suppressed = last_of t ts;
            duration = last_of t ts - t;
          }))
        × (unreported_count (claim_unreported base d min_count).0 ≡ 0)
  unfolding claim_unreported claimed mark_reported record_all unreported_count
  claim_unreported-record_all fits c t ts min_count settled small ok enough =
      let (n, r, f, l, k) = record_suppression-settled c t settled (omega arith) in
      let rest =
        record_all-unreported (record_suppression base c t) t ts (omega arith) (omega arith) k in
      let first = nanos_to_instant-instant_to_nanos fits t ok.0 in
      let last =
        nanos_to_instant-instant_to_nanos fits (last_of t ts)
          (last_of-Expressible t ts ok.0 ok.1) in
      ground (arith, rest, first, last)
