-- ===== src/Summary.antt =====
-- domain/summary.rs: the suppression counter. Each method holds the counter's lock or reads one
-- field, so it is one step here. `base` is the base instant that all counters share.
pub mod Claims
pub mod Period
pub mod History
use Prim.Native.Nat.{min, max}
use mathlib.Core.Option
use tracing_throttle.Prelude.{
  ℕ, ◌-◌, Bool, true, false, Option, none, some, ltb, ◌==◌, if◌then◌else◌, Instant, Duration, List,
  [], ◌∷◌, u64_max, wrapping_inc, checked_add, saturating_duration_since,
}

pub record SuppressionCounter : Type 0 where
  pub suppressed_count : ℕ  -- usize
  pub reported_count : ℕ  -- usize
  pub first_suppressed_nanos : ℕ  -- u64, as all below
  pub last_suppressed_nanos : ℕ
  pub last_reported_nanos : ℕ
  pub first_unreported_nanos : ℕ

pub record ClaimedSuppressions : Type 0 where
  pub previous_reported_count : ℕ
  pub previous_last_reported : Instant
  pub count : ℕ
  pub total_count : ℕ
  pub first_suppressed : Instant
  pub last_suppressed : Instant
  pub duration : Duration

pub record SuppressionSnapshot : Type 0 where
  pub suppressed_count : ℕ
  pub reported_count : ℕ
  pub first_suppressed : Instant
  pub last_suppressed : Instant
  pub last_reported : Instant
  pub first_unreported : Instant

unfoldable pub count : SuppressionCounter → ℕ
count c = c.suppressed_count

unfoldable pub unreported_count : SuppressionCounter → ℕ
unreported_count c = c.suppressed_count - c.reported_count

-- The counter after a claim.
unfoldable pub mark_reported : SuppressionCounter → SuppressionCounter
mark_reported c = record c {
  reported_count = c.suppressed_count;
  last_reported_nanos = c.last_suppressed_nanos;
  first_unreported_nanos = c.last_suppressed_nanos;
}

module _ (base : Instant) where
  unfoldable pub instant_to_nanos : Instant → ℕ
  instant_to_nanos instant = min (saturating_duration_since instant base) u64_max

  unfoldable pub nanos_to_instant : ℕ → Instant
  nanos_to_instant nanos = Option.get_or (checked_add base nanos) base

  unfoldable pub new : Instant → SuppressionCounter
  new initial_timestamp =
      let nanos = instant_to_nanos initial_timestamp in
      record {
        suppressed_count = 0;
        reported_count = 0;
        first_suppressed_nanos = nanos;
        last_suppressed_nanos = nanos;
        last_reported_nanos = nanos;
        first_unreported_nanos = nanos;
      }

  unfoldable pub from_snapshot_with_reported_and_first_unreported :
      ℕ → ℕ → Instant → Instant → Instant → Instant → SuppressionCounter
  from_snapshot_with_reported_and_first_unreported suppressed reported first_suppressed
        last_suppressed last_reported first_unreported =
      record {
        suppressed_count = suppressed;
        reported_count = min reported suppressed;
        first_suppressed_nanos = instant_to_nanos first_suppressed;
        last_suppressed_nanos = instant_to_nanos last_suppressed;
        last_reported_nanos = instant_to_nanos last_reported;
        first_unreported_nanos = instant_to_nanos first_unreported;
      }

  unfoldable pub from_snapshot_with_reported :
      ℕ → ℕ → Instant → Instant → Instant → SuppressionCounter
  from_snapshot_with_reported suppressed reported first_suppressed last_suppressed last_reported =
      from_snapshot_with_reported_and_first_unreported suppressed reported first_suppressed
        last_suppressed last_reported (if reported == 0 then first_suppressed else last_reported)

  unfoldable pub from_snapshot : ℕ → Instant → Instant → SuppressionCounter
  from_snapshot suppressed first_suppressed last_suppressed =
      from_snapshot_with_reported suppressed 0 first_suppressed last_suppressed first_suppressed

  unfoldable pub record_suppression : SuppressionCounter → Instant → SuppressionCounter
  record_suppression c timestamp =
      let nanos = instant_to_nanos timestamp in
      let previous_count = c.suppressed_count in
      record c {
        suppressed_count = wrapping_inc previous_count;
        first_suppressed_nanos = if previous_count == 0 then nanos else c.first_suppressed_nanos;
        first_unreported_nanos =
            if previous_count == c.reported_count then nanos else c.first_unreported_nanos;
        last_suppressed_nanos = nanos;
      }

  -- What `claim_unreported` returns once there is enough to report.
  unfoldable pub claimed : SuppressionCounter → ClaimedSuppressions
  claimed c =
      let first = nanos_to_instant c.first_unreported_nanos in
      let last = nanos_to_instant c.last_suppressed_nanos in
      record {
        previous_reported_count = c.reported_count;
        previous_last_reported = nanos_to_instant c.last_reported_nanos;
        count = c.suppressed_count - c.reported_count;
        total_count = c.suppressed_count;
        first_suppressed = first;
        last_suppressed = last;
        duration = saturating_duration_since last first;
      }

  unfoldable pub claim_unreported :
      SuppressionCounter → ℕ → SuppressionCounter × Option ClaimedSuppressions
  unfolding unreported_count
  claim_unreported c min_count =
      if ltb (unreported_count c) (max min_count 1)
      then (c, none)
      else (mark_reported c, some (claimed c))

  unfoldable pub rollback_claim :
      SuppressionCounter → ClaimedSuppressions → SuppressionCounter × Bool
  rollback_claim c claim =
      if ltb c.reported_count claim.total_count
      then (c, c.reported_count == claim.previous_reported_count)
      else (
        record c {
          reported_count = claim.previous_reported_count;
          last_reported_nanos = instant_to_nanos claim.previous_last_reported;
          first_unreported_nanos = instant_to_nanos claim.first_suppressed;
        },
        true,
      )

  unfoldable pub snapshot : SuppressionCounter → SuppressionSnapshot
  snapshot c = record {
    suppressed_count = c.suppressed_count;
    reported_count = c.reported_count;
    first_suppressed = nanos_to_instant c.first_suppressed_nanos;
    last_suppressed = nanos_to_instant c.last_suppressed_nanos;
    last_reported = nanos_to_instant c.last_reported_nanos;
    first_unreported = nanos_to_instant c.first_unreported_nanos;
  }

  unfoldable pub reset : SuppressionCounter → Instant → SuppressionCounter
  reset c timestamp =
      let nanos = instant_to_nanos timestamp in
      record {
        suppressed_count = 0;
        reported_count = 0;
        first_suppressed_nanos = nanos;
        last_suppressed_nanos = nanos;
        last_reported_nanos = nanos;
        first_unreported_nanos = nanos;
      }

  -- A sequence of suppressions.
  unfoldable pub record_all : SuppressionCounter → List Instant → SuppressionCounter
  record_all c [] = c
  record_all c (t ∷ ts) = record_all (record_suppression c t) ts
