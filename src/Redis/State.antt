-- ===== src/Redis/State.antt =====
-- infrastructure/redis_storage.rs: the serializable forms of an event state. A sum of an instant
-- and a duration that is beyond the platform's last instant panics.
pub mod RoundTrip
use tracing_throttle.Prelude.{
  ℕ, ◌+◌, ◌*◌, ◌/◌, ◌%◌, Option, none, some, Instant, Duration, checked_add,
  saturating_duration_since, leb, if◌then◌else◌,
}
use tracing_throttle.Policy.Float.{F64}
use tracing_throttle.Policy.{Policy}
use tracing_throttle.Summary
use tracing_throttle.Summary.{SuppressionSnapshot}
use tracing_throttle.Storage.{Outcome, unwound, returned}
use tracing_throttle.Registry.{
  EventState, from_snapshot, from_snapshot_with_reported,
  from_snapshot_with_reported_and_first_unreported,
}

-- Of each instant the seconds, a `u64`, and the nanoseconds, a `u32`.
pub record SerializableEventState (f : F64) : Type 0 where
  pub policy : Policy f
  pub suppressed_count : ℕ
  pub reported_count : ℕ
  pub first_suppressed_secs : ℕ
  pub first_suppressed_nanos : ℕ
  pub last_suppressed_secs : ℕ
  pub last_suppressed_nanos : ℕ
  pub last_reported_secs : ℕ
  pub last_reported_nanos : ℕ
  pub first_unreported_secs : ℕ
  pub first_unreported_nanos : ℕ

pub record ReportedSerializableEventState (f : F64) : Type 0 where
  pub policy : Policy f
  pub suppressed_count : ℕ
  pub reported_count : ℕ
  pub first_suppressed_secs : ℕ
  pub first_suppressed_nanos : ℕ
  pub last_suppressed_secs : ℕ
  pub last_suppressed_nanos : ℕ
  pub last_reported_secs : ℕ
  pub last_reported_nanos : ℕ

pub record LegacySerializableEventState (f : F64) : Type 0 where
  pub policy : Policy f
  pub suppressed_count : ℕ
  pub first_suppressed_secs : ℕ
  pub first_suppressed_nanos : ℕ
  pub last_suppressed_secs : ℕ
  pub last_suppressed_nanos : ℕ

abbrev pub second : ℕ
second = 1_000_000_000

abbrev pub as_secs : Duration → ℕ
as_secs d = d / second

abbrev pub subsec_nanos : Duration → ℕ
subsec_nanos d = d % second

-- `Duration::new`. Where it panics, so does the sum with an instant that follows.
abbrev pub duration_new : ℕ → ℕ → Duration
duration_new secs nanos = secs * second + nanos

infixl 5 ◌>>=◌
abbrev pub ◌>>=◌ : {A B : Type 0} → Outcome A → (A → Outcome B) → Outcome B
unwound >>= g = unwound
returned a >>= g = g a

-- The sum of an instant and a duration.
unfoldable pub add_instant : Instant → Duration → Outcome Instant
add_instant t d = elim (checked_add t d) [ none ↦ unwound | some u ↦ returned u ]

-- `base` is the base instant of the counters, `origin` that of the storage.
module _ (f : F64) {M : Type 0} (base origin : Instant) where
  unfoldable pub from_event_state : EventState f M → SerializableEventState f
  from_event_state state =
      let counter = Summary.snapshot base state.counter in
      let first = saturating_duration_since counter.first_suppressed origin in
      let last = saturating_duration_since counter.last_suppressed origin in
      let last_reported = saturating_duration_since counter.last_reported origin in
      let first_unreported = saturating_duration_since counter.first_unreported origin in
      record {
        policy = state.policy;
        suppressed_count = counter.suppressed_count;
        reported_count = counter.reported_count;
        first_suppressed_secs = as_secs first;
        first_suppressed_nanos = subsec_nanos first;
        last_suppressed_secs = as_secs last;
        last_suppressed_nanos = subsec_nanos last;
        last_reported_secs = as_secs last_reported;
        last_reported_nanos = subsec_nanos last_reported;
        first_unreported_secs = as_secs first_unreported;
        first_unreported_nanos = subsec_nanos first_unreported;
      }

  unfoldable pub to_event_state : SerializableEventState f → Outcome (EventState f M)
  to_event_state s = do
    first ← add_instant origin (duration_new s.first_suppressed_secs s.first_suppressed_nanos)
    last ← add_instant origin (duration_new s.last_suppressed_secs s.last_suppressed_nanos)
    last_reported ← add_instant origin (duration_new s.last_reported_secs s.last_reported_nanos)
    first_unreported ←
        add_instant origin (duration_new s.first_unreported_secs s.first_unreported_nanos)
    returned (
        from_snapshot_with_reported_and_first_unreported f base s.policy s.suppressed_count
          s.reported_count first last last_reported first_unreported)

  unfoldable pub reported_to_event_state :
      ReportedSerializableEventState f → Outcome (EventState f M)
  reported_to_event_state s = do
    first ← add_instant origin (duration_new s.first_suppressed_secs s.first_suppressed_nanos)
    last ← add_instant origin (duration_new s.last_suppressed_secs s.last_suppressed_nanos)
    last_reported ← add_instant origin (duration_new s.last_reported_secs s.last_reported_nanos)
    returned (
        from_snapshot_with_reported f base s.policy s.suppressed_count s.reported_count first last
          last_reported)

  unfoldable pub legacy_to_event_state : LegacySerializableEventState f → Outcome (EventState f M)
  legacy_to_event_state s = do
    first ← add_instant origin (duration_new s.first_suppressed_secs s.first_suppressed_nanos)
    last ← add_instant origin (duration_new s.last_suppressed_secs s.last_suppressed_nanos)
    returned (from_snapshot f base s.policy s.suppressed_count first last)
