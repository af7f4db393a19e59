-- ===== src/Redis/State/RoundTrip.antt =====
-- infrastructure/redis_storage.rs: a state that is stored and loaded again.
use tracing_throttle.Prelude.{
  ℕ, ◌+◌, ◌-◌, ◌*◌, ◌/◌, ◌%◌, ◌<◌, ◌≤◌, ◌≡◌, none, Instant, arith, u64_mod, u64_max, instant_max,
}
use tracing_throttle.Policy.Float.{F64}
use tracing_throttle.Summary
use tracing_throttle.Summary.{SuppressionCounter, instant_to_nanos, nanos_to_instant, snapshot}
use tracing_throttle.Storage.{returned}
use tracing_throttle.Registry.{EventState, from_snapshot_with_reported_and_first_unreported}
use tracing_throttle.Redis.State.{from_event_state, to_event_state, add_instant, second}

-- The times of a counter lie within 64 bits of nanoseconds after the base, and not before the
-- origin of the storage, and its counts are in order.
pub record Storable (base origin : Instant) (c : SuppressionCounter) : Type 0 where
  pub reported_le : c.reported_count ≤ c.suppressed_count
  pub first_suppressed :
      (origin ≤ base + c.first_suppressed_nanos) × (c.first_suppressed_nanos < u64_mod)
  pub last_suppressed :
      (origin ≤ base + c.last_suppressed_nanos) × (c.last_suppressed_nanos < u64_mod)
  pub last_reported : (origin ≤ base + c.last_reported_nanos) × (c.last_reported_nanos < u64_mod)
  pub first_unreported :
      (origin ≤ base + c.first_unreported_nanos) × (c.first_unreported_nanos < u64_mod)

module _ (base origin : Instant) (fits : base + u64_max ≤ instant_max) where
  nanos_to_instant-add : (n : ℕ) → n < u64_mod → nanos_to_instant base n ≡ base + n
  unfolding nanos_to_instant
  nanos_to_instant-add n h = ground arith

  add_instant-stored :
      (n : ℕ)
      → (origin ≤ base + n) × (n < u64_mod)
      → let d = nanos_to_instant base n - origin in
        add_instant origin (d / second * second + d % second) ≡ returned (base + n)
  unfolding add_instant
  add_instant-stored n (from, small) = rw (nanos_to_instant-add n small) (ground arith)

  instant_to_nanos-add : (n : ℕ) → n < u64_mod → instant_to_nanos base (base + n) ≡ n
  unfolding instant_to_nanos
  instant_to_nanos-add n h = omega arith

  -- What is loaded is what was stored, without the metadata: the policy and the counter, its four
  -- times included. The counter's times must lie within 64 bits of nanoseconds after the counters'
  -- base and not before the storage's, and its counts in order.
  pub to_event_state-from_event_state :
      (f : F64) {M : Type 0} (state : EventState f M)
      → Storable base origin state.counter
      → to_event_state f base origin (from_event_state f base origin state)
        ≡ returned (record state { metadata = none })
  unfolding to_event_state from_event_state snapshot
  to_event_state-from_event_state f state v =
      let c = state.counter in
      rw
        (
          add_instant-stored c.first_suppressed_nanos v.first_suppressed,
          add_instant-stored c.last_suppressed_nanos v.last_suppressed,
          add_instant-stored c.last_reported_nanos v.last_reported,
          add_instant-stored c.first_unreported_nanos v.first_unreported,
        )
        (unfold from_snapshot_with_reported_and_first_unreported in
          unfold Summary.from_snapshot_with_reported_and_first_unreported in
          ground (
            arith,
            instant_to_nanos-add c.first_suppressed_nanos,
            instant_to_nanos-add c.last_suppressed_nanos,
            instant_to_nanos-add c.last_reported_nanos,
            instant_to_nanos-add c.first_unreported_nanos,
          ))
