-- ===== src/Metrics.antt =====
-- application/metrics.rs: the counters of allowed and suppressed events and of evictions.
use tracing_throttle.Prelude.{ℕ, ◌==◌, if◌then◌else◌, wrapping_inc, saturating_add}

pub record Metrics : Type 0 where
  pub events_allowed : ℕ  -- u64
  pub events_suppressed : ℕ  -- u64
  pub signatures_evicted : ℕ  -- u64

unfoldable pub new : Metrics
new = record { events_allowed = 0; events_suppressed = 0; signatures_evicted = 0 }

unfoldable pub record_allowed : Metrics → Metrics
record_allowed m = record m { events_allowed = wrapping_inc m.events_allowed }

unfoldable pub record_suppressed : Metrics → Metrics
record_suppressed m = record m { events_suppressed = wrapping_inc m.events_suppressed }

unfoldable pub record_eviction : Metrics → Metrics
record_eviction m = record m { signatures_evicted = wrapping_inc m.signatures_evicted }

unfoldable pub reset : Metrics → Metrics
reset m = record { events_allowed = 0; events_suppressed = 0; signatures_evicted = 0 }

-- `MetricsSnapshot` has the same three fields, read one after the other.
unfoldable pub total_events : Metrics → ℕ
total_events m = saturating_add m.events_allowed m.events_suppressed

-- `f64` is given by its zero, its division and its conversion from `u64`.
unfoldable pub suppression_rate : {F : Type 0} → F → (F → F → F) → (ℕ → F) → Metrics → F
suppression_rate zero_f div_f from_u64 m =
    let total = saturating_add m.events_allowed m.events_suppressed in
    if total == 0 then zero_f else div_f (from_u64 m.events_suppressed) (from_u64 total)
