-- ===== src/Registry.antt =====
-- application/registry.rs: the state of one event signature and the registry of all of them.
use tracing_throttle.Prelude.{ℕ, Bool, Option, none, some, Instant, ◌==◌, if◌then◌else◌}
use tracing_throttle.Policy.Float.{F64}
use tracing_throttle.Policy.{Policy}
use tracing_throttle.Summary
use tracing_throttle.Summary.{SuppressionCounter}
use tracing_throttle.Metrics.{Metrics}
use tracing_throttle.Storage.{Outcome, unwound}
use tracing_throttle.Ports.{Storage}

-- `M` is the metadata of an event.
pub record EventState (f : F64) (M : Type 0) : Type 0 where
  pub policy : Policy f
  pub counter : SuppressionCounter
  pub metadata : Option M

-- `base` is the base instant of the counters.
module _ (f : F64) {M : Type 0} (base : Instant) where
  unfoldable pub new : Policy f → Instant → EventState f M
  new policy initial_timestamp = record {
    policy = policy;
    counter = Summary.new base initial_timestamp;
    metadata = none;
  }

  unfoldable pub new_with_metadata : Policy f → Instant → M → EventState f M
  new_with_metadata policy initial_timestamp metadata = record {
    policy = policy;
    counter = Summary.new base initial_timestamp;
    metadata = some metadata;
  }

  -- The first metadata stays.
  first_metadata : Option M → M → Option M
  first_metadata none metadata = some metadata
  first_metadata (some old) metadata = some old

  unfoldable pub set_metadata : EventState f M → M → EventState f M
  unfolding first_metadata
  set_metadata state metadata = record state { metadata = first_metadata state.metadata metadata }

  unfoldable pub from_snapshot_with_reported_and_first_unreported :
      Policy f
      → (suppressed_count reported_count : ℕ)
        (first_suppressed last_suppressed last_reported first_unreported : Instant)
      → EventState f M
  from_snapshot_with_reported_and_first_unreported policy suppressed_count reported_count
        first_suppressed last_suppressed last_reported first_unreported =
      record {
        policy = policy;
        counter =
            Summary.from_snapshot_with_reported_and_first_unreported base suppressed_count
              reported_count first_suppressed last_suppressed last_reported first_unreported;
        metadata = none;
      }

  unfoldable pub from_snapshot_with_reported :
      Policy f
      → (suppressed_count reported_count : ℕ)
        (first_suppressed last_suppressed last_reported : Instant)
      → EventState f M
  unfolding from_snapshot_with_reported_and_first_unreported
  from_snapshot_with_reported policy suppressed_count reported_count first_suppressed
        last_suppressed last_reported =
      let first_unreported = if reported_count == 0 then first_suppressed else last_reported in
      from_snapshot_with_reported_and_first_unreported policy suppressed_count reported_count
        first_suppressed last_suppressed last_reported first_unreported

  unfoldable pub from_snapshot :
      Policy f → ℕ → (first_suppressed last_suppressed : Instant) → EventState f M
  unfolding from_snapshot_with_reported
  from_snapshot policy suppressed_count first_suppressed last_suppressed =
      from_snapshot_with_reported policy suppressed_count 0 first_suppressed last_suppressed
        first_suppressed

pub record SuppressionRegistry {K : Type 0} (f : F64) (M : Type 0) (p : Storage K (EventState f M))
    : Type 0 where
  pub storage : p.State
  pub default_policy : Policy f

-- `clock` is what the clock of the registry reads, none if it panics; `now` is the reading that
-- the storage makes. The metrics are shared with the storage.
module _ {K : Type 0} (f : F64) {M : Type 0} (base : Instant) (p : Storage K (EventState f M)) where
  unfoldable pub with_event_state :
      {R : Type 0}
      → SuppressionRegistry f M p
      → Metrics
      → K
      → Option Instant
      → Instant
      → (EventState f M → Instant → EventState f M × R)
      → (SuppressionRegistry f M p × Metrics) × Outcome R
  with_event_state r metrics signature none now g = ((r, metrics), unwound)
  with_event_state r metrics signature (some time) now g =
      let ((s, metrics'), outcome) =
        p.with_entry_mut r.storage metrics signature (new f base r.default_policy time) now
          (λ state. g state time) in
      ((record r { storage = s }, metrics'), outcome)

  unfoldable pub len : SuppressionRegistry f M p → ℕ
  len r = p.len r.storage

  pub is_empty : SuppressionRegistry f M p → Bool
  is_empty r = p.is_empty r.storage

  unfoldable pub for_each :
      {S : Type 0} → (S → K → EventState f M → S) → S → SuppressionRegistry f M p → S
  for_each g a r = p.for_each g a r.storage

  unfoldable pub cleanup :
      {S : Type 0}
      → (S → K → EventState f M → S × EventState f M × Bool)
      → S
      → SuppressionRegistry f M p
      → S × SuppressionRegistry f M p
  cleanup g a r = let (a', s) = p.retain g a r.storage in (a', record r { storage = s })

  unfoldable pub clear : SuppressionRegistry f M p → SuppressionRegistry f M p
  clear r = record r { storage = p.clear r.storage }
