-- ===== src/Policy/TimeWindow/Serde.antt =====
-- domain/policy.rs: `Serialize` and `Deserialize` of `TimeWindowPolicy`.
use Prim.Native.Nat.{min}
use mathlib.Core.Option
use tracing_throttle.Prelude.{
  ℕ, ◌+◌, ◌-◌, ◌%◌, ◌<◌, ◌≤◌, ◌≡◌, refl, List, [], ◌∷◌, map, Option, none, some, Result, ok, err,
  ◌>>=◌, Instant, All, arith, u64_mod, u64_max, instant_max, saturating_duration_since, checked_add,
}
use tracing_throttle.Policy.TimeWindow.{TimeWindowPolicy}
use tracing_throttle.Policy.Decoding.{
  DecodeError, duplicate_field, invalid_entry, invalid_type, Input, as_map, as_seq, required,
}

pub data Field : Type 0 where
  max_events window_duration_nanos timestamps_nanos base_timestamp_nanos : Field

-- A field with its value, or one that the format cannot read: a known field whose value is of
-- another type, or an unknown one.
pub data Entry : Type 0 where
  max_events_is : ℕ → Entry
  window_duration_nanos_is : ℕ → Entry
  timestamps_nanos_is : List ℕ → Entry
  base_timestamp_nanos_is : Option ℕ → Entry
  unreadable : Entry

-- The offsets from the first timestamp, as `u64`.
unfoldable pub offsets : List Instant → List ℕ
offsets [] = []
offsets (first ∷ rest) = map (λ t. min (saturating_duration_since t first) u64_max) (first ∷ rest)

unfoldable pub base_offset : List Instant → Option ℕ
base_offset [] = none
base_offset (first ∷ rest) = some 0

-- The fields, in order.
unfoldable pub serialize : TimeWindowPolicy → List Entry
unfolding offsets base_offset
serialize p =
    max_events_is p.max_events
    ∷ window_duration_nanos_is p.window_duration
    ∷ timestamps_nanos_is (offsets p.event_timestamps)
    ∷ base_timestamp_nanos_is (base_offset p.event_timestamps)
    ∷ []

-- What the loop of the visitor has read.
pub record Seen : Type 0 where
  pub max : Option ℕ
  pub window : Option ℕ
  pub timestamps : Option (List ℕ)

-- A field that may be read once.
unfoldable pub once :
    {A : Type 0}
    → Field
    → Option A
    → Result (DecodeError Field) Seen
    → Result (DecodeError Field) Seen
once field none seen = seen
once field (some a) seen = err (duplicate_field field)

unfoldable pub read_entry : Entry → Seen → Result (DecodeError Field) Seen
unfolding once
read_entry (max_events_is n) s = once max_events s.max (ok (record s { max = some n }))
read_entry (window_duration_nanos_is n) s =
    once window_duration_nanos s.window (ok (record s { window = some n }))
read_entry (timestamps_nanos_is ns) s =
    once timestamps_nanos s.timestamps (ok (record s { timestamps = some ns }))
read_entry (base_timestamp_nanos_is n) s = ok s
read_entry unreadable s = err invalid_entry

unfoldable pub read_entries : List Entry → Seen → Result (DecodeError Field) Seen
unfolding read_entry
read_entries [] s = ok s
read_entries (e ∷ es) s = do s' ← read_entry e s; read_entries es s'

-- `now` is the reading of the clock.
unfoldable pub restore : Instant → ℕ → Instant
restore now nanos = Option.get_or (checked_add now nanos) now

unfoldable pub finish : Instant → Seen → Result (DecodeError Field) TimeWindowPolicy
unfolding required restore
finish now s = do
  max ← required max_events s.max
  window ← required window_duration_nanos s.window
  timestamps ← required timestamps_nanos s.timestamps
  ok (record {
    max_events = max;
    window_duration = window % u64_mod;
    event_timestamps = map (restore now) timestamps;
  })

unfoldable pub deserialize : Instant → Input Entry → Result (DecodeError Field) TimeWindowPolicy
unfolding read_entries finish
deserialize now (as_seq es) = err invalid_type
deserialize now (as_map es) = do
  s ← read_entries es (record { max = none; window = none; timestamps = none })
  finish now s

-- The timestamps after a reload at `now`: the first of them is moved to `now`.
unfoldable pub moved : Instant → List Instant → List Instant
moved now [] = []
moved now (first ∷ rest) = map (λ t. now + (t - first)) (first ∷ rest)

-- All timestamps can be told from the first in 64 bits, and moved to `now`.
unfoldable pub Movable : Instant → List Instant → Type 0
Movable now [] = Unit
Movable now (first ∷ rest) =
    All (λ t. (t - first < u64_mod) × (now + (t - first) ≤ instant_max)) (first ∷ rest)

restore-offset :
    (now first : Instant) (ts : List Instant)
    → All (λ t. (t - first < u64_mod) × (now + (t - first) ≤ instant_max)) ts
    → map (restore now) (map (λ t. min (t - first) u64_max) ts) ≡ map (λ t. now + (t - first)) ts
unfolding restore
restore-offset now first [] h = refl
restore-offset now first (t ∷ ts) h = ground (arith, restore-offset now first ts h.1)

restore-offsets :
    (now : Instant) (ts : List Instant)
    → Movable now ts
    → map (restore now) (offsets ts) ≡ moved now ts
unfolding offsets moved Movable
restore-offsets now [] h = refl
restore-offsets now (first ∷ rest) h = restore-offset now first (first ∷ rest) h

-- A policy that is written and read back as a map keeps its limit, its window and the distances of
-- its timestamps, the first of which is then the time of the load. The window and the distances
-- must fit in 64 bits of nanoseconds, and no moved timestamp may lie beyond the platform's last one.
pub deserialize-serialize :
    (p : TimeWindowPolicy) (now : Instant)
    → p.window_duration < u64_mod
    → Movable now p.event_timestamps
    → deserialize now (as_map (serialize p))
      ≡ ok (record p { event_timestamps = moved now p.event_timestamps })
unfolding deserialize serialize
deserialize-serialize p now small movable =
    ground (arith, restore-offsets now p.event_timestamps movable)
