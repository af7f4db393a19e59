-- ===== src/Mocks.antt =====
-- infrastructure/mocks: a clock that tests set, and a layer that records events. A panic while the
-- clock is locked poisons the lock.
use tracing_throttle.Prelude.{
  ℕ, ◌≡◌, sym, ◌∙◌, Bool, true, false, if◌then◌else◌, List, [], ◌∷◌, ◌++◌, map, length, Option,
  none, some, Instant, Duration, checked_add, arith,
}
use mathlib.Core.List.{append_assoc, append-nil}
use tracing_throttle.Text.{Text, codes, same_text}
use tracing_throttle.Storage.{Outcome, unwound, returned}

pub record MockClock : Type 0 where
  pub current_time : Instant
  pub poisoned : Bool

unfoldable pub new_clock : Instant → MockClock
new_clock start = record { current_time = start; poisoned = false }

-- A sum that the platform cannot represent panics.
advanced : MockClock → Option Instant → MockClock × Outcome Unit
advanced clock none = (record clock { poisoned = true }, unwound)
advanced clock (some time) = (record clock { current_time = time }, returned tt)

unfoldable pub advance : MockClock → Duration → MockClock × Outcome Unit
unfolding advanced
advance clock duration =
    if clock.poisoned
    then (clock, unwound)
    else advanced clock (checked_add clock.current_time duration)

unfoldable pub set : MockClock → Instant → MockClock × Outcome Unit
set clock instant =
    if clock.poisoned
    then (clock, unwound)
    else (record clock { current_time = instant }, returned tt)

unfoldable pub now : MockClock → Outcome Instant
now clock = if clock.poisoned then unwound else returned clock.current_time

-- A clock that panicked once never answers again.
pub now-poisoned :
    (clock : MockClock) (d : Duration) (t : Instant)
    → (advance clock d).1 ≡ unwound
    → let clock' = (advance clock d).0 in
      (now clock' ≡ unwound) × (set clock' t ≡ (clock', unwound))
unfolding advance advanced now set
now-poisoned clock d t h = ground (arith, h)

pub record CapturedEvent : Type 0 where
  pub level : Text
  pub message : Text

-- `record_debug` of the event's visitor, with a field's name and its `Debug` text. The other methods
-- hand their values to this one.
unfoldable pub record_debug : Text → Text × Text → Text
record_debug message (field, text) = if same_text field (codes "message") then text else message

unfoldable pub record_fields : Text → List (Text × Text) → Text
unfolding record_debug
record_fields message [] = message
record_fields message (field ∷ fields) = record_fields (record_debug message field) fields

-- The state of the layer is what it has captured.
unfoldable pub on_event : List CapturedEvent → Text → List (Text × Text) → List CapturedEvent
unfolding record_fields
on_event captured level fields =
    captured ++ record { level = level; message = record_fields [] fields } ∷ []

unfoldable pub count : List CapturedEvent → ℕ
count captured = length captured

unfoldable pub clear : List CapturedEvent → List CapturedEvent
clear captured = []

unfoldable pub on_events :
    List CapturedEvent → List (Text × List (Text × Text)) → List CapturedEvent
unfolding on_event
on_events captured [] = captured
on_events captured ((level, fields) ∷ events) = on_events (on_event captured level fields) events

-- The events are captured one after the other, each with its level and the text of its message.
pub on_events-map :
    (captured : List CapturedEvent) (events : List (Text × List (Text × Text)))
    → on_events captured events
      ≡ captured ++ map (λ e. record { level = e.0; message = record_fields [] e.1 }) events
unfolding on_events
on_events-map captured [] = sym (append-nil captured)
on_events-map captured ((level, fields) ∷ events) =
    on_events-map (on_event captured level fields) events
    ∙ append_assoc captured (record { level = level; message = record_fields [] fields } ∷ []) _
