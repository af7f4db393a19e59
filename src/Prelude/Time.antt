-- ===== src/Prelude/Time.antt =====
-- Machine integers, and the instants and durations of the standard library, in nanoseconds.
use Prim.Native.Nat.{ℕ, ◌+◌, ◌-◌, ◌*◌, ◌%◌, min}
use mathlib.Core.Option.{Option, none, some}
use tracing_throttle.Prelude.Check.{leb, if◌then◌else◌}

-- The range of `u64`, and of `usize` on a 64-bit target.
abbrev pub u64_mod : ℕ
u64_mod = 0x1_0000_0000_0000_0000

abbrev pub u64_max : ℕ
u64_max = 0xffff_ffff_ffff_ffff

-- `+= 1` and `fetch_add(1, _)` wrap around.
abbrev pub wrapping_inc : ℕ → ℕ
wrapping_inc n = (n + 1) % u64_mod

abbrev pub saturating_mul : ℕ → ℕ → ℕ
saturating_mul a b = min (a * b) u64_max

abbrev pub saturating_add : ℕ → ℕ → ℕ
saturating_add a b = min (a + b) u64_max

abbrev pub Instant : Type 0
Instant = ℕ

abbrev pub Duration : Type 0
Duration = ℕ

abbrev pub from_secs : ℕ → Duration
from_secs s = s * 1_000_000_000

-- The last instant that the platform represents: signed 64-bit seconds and their nanoseconds.
abbrev pub instant_max : Instant
instant_max = 0x8000_0000_0000_0000 * 1_000_000_000 - 1

-- A duration is 0 where the argument is the later instant, as `duration_since` is too.
abbrev pub saturating_duration_since : Instant → Instant → Duration
saturating_duration_since later earlier = later - earlier

abbrev pub checked_add : Instant → Duration → Option Instant
checked_add t d = if leb (t + d) instant_max then some (t + d) else none
