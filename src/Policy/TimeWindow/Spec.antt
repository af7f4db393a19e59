-- ===== src/Policy/TimeWindow/Spec.antt =====
-- The sliding window that `TimeWindowPolicy` promises: a log of all that was ever allowed.
use tracing_throttle.Prelude.{
  ℕ, ◌≤◌, ◌-◌, Bool, List, [], ◌∷◌, ◌++◌, ltb, leb, if◌then◌else◌, Instant, Duration, length,
  select,
}
use tracing_throttle.Policy.Decision.{PolicyDecision, allow, suppress}

-- Timestamps that never fall.
abbrev pub Ascending : Instant → List Instant → Type 0
Ascending lo [] = Unit {0}
Ascending lo (t ∷ ts) = (lo ≤ t) × Ascending t ts

abbrev pub in_window : Duration → Instant → Instant → Bool
in_window window now a = leb (now - a) window

-- An event passes if fewer than `max` of the allowed ones are in the window that ends with it.
unfoldable pub sliding_window : ℕ → Duration → List Instant → List Instant → List PolicyDecision
sliding_window max window log [] = []
sliding_window max window log (t ∷ ts) =
    let free = ltb (length (select (in_window window t) log)) max in
    (if free then allow else suppress)
    ∷ sliding_window max window (if free then log ++ t ∷ [] else log) ts
