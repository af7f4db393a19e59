-- ===== src/Policy/TimeWindow/Bound.antt =====
-- How many events `TimeWindowPolicy` lets through in any stretch of time.
use tracing_throttle.Prelude.{
  ℕ, ◌+◌, ◌<◌, ◌≤◌, ◌≡◌, inl, inr, Bool, true, ◌&&◌, List, [], ◌∷◌, ◌++◌, ltb, ltb→lt, leb, Instant,
  Duration, length, select, select-append, length-append, arith, Bool-cases,
}
use mathlib.Core.List.{append-nil, append_assoc}
use tracing_throttle.Policy.Decision.{PolicyDecision, allow, suppress}
use tracing_throttle.Policy.TimeWindow.{TimeWindowPolicy, decisions}
use tracing_throttle.Policy.TimeWindow.Spec.{Ascending, in_window, sliding_window}
use tracing_throttle.Policy.TimeWindow.Refinement.{decisions-sliding_window}

-- The timestamps of the events that pass.
unfoldable pub passed : List PolicyDecision → List Instant → List Instant
passed [] ts = []
passed (d ∷ ds) [] = []
passed (allow ∷ ds) (t ∷ ts) = t ∷ passed ds ts
passed (suppress ∷ ds) (t ∷ ts) = passed ds ts

abbrev pub between : Instant → Instant → Instant → Bool
between from to a = leb from a && leb a to

module _ (max : ℕ) (w : Duration) where
  abbrev Sparse : List Instant → Type 0
  Sparse log = (from : Instant) → length (select (between from (from + w)) log) ≤ max

  -- What lies in a stretch that holds `t` lies in the window that ends with `t`.
  between-in_window :
      (from t : Instant) (log : List Instant)
      → between from (from + w) t ≡ true
      → length (select (between from (from + w)) log) ≤ length (select (in_window w t) log)
  between-in_window from t [] h = omega arith
  between-in_window from t (a ∷ rest) h = ground (arith, between-in_window from t rest h)

  Sparse-snoc :
      (t : Instant) (log : List Instant)
      → Sparse log
      → length (select (in_window w t) log) < max
      → Sparse (log ++ t ∷ [])
  Sparse-snoc t log s free from =
      rw
        (
          select-append (between from (from + w)) log (t ∷ []),
          length-append (select (between from (from + w)) log),
        )
        (elim (Bool-cases (between from (from + w) t)) [
          | inl here ↦ rw here (omega (arith, between-in_window from t log here, s from))
          | inr out ↦ rw out (omega (arith, s from))
        ])

  sliding_window-Sparse :
      (log ts : List Instant) → Sparse log → Sparse (log ++ passed (sliding_window max w log ts) ts)
  unfolding sliding_window passed
  sliding_window-Sparse log [] s = rw append-nil s
  sliding_window-Sparse log (t ∷ ts) s =
      elim (Bool-cases (ltb (length (select (in_window w t) log)) max)) [
        | inl free ↦ rw free (
            rw (← append_assoc log (t ∷ []))
              (sliding_window-Sparse (log ++ t ∷ []) ts (Sparse-snoc t log s (ltb→lt _ _ free))))
        | inr full ↦ rw full (sliding_window-Sparse log ts s)
      ]

-- On timestamps that never fall, a policy with no event yet lets at most `max_events` events pass
-- in every closed stretch of time as long as `window_duration`.
pub passed-between-le :
    (p : TimeWindowPolicy) (ts : List Instant) (from : Instant)
    → p.event_timestamps ≡ []
    → Ascending 0 ts
    → length (select (between from (from + p.window_duration)) (passed (decisions p ts) ts))
      ≤ p.max_events
passed-between-le p ts from e o =
    rw (decisions-sliding_window p ts e o)
      (sliding_window-Sparse p.max_events p.window_duration [] ts (λ from. omega arith) from)
