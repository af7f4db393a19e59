-- ===== src/Policy/TimeWindow/Refinement.antt =====
-- `TimeWindowPolicy` decides as the sliding window does, though it forgets what has expired.
use tracing_throttle.Prelude.{
  ◌≤◌, ◌-◌, ◌≡◌, refl, inl, inr, Bool, List, [], ◌∷◌, ◌++◌, ltb, if◌then◌else◌, Instant, length,
  select, select-append, arith, Bool-cases,
}
use tracing_throttle.Policy.Decision.{allow, suppress}
use tracing_throttle.Policy.TimeWindow.{
  TimeWindowPolicy, pop_expired, expire_old_events, register_event, decisions,
}
use tracing_throttle.Policy.TimeWindow.Spec.{Ascending, in_window, sliding_window}

-- Timestamps that never fall, the last of them at most `t`.
abbrev Upto : Instant → Instant → List Instant → Type 0
Upto t lo [] = lo ≤ t
Upto t lo (a ∷ rest) = (lo ≤ a) × Upto t a rest

Upto-snoc :
    (t u lo : Instant) (log : List Instant) → Upto t lo log → t ≤ u → Upto u lo (log ++ u ∷ [])
Upto-snoc t u lo [] h le = omega arith
Upto-snoc t u lo (a ∷ rest) h le = (h.0, Upto-snoc t u a rest h.1 le)

Upto-mono : (t u lo : Instant) (log : List Instant) → Upto t lo log → t ≤ u → Upto u lo log
Upto-mono t u lo [] h le = omega arith
Upto-mono t u lo (a ∷ rest) h le = (h.0, Upto-mono t u a rest h.1 le)

-- What follows a timestamp of the window is in the window.
select_all :
    (w now lo t : Instant) (log : List Instant)
    → now - lo ≤ w
    → Upto t lo log
    → select (in_window w now) log ≡ log
select_all w now lo t [] h u = refl
select_all w now lo t (a ∷ rest) h u = ground (arith, select_all w now a t rest (omega arith) u.1)

-- Expiry at `now` of what was in the window at an earlier time leaves the window at `now`.
pop_expired-select :
    (w s now lo t : Instant) (log : List Instant)
    → s ≤ now
    → Upto t lo log
    → pop_expired w now (select (in_window w s) log) ≡ select (in_window w now) log
unfolding pop_expired
pop_expired-select w s now lo t [] le u = refl
pop_expired-select w s now lo t (a ∷ rest) le u = elim (Bool-cases (in_window w now a)) [
  | inl here ↦ ground (
    arith,
    select_all w now a t rest (ground arith) u.1,
    select_all w s a t rest (ground arith) u.1,
  )
  | inr gone ↦ ground (arith, pop_expired-select w s now a t rest le u.1)
]

-- One event, by the policy and by the log: the policy holds the log's part in the last window.
register_event-select :
    (p : TimeWindowPolicy) (s t : Instant) (log : List Instant)
    → p.event_timestamps ≡ select (in_window p.window_duration s) log
    → Upto s 0 log
    → s ≤ t
    → let free = ltb (length (select (in_window p.window_duration t) log)) p.max_events in
      register_event p t ≡ (
        record p {
          event_timestamps =
              select (in_window p.window_duration t) (if free then log ++ t ∷ [] else log);
        },
        if free then allow else suppress,
      )
unfolding register_event expire_old_events
register_event-select p s t log e u le =
    ground (arith, popped, select-append (in_window p.window_duration t) log (t ∷ []))
  where
    popped :
        pop_expired p.window_duration t p.event_timestamps
        ≡ select (in_window p.window_duration t) log
    popped = rw e (pop_expired-select p.window_duration s t 0 s log le u)

decisions_from :
    (p : TimeWindowPolicy) (s : Instant) (log ts : List Instant)
    → p.event_timestamps ≡ select (in_window p.window_duration s) log
    → Upto s 0 log
    → Ascending s ts
    → decisions p ts ≡ sliding_window p.max_events p.window_duration log ts
unfolding decisions sliding_window
decisions_from p s log [] e u o = refl
decisions_from p s log (t ∷ ts) e u o = rw (
  register_event-select p s t log e u o.0,
  decisions_from (record p { event_timestamps = select w next }) t next ts refl kept o.1,
)
  where
    w : Instant → Bool
    w = in_window p.window_duration t

    next : List Instant
    next = if ltb (length (select w log)) p.max_events then log ++ t ∷ [] else log

    kept : Upto t 0 next
    kept = ground (arith, Upto-snoc s t 0 log u o.0, Upto-mono s t 0 log u o.0)

-- On timestamps that never fall, a policy with no event yet decides as the sliding window over
-- the whole history: an event passes if and only if fewer than `max_events` of the events that
-- passed lie within `window_duration` before it.
pub decisions-sliding_window :
    (p : TimeWindowPolicy) (ts : List Instant)
    → p.event_timestamps ≡ []
    → Ascending 0 ts
    → decisions p ts ≡ sliding_window p.max_events p.window_duration [] ts
decisions-sliding_window p ts e o = decisions_from p 0 [] ts e (omega arith) o
