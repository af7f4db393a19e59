-- ===== src/Policy/TimeWindow.antt =====
-- domain/policy.rs, `TimeWindowPolicy`: the deque of the allowed timestamps, its front first.
pub mod Serde
pub mod Spec
pub mod Refinement
pub mod Bound
use tracing_throttle.Prelude.{
  ℕ, ◌≡◌, List, [], ◌∷◌, ◌++◌, ◌==◌, ltb, if◌then◌else◌, Result, ok, err, Instant, Duration, length,
  saturating_duration_since,
}
use tracing_throttle.Policy.Decision.{
  PolicyError, PolicyDecision, zero_max_events, zero_window_duration, allow, suppress,
}

pub record TimeWindowPolicy : Type 0 where
  pub max_events : ℕ  -- usize
  pub window_duration : Duration
  pub event_timestamps : List Instant

unfoldable pub new : ℕ → Duration → Result PolicyError TimeWindowPolicy
new max_events window_duration =
    if max_events == 0
    then err zero_max_events
    else if window_duration == 0
    then err zero_window_duration
    else ok (record {
      max_events = max_events;
      window_duration = window_duration;
      event_timestamps = [];
    })

-- The loop of `expire_old_events`: it pops the front while that is too old.
pub pop_expired : Duration → Instant → List Instant → List Instant
pop_expired window now [] = []
pop_expired window now (oldest ∷ rest) =
    if ltb window (saturating_duration_since now oldest)
    then pop_expired window now rest
    else oldest ∷ rest

pub expire_old_events : TimeWindowPolicy → Instant → TimeWindowPolicy
unfolding pop_expired
expire_old_events p current_time = record p {
  event_timestamps = pop_expired p.window_duration current_time p.event_timestamps;
}

unfoldable pub register_event : TimeWindowPolicy → Instant → TimeWindowPolicy × PolicyDecision
unfolding expire_old_events
register_event p timestamp =
    let q = expire_old_events p timestamp in
    if ltb (length q.event_timestamps) q.max_events
    then (record q { event_timestamps = q.event_timestamps ++ timestamp ∷ [] }, allow)
    else (q, suppress)

unfoldable pub reset : TimeWindowPolicy → TimeWindowPolicy
reset p = record p { event_timestamps = [] }

-- The decisions on a sequence of events, in order.
unfoldable pub decisions : TimeWindowPolicy → List Instant → List PolicyDecision
decisions p [] = []
decisions p (t ∷ ts) = let (q, d) = register_event p t in d ∷ decisions q ts
