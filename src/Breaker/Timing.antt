-- ===== src/Breaker/Timing.antt =====
-- application/circuit_breaker.rs: the threshold that opens the circuit and the timeout that ends it.
use tracing_throttle.Prelude.{
  ◌+◌, ◌≤◌, ◌<◌, ◌≡◌, true, false, List, [], ◌∷◌, arith, Instant, u64_mod, u64_max, wrapping_inc,
  length, leb, if◌then◌else◌,
}
use tracing_throttle.Breaker.{
  closed, open', half_open, CircuitBreaker, CircuitBreakerConfig, as_u8, with_config, state,
  last_failure_time, allow_request, record_failure,
}

pub failures : CircuitBreaker → List Instant → CircuitBreaker
failures b [] = b
failures b (t ∷ ts) = failures (record_failure b t) ts

opened_stays :
    (b : CircuitBreaker) (ts : List Instant) → state b ≡ open' → state (failures b ts) ≡ open'
unfolding failures
opened_stays b [] h = h
opened_stays b (t ∷ ts) h =
    opened_stays (record_failure b t) ts (unfold record_failure in ground arith)

closed_failure :
    (b : CircuitBreaker) (t : Instant)
    → state b ≡ closed
    → b.consecutive_failures + 1 < u64_mod
    → let b' = record_failure b t in
      (state b'
        ≡ (if leb b.config.failure_threshold (b.consecutive_failures + 1) then open' else closed))
      × (b'.consecutive_failures ≡ b.consecutive_failures + 1)
      × (b'.config ≡ b.config)
unfolding record_failure
closed_failure b t h small =
    let w : wrapping_inc b.consecutive_failures ≡ b.consecutive_failures + 1 = omega arith in
    ground arith

failures_from :
    (b : CircuitBreaker) (ts : List Instant)
    → state b ≡ closed
    → b.consecutive_failures + length ts < u64_mod
    → b.consecutive_failures < b.config.failure_threshold
    → state (failures b ts) ≡ (
        if leb b.config.failure_threshold (b.consecutive_failures + length ts)
        then open'
        else closed)
unfolding failures
failures_from b [] h small below = ground arith
failures_from b (t ∷ ts) h small below =
    let (s, n, c) = closed_failure b t h (omega arith) in
    ground (arith, opened_stays (record_failure b t) ts, failures_from (record_failure b t) ts)

-- A new breaker with a positive threshold is, after failures alone, open if and only if these have
-- reached the threshold, and closed before. (The count of failures does not wrap.)
pub state-failures :
    (c : CircuitBreakerConfig) (start : Instant) (ts : List Instant)
    → 0 < c.failure_threshold
    → length ts < u64_mod
    → state (failures (with_config c start) ts)
      ≡ (if leb c.failure_threshold (length ts) then open' else closed)
unfolding with_config state
state-failures c start ts positive small = ground (arith, failures_from (with_config c start) ts)

failed_at :
    (b : CircuitBreaker) (t : Instant)
    → b.epoch ≤ t
    → t ≤ b.epoch + u64_max
    → (last_failure_time (record_failure b t) ≡ t) × ((record_failure b t).config ≡ b.config)
unfolding record_failure last_failure_time
failed_at b t from to = ground arith

-- A failure at `t` that leaves the circuit open: until `recovery_timeout` has passed since `t`,
-- every request is refused and changes nothing; from then on a request is granted, and makes the
-- circuit half-open. The failure must lie within 64 bits of nanoseconds of the breaker's epoch.
pub allow_request-record_failure :
    (b : CircuitBreaker) (t now : Instant)
    → b.epoch ≤ t
    → t ≤ b.epoch + u64_max
    → t ≤ now
    → state (record_failure b t) ≡ open'
    → let o = record_failure b t in
      allow_request o now ≡ (
        if leb (t + b.config.recovery_timeout) now
        then (record o { state_byte = as_u8 half_open }, true)
        else (o, false))
allow_request-record_failure b t now from to later h =
    let (e, c) = failed_at b t from to in unfold allow_request in ground arith
