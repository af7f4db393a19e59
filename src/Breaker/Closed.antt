-- ===== src/Breaker/Closed.antt =====
-- application/circuit_breaker.rs: a breaker that is closed, as long as nothing fails.
use tracing_throttle.Prelude.{◌≡◌, true, Instant}
use tracing_throttle.Breaker.{
  CircuitBreaker, closed, state, allow_request, allow_in, record_success, success_in,
}

pub allow_request-closed :
    (b : CircuitBreaker) (now : Instant) → state b ≡ closed → allow_request b now ≡ (b, true)
unfolding allow_request allow_in
allow_request-closed b now h = rw (h, allow_request)

pub record_success-closed :
    (b : CircuitBreaker) → state b ≡ closed → state (record_success b) ≡ closed
unfolding record_success success_in state
record_success-closed b h = rw (h, record_success) h
