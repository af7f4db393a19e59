-- ===== src/Breaker.antt =====
-- application/circuit_breaker.rs: the state machine of the circuit breaker, one thread at a time.
-- `now` is the reading of the clock that a method makes.
pub mod Recovery
pub mod Timing
pub mod Closed
pub mod HalfOpen
pub mod Threads
use mathlib.Core.Option
use Prim.Native.Nat.{min}
use tracing_throttle.Prelude.{
  ℕ, suc, zero, ◌+◌, ◌-◌, Bool, true, false, Option, ◌||◌, leb, ltb, ◌==◌, if◌then◌else◌, Instant,
  Duration, u64_max, wrapping_inc, from_secs, saturating_duration_since,
}

pub data CircuitState : Type 0 where
  closed open' half_open : CircuitState

pub CircuitState-discrete : Discrete CircuitState
CircuitState-discrete = hlevel

-- The discriminants, and `From<u8>`.
unfoldable pub as_u8 : CircuitState → ℕ
as_u8 closed = 0
as_u8 open' = 1
as_u8 half_open = 2

unfoldable pub from_u8 : ℕ → CircuitState
from_u8 value =
    if value == 0
    then closed
    else if value == 1
    then open'
    else if value == 2
    then half_open
    else closed

pub record CircuitBreakerConfig : Type 0 where
  pub failure_threshold : ℕ  -- u32
  pub recovery_timeout : Duration

abbrev pub default_config : CircuitBreakerConfig
default_config = record { failure_threshold = 5; recovery_timeout = from_secs 30 }

pub record CircuitBreaker : Type 0 where
  pub state_byte : ℕ  -- u8
  pub consecutive_failures : ℕ  -- u64
  pub last_failure_time_nanos : ℕ  -- u64
  pub config : CircuitBreakerConfig
  pub epoch : Instant

unfoldable pub with_config : CircuitBreakerConfig → Instant → CircuitBreaker
unfolding as_u8
with_config config now = record {
  state_byte = as_u8 closed;
  consecutive_failures = 0;
  last_failure_time_nanos = 0;
  config = config;
  epoch = now;
}

unfoldable pub new : Instant → CircuitBreaker
unfolding with_config
new now = with_config default_config now

unfoldable pub state : CircuitBreaker → CircuitState
unfolding from_u8
state b = from_u8 b.state_byte

unfoldable pub last_failure_time : CircuitBreaker → Instant
last_failure_time b = b.epoch + b.last_failure_time_nanos

-- `compare_exchange` on the state: whether it held `current`, and then holds `next`.
compare_exchange : CircuitBreaker → ℕ → ℕ → CircuitBreaker × Bool
compare_exchange b current next =
    if b.state_byte == current then (record b { state_byte = next }, true) else (b, false)

unfoldable pub is_half_open : CircuitState → Bool
is_half_open half_open = true
is_half_open _ = false

-- The branch of `allow_request` for an open circuit.
unfoldable pub try_recover : CircuitBreaker → Instant → CircuitBreaker × Bool
unfolding last_failure_time as_u8 state compare_exchange is_half_open
try_recover b now =
    if leb b.config.recovery_timeout (saturating_duration_since now (last_failure_time b))
    then (let (b', exchanged) = compare_exchange b (as_u8 open') (as_u8 half_open) in
        (b', exchanged || is_half_open (state b')))
    else (b, false)

allow_in : CircuitState → CircuitBreaker → Instant → CircuitBreaker × Bool
allow_in closed b now = (b, true)
allow_in open' b now = try_recover b now
allow_in half_open b now = (b, true)

unfoldable pub allow_request : CircuitBreaker → Instant → CircuitBreaker × Bool
unfolding allow_in try_recover state
allow_request b now = allow_in (state b) b now

success_in : CircuitState → CircuitBreaker → CircuitBreaker
success_in half_open b = record b { consecutive_failures = 0; state_byte = as_u8 closed }
success_in closed b = record b { consecutive_failures = 0 }
success_in open' b = b

unfoldable pub record_success : CircuitBreaker → CircuitBreaker
unfolding success_in state as_u8
record_success b = success_in (state b) b

failure_in : CircuitState → ℕ → CircuitBreaker → CircuitBreaker
failure_in half_open failures b = record b { state_byte = as_u8 open' }
failure_in closed failures b =
    if leb b.config.failure_threshold failures then record b { state_byte = as_u8 open' } else b
failure_in open' failures b = b

unfoldable pub record_failure : CircuitBreaker → Instant → CircuitBreaker
unfolding failure_in state as_u8
record_failure b now =
    let failures = wrapping_inc b.consecutive_failures in
    let nanos = min (saturating_duration_since now b.epoch) u64_max in
    failure_in (state b) failures
      (record b { consecutive_failures = failures; last_failure_time_nanos = nanos })

unfoldable pub reset : CircuitBreaker → CircuitBreaker
unfolding as_u8
reset b = record b { state_byte = as_u8 closed; consecutive_failures = 0 }
