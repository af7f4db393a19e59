-- ===== src/Breaker/Threads.antt =====
-- application/circuit_breaker.rs, methods of several threads, one atomic operation at a time, as
-- if in one total order.
pub mod Solo
pub mod Outcome
pub mod Alone
pub mod Probes
pub mod Race
use Prim.Native.Nat.{min}
use tracing_throttle.Prelude.{
  ℕ, ◌≡◌, Bool, true, false, ◌==◌, leb, if◌then◌else◌, Instant, u64_max, wrapping_inc,
  saturating_duration_since,
}
use tracing_throttle.Breaker.{
  CircuitBreaker, closed, open', half_open, as_u8, state, is_half_open, last_failure_time,
}

-- Where a thread stands in a method, with the local variables that are live there.
pub data Pc : Type 0 where
  idle : Pc
  -- In `allow_request`.
  asking : (now : Instant) → Pc
  exchanging rereading : Pc
  -- In `record_success`, with a closed and with a half-open circuit.
  clearing recovering closing : Pc
  -- In `record_failure`.
  failing stamped : (failures : ℕ) → Pc
  opening : Pc
  -- In `reset`.
  resetting : Pc

-- A request is granted or denied, or granted by a change from open to half-open; a failure stores
-- that the circuit is open.
pub data Effect : Type 0 where
  quiet granted denied probes opens : Effect

unfoldable pub answer : Bool → Effect
answer true = granted
answer false = denied

unfoldable pub stamp : CircuitBreaker → Instant → CircuitBreaker
stamp b now = record b {
  last_failure_time_nanos = min (saturating_duration_since now b.epoch) u64_max;
}

pub data Move (b : CircuitBreaker) : Pc → Effect → CircuitBreaker → Pc → Type 0 where
  ask_closed : state b ≡ closed → Move b idle granted b idle
  ask_half_open : state b ≡ half_open → Move b idle granted b idle
  ask_open : (now : Instant) → state b ≡ open' → Move b idle quiet b (asking now)
  early :
      {now : Instant}
      → leb b.config.recovery_timeout (saturating_duration_since now (last_failure_time b)) ≡ false
      → Move b (asking now) denied b idle
  due :
      {now : Instant}
      → leb b.config.recovery_timeout (saturating_duration_since now (last_failure_time b)) ≡ true
      → Move b (asking now) quiet b exchanging
  exchanged :
      (b.state_byte == as_u8 open') ≡ true
      → Move b exchanging probes (record b { state_byte = as_u8 half_open }) idle
  not_exchanged : (b.state_byte == as_u8 open') ≡ false → Move b exchanging quiet b rereading
  reread : Move b rereading (answer (is_half_open (state b))) b idle
  success_half_open : state b ≡ half_open → Move b idle quiet b recovering
  success_closed : state b ≡ closed → Move b idle quiet b clearing
  success_open : state b ≡ open' → Move b idle quiet b idle
  clear : Move b clearing quiet (record b { consecutive_failures = 0 }) idle
  clear_half_open : Move b recovering quiet (record b { consecutive_failures = 0 }) closing
  close : Move b closing quiet (record b { state_byte = as_u8 closed }) idle
  fail :
      Move b idle quiet
        (record b { consecutive_failures = wrapping_inc b.consecutive_failures })
        (failing (wrapping_inc b.consecutive_failures))
  note_time :
      {failures : ℕ} (now : Instant)
      → Move b (failing failures) quiet (stamp b now) (stamped failures)
  failed_half_open :
      {failures : ℕ} → state b ≡ half_open → Move b (stamped failures) quiet b opening
  failed_closed :
      {failures : ℕ}
      → state b ≡ closed
      → leb b.config.failure_threshold failures ≡ true
      → Move b (stamped failures) quiet b opening
  tolerated :
      {failures : ℕ}
      → state b ≡ closed
      → leb b.config.failure_threshold failures ≡ false
      → Move b (stamped failures) quiet b idle
  failed_open : {failures : ℕ} → state b ≡ open' → Move b (stamped failures) quiet b idle
  open_circuit : Move b opening opens (record b { state_byte = as_u8 open' }) idle
  reset_state : Move b idle quiet (record b { state_byte = as_u8 closed }) resetting
  reset_count : Move b resetting quiet (record b { consecutive_failures = 0 }) idle
