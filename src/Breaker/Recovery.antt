-- ===== src/Breaker/Recovery.antt =====
-- application/circuit_breaker.rs: when the circuit opens, stays open, recovers and closes.
use tracing_throttle.Prelude.{
  ◌-◌, ◌≤◌, ◌<◌, ◌≡◌, ◌⊎◌, inl, inr, refl, Bool-cases, leb→le, List, [], ◌∷◌, arith, Instant,
  wrapping_inc, leb,
}
use tracing_throttle.Breaker.{
  CircuitState, closed, open', half_open, CircuitBreaker, CircuitBreakerConfig, as_u8, from_u8,
  with_config, state, last_failure_time, allow_request, record_success, record_failure, reset,
}

pub data Op : Type 0 where
  request : Instant → Op
  success : Op
  failure : Instant → Op
  resets : Op

unfoldable pub step : CircuitBreaker → Op → CircuitBreaker
step b (request now) = (allow_request b now).0
step b success = record_success b
step b (failure now) = record_failure b now
step b resets = reset b

-- The moves of the state machine, each with what makes it happen: no two of them start alike.
pub data Move (b : CircuitBreaker) : Op → CircuitState → CircuitState → Type 0 where
  pass_closed : {now : Instant} → Move b (request now) closed closed
  pass_half_open : {now : Instant} → Move b (request now) half_open half_open
  refuse :
      {now : Instant}
      → now - last_failure_time b < b.config.recovery_timeout
      → Move b (request now) open' open'
  probe :
      {now : Instant}
      → b.config.recovery_timeout ≤ now - last_failure_time b
      → Move b (request now) open' half_open
  succeed : Move b success closed closed
  recover : Move b success half_open closed
  too_late : Move b success open' open'
  tolerate :
      {now : Instant}
      → wrapping_inc b.consecutive_failures < b.config.failure_threshold
      → Move b (failure now) closed closed
  trip :
      {now : Instant}
      → b.config.failure_threshold ≤ wrapping_inc b.consecutive_failures
      → Move b (failure now) closed open'
  reopen : {now : Instant} → Move b (failure now) half_open open'
  fail_again : {now : Instant} → Move b (failure now) open' open'
  close : {s : CircuitState} → Move b resets s closed

from_u8-as_u8 : (s : CircuitState) → from_u8 (as_u8 s) ≡ s
unfolding from_u8 as_u8
from_u8-as_u8 closed = refl
from_u8-as_u8 open' = refl
from_u8-as_u8 half_open = refl

-- In the closed state the failures counted are fewer than the threshold, or none.
pub record IsValid (b : CircuitBreaker) : Type 0 where
  pub known_state : b.state_byte ≤ 2
  pub below_threshold :
      state b ≡ closed
      → (b.consecutive_failures < b.config.failure_threshold) ⊎ (b.consecutive_failures ≡ 0)

pub with_config-IsValid : (c : CircuitBreakerConfig) (now : Instant) → IsValid (with_config c now)
unfolding with_config state
with_config-IsValid c now = ground arith

pub step-IsValid : (b : CircuitBreaker) (op : Op) → IsValid b → IsValid (step b op)
unfolding step
step-IsValid b (request now) v = unfold allow_request in ground arith
step-IsValid b success v = unfold record_success in ground arith
step-IsValid b (failure now) v = unfold record_failure in ground arith
step-IsValid b resets v = unfold reset state in ground arith

pub run : CircuitBreaker → List Op → CircuitBreaker
run b [] = b
run b (op ∷ ops) = run (step b op) ops

run-IsValid_from : (b : CircuitBreaker) (ops : List Op) → IsValid b → IsValid (run b ops)
unfolding run
run-IsValid_from b [] v = v
run-IsValid_from b (op ∷ ops) v = run-IsValid_from (step b op) ops (step-IsValid b op v)

-- After any sequence of requests, results and resets, a breaker that began new holds one of the
-- three states, and while it is closed it has counted fewer failures than its threshold, or none.
pub run-IsValid :
    (c : CircuitBreakerConfig) (start : Instant) (ops : List Op)
    → IsValid (run (with_config c start) ops)
run-IsValid c start ops = run-IsValid_from (with_config c start) ops (with_config-IsValid c start)

pub state_cases :
    (b : CircuitBreaker) → (state b ≡ closed) ⊎ (state b ≡ open') ⊎ (state b ≡ half_open)
unfolding state
state_cases b = ground arith

-- One step from a known state.
moves :
    (b : CircuitBreaker) (op : Op) (s s' : CircuitState)
    → state b ≡ s
    → state (step b op) ≡ s'
    → Move b op s s'
    → Move b op (state b) (state (step b op))
moves b op s s' e e' m = rw (e, e') m

-- The state changes as the state machine says. A request leaves the closed and the half-open
-- state, and changes the open one to half-open if and only if the recovery timeout is over; a
-- success closes the half-open circuit only; a failure opens the half-open circuit, and the closed
-- one if and only if it reaches the threshold; a reset closes.
pub step-Move : (b : CircuitBreaker) (op : Op) → Move b op (state b) (state (step b op))
unfolding step
step-Move b (request now) = elim (state_cases b) [
  | inl e ↦ moves b (request now) closed closed e (unfold allow_request in ground arith) pass_closed
  | inr (inl e) ↦ elim (Bool-cases (leb b.config.recovery_timeout (now - last_failure_time b))) [
    | inl due ↦
        moves b (request now) open' half_open e (unfold allow_request in ground arith)
          (probe (leb→le _ _ due))
    | inr early ↦
        moves b (request now) open' open' e (unfold allow_request in ground arith)
          (refuse (ground (arith, early)))
  ]
  | inr (inr e) ↦
      moves b (request now) half_open half_open e (unfold allow_request in ground arith)
        pass_half_open
]
step-Move b success = elim (state_cases b) [
  | inl e ↦ moves b success closed closed e (unfold record_success in ground arith) succeed
  | inr (inl e) ↦ moves b success open' open' e (unfold record_success in ground arith) too_late
  | inr (inr e) ↦ moves b success half_open closed e (unfold record_success in ground arith) recover
]
step-Move b (failure now) = elim (state_cases b) [
  | inl e ↦
      elim (Bool-cases (leb b.config.failure_threshold (wrapping_inc b.consecutive_failures))) [
        | inl reached ↦
            moves b (failure now) closed open' e (unfold record_failure in ground arith)
              (trip (leb→le _ _ reached))
        | inr below ↦
            moves b (failure now) closed closed e (unfold record_failure in ground arith)
              (tolerate (ground (arith, below)))
      ]
  | inr (inl e) ↦
      moves b (failure now) open' open' e (unfold record_failure in ground arith) fail_again
  | inr (inr e) ↦
      moves b (failure now) half_open open' e (unfold record_failure in ground arith) reopen
]
step-Move b resets = moves b resets (state b) closed refl (unfold reset state in refl) close
