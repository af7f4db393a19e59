-- ===== src/Breaker/Threads/Race.antt =====
-- application/circuit_breaker.rs: a success and a failure at the same time.
use tracing_throttle.Prelude.{
  ◌≡◌, refl, List, arith, Instant, wrapping_inc, System, Run, Duo, settled, left, right, Duo-Run,
}
use tracing_throttle.Breaker.{
  CircuitBreaker, closed, half_open, as_u8, state, from_u8, record_success, record_failure,
}
use tracing_throttle.Breaker.Threads.{Pc, Effect, Move, stamp}

-- As new, but for the time of the last failure.
pub record Recovered (b : CircuitBreaker) : Type 0 where
  pub closed_circuit : state b ≡ closed
  pub no_failures : b.consecutive_failures ≡ 0

failed_last :
    (b : CircuitBreaker) (now : Instant)
    → state b ≡ half_open
    → Recovered (record_failure (record_success b) now)
    → ⊥
unfolding record_success
failed_last b now h r = let count = r.no_failures in unfold record_failure in ground arith

failed_first :
    (b : CircuitBreaker) (now : Instant)
    → state b ≡ half_open
    → Recovered (record_success (record_failure b now))
    → ⊥
unfolding record_success record_failure state
failed_first b now h r = let closed_now = r.closed_circuit in ground arith

-- If a thread reports a success and another one a failure of a half-open circuit, the failure may
-- leave no trace: the circuit ends closed with no failure counted, as it does in neither order of
-- the two reports.
pub record_success-record_failure-threads :
    (b : CircuitBreaker) (now : Instant)
    → state b ≡ half_open
    → ((es : List Effect) × (t : System CircuitBreaker Pc) × Run Move 2
          (record { shared = b; pc = λ i. Pc.idle })
          es
          t
        × (t.pc 0 ≡ Pc.idle)
        × (t.pc 1 ≡ Pc.idle)
        × Recovered t.shared)
      × (Recovered (record_failure (record_success b) now) → ⊥)
      × (Recovered (record_success (record_failure b now)) → ⊥)
unfolding state stamp as_u8 from_u8
record_success-record_failure-threads b now h =
    let b1 = record b { consecutive_failures = wrapping_inc b.consecutive_failures } in
    let b2 = stamp b1 now in
    let b3 : CircuitBreaker = record b2 { state_byte = 1 } in
    let duo : Duo Move b Pc.idle Pc.idle _ _ Pc.idle Pc.idle = left (Move.success_half_open h) (
      right Move.fail (
        right (Move.note_time now) (
          right (Move.failed_half_open h)
            (right Move.open_circuit (left Move.clear_half_open (left Move.close settled)))))) in
    let (at, idle, idle', run) = Duo-Run Move duo (λ i. Pc.idle) refl refl in
    (
      (
        _,
        record { shared = _; pc = at },
        run,
        idle,
        idle',
        record { closed_circuit = refl; no_failures = refl },
      ),
      failed_last b now h,
      failed_first b now h,
    )
