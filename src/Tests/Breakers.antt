-- ===== src/Tests/Breakers.antt =====
-- The circuit breaker at concrete instants.
use tracing_throttle.Prelude.{
  ℕ, ◌+◌, ◌≤◌, List, System, Run, Duo, settled, left, right, Duo-Run, refl, ◌≡◌, [], ◌∷◌, from_secs,
}
use tracing_throttle.Breaker.{CircuitBreaker, CircuitBreakerConfig, open', state, record_failure}
use tracing_throttle.Breaker.Recovery.{failure, step, Move, run, step-Move}
use tracing_throttle.Breaker.{
  from_u8, as_u8, half_open, last_failure_time, is_half_open, record_success,
}
use tracing_throttle.Breaker.Threads
use tracing_throttle.Breaker.Threads.{Pc, Effect, quiet, granted, probes, answer}
use tracing_throttle.Breaker.Threads.Probes.{probe_count, open_count, is_in, Run-probes}
use tracing_throttle.Breaker.Threads.Race.{Recovered, record_success-record_failure-threads}

abbrev twice : CircuitBreakerConfig
twice = record { failure_threshold = 2; recovery_timeout = from_secs 30 }

-- One failure short of the threshold.
abbrev wavering : CircuitBreaker
wavering = record {
  state_byte = 0;
  consecutive_failures = 1;
  last_failure_time_nanos = 1;
  config = twice;
  epoch = 5;
}

step-Move_example : Move wavering (failure 7) (state wavering) (state (step wavering (failure 7)))
step-Move_example = step-Move wavering (failure 7)

-- A circuit that opened long ago.
abbrev opened : CircuitBreaker
opened = record wavering { state_byte = 1; consecutive_failures = 2 }

abbrev half_opened : CircuitBreaker
half_opened = record opened { state_byte = 2 }

-- Both threads find the circuit due for recovery, and the first one changes it.
abbrev both_ask :
    Duo Threads.Move opened Pc.idle Pc.idle
      (quiet ∷ quiet ∷ quiet ∷ quiet ∷ probes ∷ quiet ∷ granted ∷ [])
      half_opened
      Pc.idle
      Pc.idle
unfolding state from_u8 as_u8 last_failure_time is_half_open answer
both_ask = left (Threads.ask_open (from_secs 60) refl) (
    right (Threads.ask_open (from_secs 61) refl) (
      left (Threads.due refl) (
        right (Threads.due refl) (
          left (Threads.exchanged refl)
            (right (Threads.not_exchanged refl) (right Threads.reread settled))))))

abbrev asked :
    (at : ℕ → Pc) × (at 0 ≡ Pc.idle)
    × (at 1 ≡ Pc.idle)
    × Run Threads.Move 2
        (record { shared = opened; pc = λ i. Pc.idle })
        (quiet ∷ quiet ∷ quiet ∷ quiet ∷ probes ∷ quiet ∷ granted ∷ [])
        (record { shared = half_opened; pc = at })
asked = Duo-Run Threads.Move both_ask (λ i. Pc.idle) refl refl

Run-probes_example :
    (probe_count (quiet ∷ quiet ∷ quiet ∷ quiet ∷ probes ∷ quiet ∷ granted ∷ [])
        + is_in open' half_opened
      ≤ open_count (quiet ∷ quiet ∷ quiet ∷ quiet ∷ probes ∷ quiet ∷ granted ∷ [])
        + is_in open' opened)
    × (is_in half_open half_opened
        ≤ is_in half_open opened
          + probe_count (quiet ∷ quiet ∷ quiet ∷ quiet ∷ probes ∷ quiet ∷ granted ∷ []))
Run-probes_example = let (at, idle, idle', run) = asked in Run-probes run

record_success-record_failure-threads_example :
    ((es : List Effect) × (t : System CircuitBreaker Pc) × Run Threads.Move 2
        (record { shared = half_opened; pc = λ i. Pc.idle })
        es
        t
      × (t.pc 0 ≡ Pc.idle)
      × (t.pc 1 ≡ Pc.idle)
      × Recovered t.shared)
    × (Recovered (record_failure (record_success half_opened) 9) → ⊥)
    × (Recovered (record_success (record_failure half_opened 9)) → ⊥)
unfolding state from_u8
record_success-record_failure-threads_example =
    record_success-record_failure-threads half_opened 9 refl
