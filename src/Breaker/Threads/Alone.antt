-- ===== src/Breaker/Threads/Alone.antt =====
-- application/circuit_breaker.rs: a method that no other thread interrupts.
use mathlib.Core.Path.{subst}
use tracing_throttle.Prelude.{◌≡◌, sym, [], Instant, wrapping_inc}
use tracing_throttle.Breaker.{CircuitBreaker}
use tracing_throttle.Breaker.Recovery.{Op}
use tracing_throttle.Breaker.Threads.{stamp}
use tracing_throttle.Breaker.Threads.Solo.{Ends}

moved : (op : Op) (b b' c : CircuitBreaker) → c ≡ b' → Ends op b b' [] → Ends op b c []
moved op b b' c e h = subst (λ r. Ends op b r []) (sym e) h

-- The breaker once a failure is counted, with its time.
abbrev noted : CircuitBreaker → Instant → CircuitBreaker
noted b now = stamp (record b { consecutive_failures = wrapping_inc b.consecutive_failures }) now
