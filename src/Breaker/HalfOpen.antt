-- ===== src/Breaker/HalfOpen.antt =====
-- application/circuit_breaker.rs: requests while the circuit is half-open.
use tracing_throttle.Prelude.{◌≡◌, refl, ap, Bool, true, List, [], ◌∷◌, length, replicate, Instant}
use tracing_throttle.Breaker.{CircuitBreaker, half_open, state, allow_request, allow_in}

-- Which of the requests at the given times are granted.
pub grants : CircuitBreaker → List Instant → List Bool
grants b [] = []
grants b (t ∷ ts) = let (b', granted) = allow_request b t in granted ∷ grants b' ts

-- Until a success or a failure is recorded, a half-open circuit grants every request, not only one.
pub grants-half_open :
    (b : CircuitBreaker) (ts : List Instant)
    → state b ≡ half_open
    → grants b ts ≡ replicate (length ts) true
unfolding grants allow_request allow_in
grants-half_open b [] h = refl
grants-half_open b (t ∷ ts) h =
    rw (h, grants, allow_request) (ap (λ gs. true ∷ gs) (grants-half_open b ts h))
