-- ===== src/Breaker/Threads/Probes.antt =====
-- application/circuit_breaker.rs: how often threads find the circuit ready for recovery.
use tracing_throttle.Prelude.{
  ℕ, ◌+◌, ◌≤◌, ◌≡◌, refl, ap, ◌==◌, Bool, true, false, List, [], ◌∷◌, arith, if◌then◌else◌, System,
  pick, Run, stop, first,
}
use tracing_throttle.Breaker.{
  CircuitBreaker, CircuitState, open', half_open, as_u8, state, is_half_open,
}
use tracing_throttle.Breaker.Threads.{
  Pc, Effect, quiet, granted, denied, probes, opens, Move, answer, stamp,
}

unfoldable pub probe_count : List Effect → ℕ
probe_count [] = 0
probe_count (probes ∷ es) = 1 + probe_count es
probe_count (_ ∷ es) = probe_count es

unfoldable pub open_count : List Effect → ℕ
open_count [] = 0
open_count (opens ∷ es) = 1 + open_count es
open_count (_ ∷ es) = open_count es

-- 1 for a circuit in the state, or else 0.
unfoldable pub is_in : CircuitState → CircuitBreaker → ℕ
is_in s b = if b.state_byte == as_u8 s then 1 else 0

answer-counts : (g : Bool) → (probe_count (answer g ∷ []) ≡ 0) × (open_count (answer g ∷ []) ≡ 0)
unfolding answer probe_count open_count
answer-counts true = (refl, refl)
answer-counts false = (refl, refl)

counts-cons :
    (e : Effect) (es : List Effect)
    → (probe_count (e ∷ es) ≡ probe_count (e ∷ []) + probe_count es)
      × (open_count (e ∷ es) ≡ open_count (e ∷ []) + open_count es)
unfolding probe_count open_count
counts-cons quiet es = (omega arith, omega arith)
counts-cons granted es = (omega arith, omega arith)
counts-cons denied es = (omega arith, omega arith)
counts-cons probes es = (omega arith, omega arith)
counts-cons opens es = (omega arith, omega arith)

Move-probes :
    {b b' : CircuitBreaker} {p p' : Pc} {e : Effect}
    → Move b p e b' p'
    → (probe_count (e ∷ []) + is_in open' b' ≤ open_count (e ∷ []) + is_in open' b)
      × (is_in half_open b' ≤ is_in half_open b + probe_count (e ∷ []))
unfolding probe_count open_count is_in as_u8 stamp
Move-probes {b} (Move.exchanged h) =
    let was_open : is_in open' b ≡ 1 = ap (λ (x : Bool). if x then 1 else 0) h in
    (omega (arith, was_open), omega arith)
Move-probes {b} Move.reread = ground (arith, answer-counts (is_half_open (state b)))
Move-probes m = ground arith

-- However the methods of several threads interleave: the circuit is changed from open to half-open
-- at most once for each time that a failure opened it, and once more if it was open at first; and
-- if it is half-open, it was at first or it was changed to that.
pub Run-probes :
    {n : ℕ} {s t : System CircuitBreaker Pc} {es : List Effect}
    → Run Move n s es t
    → (probe_count es + is_in open' t.shared ≤ open_count es + is_in open' s.shared)
      × (is_in half_open t.shared ≤ is_in half_open s.shared + probe_count es)
unfolding probe_count open_count
Run-probes stop = (omega arith, omega arith)
Run-probes (first {e} {es} (pick i lt mv) run) =
    let (one, half) = Move-probes mv in
    let (more, halves) = Run-probes run in
    let (p, o) = counts-cons e es in (omega arith, omega arith)
