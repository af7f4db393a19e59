-- ===== src/Breaker/Threads/Solo.antt =====
-- application/circuit_breaker.rs: the moves of a method that no other thread interrupts.
use tracing_throttle.Prelude.{◌≡◌, Bool, true, false, List, [], ◌∷◌}
use tracing_throttle.Breaker.{CircuitBreaker, allow_request}
use tracing_throttle.Breaker.Recovery.{Op, request, success, failure, resets}
use tracing_throttle.Breaker.Threads.{Pc, Effect, quiet, granted, denied, probes, opens, Move}

-- What requests were answered.
unfoldable pub answers : List Effect → List Bool
answers [] = []
answers (quiet ∷ es) = answers es
answers (opens ∷ es) = answers es
answers (granted ∷ es) = true ∷ answers es
answers (probes ∷ es) = true ∷ answers es
answers (denied ∷ es) = false ∷ answers es

-- The answer of an operation.
unfoldable pub answer_of : CircuitBreaker → Op → List Bool
answer_of b (request now) = (allow_request b now).1 ∷ []
answer_of b success = []
answer_of b (failure now) = []
answer_of b resets = []

-- The moves of an operation, at its reading of the clock.
unfoldable pub Does :
    (op : Op) {b b' : CircuitBreaker} {p q : Pc} {e : Effect} → Move b p e b' q → Type 0
Does (request now) (Move.ask_closed e) = Unit
Does (request now) (Move.ask_half_open e) = Unit
Does (request now) (Move.ask_open now' e) = now' ≡ now
Does success (Move.success_closed e) = Unit
Does success (Move.success_half_open e) = Unit
Does success (Move.success_open e) = Unit
Does (failure now) Move.fail = Unit
Does (failure now) (Move.note_time now') = now' ≡ now
Does resets Move.reset_state = Unit
Does op (Move.early e) = Unit
Does op (Move.due e) = Unit
Does op (Move.exchanged e) = Unit
Does op (Move.not_exchanged e) = Unit
Does op Move.reread = Unit
Does op Move.clear = Unit
Does op Move.clear_half_open = Unit
Does op Move.close = Unit
Does op (Move.failed_half_open e) = Unit
Does op (Move.failed_closed e h) = Unit
Does op (Move.tolerated e h) = Unit
Does op (Move.failed_open e) = Unit
Does op Move.open_circuit = Unit
Does op Move.reset_count = Unit
Does op mv = ⊥

-- In a method.
unfoldable pub IsBusy : Pc → Type 0
IsBusy Pc.idle = ⊥
IsBusy _ = Unit

-- A thread goes on from a place in the method of an operation up to its end, while no other one
-- moves.
pub data Alone (op : Op) : CircuitBreaker → Pc → List Effect → CircuitBreaker → Type 0 where
  last :
      {b b' : CircuitBreaker} {p : Pc} {e : Effect} (mv : Move b p e b' Pc.idle)
      → Does op mv
      → Alone op b p (e ∷ []) b'
  more :
      {b b' b'' : CircuitBreaker} {p q : Pc} {e : Effect} {es : List Effect} (mv : Move b p e b' q)
      → Does op mv
      → IsBusy q
      → Alone op b' q es b''
      → Alone op b p (e ∷ es) b''

-- The method ends, and leaves `b'` and these answers.
unfoldable pub Ends : Op → CircuitBreaker → CircuitBreaker → List Bool → Type 0
Ends op b b' l = (es : List Effect) × Alone op b Pc.idle es b' × (answers es ≡ l)
