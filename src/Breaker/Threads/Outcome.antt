-- ===== src/Breaker/Threads/Outcome.antt =====
-- application/circuit_breaker.rs: what is left to do of a method, from each place in it on, if no
-- other thread interrupts it.
use tracing_throttle.Prelude.{
  ◌≡◌, refl, sym, ◌∙◌, ◌==◌, Bool, true, false, List, [], ◌∷◌, arith, leb,
  saturating_duration_since, if◌then◌else◌, ◌++◌, ap,
}
use tracing_throttle.Breaker.{
  failure_in, is_half_open, closed, CircuitBreaker, open', half_open, as_u8, state, allow_request,
  record_success, record_failure, reset, last_failure_time,
}
use tracing_throttle.Breaker.Recovery.{Op, request, success, failure, resets, step}
use tracing_throttle.Breaker.Threads.{
  answer, Pc, Effect, quiet, granted, denied, probes, opens, Move, stamp,
}
use tracing_throttle.Breaker.Threads.Solo.{answers, answer_of, Does, IsBusy, Alone, last, more}

-- What is left to do of `allow_request` from the exchange on.
exchanged_result : CircuitBreaker → CircuitBreaker × List Bool
exchanged_result b =
    if b.state_byte == as_u8 open'
    then (record b { state_byte = as_u8 half_open }, true ∷ [])
    else (b, is_half_open (state b) ∷ [])

-- What a method changes and answers from a place in it on.
goes : Op → CircuitBreaker → Pc → CircuitBreaker × List Bool
unfolding exchanged_result
goes op b Pc.idle = (step b op, answer_of b op)
goes op b (Pc.asking now) =
    if leb b.config.recovery_timeout (saturating_duration_since now (last_failure_time b))
    then exchanged_result b
    else (b, false ∷ [])
goes op b Pc.exchanging = exchanged_result b
goes op b Pc.rereading = (b, is_half_open (state b) ∷ [])
goes op b Pc.clearing = (record b { consecutive_failures = 0 }, [])
goes op b Pc.recovering = (record b { consecutive_failures = 0; state_byte = as_u8 closed }, [])
goes op b Pc.closing = (record b { state_byte = as_u8 closed }, [])
goes (failure now) b (Pc.failing n) = (failure_in (state b) n (stamp b now), [])
goes op b (Pc.failing n) = (b, [])
goes op b (Pc.stamped n) = (failure_in (state b) n b, [])
goes op b Pc.opening = (record b { state_byte = as_u8 open' }, [])
goes op b Pc.resetting = (record b { consecutive_failures = 0 }, [])

-- The same once it has moved, where it may have ended.
onward : Op → CircuitBreaker → Pc → CircuitBreaker × List Bool
onward op b Pc.idle = (b, [])
onward op b p = goes op b p

onward-IsBusy : (op : Op) (b : CircuitBreaker) (p : Pc) → IsBusy p → onward op b p ≡ goes op b p
unfolding onward IsBusy
onward-IsBusy op b Pc.idle h = elim h [ ]
onward-IsBusy op b p h = refl

answers-cons : (e : Effect) (es : List Effect) → answers (e ∷ es) ≡ answers (e ∷ []) ++ answers es
unfolding answers
answers-cons quiet es = refl
answers-cons opens es = refl
answers-cons granted es = refl
answers-cons probes es = refl
answers-cons denied es = refl

answers-answer : (g : Bool) → g ∷ [] ≡ answers (answer g ∷ []) ++ []
unfolding answers answer
answers-answer true = refl
answers-answer false = refl

Move-onward :
    (op : Op) {b b' : CircuitBreaker} {p q : Pc} {e : Effect} (mv : Move b p e b' q)
    → Does op mv
    → goes op b p ≡ (let r = onward op b' q in (r.0, answers (e ∷ []) ++ r.1))
unfolding Does goes onward exchanged_result answers answer answer_of step failure_in allow_request
    record_success record_failure reset stamp
Move-onward (request now) (Move.ask_closed e) h = ground arith
Move-onward (request now) (Move.ask_half_open e) h = ground arith
Move-onward (request now) (Move.ask_open now' e) h = ground arith
Move-onward success (Move.success_closed e) h = ground arith
Move-onward success (Move.success_half_open e) h = ground arith
Move-onward success (Move.success_open e) h = ground arith
Move-onward (failure now) Move.fail h = ground arith
Move-onward (failure now) (Move.note_time now') h = ground arith
Move-onward resets Move.reset_state h = ground arith
Move-onward op (Move.early e) h = ground arith
Move-onward op (Move.due e) h = ground arith
Move-onward op (Move.exchanged e) h = ground arith
Move-onward op (Move.not_exchanged e) h = ground arith
Move-onward op {b} Move.reread h = ap (λ l. (b, l)) (answers-answer (is_half_open (state b)))
Move-onward op Move.clear h = ground arith
Move-onward op Move.clear_half_open h = ground arith
Move-onward op Move.close h = ground arith
Move-onward op (Move.failed_half_open e) h = ground arith
Move-onward op (Move.failed_closed e h') h = ground arith
Move-onward op (Move.tolerated e h') h = ground arith
Move-onward op (Move.failed_open e) h = ground arith
Move-onward op Move.open_circuit h = ground arith
Move-onward op Move.reset_count h = ground arith
Move-onward op mv h = elim h [ ]

Alone-goes :
    (op : Op) {b b' : CircuitBreaker} {p : Pc} {es : List Effect}
    → Alone op b p es b'
    → goes op b p ≡ (b', answers es)
unfolding onward answers
Alone-goes op {b'} (last {e} mv h) =
    Move-onward op mv h ∙ ap (λ l. (b', l)) (sym (answers-cons e []))
Alone-goes op {b'} (more {b' = c} {q} {e} {es} mv h busy rest) =
    Move-onward op mv h
    ∙ ap (λ (r : CircuitBreaker × List Bool). (r.0, answers (e ∷ []) ++ r.1))
        (onward-IsBusy op c q busy ∙ Alone-goes op rest)
    ∙ ap (λ l. (b', l)) (sym (answers-cons e es))

-- What a thread leaves that goes through a method alone, and its answers.
pub Alone-step :
    (op : Op) {b b' : CircuitBreaker} {es : List Effect}
    → Alone op b Pc.idle es b'
    → (b' ≡ step b op) × (answers es ≡ answer_of b op)
unfolding goes
Alone-step op run = let e = Alone-goes op run in (sym (ap (λ r. r.0) e), sym (ap (λ r. r.1) e))
