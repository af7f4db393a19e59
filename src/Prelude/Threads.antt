-- ===== src/Prelude/Threads.antt =====
-- Threads that share a state: their steps, interleaved in any order.
use Prim.Native.Nat.{ℕ, zero, suc, ◌+◌, ◌<◌, ◌≤◌}
use mathlib.Core.Path.{◌≡◌, refl, sym, ap, subst}
use mathlib.Core.Logic.{ite, if_pos, if_neg, ◌≢◌}
use mathlib.Core.List.{List, [], ◌∷◌, ◌++◌}
use native.Mathlib.Decide.{ℕ_discrete}
use native.Mathlib.Omega.{arith}

-- The thread `i` moves on to `p`.
abbrev pub moved_on {ℓ} : {P : Type ℓ} → (ℕ → P) → ℕ → P → ℕ → P
moved_on at i p j = ite (ℕ_discrete j i) p (at j)

-- What all of a list weigh.
unfoldable pub total : {E : Type 0} → (E → ℕ) → List E → ℕ
total v [] = 0
total v (e ∷ es) = v e + total v es

-- What the first threads weigh, by where they stand.
unfoldable pub weigh : {P : Type 0} → (P → ℕ) → ℕ → (ℕ → P) → ℕ
weigh w zero at = 0
weigh w (suc n) at = w (at n) + weigh w n at

-- What the threads share, and where each of them stands.
pub record System (S P : Type 0) : Type 0 where
  pub shared : S
  pub pc : ℕ → P

weigh-beyond :
    {P : Type 0} (w : P → ℕ) (i : ℕ) (p : P) (n : ℕ) (at : ℕ → P)
    → n ≤ i
    → weigh w n (moved_on at i p) ≡ weigh w n at
unfolding weigh
weigh-beyond w i p zero at h = refl
weigh-beyond w i p (suc n) at h =
    let rest = weigh-beyond w i p n at (omega arith) in
    let other : n ≢ i = λ e. omega arith in
    rw (if_neg (ℕ_discrete n i) other p (at n)) (ap (λ x. w (at n) + x) rest)

weigh-moved :
    {P : Type 0} (w : P → ℕ) (i : ℕ) (p : P) (n : ℕ) (at : ℕ → P)
    → i < n
    → weigh w n (moved_on at i p) + w (at i) ≡ weigh w n at + w p
unfolding weigh
weigh-moved w i p zero at h = omega arith
weigh-moved w i p (suc n) at h = elim (ℕ_discrete n i) [
  | yes same ↦
      let rest = weigh-beyond w i p n at (omega arith) in
      rw (if_pos (ℕ_discrete n i) same p (at n), rest, same) (omega arith)
  | no other ↦
      let rest = weigh-moved w i p n at (ground arith) in
      rw (if_neg (ℕ_discrete n i) other p (at n)) (omega arith)
]

-- `Move s p e t q`: a thread at `p` takes the state `s` to `t`, with the effect `e`, and is then at
-- `q`.
module _ {S P E : Type 0} (Move : S → P → E → S → P → Type 0) where
  -- A step of one of `n` threads; an index from `n` on names no thread.
  pub data Step (n : ℕ) (s : System S P) : E → System S P → Type 0 where
    pick :
        (i : ℕ) {e : E} {shared : S} {pc : P}
        → i < n
        → Move s.shared (s.pc i) e shared pc
        → Step n s e (record { shared = shared; pc = moved_on s.pc i pc })

  -- The steps of a run, and what they did, the first of them first.
  pub data Run (n : ℕ) : System S P → List E → System S P → Type 0 where
    stop : {s : System S P} → Run n s [] s
    first :
        {e : E} {es : List E} {s t u : System S P}
        → Step n s e t
        → Run n t es u
        → Run n s (e ∷ es) u

  -- Runs of the threads 0 and 1.
  pub data Duo : S → P → P → List E → S → P → P → Type 0 where
    settled : {s : S} {p q : P} → Duo s p q [] s p q
    left :
        {s t u : S} {p p' p'' q q'' : P} {e : E} {es : List E}
        → Move s p e t p'
        → Duo t p' q es u p'' q''
        → Duo s p q (e ∷ es) u p'' q''
    right :
        {s t u : S} {p p'' q q' q'' : P} {e : E} {es : List E}
        → Move s q e t q'
        → Duo t p q' es u p'' q''
        → Duo s p q (e ∷ es) u p'' q''

  -- Where no step changes what comes in and what stands, against what goes out and what stands then,
  -- no run does.
  pub Run-weigh :
      (w : P → ℕ) (came went : E → ℕ)
      → ((s t : S) (p q : P) (e : E) → Move s p e t q → came e + w p ≡ went e + w q)
      → {n : ℕ} {s t : System S P} {es : List E} → Run n s es t
      → total came es + weigh w n s.pc ≡ total went es + weigh w n t.pc
  unfolding total
  Run-weigh w came went balance stop = refl
  Run-weigh w came went balance {n} {s} (first (pick i {pc} lt mv) run) =
      let now = balance _ _ _ _ _ mv in
      let later = Run-weigh w came went balance run in omega (arith, weigh-moved w i pc n s.pc lt)

  pub append :
      {s t u : S} {p q p' q' p'' q'' : P} {es fs : List E}
      → Duo s p q es t p' q'
      → Duo t p' q' fs u p'' q''
      → Duo s p q (es ++ fs) u p'' q''
  append settled next = next
  append (left mv duo) next = left mv (append duo next)
  append (right mv duo) next = right mv (append duo next)

  pub Duo-Run :
      {s t : S} {p q p' q' : P} {es : List E}
      → Duo s p q es t p' q'
      → (at : ℕ → P) → at 0 ≡ p
      → at 1 ≡ q
      → (at' : ℕ → P) × (at' 0 ≡ p')
        × (at' 1 ≡ q')
        × Run 2 (record { shared = s; pc = at }) es (record { shared = t; pc = at' })
  unfolding ℕ_discrete
  Duo-Run settled at a b = (at, a, b, stop)
  Duo-Run {s} (left {t} {p'} {e} mv duo) at a b =
      let (at', a', b', run) = Duo-Run duo (moved_on at 0 p') refl b in
      let mv' = subst (λ x. Move s x e t p') (sym a) mv in
      (at', a', b', first (pick 0 (omega arith) mv') run)
  Duo-Run {s} (right {t} {q'} {e} mv duo) at a b =
      let (at', a', b', run) = Duo-Run duo (moved_on at 1 q') a refl in
      let mv' = subst (λ x. Move s x e t q') (sym b) mv in
      (at', a', b', first (pick 1 (omega arith) mv') run)
