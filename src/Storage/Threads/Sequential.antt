-- ===== src/Storage/Threads/Sequential.antt =====
-- infrastructure/storage.rs: the accesses of several threads to one key, in the order of their
-- entries.
use mathlib.Core.Option
use mathlib.Core.Logic.{ite, if_pos, if_neg}
use Prim.Native.Nat.{ℕ}
use tracing_throttle.Prelude.{
  System, Run, stop, first, ◌≡◌, ◌≢◌, refl, ap, ◌∙◌, Option, none, some, List, [], ◌∷◌, map, All,
}
use tracing_throttle.Storage.Map.{DashMap, DashMapLaws}
use tracing_throttle.Storage.{StorageEntry}
use tracing_throttle.Storage.Threads.{
  Calls, Pc, Effect, quiet, gone, accessed, Shared, Sampling, Move,
}
use tracing_throttle.Storage.Threads.Atomic.{apply, Answers, view, Step-apply}

module _ {K V R : Type 0} (dec : Discrete K) (calls : Calls K V R) where
  open calls use {Call, key, fresh, accessor}

  -- The accesses to a key, with their results.
  unfoldable pub accesses : K → List (Effect calls) → List (Call × R)
  accesses k [] = []
  accesses k (quiet ∷ es) = accesses k es
  accesses k (gone j ∷ es) = accesses k es
  accesses k (accessed c r ∷ es) = ite (dec (key c) k) ((c, r) ∷ accesses k es) (accesses k es)

  -- An effect that does not remove the key.
  unfoldable pub Keeps : K → Effect calls → Type 0
  Keeps k quiet = Unit
  Keeps k (gone j) = j ≢ k
  Keeps k (accessed c r) = Unit

  -- The results of calls on a value, one call after the other, and the value that they leave.
  unfoldable pub results : Option V → List Call → List R
  results o [] = []
  results o (c ∷ cs) =
      let (v, r) = accessor c (Option.get_or o (fresh c)) in r ∷ results (some v) cs

  unfoldable pub left : Option V → List Call → Option V
  left o [] = o
  left o (c ∷ cs) = left (some (accessor c (Option.get_or o (fresh c))).0) cs

  -- The accesses to a key give these results and leave this value.
  unfoldable pub InTurn : K → Option V → Option V → List (Effect calls) → Type 0
  unfolding accesses results left
  InTurn k before after es =
      (map (λ a. a.1) (accesses k es) ≡ results before (map (λ a. a.0) (accesses k es)))
      × (after ≡ left before (map (λ a. a.0) (accesses k es)))

  one-InTurn :
      (c : Call) (r : R) (o n after : Option V) (l : List (Call × R))
      → r ≡ (accessor c (Option.get_or o (fresh c))).1
      → n ≡ some (accessor c (Option.get_or o (fresh c))).0
      → (map (λ a. a.1) l ≡ results n (map (λ a. a.0) l)) × (after ≡ left n (map (λ a. a.0) l))
      → (map (λ a. a.1) ((c, r) ∷ l) ≡ results o (map (λ a. a.0) ((c, r) ∷ l)))
        × (after ≡ left o (map (λ a. a.0) ((c, r) ∷ l)))
  unfolding results left
  one-InTurn c r o n after l answer value ih =
      let cs = map (λ (a : Call × R). a.0) l in
      (
        ap (λ x. x ∷ map (λ a. a.1) l) answer
            ∙ ap (λ rs. (accessor c (Option.get_or o (fresh c))).1 ∷ rs)
                (ih.0 ∙ ap (λ v. results v cs) value),
        ih.1 ∙ ap (λ v. left v cs) value,
      )

  pub cons-InTurn :
      (k : K) (e : Effect calls) (es : List (Effect calls)) (before now : K → Option V)
      (after : Option V)
      → ((j : K) → now j ≡ apply dec calls e before j)
      → Answers dec calls e before
      → Keeps k e
      → InTurn k (now k) after es
      → InTurn k (before k) after (e ∷ es)
  unfolding apply Answers Keeps InTurn accesses
  cons-InTurn k quiet es before now after step answers keeps ih = rw (← step k) ih
  cons-InTurn k (gone j) es before now after step answers keeps ih =
      let same : now k ≡ before k = step k ∙ if_neg (dec j k) keeps none (before k) in
      rw (← same) ih
  cons-InTurn k (accessed c r) es before now after step answers keeps ih = elim (dec (key c) k) [
    | yes e ↦
        let o = λ (j : K). Option.get_or (before j) (fresh c) in
        let value : now k ≡ some (accessor c (o k)).0 =
          step k
          ∙ if_pos (dec (key c) k) e (some (accessor c (o (key c))).0) (before k)
          ∙ ap (λ j. some (accessor c (o j)).0) e in
        rw (if_pos (dec (key c) k) e ((c, r) ∷ accesses k es) (accesses k es)) (
          one-InTurn c r (before k) (now k) after (accesses k es)
            (answers ∙ ap (λ j. (accessor c (o j)).1) e) value ih)
    | no ne ↦
        let same : now k ≡ before k = step k ∙ if_neg (dec (key c) k) ne _ (before k) in
        rw (if_neg (dec (key c) k) ne ((c, r) ∷ accesses k es) (accesses k es)) (rw (← same) ih)
  ]

  module _ (m : DashMap K (StorageEntry V)) (l : DashMapLaws dec m) (Sample : Sampling m) where
    -- Whatever the threads do, and in whatever order: the accesses to a key that no step removes
    -- give, in the order in which they enter, what they would give one after the other, and leave
    -- the value that they would leave.
    pub Run-InTurn :
        {n : ℕ} {s t : System (Shared m) (Pc calls)} {es : List (Effect calls)} (k : K)
        → Run (Move calls m Sample) n s es t
        → All (Keeps k) es
        → InTurn k (view dec calls m l Sample s.shared k) (view dec calls m l Sample t.shared k) es
    unfolding InTurn accesses results left
    Run-InTurn k stop h = (refl, refl)
    Run-InTurn k (first {e} {es} st r) h =
        let (same, answers) = Step-apply dec calls m l Sample st in
        cons-InTurn k e es _ _ _ same answers h.0 (Run-InTurn k r h.1)
