-- ===== src/Tests/Logs.antt =====
-- The map, with numbers for keys, as the log of its insertions: the last one of a key counts.
use mathlib.Core.Logic.{ite}
use native.Mathlib.Decide.{ℕ_discrete}
use tracing_throttle.Prelude.{
  ℕ, suc, ◌≡◌, ◌==◌, refl, sym, ap, ◌∙◌, Option, none, some, List, [], ◌∷◌, length, All, All-map,
  arith, if◌then◌else◌,
}
use tracing_throttle.Storage.Map.{DashMap, DashMapLaws, visit, settle}

module _ {W : Type 0} where
  unfoldable pub get : List (ℕ × W) → ℕ → Option W
  get [] j = none
  get ((k, w) ∷ t) j = let rest = get t j in if k == j then some w else rest

  unfoldable pub without : ℕ → List (ℕ × W) → List (ℕ × W)
  without k [] = []
  without k ((j, w) ∷ t) = let rest = without k t in if j == k then rest else (j, w) ∷ rest

  unfoldable pub iter : List (ℕ × W) → List (ℕ × W)
  unfolding without
  iter [] = []
  iter ((k, w) ∷ t) = (k, w) ∷ without k (iter t)

  get-without :
      (k j : ℕ) (t : List (ℕ × W)) → get (without k t) j ≡ (if k == j then none else get t j)
  unfolding get without
  get-without k j [] = ground arith
  get-without k j ((i, w) ∷ t) = ground (arith, get-without k j t)

  get-iter : (t : List (ℕ × W)) (j : ℕ) → get (iter t) j ≡ get t j
  unfolding get iter
  get-iter [] j = refl
  get-iter ((k, w) ∷ t) j = ground (arith, get-iter t j, get-without k j (iter t))

  without-absent : (k : ℕ) (t : List (ℕ × W)) → get t k ≡ none → without k t ≡ t
  unfolding get without
  without-absent k [] h = refl
  without-absent k ((j, w) ∷ t) h = ground (arith, without-absent k t, h)

  Once : List (ℕ × W) → Type 0
  Once [] = Unit
  Once ((k, w) ∷ t) = (get t k ≡ none) × Once t

  without-Once : (k : ℕ) (t : List (ℕ × W)) → Once t → Once (without k t)
  unfolding Once without
  without-Once k [] h = tt
  without-Once k ((j, w) ∷ t) h = ground (arith, without-Once k t h.1, get-without k j t, h)

  iter-Once : (t : List (ℕ × W)) → Once (iter t)
  unfolding Once iter
  iter-Once [] = tt
  iter-Once ((k, w) ∷ t) =
      (ground (arith, get-without k k (iter t)), without-Once k (iter t) (iter-Once t))

  length-without :
      (k : ℕ) (v : W) (t : List (ℕ × W))
      → Once t
      → get t k ≡ some v
      → suc (length (without k t)) ≡ length t
  unfolding Once get without
  length-without k v [] h e = cc
  length-without k v ((j, w) ∷ t) h e =
      ground (arith, length-without k v t h.1, without-absent k t, h, e)

  without_comm : (j k : ℕ) (t : List (ℕ × W)) → without j (without k t) ≡ without k (without j t)
  unfolding without
  without_comm j k [] = refl
  without_comm j k ((i, w) ∷ t) = ground (arith, without_comm j k t)

  without_twice : (k : ℕ) (t : List (ℕ × W)) → without k (without k t) ≡ without k t
  unfolding without
  without_twice k [] = refl
  without_twice k ((i, w) ∷ t) = ground (arith, without_twice k t)

  iter-without : (k : ℕ) (t : List (ℕ × W)) → iter (without k t) ≡ without k (iter t)
  unfolding iter without
  iter-without k [] = refl
  iter-without k ((j, w) ∷ t) =
      ground (arith, iter-without k t, without_comm j k (iter t), without_twice k (iter t))

  Once-get : (t : List (ℕ × W)) → Once t → All (λ e. get t e.0 ≡ some e.1) t
  unfolding Once get
  Once-get [] h = tt
  Once-get ((k, w) ∷ t) h =
      (ground arith, All-map t (λ e found. ground (arith, found, h.0)) (Once-get t h.1))

abbrev bare : (W : Type 0) → DashMap ℕ W
bare W = record {
  Table = List (ℕ × W);
  empty = [];
  get = get;
  insert = λ t k w. (k, w) ∷ t;
  remove = λ t k. without k t;
  len = λ t. length (iter t);
  iter = iter;
  retain = λ f s t. (s, t);
}

abbrev pub logged : (W : Type 0) → DashMap ℕ W
logged W = record (bare W) { retain = λ f s t. visit (bare W) f s (iter t) t }

visit-bare :
    (W : Type 0) {S : Type 0} (f : S → ℕ → W → S × Option W) (s : S) (es : List (ℕ × W))
    (t : List (ℕ × W))
    → visit (bare W) f s es t ≡ visit (logged W) f s es t
unfolding visit settle
visit-bare W f s [] t = refl
visit-bare W f s ((k, w) ∷ es) t =
    let (s', o) = f s k w in
    ap (λ t'. visit (bare W) f s' es t') (settle-bare t k o) ∙ visit-bare W f s' es _
  where
    settle-bare :
        (t' : List (ℕ × W)) (k' : ℕ) (o' : Option W)
        → settle (bare W) f t' k' o' ≡ settle (logged W) f t' k' o'
    settle-bare t' k' none = refl
    settle-bare t' k' (some v) = refl

ite-discrete :
    {A : Type 0} (k j : ℕ) (a b : A) → (if k == j then a else b) ≡ ite (ℕ_discrete k j) a b
ite-discrete k j a b = elim (ℕ_discrete k j) [
  | yes e ↦ ground (arith, e)
  | no ne ↦ ground (arith, ne)
]

pub logged-Laws : (W : Type 0) → DashMapLaws ℕ_discrete (logged W)
unfolding get iter
logged-Laws W = record {
  get-empty = λ k. refl;
  get-insert = λ t k j w. ite-discrete k j (some w) (get t j);
  get-remove = λ t k j. get-without k j t ∙ ite-discrete k j none (get t j);
  len-empty = refl;
  len-insert_new = λ t k w h. inserted_new t k w h;
  len-insert_old = λ t k w w' h. inserted_old t k w w' h;
  len-remove = λ t k w h.
      ap (λ l. suc (length l)) (iter-without k t)
      ∙ length-without k w (iter t) (iter-Once t) (get-iter t k ∙ h);
  length-iter = λ t. refl;
  iter-get = λ t.
      All-map (iter t) (λ e found. sym (get-iter t e.0) ∙ found) (Once-get (iter t) (iter-Once t));
  retain-visit = λ f s t. visit-bare W f s (iter t) t;
}
  where
    inserted_new :
        (t : List (ℕ × W)) (k : ℕ) (w : W)
        → get t k ≡ none
        → length (iter ((k, w) ∷ t)) ≡ suc (length (iter t))
    inserted_new t k w h = ap (λ l. suc (length l)) (without-absent k (iter t) (get-iter t k ∙ h))

    inserted_old :
        (t : List (ℕ × W)) (k : ℕ) (w w' : W)
        → get t k ≡ some w'
        → length (iter ((k, w) ∷ t)) ≡ length (iter t)
    inserted_old t k w w' h = length-without k w' (iter t) (iter-Once t) (get-iter t k ∙ h)
