-- ===== src/Eviction/Oldest.antt =====
-- infrastructure/eviction: which candidate the policies select.
use mathlib.Core.List.{append-nil, append_assoc}
use tracing_throttle.Prelude.{
  ℕ, ◌≤◌, ◌<◌, ◌≡◌, ◌≢◌, refl, inl, inr, ◌⊎◌, Bool-cases, ltb→lt, Option, none, some, List, [], ◌∷◌,
  ◌++◌, ltb, arith, All, All-append, All-map, All-middle,
}
use tracing_throttle.Eviction.Port.{EvictionCandidate, selected}
use tracing_throttle.Eviction.{min_from, min_by_key, victim_key, select_oldest, select_lowest}

-- `x` is the first of the least elements of the list.
pub record FirstLeast {A : Type 0} (key : A → ℕ) (xs : List A) (x : A) : Type 0 where
  pub front : List A
  pub back : List A
  pub place : xs ≡ front ++ (x ∷ back)
  pub above : All (λ y. key x < key y) front
  pub not_below : All (λ y. key x ≤ key y) back

module _ {A : Type 0} (key : A → ℕ) where
  abbrev total : A → Option ℕ
  total a = some (key a)

  min_from-FirstLeast :
      (front : List A) (best : A) (mid xs : List A)
      → All (λ y. key best < key y) front
      → All (λ y. key best ≤ key y) mid
      → (x : A) × (min_from total best (key best) xs ≡ selected (some x))
        × FirstLeast key (front ++ (best ∷ (mid ++ xs))) x
  unfolding min_from
  min_from-FirstLeast front best mid [] a b = (
    best,
    refl,
    record { front = front; back = mid; place = simp append-nil; above = a; not_below = b },
  )
  min_from-FirstLeast front best mid (y ∷ ys) a b = elim (Bool-cases (ltb (key y) (key best))) [
    | inl less ↦
        let (x, found, least) =
          min_from-FirstLeast (front ++ (best ∷ mid)) y [] ys
            (All-append _ front (best ∷ mid)
              (All-map front (λ z h. omega (arith, ltb→lt _ _ less)) a)
              (ltb→lt _ _ less, All-map mid (λ z h. omega (arith, ltb→lt _ _ less)) b))
            tt in
        (x, rw less found, rw (append_assoc front (best ∷ mid)) at least)
    | inr more ↦
        let (x, found, least) =
          min_from-FirstLeast front best (mid ++ y ∷ []) ys a
            (All-append _ mid (y ∷ []) b (ground arith, tt)) in
        (x, rw more found, rw (append_assoc mid (y ∷ [])) at least)
  ]

  min_by_key-FirstLeast :
      (x : A) (xs : List A)
      → (y : A) × (min_by_key total (x ∷ xs) ≡ selected (some y)) × FirstLeast key (x ∷ xs) y
  unfolding min_by_key
  min_by_key-FirstLeast x xs = min_from-FirstLeast [] x [] xs tt tt

module _ {K V : Type 0} where
  -- The least recently used candidate is selected: of several, the first. Only of no candidates
  -- none is.
  pub select_oldest-FirstLeast :
      (cs : List (EvictionCandidate K V))
      → ((cs ≡ []) × (select_oldest cs ≡ selected none))
        ⊎ ((c : EvictionCandidate K V) × (select_oldest cs ≡ selected (some c.key))
            × FirstLeast (λ d. d.last_access) cs c)
  unfolding select_oldest victim_key
  select_oldest-FirstLeast [] = inl (refl, refl)
  select_oldest-FirstLeast (c ∷ cs) =
      let (d, found, least) = min_by_key-FirstLeast (λ e. e.last_access) c cs in
      inr (d, rw found, least)

  -- Of a priority function that does not panic, the candidate of lowest priority is selected: of
  -- several, the first. Only of no candidates none is.
  pub select_lowest-FirstLeast :
      (rank : K → V → ℕ) (cs : List (EvictionCandidate K V))
      → ((cs ≡ []) × (select_lowest (λ k v. some (rank k v)) cs ≡ selected none))
        ⊎ ((c : EvictionCandidate K V) × (select_lowest (λ k v. some (rank k v)) cs
              ≡ selected (some c.key))
            × FirstLeast (λ d. rank d.key d.value) cs c)
  unfolding select_lowest victim_key
  select_lowest-FirstLeast rank [] = inl (refl, refl)
  select_lowest-FirstLeast rank (c ∷ cs) =
      let (d, found, least) = min_by_key-FirstLeast (λ e. rank e.key e.value) c cs in
      inr (d, rw found, least)

  -- So a selection has whatever its candidates all have.
  pub select_oldest-All :
      (cs : List (EvictionCandidate K V)) (P : K → Type 0)
      → All (λ c. P c.key) cs
      → cs ≢ []
      → (k : K) × (select_oldest cs ≡ selected (some k)) × P k
  select_oldest-All cs P h some_there = elim (select_oldest-FirstLeast cs) [
    | inl (empty, _) ↦ absurd (some_there empty)
    | inr (c, found, least) ↦
        (c.key, found, All-middle (λ d. P d.key) least.front c least.back (rw least.place at h))
  ]

  pub select_lowest-All :
      (rank : K → V → ℕ) (cs : List (EvictionCandidate K V)) (P : K → Type 0)
      → All (λ c. P c.key) cs
      → cs ≢ []
      → (k : K) × (select_lowest (λ k v. some (rank k v)) cs ≡ selected (some k)) × P k
  select_lowest-All rank cs P h some_there = elim (select_lowest-FirstLeast rank cs) [
    | inl (empty, _) ↦ absurd (some_there empty)
    | inr (c, found, least) ↦
        (c.key, found, All-middle (λ d. P d.key) least.front c least.back (rw least.place at h))
  ]
