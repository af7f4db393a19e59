-- ===== src/Text/Sets.antt =====
-- The laws of the sets: the order of texts, and that no element comes twice.
use tracing_throttle.Prelude.{
  ◌≡◌, refl, ◌∙◌, Bool-cases, inl, inr, true, false, All, All-map, List, [], ◌∷◌, arith,
  if◌then◌else◌,
}
use tracing_throttle.Text.{Text, same_text, same_text_eq, before, contains, add, add_all, collect}

-- No element comes twice.
unfoldable pub Distinct : List Text → Type 0
Distinct [] = Unit
Distinct (k ∷ ks) = (contains k ks ≡ false) × Distinct ks

unfoldable Sorted : List Text → Type 0
Sorted [] = Unit
Sorted (k ∷ ks) = All (λ j. before k j ≡ true) ks × Sorted ks

pub same_text_sym : (a b : Text) → same_text a b ≡ same_text b a
unfolding same_text
same_text_sym [] [] = refl
same_text_sym [] (b ∷ bs) = refl
same_text_sym (a ∷ as') [] = refl
same_text_sym (a ∷ as') (b ∷ bs) = ground (arith, same_text_sym as' bs)

pub before_trans : (a b c : Text) → before a b ≡ true → before b c ≡ true → before a c ≡ true
unfolding before
before_trans a b [] h k = cc
before_trans a [] (z ∷ c) h k = cc
before_trans [] (y ∷ b) (z ∷ c) h k = refl
before_trans (x ∷ a) (y ∷ b) (z ∷ c) h k = ground (arith, before_trans a b c, h, k)

pub before_irrefl : (a : Text) → before a a ≡ false
unfolding before
before_irrefl [] = refl
before_irrefl (x ∷ a) = ground (arith, before_irrefl a)

pub before_total : (a b : Text) → same_text a b ≡ false → before a b ≡ false → before b a ≡ true
unfolding before same_text
before_total [] [] h k = cc
before_total [] (y ∷ b) h k = cc
before_total (x ∷ a) [] h k = refl
before_total (x ∷ a) (y ∷ b) h k = ground (arith, before_total a b, h, k)

add-All :
    (k j : Text) (s : List Text)
    → before j k ≡ true
    → All (λ i. before j i ≡ true) s
    → All (λ i. before j i ≡ true) (add k s)
unfolding add
add-All k j [] h hs = (h, tt)
add-All k j (i ∷ s) h hs = ground (arith, add-All k j s h, h, hs)

add-Sorted : (k : Text) (s : List Text) → Sorted s → Sorted (add k s)
unfolding add Sorted
add-Sorted k [] h = (tt, tt)
add-Sorted k (j ∷ s) h = elim (Bool-cases (same_text j k)) [
  | inl e ↦ rw (e, add) h
  | inr e ↦ elim (Bool-cases (before k j)) [
    | inl b ↦ rw (e, b, add) ((b, All-map s (λ i. before_trans k j i b) h.0), h)
    | inr b ↦
        rw (e, b, add)
          (add-All k j s (before_total k j (same_text_sym k j ∙ e) b) h.0, add-Sorted k s h.1)
  ]
]

before-contains : (k : Text) (s : List Text) → All (λ j. before k j ≡ true) s → contains k s ≡ false
unfolding contains
before-contains k [] h = refl
before-contains k (j ∷ s) h =
    ground (arith, before-contains k s h.1, h.0, same_text_eq j k, before_irrefl k)

Sorted-Distinct : (s : List Text) → Sorted s → Distinct s
unfolding Sorted Distinct
Sorted-Distinct [] h = tt
Sorted-Distinct (k ∷ ks) h = (before-contains k ks h.0, Sorted-Distinct ks h.1)

add_all-Sorted : (s ks : List Text) → Sorted s → Sorted (add_all s ks)
unfolding add_all
add_all-Sorted s [] h = h
add_all-Sorted s (k ∷ ks) h = add_all-Sorted (add k s) ks (add-Sorted k s h)

pub collect-Distinct : (ks : List Text) → Distinct (collect ks)
unfolding collect Sorted
collect-Distinct ks = Sorted-Distinct (collect ks) (add_all-Sorted [] ks tt)

contains-add :
    (k n : Text) (s : List Text)
    → contains n (add k s) ≡ (if same_text k n then true else contains n s)
unfolding contains add
contains-add k n [] = refl
contains-add k n (j ∷ s) = ground (arith, contains-add k n s, same_text_eq j k)

contains-add_all :
    (n : Text) (s ks : List Text)
    → contains n (add_all s ks) ≡ (if contains n s then true else contains n ks)
unfolding contains add_all
contains-add_all n s [] = ground arith
contains-add_all n s (k ∷ ks) = ground (arith, contains-add_all n (add k s) ks, contains-add k n s)

pub contains-collect : (n : Text) (ks : List Text) → contains n (collect ks) ≡ contains n ks
unfolding collect contains
contains-collect n ks = contains-add_all n [] ks
