-- ===== src/Text.antt =====
-- `str` as its bytes, and the standard library's `BTreeMap` with text for keys: its entries in
-- order.
pub mod Maps
pub mod Sets
pub mod Extend
use Prim.Native.Nat.{compare, Ordering}
use Prim.Native.String.{String}
use Prim.Native.Char.{code}
use tracing_throttle.Prelude.{
  ℕ, ◌≡◌, refl, ◌↔◌, Bool, true, false, List, [], ◌∷◌, Option, none, some, arith, if◌then◌else◌,
  ◌==◌,
}

abbrev pub Text : Type 0
Text = List ℕ

-- The text of an ASCII literal.
abbrev pub codes : String → Text
codes String.[] = []
codes (String.◌∷◌ c s) = code c ∷ codes s

unfoldable pub same_text : Text → Text → Bool
same_text [] [] = true
same_text [] (b ∷ bs) = false
same_text (a ∷ as') [] = false
same_text (a ∷ as') (b ∷ bs) = let rest = same_text as' bs in if a == b then rest else false

-- The order of bytes, the first that differs deciding.
unfoldable pub before : Text → Text → Bool
before as' [] = false
before [] (b ∷ bs) = true
before (a ∷ as') (b ∷ bs) =
    let rest = before as' bs in
    elim (compare a b) [ Ordering.lt ↦ true | Ordering.eq ↦ rest | Ordering.gt ↦ false ]

pub same_text_refl : (a : Text) → same_text a a ≡ true
unfolding same_text
same_text_refl [] = refl
same_text_refl (a ∷ as') = ground (arith, same_text_refl as')

pub same_text_eq : (a b : Text) → same_text a b ≡ true → a ≡ b
unfolding same_text
same_text_eq [] [] h = refl
same_text_eq [] (b ∷ bs) h = cc
same_text_eq (a ∷ as') [] h = cc
same_text_eq (a ∷ as') (b ∷ bs) h = ground (arith, same_text_eq as' bs)

module _ {ℓ} {A : Type ℓ} where
  unfoldable pub lookup : Text → List (Text × A) → Option A
  lookup k [] = none
  lookup k ((j, v) ∷ m) = let rest = lookup k m in if same_text j k then some v else rest

  unfoldable pub insert : Text → A → List (Text × A) → List (Text × A)
  insert k v [] = (k, v) ∷ []
  insert k v ((j, w) ∷ m) =
      let rest = insert k v m in
      if same_text j k
      then (k, v) ∷ m
      else if before k j
      then (k, v) ∷ (j, w) ∷ m
      else (j, w) ∷ rest

  -- The entries of the second map go into the first.
  unfoldable pub extend : List (Text × A) → List (Text × A) → List (Text × A)
  extend m [] = m
  extend m ((k, v) ∷ more) = extend (insert k v m) more

-- `BTreeSet`.
unfoldable pub contains : Text → List Text → Bool
contains k [] = false
contains k (j ∷ s) = let rest = contains k s in if same_text j k then true else rest

unfoldable pub add : Text → List Text → List Text
add k [] = k ∷ []
add k (j ∷ s) =
    let rest = add k s in
    if same_text j k then j ∷ s else if before k j then k ∷ j ∷ s else j ∷ rest

unfoldable pub add_all : List Text → List Text → List Text
unfolding add
add_all s [] = s
add_all s (k ∷ ks) = add_all (add k s) ks

-- `collect` into the set.
unfoldable pub collect : List Text → List Text
unfolding add_all
collect ks = add_all [] ks
