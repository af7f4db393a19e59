-- ===== src/Layer/Context/Balance.antt =====
-- infrastructure/layer.rs, `extract_span_context`: how many of the names have a value.
use tracing_throttle.Prelude.{
  ℕ, suc, ◌+◌, ◌≡◌, refl, Bool-cases, inl, inr, true, false, arith, length, All, List, [], ◌∷◌,
  Option, none, some,
}
use tracing_throttle.Text.{Text, same_text, same_text_eq, same_text_refl, lookup, insert, contains}
use tracing_throttle.Text.Sets.{Distinct, same_text_sym}
use tracing_throttle.Text.Maps.{lookup-insert}
use tracing_throttle.Layer.Fields.{collect_found, collect_name, collect_span, collect_cached}

unfoldable pub one_missing : Option Text → ℕ
one_missing none = 1
one_missing (some v) = 0

-- How many names have no value yet.
unfoldable pub missing : List Text → List (Text × Text) → ℕ
unfolding one_missing
missing [] c = 0
missing (k ∷ ks) c = one_missing (lookup k c) + missing ks c

length-insert :
    (k v : Text) (c : List (Text × Text))
    → lookup k c ≡ none
    → length (insert k v c) ≡ suc (length c)
unfolding insert lookup
length-insert k v [] e = refl
length-insert k v ((j, w) ∷ c) e = ground (arith, length-insert k v c, e)

missing-insert_other :
    (k v : Text) (names : List Text) (c : List (Text × Text))
    → contains k names ≡ false
    → missing names (insert k v c) ≡ missing names c
unfolding missing one_missing contains
missing-insert_other k v [] c e = refl
missing-insert_other k v (j ∷ js) c e =
    ground (arith, missing-insert_other k v js c, lookup-insert k j v c, same_text_sym k j)

missing-insert :
    (k v : Text) (names : List Text) (c : List (Text × Text))
    → Distinct names
    → contains k names ≡ true
    → lookup k c ≡ none
    → suc (missing names (insert k v c)) ≡ missing names c
unfolding missing one_missing contains Distinct
missing-insert k v [] c distinct e f = cc
missing-insert k v (j ∷ js) c distinct e f = elim (Bool-cases (same_text j k)) [
  | inl h ↦
      let same = same_text_eq j k h in
      ground (
        arith,
        same,
        f,
        distinct,
        lookup-insert k j v c,
        same_text_refl k,
        missing-insert_other k v js c,
      )
  | inr h ↦
      ground (
        arith,
        h,
        e,
        missing-insert k v js c distinct.1,
        f,
        lookup-insert k j v c,
        same_text_sym k j,
      )
]

-- Each name either has a value among the collected fields or is missing.
unfoldable pub Balanced : List Text → List (Text × Text) → Type 0
Balanced names c = length c + missing names c ≡ length names

collect_found-Balanced :
    (k : Text) (names : List Text) (c : List (Text × Text)) (q : Option Text)
    → Distinct names
    → contains k names ≡ true
    → lookup k c ≡ none
    → Balanced names c
    → Balanced names (collect_found k q c)
unfolding collect_found Balanced
collect_found-Balanced k names c none distinct e f b = b
collect_found-Balanced k names c (some v) distinct e f b =
    omega (arith, missing-insert k v names c distinct e f, length-insert k v c f, b)

collect_name-Balanced :
    (k : Text) (names : List Text) (stored c : List (Text × Text)) (o : Option Text)
    → lookup k c ≡ o
    → Distinct names
    → contains k names ≡ true
    → Balanced names c
    → Balanced names (collect_name stored k o c)
unfolding collect_name
collect_name-Balanced k names stored c none f distinct e b =
    collect_found-Balanced k names c (lookup k stored) distinct e f b
collect_name-Balanced k names stored c (some v) f distinct e b = b

collect_span-Balanced :
    (ks names : List Text) (stored c : List (Text × Text))
    → Distinct names
    → All (λ k. contains k names ≡ true) ks
    → Balanced names c
    → Balanced names (collect_span stored ks c)
unfolding collect_span
collect_span-Balanced [] names stored c distinct h b = b
collect_span-Balanced (k ∷ ks) names stored c distinct h b =
    collect_span-Balanced ks names stored (collect_name stored k (lookup k c) c) distinct h.1
      (collect_name-Balanced k names stored c (lookup k c) refl distinct h.0 b)

contains_cons :
    (j : Text) (names ks : List Text)
    → All (λ k. contains k names ≡ true) ks
    → All (λ k. contains k (j ∷ names) ≡ true) ks
unfolding contains
contains_cons j names [] h = tt
contains_cons j names (k ∷ ks) h = (ground (arith, h.0), contains_cons j names ks h.1)

pub contains_self : (names : List Text) → All (λ k. contains k names ≡ true) names
unfolding contains
contains_self [] = tt
contains_self (k ∷ ks) =
    (ground (arith, same_text_refl k), contains_cons k ks ks (contains_self ks))

pub collect_cached-Balanced :
    (cached : Option (List (Text × Text))) (names : List Text) (c : List (Text × Text))
    → Distinct names
    → Balanced names c
    → Balanced names (collect_cached cached names c)
unfolding collect_cached
collect_cached-Balanced none names c distinct b = b
collect_cached-Balanced (some stored) names c distinct b =
    collect_span-Balanced names names stored c distinct (contains_self names) b

missing_none : (names : List Text) → missing names [] ≡ length names
unfolding missing one_missing lookup
missing_none [] = refl
missing_none (k ∷ ks) = omega (arith, missing_none ks)

pub none-Balanced : (names : List Text) → Balanced names []
unfolding Balanced
none-Balanced names = omega (arith, missing_none names)
