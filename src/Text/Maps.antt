-- ===== src/Text/Maps.antt =====
-- The laws of the maps.
use tracing_throttle.Prelude.{
  ◌≡◌, refl, sym, ◌∙◌, Bool-cases, inl, inr, true, List, [], ◌∷◌, some, arith, All, All-map,
  if◌then◌else◌,
}
use tracing_throttle.Text.{Text, same_text, same_text_eq, same_text_refl, before, lookup, insert}
use tracing_throttle.Text.Sets.{same_text_sym, before_trans, before_irrefl, before_total}

module _ {ℓ} {A : Type ℓ} where
  pub lookup-insert :
      (k j : Text) (v : A) (m : List (Text × A))
      → lookup j (insert k v m) ≡ (if same_text k j then some v else lookup j m)
  unfolding lookup insert
  lookup-insert k j v [] = refl
  lookup-insert k j v ((i, w) ∷ m) = ground (
    arith,
    lookup-insert k j v m,
    same_text_eq i k,
    same_text_eq k j,
    same_text_eq i j,
    same_text_refl k,
    same_text_refl j,
  )

  pub lookup-insert_self :
      (k : Text) (v : A) (m : List (Text × A)) → lookup k (insert k v m) ≡ some v
  lookup-insert_self k v m = rw (lookup-insert k k v m, same_text_refl k)

  -- The keys rise.
  unfoldable pub Ordered : List (Text × A) → Type 0
  Ordered [] = Unit
  Ordered ((k, v) ∷ m) = All (λ e. before k e.0 ≡ true) m × Ordered m

  insert-All :
      (k j : Text) (v : A) (m : List (Text × A))
      → before j k ≡ true
      → All (λ e. before j e.0 ≡ true) m
      → All (λ e. before j e.0 ≡ true) (insert k v m)
  unfolding insert
  insert-All k j v [] h hs = (h, tt)
  insert-All k j v ((i, w) ∷ m) h hs = ground (arith, insert-All k j v m h, h, hs)

  pub insert-Ordered : (k : Text) (v : A) (m : List (Text × A)) → Ordered m → Ordered (insert k v m)
  unfolding insert Ordered
  insert-Ordered k v [] h = (tt, tt)
  insert-Ordered k v ((j, w) ∷ m) h = elim (Bool-cases (same_text j k)) [
    | inl e ↦ rw (e, insert) (rw (sym (same_text_eq j k e)) h.0, h.1)
    | inr e ↦ elim (Bool-cases (before k j)) [
      | inl b ↦ rw (e, b, insert) ((b, All-map m (λ i. before_trans k j i.0 b) h.0), h)
      | inr b ↦
          rw (e, b, insert)
            (
              insert-All k j v m (before_total k j (same_text_sym k j ∙ e) b) h.0,
              insert-Ordered k v m h.1,
            )
    ]
  ]

  -- A key before all others comes first.
  pub insert-first :
      (k : Text) (v : A) (m : List (Text × A))
      → All (λ e. before k e.0 ≡ true) m
      → insert k v m ≡ (k, v) ∷ m
  unfolding insert
  insert-first k v [] h = refl
  insert-first k v ((j, w) ∷ m) h = ground (arith, h.0, before_irrefl k, same_text_eq j k)
