-- ===== src/Text/Extend.antt =====
-- Insertions one after the other, and the entries of one map that go into another.
use tracing_throttle.Prelude.{
  ◌≡◌, refl, sym, ap, ◌∙◌, Bool-cases, inl, inr, true, false, All-map, List, [], ◌∷◌, arith,
}
use tracing_throttle.Text.{Text, same_text, same_text_eq, same_text_refl, before, insert, extend}
use tracing_throttle.Text.Sets.{before_trans, before_irrefl, before_total}
use tracing_throttle.Text.Maps.{Ordered, insert-first}

before_asym : (a b : Text) → before a b ≡ true → before b a ≡ false
before_asym a b h = elim (Bool-cases (before b a)) [
  | inl k ↦ ground (arith, before_trans a b a h k, before_irrefl a)
  | inr k ↦ k
]

module _ {A : Type 0} where
  insert_twice :
      (k : Text) (v w : A) (m : List (Text × A)) → insert k v (insert k w m) ≡ insert k v m
  unfolding insert
  insert_twice k v w [] = ground (arith, same_text_refl k)
  insert_twice k v w ((j, u) ∷ m) = ground (arith, insert_twice k v w m, same_text_refl k)

  -- Two keys, the first before the second.
  insert_comm :
      (k j : Text) (v w : A) (m : List (Text × A))
      → before k j ≡ true
      → insert k v (insert j w m) ≡ insert j w (insert k v m)
  unfolding insert
  insert_comm k j v w [] h =
      ground (arith, h, before_asym k j h, before_irrefl k, same_text_eq j k, same_text_eq k j)
  insert_comm k j v w ((i, u) ∷ m) h = ground (
    arith,
    h,
    before_asym k j h,
    before_irrefl k,
    insert_comm k j v w m h,
    same_text_eq j k,
    same_text_eq k j,
    same_text_eq i k,
    same_text_eq i j,
    before_trans k j i h,
    before_total i k,
    before_asym k i,
  )

  pub insert_other :
      (k j : Text) (v w : A) (m : List (Text × A))
      → same_text k j ≡ false
      → insert k v (insert j w m) ≡ insert j w (insert k v m)
  insert_other k j v w m h = elim (Bool-cases (before k j)) [
    | inl b ↦ insert_comm k j v w m b
    | inr b ↦ sym (insert_comm j k w v m (before_total k j h b))
  ]

  pub extend-insert :
      (k : Text) (v : A) (m c : List (Text × A))
      → Ordered c
      → extend m (insert k v c) ≡ insert k v (extend m c)
  unfolding extend insert Ordered
  extend-insert k v m [] h = refl
  extend-insert k v m ((j, w) ∷ c) h =
      let rest : extend (insert j w m) (insert k v c) ≡ insert k v (extend (insert j w m) c) =
        extend-insert k v (insert j w m) c h.1 in
      elim (Bool-cases (same_text j k)) [
        | inl e ↦
            let same = same_text_eq j k e in
            let first : insert k v c ≡ (k, v) ∷ c = insert-first k v c (rw (sym same) h.0) in
            rw (e, insert)
              (ap (λ x. extend x c) (sym (insert_twice k v w m))
                ∙ sym (ap (extend (insert k w m)) first)
                ∙ extend-insert k v (insert k w m) c h.1
                ∙ ap (λ i. insert k v (extend (insert i w m) c)) (sym same))
        | inr e ↦ elim (Bool-cases (before k j)) [
          | inr b ↦ rw (e, b, insert) rest
          | inl b ↦
              let first : insert k v c ≡ (k, v) ∷ c =
                insert-first k v c (All-map c (λ i. before_trans k j i.0 b) h.0) in
              rw (e, b, insert)
                (ap (λ x. extend x c) (insert_other j k w v m e)
                  ∙ sym (ap (extend (insert j w m)) first)
                  ∙ rest)
        ]
      ]
