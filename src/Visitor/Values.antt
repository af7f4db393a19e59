-- ===== src/Visitor/Values.antt =====
-- infrastructure/visitor.rs: a visit is a sequence of insertions.
use tracing_throttle.Prelude.{◌≡◌, refl, sym, ap, ◌∙◌, List, [], ◌∷◌, ◌++◌}
use tracing_throttle.Text.{Text, insert, extend}
use tracing_throttle.Text.Maps.{Ordered, insert-Ordered}
use tracing_throttle.Text.Extend.{extend-insert}
use tracing_throttle.Visitor.{
  Printing, Value, FieldVisitor, new, visit, visit_value, into_fields, collected, i64_text,
  u64_text, bool_text,
}

module _ (t : Printing) where
  unfoldable pub value_text : Value t → Text
  unfolding visit_value
  value_text (Value.f64_value x) = t.float_text x
  value_text (Value.i64_value x) = i64_text x
  value_text (Value.u64_value x) = u64_text x
  value_text (Value.bool_value x) = bool_text x
  value_text (Value.str_value x) = x
  value_text (Value.error_value x) = t.error_text x
  value_text (Value.debug_value x) = t.debug_text x

  visit_value-insert :
      (visitor : FieldVisitor) (k : Text) (v : Value t)
      → visit_value t visitor k v ≡ record { fields = insert k (value_text v) visitor.fields }
  unfolding visit_value value_text
  visit_value-insert visitor k (Value.f64_value x) = refl
  visit_value-insert visitor k (Value.i64_value x) = refl
  visit_value-insert visitor k (Value.u64_value x) = refl
  visit_value-insert visitor k (Value.bool_value x) = refl
  visit_value-insert visitor k (Value.str_value x) = refl
  visit_value-insert visitor k (Value.error_value x) = refl
  visit_value-insert visitor k (Value.debug_value x) = refl

  unfoldable pub insert_values : List (Text × Value t) → List (Text × Text) → List (Text × Text)
  insert_values [] m = m
  insert_values ((k, v) ∷ values) m = insert_values values (insert k (value_text v) m)

  pub visit-insert_values :
      (values : List (Text × Value t)) (visitor : FieldVisitor)
      → (visit t visitor values).fields ≡ insert_values values visitor.fields
  unfolding visit insert_values
  visit-insert_values [] visitor = refl
  visit-insert_values ((k, v) ∷ values) visitor =
      visit-insert_values values (visit_value t visitor k v)
      ∙ ap (λ x. insert_values values x.fields) (visit_value-insert visitor k v)

  pub insert_values-append :
      (vs ws : List (Text × Value t)) (m : List (Text × Text))
      → insert_values (vs ++ ws) m ≡ insert_values ws (insert_values vs m)
  unfolding insert_values
  insert_values-append [] ws m = refl
  insert_values-append ((k, v) ∷ vs) ws m = insert_values-append vs ws (insert k (value_text v) m)

  extend-insert_values :
      (ws : List (Text × Value t)) (m c : List (Text × Text))
      → Ordered c
      → extend m (insert_values ws c) ≡ insert_values ws (extend m c)
  unfolding insert_values
  extend-insert_values [] m c h = refl
  extend-insert_values ((k, v) ∷ ws) m c h =
      extend-insert_values ws m (insert k (value_text v) c) (insert-Ordered k (value_text v) c h)
      ∙ ap (insert_values ws) (extend-insert k (value_text v) m c h)

  -- What is visited later goes into what was visited before.
  pub collected-append :
      (vs ws : List (Text × Value t))
      → collected t (vs ++ ws) ≡ extend (collected t vs) (collected t ws)
  unfolding collected into_fields new Ordered extend
  collected-append vs ws =
      visit-insert_values (vs ++ ws) new
      ∙ insert_values-append vs ws []
      ∙ ap (insert_values ws) (sym (visit-insert_values vs new))
      ∙ sym (extend-insert_values ws (visit t new vs).fields [] tt)
      ∙ ap (extend (visit t new vs).fields) (sym (visit-insert_values ws new))
