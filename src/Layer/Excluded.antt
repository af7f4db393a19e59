-- ===== src/Layer/Excluded.antt =====
-- infrastructure/layer.rs: what the fields that are excluded change.
use tracing_throttle.Prelude.{
  ℕ, ◌≡◌, refl, sym, ap, ◌∙◌, Bool-cases, inl, inr, true, false, arith, if◌then◌else◌, List, [],
  ◌∷◌, All, All-map, Instant,
}
use tracing_throttle.Text.{Text, same_text_eq, before, insert, extend, contains}
use tracing_throttle.Text.Sets.{before_trans}
use tracing_throttle.Text.Maps.{Ordered, insert-Ordered, insert-first}
use tracing_throttle.Visitor.{Printing, Value, new, into_fields, collected}
use tracing_throttle.Visitor.Values.{value_text, insert_values, visit-insert_values}
use tracing_throttle.Policy.Float.{F64}
use tracing_throttle.Signature.{EventSignature}
use tracing_throttle.Metadata.{EventMetadata}
use tracing_throttle.Registry.{EventState}
use tracing_throttle.Ports.{Storage}
use tracing_throttle.Layer.{
  TracingRateLimitLayer, Event, event_signature, combined_fields, compute_signature,
}
use tracing_throttle.Layer.Fields.{exclude, is_empty, extract_span_context, extract_event_fields}

exclude-insert :
    (excluded : List Text) (k v : Text) (m : List (Text × Text))
    → contains k excluded ≡ true
    → exclude excluded (insert k v m) ≡ exclude excluded m
unfolding exclude insert
exclude-insert excluded k v [] e = ground (arith, e)
exclude-insert excluded k v ((j, w) ∷ m) e =
    ground (arith, e, exclude-insert excluded k v m e, same_text_eq j k)

exclude-All :
    (excluded : List Text) (k : Text) (m : List (Text × Text))
    → All (λ e. before k e.0 ≡ true) m
    → All (λ e. before k e.0 ≡ true) (exclude excluded m)
unfolding exclude
exclude-All excluded k [] h = tt
exclude-All excluded k ((j, w) ∷ m) h = ground (arith, exclude-All excluded k m, h)

exclude-Ordered :
    (excluded : List Text) (m : List (Text × Text)) → Ordered m → Ordered (exclude excluded m)
unfolding exclude Ordered
exclude-Ordered excluded [] h = tt
exclude-Ordered excluded ((j, w) ∷ m) h =
    ground (arith, exclude-All excluded j m h.0, exclude-Ordered excluded m h.1)

exclude-insert_kept :
    (excluded : List Text) (k v : Text) (m : List (Text × Text))
    → Ordered m
    → contains k excluded ≡ false
    → exclude excluded (insert k v m) ≡ insert k v (exclude excluded m)
unfolding exclude insert Ordered
exclude-insert_kept excluded k v [] h e = ground (arith, e)
exclude-insert_kept excluded k v ((j, w) ∷ m) h e =
    let rest = exclude-insert_kept excluded k v m h.1 e in
    elim (Bool-cases (contains j excluded)) [
      | inr f ↦ ground (arith, e, f, rest, same_text_eq j k)
      | inl f ↦ elim (Bool-cases (before k j)) [
        | inr b ↦ ground (arith, e, f, b, rest, same_text_eq j k)
        | inl b ↦
            let first =
              insert-first k v (exclude excluded m)
                (exclude-All excluded k m (All-map m (λ i. before_trans k j i.0 b) h.0)) in
            ground (arith, e, f, b, first, same_text_eq j k)
      ]
    ]

exclude_twice :
    (excluded : List Text) (m : List (Text × Text))
    → exclude excluded (exclude excluded m) ≡ exclude excluded m
unfolding exclude
exclude_twice excluded [] = refl
exclude_twice excluded ((j, w) ∷ m) = ground (arith, exclude_twice excluded m)

exclude-none : (m : List (Text × Text)) → exclude [] m ≡ m
unfolding exclude contains
exclude-none [] = refl
exclude-none ((j, w) ∷ m) = ap (λ r. (j, w) ∷ r) (exclude-none m)

module _ (t : Printing) where
  -- The fields that are not excluded, as they were recorded.
  unfoldable pub kept : List Text → List (Text × Value t) → List (Text × Value t)
  kept excluded [] = []
  kept excluded ((k, v) ∷ values) =
      let rest = kept excluded values in if contains k excluded then rest else (k, v) ∷ rest

  fields-exclude :
      (excluded : List Text) (values : List (Text × Value t))
      → (extract_event_fields t excluded values).0 ≡ exclude excluded (collected t values)
  unfolding extract_event_fields is_empty
  fields-exclude [] values = sym (exclude-none (collected t values))
  fields-exclude (k ∷ ks) values = refl

  insert_values-exclude :
      (excluded : List Text) (values : List (Text × Value t)) (m : List (Text × Text))
      → Ordered m
      → exclude excluded (insert_values t values m)
        ≡ insert_values t (kept excluded values) (exclude excluded m)
  unfolding insert_values kept
  insert_values-exclude excluded [] m h = refl
  insert_values-exclude excluded ((k, v) ∷ values) m h =
      let text = value_text t v in
      let rest =
        insert_values-exclude excluded values (insert k text m) (insert-Ordered k text m h) in
      elim (Bool-cases (contains k excluded)) [
        | inl e ↦
            rw (e, kept)
              (rest
                ∙ ap (insert_values t (kept excluded values)) (exclude-insert excluded k text m e))
        | inr e ↦
            rw (e, kept)
              (rest
                ∙ ap (insert_values t (kept excluded values))
                    (exclude-insert_kept excluded k text m h e))
      ]

  collected-exclude :
      (excluded : List Text) (values : List (Text × Value t))
      → exclude excluded (collected t values) ≡ collected t (kept excluded values)
  unfolding collected into_fields new exclude Ordered
  collected-exclude excluded values =
      ap (exclude excluded) (visit-insert_values t values new)
      ∙ insert_values-exclude excluded values [] tt
      ∙ sym (visit-insert_values t (kept excluded values) new)

  fields-kept :
      (excluded : List Text) (values : List (Text × Value t))
      → (extract_event_fields t excluded values).0
        ≡ (extract_event_fields t excluded (kept excluded values)).0
  fields-kept excluded values =
      fields-exclude excluded values
      ∙ sym (exclude_twice excluded (collected t values))
      ∙ ap (exclude excluded) (collected-exclude excluded values)
      ∙ sym (fields-exclude excluded (kept excluded values))

  module _ {Formatter : Type 0} (finish : List Text → ℕ) (f : F64) (base : Instant)
      (p : Storage EventSignature (EventState f EventMetadata)) where
    -- The signature of an event is that of the event without its excluded fields, whatever values
    -- these have and wherever they were recorded.
    pub event_signature-kept :
        (l : TracingRateLimitLayer Formatter f p) (event : Event t)
        → event_signature t finish f base p l event
          ≡ event_signature t finish f base p l
              (record event { values = kept l.excluded_fields event.values })
    unfolding event_signature combined_fields compute_signature
    event_signature-kept l event =
        ap
          (λ fields.
            compute_signature {t = t} finish event
              (extend (extract_span_context l.span_context_fields event.scope) fields))
          (fields-kept l.excluded_fields event.values)
