-- ===== src/Layer/Order.antt =====
-- infrastructure/layer.rs: the order in which an event records its fields.
use mathlib.Core.Quot
use mathlib.Core.Quot.{Quot}
use tracing_throttle.Prelude.{
  ℕ, ◌≡◌, refl, sym, ap, ◌∙◌, false, List, [], ◌∷◌, ◌++◌, Instant, if◌then◌else◌,
}
use tracing_throttle.Text.{Text, codes, same_text, lookup}
use tracing_throttle.Text.Extend.{insert_other}
use tracing_throttle.Policy.Float.{F64}
use tracing_throttle.Visitor.{Printing, Value, collected, new, into_fields}
use tracing_throttle.Visitor.Values.{
  insert_values, insert_values-append, visit-insert_values, value_text,
}
use tracing_throttle.Metadata.{EventMetadata}
use tracing_throttle.Signature.{EventSignature}
use tracing_throttle.Ports.{Storage}
use tracing_throttle.Registry.{EventState}
use tracing_throttle.Limiter.{Readings}
use tracing_throttle.Layer.{
  TracingRateLimitLayer, Event, event_enabled, event_signature, event_metadata, combined_fields,
}
use tracing_throttle.Layer.Fields.{extract_event_fields, exclude, is_empty}

module _ (t : Printing) where
  -- Two neighbouring fields of different names change places.
  pub data Swapped : List (Text × Value t) → List (Text × Value t) → Type 0 where
    swap :
        (before after : List (Text × Value t)) (k j : Text) (v w : Value t)
        → same_text k j ≡ false
        → Swapped (before ++ (k, v) ∷ (j, w) ∷ after) (before ++ (j, w) ∷ (k, v) ∷ after)

  -- The fields, but for the order of different names.
  abbrev pub Unordered : Type 0
  Unordered = Quot Swapped

  commute :
      (m : List (Text × Text)) (k j : Text) (v w : Value t)
      → same_text k j ≡ false
      → insert_values t ((k, v) ∷ (j, w) ∷ []) m ≡ insert_values t ((j, w) ∷ (k, v) ∷ []) m
  unfolding insert_values
  commute m k j v w h = sym (insert_other k j (value_text t v) (value_text t w) m h)

  collected-Swapped :
      (vs ws : List (Text × Value t)) → Swapped vs ws → collected t vs ≡ collected t ws
  unfolding collected into_fields new insert_values
  collected-Swapped vs ws (swap before after k j v w h) =
      visit-insert_values t (before ++ (k, v) ∷ (j, w) ∷ after) new
      ∙ insert_values-append t before ((k, v) ∷ (j, w) ∷ after) []
      ∙ ap (insert_values t after) (commute (insert_values t before []) k j v w h)
      ∙ sym (insert_values-append t before ((j, w) ∷ (k, v) ∷ after) [])
      ∙ sym (visit-insert_values t (before ++ (j, w) ∷ (k, v) ∷ after) new)

  unfoldable pub unordered : List (Text × Value t) → Unordered
  unordered values = Quot.mk values

  fields-set : IsSet (List (Text × Text))
  fields-set = hlevel

  -- What the visitor collects does not depend on the order.
  collected_of : Unordered → List (Text × Text)
  collected_of = Quot.lift fields-set (collected t) collected-Swapped

  extract-collected :
      (excluded : List Text) (vs ws : List (Text × Value t))
      → collected t vs ≡ collected t ws
      → extract_event_fields t excluded vs ≡ extract_event_fields t excluded ws
  unfolding extract_event_fields
  extract-collected excluded vs ws e =
      ap
        (λ (all_fields : List (Text × Text)). (
          if is_empty excluded then all_fields else exclude excluded all_fields,
          lookup (codes "message") all_fields,
        ))
        e

  module _ {Formatter : Type 0} (finish : List Text → ℕ) (f : F64) (base : Instant)
      (p : Storage EventSignature (EventState f EventMetadata)) where
    -- The layer sees the fields of an event only but for the order of different names: for events
    -- that differ in that alone, it decides the same and is the same afterwards.
    pub event_enabled-Unordered :
        (l : TracingRateLimitLayer Formatter f p) (event : Event t) (ws : List (Text × Value t))
        (readings : Readings)
        → unordered event.values ≡ unordered ws
        → event_enabled t finish f base p l event readings
          ≡ event_enabled t finish f base p l (record event { values = ws }) readings
    unfolding event_enabled event_signature event_metadata combined_fields
    event_enabled-Unordered l event ws readings same =
        let same_fields : collected t event.values ≡ collected t ws =
          unfold unordered in unfold collected_of in ap collected_of same in
        let extracted = extract-collected l.excluded_fields event.values ws same_fields in
        rw (extracted, event_enabled, event_signature, event_metadata, combined_fields) refl
