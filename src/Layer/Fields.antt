-- ===== src/Layer/Fields.antt =====
-- infrastructure/layer.rs: the fields of an event and of the spans around it. The spans are kept
-- by the subscriber, with what the layer has cached in their extensions.
use tracing_throttle.Prelude.{
  ◌==◌, Bool, true, false, not, ◌||◌, if◌then◌else◌, length, List, [], ◌∷◌, Option, none, some,
}
use tracing_throttle.Text.{Text, codes, lookup, insert, extend, contains}
use tracing_throttle.Visitor.{Printing, Value, collected}

-- The names in the metadata of a span, and its `CachedSpanFields`, if there are any.
pub record Span : Type 0 where
  pub declared : List Text
  pub cached : Option (List (Text × Text))

unfoldable pub is_empty {ℓ} : {A : Type ℓ} → List A → Bool
is_empty [] = true
is_empty (x ∷ xs) = false

unfoldable pub declares_context_field : List Text → List Text → Bool
declares_context_field [] declared = false
declares_context_field (name ∷ names) declared =
    contains name declared || declares_context_field names declared

-- A field that is not yet collected is taken from the span, if that has it.
unfoldable pub collect_found : Text → Option Text → List (Text × Text) → List (Text × Text)
collect_found name none context = context
collect_found name (some value) context = insert name value context

unfoldable pub collect_name :
    List (Text × Text) → Text → Option Text → List (Text × Text) → List (Text × Text)
unfolding collect_found
collect_name stored name (some value) context = context
collect_name stored name none context = collect_found name (lookup name stored) context

unfoldable pub collect_span :
    List (Text × Text) → List Text → List (Text × Text) → List (Text × Text)
unfolding collect_name
collect_span stored [] context = context
collect_span stored (name ∷ names) context =
    collect_span stored names (collect_name stored name (lookup name context) context)

unfoldable pub collect_cached :
    Option (List (Text × Text)) → List Text → List (Text × Text) → List (Text × Text)
unfolding collect_span
collect_cached none names context = context
collect_cached (some stored) names context = collect_span stored names context

-- The loop over the spans, the inner-most first.
unfoldable pub collect_scope : List Text → List Span → List (Text × Text) → List (Text × Text)
unfolding collect_cached
collect_scope names [] context = context
collect_scope names (span ∷ scope) context =
    let context' = collect_cached span.cached names context in
    let rest = collect_scope names scope context' in
    if length context' == length names then context' else rest

-- `scope` is the scope of the event, if there is one.
unfoldable pub extract_span_context : List Text → Option (List Span) → List (Text × Text)
unfolding collect_scope
extract_span_context [] scope = []
extract_span_context (name ∷ names) none = []
extract_span_context (name ∷ names) (some scope) = collect_scope (name ∷ names) scope []

-- The entries whose names are not in the set.
unfoldable pub exclude : List Text → List (Text × Text) → List (Text × Text)
exclude excluded [] = []
exclude excluded ((name, value) ∷ fields) =
    let rest = exclude excluded fields in
    if contains name excluded then rest else (name, value) ∷ rest

-- What caching makes of a span that is not cached yet, or else of what is recorded later.
unfoldable pub cache_new : List (Text × Text) → Span → Span
cache_new [] span = span
cache_new (field ∷ fields) span = record span { cached = some (field ∷ fields) }

unfoldable pub cache_more : List (Text × Text) → Option (List (Text × Text)) → Span → Span
cache_more [] cached span = span
cache_more (field ∷ fields) none span = record span { cached = some (field ∷ fields) }
cache_more (field ∷ fields) (some old) span = record span {
  cached = some (extend old (field ∷ fields));
}

module _ (t : Printing) where
  -- The attributes of a new span: the names in its metadata, and the fields that have values.
  pub record Attributes : Type 0 where
    pub declared : List Text
    pub values : List (Text × Value t)

  unfoldable pub record_uncached : List (Text × Value t) → Option (List (Text × Text)) → Span → Span
  unfolding cache_new
  record_uncached values (some old) span = span
  record_uncached values none span = cache_new (collected t values) span

  -- The span of the given id, if the subscriber has it.
  unfoldable pub record_span_context : List Text → Attributes → Option Span → Option Span
  unfolding record_uncached
  record_span_context names attrs none = none
  record_span_context names attrs (some span) = some (
      if is_empty names || not (declares_context_field names attrs.declared)
      then span
      else record_uncached attrs.values span.cached span)

  unfoldable pub update_span_context : List Text → List (Text × Value t) → Option Span → Option Span
  unfolding cache_more
  update_span_context names values none = none
  update_span_context names values (some span) = some (
      if is_empty names || is_empty values || not (declares_context_field names span.declared)
      then span
      else cache_more (collected t values) span.cached span)

  -- The fields that are not excluded, and the message.
  unfoldable pub extract_event_fields :
      List Text → List (Text × Value t) → List (Text × Text) × Option Text
  unfolding exclude
  extract_event_fields excluded values =
      let all_fields = collected t values in
      (
        if is_empty excluded then all_fields else exclude excluded all_fields,
        lookup (codes "message") all_fields,
      )
