-- ===== src/Layer/Cached.antt =====
-- infrastructure/layer.rs, `on_new_span` and `on_record`: what the layer caches of a span.
use mathlib.Core.List.{append-nil}
use tracing_throttle.Prelude.{
  ◌≡◌, refl, sym, ap, ◌∙◌, Bool-cases, inl, inr, true, false, List, [], ◌∷◌, ◌++◌, none, some,
  arith,
}
use tracing_throttle.Text.{Text, insert, extend}
use tracing_throttle.Visitor.{Printing, Value, new, visit, into_fields, collected}
use tracing_throttle.Visitor.Values.{collected-append}
use tracing_throttle.Layer.Fields.{
  Span, Attributes, is_empty, declares_context_field, cache_new, cache_more, record_uncached,
  record_span_context, update_span_context,
}

insert-nonempty : (k v : Text) (m : List (Text × Text)) → is_empty (insert k v m) ≡ false
unfolding insert is_empty
insert-nonempty k v [] = refl
insert-nonempty k v ((j, w) ∷ m) = ground arith

extend-nonempty :
    (m more : List (Text × Text)) → is_empty m ≡ false → is_empty (extend m more) ≡ false
unfolding extend
extend-nonempty m [] h = h
extend-nonempty m ((k, v) ∷ more) h = extend-nonempty (insert k v m) more (insert-nonempty k v m)

cache_new-nonempty :
    (m : List (Text × Text)) (span : Span)
    → is_empty m ≡ false
    → cache_new m span ≡ record span { cached = some m }
unfolding cache_new is_empty
cache_new-nonempty [] span h = cc
cache_new-nonempty (x ∷ m) span h = refl

-- Fields that are merged into what a span was given at first.
merge-new :
    (fields more : List (Text × Text)) (span : Span)
    → span.cached ≡ none
    → extend [] more ≡ more
    → cache_more more (cache_new fields span).cached (cache_new fields span)
      ≡ cache_new (extend fields more) span
unfolding cache_new cache_more is_empty
merge-new [] [] span uncached e = unfold extend in refl
merge-new [] (x ∷ more) span uncached e =
    ap (λ o. cache_more (x ∷ more) o span) uncached ∙ ap (λ m. cache_new m span) (sym e)
merge-new (y ∷ fields) [] span uncached e = unfold extend in refl
merge-new (y ∷ fields) (x ∷ more) span uncached e = sym (
    cache_new-nonempty (extend (y ∷ fields) (x ∷ more)) span
      (extend-nonempty (y ∷ fields) (x ∷ more) refl))

module _ (t : Printing) where
  collected-nil : (ws : List (Text × Value t)) → extend [] (collected t ws) ≡ collected t ws
  unfolding collected visit into_fields new
  collected-nil ws = sym (collected-append t [] ws)

  merge-values :
      (vs ws : List (Text × Value t)) (span : Span)
      → span.cached ≡ none
      → cache_more
          (collected t ws)
          (cache_new (collected t vs) span).cached
          (cache_new (collected t vs) span)
        ≡ cache_new (collected t (vs ++ ws)) span
  merge-values vs ws span uncached =
      merge-new (collected t vs) (collected t ws) span uncached (collected-nil ws)
      ∙ ap (λ m. cache_new m span) (sym (collected-append t vs ws))

  record_uncached-none :
      (values : List (Text × Value t)) (span : Span)
      → span.cached ≡ none
      → record_uncached t values span.cached span ≡ cache_new (collected t values) span
  unfolding record_uncached
  record_uncached-none values span uncached = ap (λ o. record_uncached t values o span) uncached

  cache_new-declared :
      (m : List (Text × Text)) (span : Span) → (cache_new m span).declared ≡ span.declared
  unfolding cache_new
  cache_new-declared [] span = refl
  cache_new-declared (x ∷ m) span = refl

  recorded :
      (n : Text) (ns : List Text) (attrs : Attributes t) (span : Span)
      → span.cached ≡ none
      → declares_context_field (n ∷ ns) attrs.declared ≡ true
      → record_span_context t (n ∷ ns) attrs (some span)
        ≡ some (cache_new (collected t attrs.values) span)
  unfolding record_span_context is_empty
  recorded n ns attrs span uncached d =
      rw (d, record_span_context) (ap some (record_uncached-none attrs.values span uncached))

  updated :
      (n : Text) (ns : List Text) (w : Text × Value t) (ws : List (Text × Value t)) (span : Span)
      → declares_context_field (n ∷ ns) span.declared ≡ true
      → update_span_context t (n ∷ ns) (w ∷ ws) (some span)
        ≡ some (cache_more (collected t (w ∷ ws)) span.cached span)
  unfolding update_span_context is_empty
  updated n ns w ws span d = rw (d, update_span_context)

  -- A span that declares none of the names stays as it is.
  undeclared-record :
      (n : Text) (ns : List Text) (attrs : Attributes t) (span : Span)
      → declares_context_field (n ∷ ns) attrs.declared ≡ false
      → record_span_context t (n ∷ ns) attrs (some span) ≡ some span
  unfolding record_span_context is_empty
  undeclared-record n ns attrs span d = rw (d, record_span_context)

  undeclared-update :
      (n : Text) (ns : List Text) (ws : List (Text × Value t)) (span : Span)
      → declares_context_field (n ∷ ns) span.declared ≡ false
      → update_span_context t (n ∷ ns) ws (some span) ≡ some span
  unfolding update_span_context is_empty
  undeclared-update n ns [] span d = refl
  undeclared-update n ns (w ∷ ws) span d = rw (d, update_span_context)

  nothing_recorded :
      (n : Text) (ns : List Text) (span : Span)
      → update_span_context t (n ∷ ns) [] (some span) ≡ some span
  unfolding update_span_context is_empty
  nothing_recorded n ns span = refl

  later :
      (n : Text) (ns : List Text) (attrs : Attributes t) (span : Span) (ws : List (Text × Value t))
      → span.cached ≡ none
      → declares_context_field (n ∷ ns) span.declared ≡ true
      → update_span_context t (n ∷ ns) ws (some (cache_new (collected t attrs.values) span))
        ≡ some (cache_new (collected t (attrs.values ++ ws)) span)
  later n ns attrs span [] uncached d =
      nothing_recorded n ns (cache_new (collected t attrs.values) span)
      ∙ ap (λ vs. some (cache_new (collected t vs) span)) (sym (append-nil attrs.values))
  later n ns attrs span (w ∷ ws) uncached d =
      let cached = cache_new (collected t attrs.values) span in
      updated n ns w ws cached (
        ap (declares_context_field (n ∷ ns)) (cache_new-declared (collected t attrs.values) span)
        ∙ d)
      ∙ ap some (merge-values attrs.values (w ∷ ws) span uncached)

  -- Values that are recorded on a span after its creation are cached as if the span had been
  -- created with them, after those it had: a later value of a field replaces an earlier one. The
  -- span must be new to the cache, and have the metadata that its attributes show.
  pub update_span_context-record_span_context :
      (names : List Text) (attrs : Attributes t) (span : Span) (ws : List (Text × Value t))
      → span.cached ≡ none
      → attrs.declared ≡ span.declared
      → update_span_context t names ws (record_span_context t names attrs (some span))
        ≡ record_span_context t names (record attrs { values = attrs.values ++ ws }) (some span)
  update_span_context-record_span_context [] attrs span ws uncached same =
      unfold update_span_context in unfold record_span_context in unfold is_empty in refl
  update_span_context-record_span_context (n ∷ ns) attrs span ws uncached same =
      let more : Attributes t = record attrs { values = attrs.values ++ ws } in
      let declared = ap (declares_context_field (n ∷ ns)) same in
      elim (Bool-cases (declares_context_field (n ∷ ns) attrs.declared)) [
        | inl d ↦
            ap (update_span_context t (n ∷ ns) ws) (recorded n ns attrs span uncached d)
            ∙ later n ns attrs span ws uncached (sym declared ∙ d)
            ∙ sym (recorded n ns more span uncached d)
        | inr d ↦
            ap (update_span_context t (n ∷ ns) ws) (undeclared-record n ns attrs span d)
            ∙ undeclared-update n ns ws span (sym declared ∙ d)
            ∙ sym (undeclared-record n ns more span d)
      ]
