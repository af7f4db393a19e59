-- ===== src/Layer/Context.antt =====
-- infrastructure/layer.rs, `extract_span_context`: which span gives the value of a field.
pub mod Balance
use tracing_throttle.Prelude.{
  ℕ, suc, ◌+◌, ◌≡◌, refl, Bool-cases, inl, inr, true, false, arith, if◌then◌else◌, length, All,
  List, [], ◌∷◌, Option, none, some,
}
use tracing_throttle.Text.{Text, same_text, same_text_eq, same_text_refl, lookup, insert, contains}
use tracing_throttle.Text.Sets.{Distinct, same_text_sym}
use tracing_throttle.Text.Maps.{lookup-insert}
use Balance.{one_missing, missing, Balanced, collect_cached-Balanced, none-Balanced}
use tracing_throttle.Layer.Fields.{
  Span, collect_found, collect_name, collect_span, collect_cached, collect_scope,
  extract_span_context,
}

unfoldable or_else : Option Text → Option Text → Option Text
or_else none o = o
or_else (some v) o = some v

unfoldable cached_field : Text → Option (List (Text × Text)) → Option Text
cached_field n none = none
cached_field n (some stored) = lookup n stored

-- What the inner-most span that has the field gives for it.
unfoldable pub innermost : Text → List Span → Option Text
unfolding or_else cached_field
innermost n [] = none
innermost n (span ∷ scope) = or_else (cached_field n span.cached) (innermost n scope)

collect_found-lookup :
    (n k : Text) (stored c : List (Text × Text)) (q : Option Text)
    → lookup k stored ≡ q
    → lookup k c ≡ none
    → lookup n (collect_found k q c)
      ≡ (if same_text k n then or_else (lookup n c) (lookup n stored) else lookup n c)
unfolding collect_found or_else
collect_found-lookup n k stored c none d e = ground (arith, same_text_eq k n, d, e)
collect_found-lookup n k stored c (some w) d e =
    ground (arith, same_text_eq k n, d, e, lookup-insert k n w c)

collect_name-lookup :
    (n k : Text) (stored c : List (Text × Text)) (o : Option Text)
    → lookup k c ≡ o
    → lookup n (collect_name stored k o c)
      ≡ (if same_text k n then or_else (lookup n c) (lookup n stored) else lookup n c)
unfolding collect_name or_else
collect_name-lookup n k stored c none e = collect_found-lookup n k stored c (lookup k stored) refl e
collect_name-lookup n k stored c (some v) e = ground (arith, same_text_eq k n, e)

or_else_again : (a b : Option Text) → or_else (or_else a b) b ≡ or_else a b
unfolding or_else
or_else_again none none = refl
or_else_again none (some b) = refl
or_else_again (some a) b = refl

collect_span-lookup :
    (n : Text) (stored : List (Text × Text)) (names : List Text) (c : List (Text × Text))
    → lookup n (collect_span stored names c)
      ≡ (if contains n names then or_else (lookup n c) (lookup n stored) else lookup n c)
unfolding collect_span contains
collect_span-lookup n stored [] c = refl
collect_span-lookup n stored (k ∷ ks) c =
    let c' = collect_name stored k (lookup k c) c in
    ground (
      arith,
      collect_span-lookup n stored ks c',
      collect_name-lookup n k stored c (lookup k c) refl,
      or_else_again (lookup n c) (lookup n stored),
    )

-- With nothing missing no span can add anything.
or_else_complete :
    (n : Text) (names : List Text) (c : List (Text × Text)) (o : Option Text)
    → missing names c ≡ 0
    → contains n names ≡ true
    → or_else (lookup n c) o ≡ lookup n c
unfolding missing one_missing contains or_else
or_else_complete n [] c o m e = cc
or_else_complete n (k ∷ ks) c o m e =
    ground (arith, or_else_complete n ks c o, same_text_eq k n, m, e)

or_else_assoc : (a b d : Option Text) → or_else (or_else a b) d ≡ or_else a (or_else b d)
unfolding or_else
or_else_assoc none b d = refl
or_else_assoc (some a) b d = refl

or_else-none : (o : Option Text) → or_else o none ≡ o
unfolding or_else
or_else-none none = refl
or_else-none (some v) = refl

collect_cached-lookup :
    (n : Text) (cached : Option (List (Text × Text))) (names : List Text) (c : List (Text × Text))
    → lookup n (collect_cached cached names c)
      ≡ (if contains n names then or_else (lookup n c) (cached_field n cached) else lookup n c)
unfolding collect_cached cached_field or_else
collect_cached-lookup n none names c = ground arith
collect_cached-lookup n (some stored) names c = collect_span-lookup n stored names c

collect_scope-lookup :
    (n : Text) (names : List Text) (scope : List Span) (c : List (Text × Text))
    → Distinct names
    → Balanced names c
    → lookup n (collect_scope names scope c)
      ≡ (if contains n names then or_else (lookup n c) (innermost n scope) else lookup n c)
unfolding collect_scope innermost Balanced
collect_scope-lookup n names [] c distinct b = ground (arith, or_else-none (lookup n c))
collect_scope-lookup n names (span ∷ scope) c distinct b =
    let c' = collect_cached span.cached names c in
    let b' = collect_cached-Balanced span.cached names c distinct b in
    ground (
      arith,
      b',
      collect_scope-lookup n names scope c' distinct b',
      collect_cached-lookup n span.cached names c,
      or_else_complete n names c' (innermost n scope),
      or_else_assoc (lookup n c) (cached_field n span.cached) (innermost n scope),
    )

unfoldable pub in_scope : Text → Option (List Span) → Option Text
unfolding innermost
in_scope n none = none
in_scope n (some scope) = innermost n scope

-- What is collected for an event is, of each configured field, the value that the inner-most span
-- with that field has cached, wherever the loop over the spans stops; and no other field. The
-- configured names must be distinct.
pub lookup-extract_span_context :
    (names : List Text) (scope : Option (List Span)) (n : Text)
    → Distinct names
    → lookup n (extract_span_context names scope)
      ≡ (if contains n names then in_scope n scope else none)
unfolding extract_span_context in_scope or_else contains lookup
lookup-extract_span_context [] scope n distinct = refl
lookup-extract_span_context (k ∷ ks) none n distinct = ground arith
lookup-extract_span_context (k ∷ ks) (some scope) n distinct =
    ground (arith, collect_scope-lookup n (k ∷ ks) scope [] distinct (none-Balanced (k ∷ ks)))
