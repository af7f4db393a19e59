-- ===== src/Layer.antt =====
-- infrastructure/layer.rs: the filter that asks the rate limiter about each event, with its
-- features `async` and `human-readable`.
pub mod Fields
pub mod Builder
pub mod Build
pub mod Tracked
pub mod Validation
pub mod Shutdown
pub mod Cached
pub mod Context
pub mod Events
pub mod Excluded
pub mod Order
use mathlib.Core.Option
use tracing_throttle.Prelude.{
  ℕ, Bool, true, false, not, ◌&&◌, if◌then◌else◌, List, [], ◌∷◌, Option, none, some, Result, ok,
  err, Instant, Duration,
}
use tracing_throttle.Text.{Text, codes, same_text, contains, extend}
use tracing_throttle.Signature
use tracing_throttle.Signature.{EventSignature}
use tracing_throttle.Metadata
use tracing_throttle.Metadata.{EventMetadata}
use tracing_throttle.Visitor.{Printing, Value}
use tracing_throttle.Policy.Float.{F64}
use tracing_throttle.Policy.{Policy}
use tracing_throttle.Metrics
use tracing_throttle.Metrics.{Metrics, record_allowed}
use tracing_throttle.Breaker
use tracing_throttle.Breaker.{CircuitBreaker}
use tracing_throttle.Ports.{Storage}
use tracing_throttle.Registry
use tracing_throttle.Registry.{EventState}
use tracing_throttle.Limiter.{
  LimitDecision, allowed, suppressed, RateLimiter, Readings, check_event, check_event_with_metadata,
}
use tracing_throttle.Emitter.{EmitterConfig}
use Fields.{
  Span, Attributes, is_empty, extract_span_context, extract_event_fields, record_span_context,
  update_span_context,
}

-- What a running emitter was started with: no formatter stands for the default one.
pub record EmitterHandle (Formatter : Type 0) : Type 0 where
  pub config : EmitterConfig
  pub summary_formatter : Option Formatter
  pub emit_final : Bool

pub record TracingRateLimitLayer (Formatter : Type 0) (f : F64)
    (p : Storage EventSignature (EventState f EventMetadata)) : Type 0 where
  pub limiter : RateLimiter f EventMetadata p
  pub span_context_fields : List Text
  pub excluded_fields : List Text
  pub exempt_targets : List Text
  pub emitter_handle : Option (EmitterHandle Formatter)

-- An event, with its metadata and the scope of spans that the subscriber has for it.
pub record Event (t : Printing) : Type 0 where
  pub level : Text
  pub name : Text
  pub target : Text
  pub values : List (Text × Value t)
  pub scope : Option (List Span)

abbrev pub summary_target : Text
summary_target = codes "tracing_throttle::summary"

unfoldable pub is_allowed : LimitDecision → Bool
is_allowed allowed = true
is_allowed suppressed = false

unfoldable pub with_storage :
    {Formatter : Type 0} (f : F64) (p : Storage EventSignature (EventState f EventMetadata))
    → p.State
    → Policy f
    → Instant
    → TracingRateLimitLayer Formatter f p
with_storage f p storage policy now = record {
  limiter = record {
    registry = record { storage = storage; default_policy = policy };
    metrics = Metrics.new;
    circuit_breaker = Breaker.new now;
  };
  span_context_fields = [];
  excluded_fields = [];
  exempt_targets = [];
  emitter_handle = none;
}

-- `finish` is the hash of the signatures.
unfoldable pub compute_signature :
    {t : Printing} → (List Text → ℕ) → Event t → List (Text × Text) → EventSignature
compute_signature finish event combined_fields =
    Signature.new finish event.level event.name combined_fields (some event.target)

module _ {Formatter : Type 0} (t : Printing) (finish : List Text → ℕ) (f : F64) (base : Instant)
    (p : Storage EventSignature (EventState f EventMetadata)) where
  unfoldable pub metrics : TracingRateLimitLayer Formatter f p → Metrics
  metrics l = l.limiter.metrics

  pub signature_count : TracingRateLimitLayer Formatter f p → ℕ
  signature_count l = Registry.len f base p l.limiter.registry

  pub circuit_breaker : TracingRateLimitLayer Formatter f p → CircuitBreaker
  circuit_breaker l = l.limiter.circuit_breaker

  pub should_allow :
      TracingRateLimitLayer Formatter f p
      → EventSignature
      → Readings
      → TracingRateLimitLayer Formatter f p × Bool
  should_allow l signature readings =
      let (limiter, decision) = check_event f base p l.limiter signature readings in
      (record l { limiter = limiter }, is_allowed decision)

  unfoldable pub should_allow_with_metadata :
      TracingRateLimitLayer Formatter f p
      → EventSignature
      → EventMetadata
      → Readings
      → TracingRateLimitLayer Formatter f p × Bool
  should_allow_with_metadata l signature metadata readings =
      let (limiter, decision) =
        check_event_with_metadata f base p l.limiter signature metadata readings in
      (record l { limiter = limiter }, is_allowed decision)

  unfoldable pub combined_fields :
      TracingRateLimitLayer Formatter f p → Event t → List (Text × Text)
  combined_fields l event =
      extend (extract_span_context l.span_context_fields event.scope)
        (extract_event_fields t l.excluded_fields event.values).0

  unfoldable pub event_signature : TracingRateLimitLayer Formatter f p → Event t → EventSignature
  unfolding combined_fields compute_signature
  event_signature l event = compute_signature finish event (combined_fields l event)

  unfoldable pub event_metadata : TracingRateLimitLayer Formatter f p → Event t → EventMetadata
  unfolding combined_fields
  event_metadata l event =
      Metadata.new event.level
        (Option.get_or (extract_event_fields t l.excluded_fields event.values).1 event.name)
        event.target (combined_fields l event)

  -- No target is looked up if none is exempt.
  unfoldable pub is_exempt : TracingRateLimitLayer Formatter f p → Text → Bool
  is_exempt l target = not (is_empty l.exempt_targets) && contains target l.exempt_targets

  unfoldable pub event_enabled :
      TracingRateLimitLayer Formatter f p
      → Event t
      → Readings
      → TracingRateLimitLayer Formatter f p × Bool
  unfolding event_signature event_metadata should_allow_with_metadata is_exempt
  event_enabled l event readings =
      if same_text event.target summary_target
      then (l, true)
      else if is_exempt l event.target
      then (
        record l { limiter = record l.limiter { metrics = record_allowed l.limiter.metrics } },
        true,
      )
      else should_allow_with_metadata l (event_signature l event) (event_metadata l event) readings

  -- `enabled` of the filter, whatever the metadata.
  pub enabled : TracingRateLimitLayer Formatter f p → Bool
  enabled l = true

  unfoldable pub on_new_span :
      TracingRateLimitLayer Formatter f p → Attributes t → Option Span → Option Span
  on_new_span l attrs span = record_span_context t l.span_context_fields attrs span

  unfoldable pub on_record :
      TracingRateLimitLayer Formatter f p → List (Text × Value t) → Option Span → Option Span
  on_record l values span = update_span_context t l.span_context_fields values span
