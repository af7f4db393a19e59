-- ===== src/Tests/Layers.antt =====
-- The layer over a sharded storage, with a hash that adds up lengths.
use native.Mathlib.Decide.{ℕ_discrete}
use tracing_throttle.Prelude.{
  ℕ, from_secs, arith, ◌≤◌, ◌+◌, ◌≡◌, refl, true, false, List, [], ◌∷◌, length, none, some,
}
use tracing_throttle.Text.{Text, codes, same_text, contains, lookup}
use tracing_throttle.Text.Sets.{Distinct}
use tracing_throttle.Visitor.{Printing, Value}
use tracing_throttle.Policy
use tracing_throttle.Policy.CountBased
use tracing_throttle.Policy.{count_based}
use tracing_throttle.Signature.{EventSignature}
use tracing_throttle.Metadata.{EventMetadata}
use tracing_throttle.Breaker.{default_config, state, from_u8}
use tracing_throttle.Ports.{Storage, StorageLaws}
use tracing_throttle.Registry.{EventState}
use tracing_throttle.Limiter.Decided.{Counted}
use tracing_throttle.Limiter.Decisions.{of_policy, policy_decisions}
use tracing_throttle.Limiter.Run.{Event as Call, Reliable, Ready, current_policy, readings}
use tracing_throttle.Layer.{
  TracingRateLimitLayer, Event, is_allowed, is_exempt, event_signature, event_enabled,
  signature_count,
}
use tracing_throttle.Layer.Fields.{
  Span, Attributes, update_span_context, record_span_context, extract_span_context, is_empty,
}
use tracing_throttle.Layer.Cached.{update_span_context-record_span_context}
use tracing_throttle.Layer.Context.{in_scope, innermost, lookup-extract_span_context}
use tracing_throttle.Layer.Excluded.{kept, event_signature-kept}
use mathlib.Core.Quot
use tracing_throttle.Layer.Order.{unordered, swap, event_enabled-Unordered}
use tracing_throttle.Layer.Events.{
  Limited, passes, decision_of, passes-policy, event_enabled-Counted,
}
use tracing_throttle.Storage.{StorageEntry}
use tracing_throttle.Storage.Map.{DashMap}
use tracing_throttle.Ports.Sharded.{sharded, sharded-Laws}
use tracing_throttle.Limiter.Sharded.{sharded-Reliable}
use tracing_throttle.Emitter.{EmitterConfig, new_config}
use tracing_throttle.Layer.Builder.{TracingRateLimitLayerBuilder}
use tracing_throttle.Layer.Build.{build, assemble, validate_max, from_config}
use tracing_throttle.Layer.Validation.{Built, build-Built}
use tracing_throttle.Layer.Tracked.{after, signature_count-build}
use tracing_throttle.Tests.Logs.{logged, logged-Laws, get}
use tracing_throttle.Tests.Floats.{whole}

abbrev printing : Printing
printing = record {
  Float = Text;
  Error = Text;
  Debugged = Text;
  float_text = λ x. x;
  error_text = λ x. x;
  debug_text = λ x. x;
}

abbrev hash : List Text → ℕ
hash [] = 0
hash (x ∷ xs) = length x + hash xs

abbrev table : DashMap EventSignature (StorageEntry (EventState whole EventMetadata))
table = logged (StorageEntry (EventState whole EventMetadata))

abbrev port : Storage EventSignature (EventState whole EventMetadata)
port = sharded table

abbrev port-Laws : StorageLaws port
port-Laws = sharded-Laws ℕ_discrete table (logged-Laws _)

abbrev port-Reliable : Reliable whole 0 port
port-Reliable = sharded-Reliable whole 0 table

-- Another span declares the user again; the identifier is excluded.
abbrev inner : Span
inner = record { declared = codes "step" ∷ []; cached = some ((codes "step", codes "2") ∷ []) }

abbrev outer : Span
outer = record {
  declared = codes "user" ∷ codes "step" ∷ [];
  cached = some ((codes "step", codes "1") ∷ (codes "user", codes "42") ∷ []);
}

abbrev login_failed : Event printing
login_failed = record {
  level = codes "WARN";
  name = codes "failed";
  target = codes "auth";
  values = (codes "id", Value.u64_value 7) ∷ (codes "ok", Value.bool_value false) ∷ [];
  scope = some (inner ∷ outer ∷ []);
}

-- One event of each signature may pass.
abbrev layer : TracingRateLimitLayer Text whole port
layer = record {
  limiter = record {
    registry = record {
      storage = record {
        table = [];
        epoch = 0;
        has_metrics = true;
        eviction_policy = none;
        current_memory_bytes = 0;
      };
      default_policy = count_based (record { max_count = 1; current_count = 0 });
    };
    metrics = record { events_allowed = 0; events_suppressed = 0; signatures_evicted = 0 };
    circuit_breaker = record {
      state_byte = 0;
      consecutive_failures = 0;
      last_failure_time_nanos = 0;
      config = default_config;
      epoch = 0;
    };
  };
  span_context_fields = codes "step" ∷ codes "user" ∷ [];
  excluded_fields = codes "id" ∷ [];
  exempt_targets = codes "health" ∷ [];
  emitter_handle = none;
}

configured-Distinct : Distinct layer.span_context_fields
unfolding Distinct contains same_text
configured-Distinct = (refl, (refl, tt))

lookup-extract_span_context_example :
    lookup (codes "step") (extract_span_context layer.span_context_fields login_failed.scope)
    ≡ some (codes "2")
unfolding contains same_text in_scope innermost lookup
lookup-extract_span_context_example =
    lookup-extract_span_context layer.span_context_fields login_failed.scope (codes "step")
      configured-Distinct

event_signature-kept_example :
    event_signature printing hash whole 0 port layer login_failed
    ≡ event_signature printing hash whole 0 port layer
        (record login_failed { values = (codes "ok", Value.bool_value false) ∷ [] })
unfolding kept contains same_text
event_signature-kept_example = event_signature-kept printing hash whole 0 port layer login_failed

abbrev call : Call
call = record { at_request = 10; time = 11; at_access = 12; at_failure = 13 }

event_enabled-Counted_example :
    let (l, passes) = event_enabled printing hash whole 0 port layer login_failed (readings call) in
    Counted (decision_of passes) layer.limiter.metrics l.limiter.metrics
unfolding same_text
event_enabled-Counted_example =
    event_enabled-Counted printing hash whole 0 port port-Laws layer login_failed (readings call)
      refl

abbrev swapped_values : List (Text × Value printing)
swapped_values = (codes "ok", Value.bool_value false) ∷ (codes "id", Value.u64_value 7) ∷ []

-- The same event, with its fields in the other order.
turned : unordered printing login_failed.values ≡ unordered printing swapped_values
unfolding unordered same_text
turned =
    Quot.sound
      (swap [] [] (codes "id") (codes "ok") (Value.u64_value 7) (Value.bool_value false) refl)

event_enabled-Unordered_example :
    event_enabled printing hash whole 0 port layer login_failed (readings call)
    ≡ event_enabled printing hash whole 0 port layer
        (record login_failed { values = swapped_values })
        (readings call)
event_enabled-Unordered_example =
    event_enabled-Unordered printing hash whole 0 port layer login_failed swapped_values
      (readings call) turned

layer-Ready : Ready whole 0 port port-Laws port-Reliable layer.limiter
unfolding sharded-Reliable state from_u8
layer-Ready = record { safe = refl; closed_breaker = refl }

login_failed-Limited :
    Limited printing hash whole 0 port port-Laws layer
      (event_signature printing hash whole 0 port layer login_failed)
      login_failed
unfolding same_text is_exempt contains is_empty
login_failed-Limited = record { no_summary = refl; no_exemption = refl; signature = refl }

passes-policy_example :
    passes printing hash whole 0 port port-Laws layer
      ((login_failed, call) ∷ (login_failed, call) ∷ [])
    ≡ true ∷ false ∷ []
unfolding is_allowed of_policy policy_decisions current_policy Policy.register_event
    CountBased.register_event get
passes-policy_example =
    passes-policy printing hash whole 0 port port-Laws port-Reliable layer
      (event_signature printing hash whole 0 port layer login_failed)
      ((login_failed, call) ∷ (login_failed, call) ∷ []) layer-Ready
      (login_failed-Limited, (login_failed-Limited, tt))

abbrev one_signature : TracingRateLimitLayerBuilder Text whole
one_signature = record {
  policy = count_based (record { max_count = 1; current_count = 0 });
  summary_interval = from_secs 30;
  max_signatures = some 1;
  enable_active_emission = true;
  summary_formatter = none;
  span_context_fields = [];
  excluded_fields = [];
  eviction_strategy = none;
  exempt_targets = [];
}

build-Built_example : Built 8 64 table one_signature 5 6 (build 8 64 table one_signature 5 6)
build-Built_example = build-Built 8 64 table one_signature 5 6

abbrev one_config : EmitterConfig
one_config = record { interval = from_secs 30; min_count = 1 }

-- Two signatures, one after the other.
signature_count-build_example :
    signature_count printing hash whole 0 (sharded table) (
      after whole 0 ℕ_discrete table
        (logged-Laws _)
        1
        (omega arith)
        printing
        hash
        (assemble 8 64 table one_signature 5 6 one_config)
        ((login_failed, readings call)
          ∷ (record login_failed { name = codes "locked" }, readings call)
          ∷ []))
    ≤ 1
unfolding build validate_max from_config new_config
signature_count-build_example =
    signature_count-build whole 0 ℕ_discrete table (logged-Laws _) 1 (omega arith) printing hash 8
      64 one_signature 5 6 (assemble 8 64 table one_signature 5 6 one_config)
      ((login_failed, readings call)
        ∷ (record login_failed { name = codes "locked" }, readings call)
        ∷ [])
      refl refl refl

-- The step is declared at first, and recorded later.
abbrev created : Attributes printing
created = record {
  declared = codes "user" ∷ codes "step" ∷ [];
  values = (codes "user", Value.u64_value 42) ∷ [];
}

abbrev uncached : Span
uncached = record { declared = codes "user" ∷ codes "step" ∷ []; cached = none }

update_span_context-record_span_context_example :
    update_span_context printing layer.span_context_fields
      ((codes "step", Value.u64_value 3) ∷ [])
      (record_span_context printing layer.span_context_fields created (some uncached))
    ≡ record_span_context printing layer.span_context_fields
        (record created {
          values = (codes "user", Value.u64_value 42) ∷ (codes "step", Value.u64_value 3) ∷ [];
        })
        (some uncached)
update_span_context-record_span_context_example =
    update_span_context-record_span_context printing layer.span_context_fields created uncached
      ((codes "step", Value.u64_value 3) ∷ []) refl refl
