-- ===== src/Layer/Builder.antt =====
-- infrastructure/layer.rs: the builder of the layer. The clock is not a field, since its readings
-- are arguments of the calls.
use tracing_throttle.Prelude.{
  ℕ, Bool, true, false, not, List, [], select, Option, none, some, Result, ok, ◌>>=◌, Duration,
  from_secs,
}
use tracing_throttle.Text.{Text, collect}
use tracing_throttle.Signature.{EventSignature}
use tracing_throttle.Metadata.{EventMetadata}
use tracing_throttle.Policy.Float.{F64}
use tracing_throttle.Policy.{Policy, new_token_bucket}
use tracing_throttle.Policy.Decision.{PolicyError}
use tracing_throttle.Registry.{EventState}
use tracing_throttle.Emitter.{EmitterConfigError}
use tracing_throttle.Layer.Fields.{is_empty}

pub data BuildError : Type 0 where
  zero_max_signatures : BuildError
  emitter_config : EmitterConfigError → BuildError

-- A priority function gives no priority where it panics.
pub data EvictionStrategy (f : F64) : Type 0 where
  lru_strategy : (max_entries : ℕ) → EvictionStrategy f
  priority_strategy :
      (max_entries : ℕ) (priority_fn : EventSignature → EventState f EventMetadata → Option ℕ)
      → EvictionStrategy f
  memory_strategy : (max_bytes : ℕ) → EvictionStrategy f
  priority_with_memory_strategy :
      (max_entries : ℕ) (priority_fn : EventSignature → EventState f EventMetadata → Option ℕ)
      (max_bytes : ℕ)
      → EvictionStrategy f

module _ {f : F64} where
  pub tracks_memory : EvictionStrategy f → Bool
  tracks_memory (memory_strategy n) = true
  tracks_memory (priority_with_memory_strategy m g n) = true
  tracks_memory (lru_strategy m) = false
  tracks_memory (priority_strategy m g) = false

  pub memory_limit : EvictionStrategy f → Option ℕ
  memory_limit (memory_strategy n) = some n
  memory_limit (priority_with_memory_strategy m g n) = some n
  memory_limit (lru_strategy m) = none
  memory_limit (priority_strategy m g) = none

  pub uses_priority : EvictionStrategy f → Bool
  uses_priority (memory_strategy n) = false
  uses_priority (priority_with_memory_strategy m g n) = true
  uses_priority (lru_strategy m) = false
  uses_priority (priority_strategy m g) = true

pub record TracingRateLimitLayerBuilder (Formatter : Type 0) (f : F64) : Type 0 where
  pub policy : Policy f
  pub summary_interval : Duration
  pub max_signatures : Option ℕ
  pub enable_active_emission : Bool
  pub summary_formatter : Option Formatter
  pub span_context_fields : List Text
  pub excluded_fields : List Text
  pub eviction_strategy : Option (EvictionStrategy f)
  pub exempt_targets : List Text

-- The texts that are not empty, as a set.
unfoldable pub unique : List Text → List Text
unique texts = collect (select (λ t. not (is_empty t)) texts)

abbrev default_interval : Duration
default_interval = from_secs 30

module _ {Formatter : Type 0} {f : F64} where
  pub with_policy :
      TracingRateLimitLayerBuilder Formatter f → Policy f → TracingRateLimitLayerBuilder Formatter f
  with_policy b policy = record b { policy = policy }

  pub with_summary_interval :
      TracingRateLimitLayerBuilder Formatter f → Duration → TracingRateLimitLayerBuilder Formatter f
  with_summary_interval b interval = record b { summary_interval = interval }

  pub with_max_signatures :
      TracingRateLimitLayerBuilder Formatter f → ℕ → TracingRateLimitLayerBuilder Formatter f
  with_max_signatures b n = record b { max_signatures = some n }

  pub with_unlimited_signatures :
      TracingRateLimitLayerBuilder Formatter f → TracingRateLimitLayerBuilder Formatter f
  with_unlimited_signatures b = record b { max_signatures = none }

  pub with_active_emission :
      TracingRateLimitLayerBuilder Formatter f → Bool → TracingRateLimitLayerBuilder Formatter f
  with_active_emission b enabled = record b { enable_active_emission = enabled }

  pub with_summary_formatter :
      TracingRateLimitLayerBuilder Formatter f
      → Formatter
      → TracingRateLimitLayerBuilder Formatter f
  with_summary_formatter b formatter = record b { summary_formatter = some formatter }

  unfoldable pub with_span_context_fields :
      TracingRateLimitLayerBuilder Formatter f
      → List Text
      → TracingRateLimitLayerBuilder Formatter f
  unfolding unique
  with_span_context_fields b fields = record b { span_context_fields = unique fields }

  unfoldable pub with_excluded_fields :
      TracingRateLimitLayerBuilder Formatter f
      → List Text
      → TracingRateLimitLayerBuilder Formatter f
  unfolding unique
  with_excluded_fields b fields = record b { excluded_fields = unique fields }

  unfoldable pub with_exempt_targets :
      TracingRateLimitLayerBuilder Formatter f
      → List Text
      → TracingRateLimitLayerBuilder Formatter f
  unfolding unique
  with_exempt_targets b targets = record b { exempt_targets = unique targets }

  pub with_eviction_strategy :
      TracingRateLimitLayerBuilder Formatter f
      → EvictionStrategy f
      → TracingRateLimitLayerBuilder Formatter f
  with_eviction_strategy b strategy = record b { eviction_strategy = some strategy }

module _ (Formatter : Type 0) (f : F64) where
  -- The defaults; `fifty` is 50.0. An error stands for the panic of `expect`.
  unfoldable pub builder : f.Float → Result PolicyError (TracingRateLimitLayerBuilder Formatter f)
  builder fifty = do
    policy ← new_token_bucket f fifty f.one_f
    ok (record {
      policy = policy;
      summary_interval = default_interval;
      max_signatures = some 10000;
      enable_active_emission = false;
      summary_formatter = none;
      span_context_fields = [];
      excluded_fields = [];
      eviction_strategy = none;
      exempt_targets = [];
    })
