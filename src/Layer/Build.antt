-- ===== src/Layer/Build.antt =====
-- infrastructure/layer.rs: `build` of the builder.
use tracing_throttle.Prelude.{
  ℕ, false, ◌==◌, if◌then◌else◌, Option, none, some, Result, ok, err, ◌>>=◌, Instant,
}
use tracing_throttle.Signature.{EventSignature}
use tracing_throttle.Metadata.{EventMetadata}
use tracing_throttle.Policy.Float.{F64}
use tracing_throttle.Metrics
use tracing_throttle.Breaker
use tracing_throttle.Eviction.{lru, priority, memory, priority_with_memory}
use tracing_throttle.Eviction.Port.{EvictionPolicy}
use tracing_throttle.Storage
use tracing_throttle.Storage.{StorageEntry, ShardedStorage}
use tracing_throttle.Storage.Map.{DashMap}
use tracing_throttle.Ports.Sharded.{sharded}
use tracing_throttle.Registry.{EventState}
use tracing_throttle.Emitter.{EmitterConfig, EmitterConfigError, new_config}
use tracing_throttle.Layer.{TracingRateLimitLayer}
use tracing_throttle.Layer.Builder.{
  BuildError, zero_max_signatures, emitter_config, EvictionStrategy, lru_strategy,
  priority_strategy, memory_strategy, priority_with_memory_strategy, TracingRateLimitLayerBuilder,
}

unfoldable pub validate_max : Option ℕ → Result BuildError (Unit {0})
validate_max none = ok tt
validate_max (some max) = if max == 0 then err zero_max_signatures else ok tt

-- The `From` of the emitter's error.
unfoldable pub from_config :
    Result EmitterConfigError EmitterConfig → Result BuildError EmitterConfig
from_config (ok config) = ok config
from_config (err e) = err (emitter_config e)

-- `size_of::<K>()` and `size_of::<V>()` are the compiler's.
module _ {f : F64} (size_of_key size_of_value : ℕ)
    (m : DashMap EventSignature (StorageEntry (EventState f EventMetadata))) where
  unfoldable pub adapter :
      EvictionStrategy f → EvictionPolicy EventSignature (EventState f EventMetadata)
  adapter (lru_strategy max_entries) = lru max_entries
  adapter (priority_strategy max_entries priority_fn) = priority max_entries priority_fn
  adapter (memory_strategy max_bytes) = memory size_of_key size_of_value max_bytes
  adapter (priority_with_memory_strategy max_entries priority_fn max_bytes) =
      priority_with_memory size_of_key size_of_value max_entries priority_fn max_bytes

  -- The strategy, or else LRU with `max_signatures`.
  unfoldable pub eviction_policy :
      Option (EvictionStrategy f)
      → Option ℕ
      → Option (EvictionPolicy EventSignature (EventState f EventMetadata))
  unfolding adapter
  eviction_policy (some strategy) max_signatures = some (adapter strategy)
  eviction_policy none (some max) = some (lru max)
  eviction_policy none none = none

  unfoldable pub equip :
      ShardedStorage m
      → Option (EvictionPolicy EventSignature (EventState f EventMetadata))
      → ShardedStorage m
  equip storage none = storage
  equip storage (some policy) = Storage.with_eviction_policy m storage policy

  unfoldable pub assemble :
      {Formatter : Type 0}
      → TracingRateLimitLayerBuilder Formatter f
      → Instant
      → Instant
      → EmitterConfig
      → TracingRateLimitLayer Formatter f (sharded m)
  unfolding eviction_policy equip
  assemble b breaker_epoch storage_epoch config =
      let storage = Storage.with_metrics m (Storage.new m storage_epoch) in
      record {
        limiter = record {
          registry = record {
            storage = equip storage (eviction_policy b.eviction_strategy b.max_signatures);
            default_policy = b.policy;
          };
          metrics = Metrics.new;
          circuit_breaker = Breaker.new breaker_epoch;
        };
        span_context_fields = b.span_context_fields;
        excluded_fields = b.excluded_fields;
        exempt_targets = b.exempt_targets;
        emitter_handle =
            if b.enable_active_emission
            then some (record {
              config = config;
              summary_formatter = b.summary_formatter;
              emit_final = false;
            })
            else none;
      }

  unfoldable pub build :
      {Formatter : Type 0}
      → TracingRateLimitLayerBuilder Formatter f
      → Instant
      → Instant
      → Result BuildError (TracingRateLimitLayer Formatter f (sharded m))
  unfolding validate_max from_config assemble
  build b breaker_epoch storage_epoch = do
    valid ← validate_max b.max_signatures
    config ← from_config (new_config b.summary_interval)
    ok (assemble b breaker_epoch storage_epoch config)
