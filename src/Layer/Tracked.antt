-- ===== src/Layer/Tracked.antt =====
-- infrastructure/layer.rs: how many signatures a layer that `build` made comes to track.
use mathlib.Core.Path.{subst}
use tracing_throttle.Prelude.{
  ℕ, ◌≤◌, ◌<◌, ◌≡◌, refl, sym, Bool, Bool-cases, inl, inr, true, false, arith, List, [], ◌∷◌,
  Option, none, some, ok, Instant,
}
use tracing_throttle.Text.{Text, same_text}
use tracing_throttle.Visitor.{Printing}
use tracing_throttle.Policy.Float.{F64}
use tracing_throttle.Signature.{EventSignature}
use tracing_throttle.Metadata.{EventMetadata}
use tracing_throttle.Metrics.{Metrics}
use tracing_throttle.Breaker.{allow_request}
use tracing_throttle.Eviction.{lru}
use tracing_throttle.Eviction.Oldest.{select_oldest-All}
use tracing_throttle.Storage
use tracing_throttle.Storage.{StorageEntry}
use tracing_throttle.Storage.Map.{DashMap, DashMapLaws}
use tracing_throttle.Storage.Capacity.{Fits, with_entry_mut-len}
use tracing_throttle.Ports.Sharded.{sharded}
use tracing_throttle.Registry
use tracing_throttle.Registry.{EventState, SuppressionRegistry, with_event_state, new}
use tracing_throttle.Limiter.{
  LimitDecision, RateLimiter, Readings, attempt, check, check_event_with_metadata,
  decide_with_metadata,
}
use tracing_throttle.Emitter.{EmitterConfig}
use tracing_throttle.Layer.{
  TracingRateLimitLayer, Event, summary_target, is_exempt, event_signature, event_metadata,
  should_allow_with_metadata, event_enabled, signature_count,
}
use tracing_throttle.Layer.Builder.{TracingRateLimitLayerBuilder}
use tracing_throttle.Layer.Validation.{built-assemble}
use tracing_throttle.Layer.Build.{build, assemble, eviction_policy, equip}

module _ (f : F64) (base : Instant) (dec : Discrete EventSignature)
    (m : DashMap EventSignature (StorageEntry (EventState f EventMetadata)))
    (laws : DashMapLaws dec m) (max : ℕ) (positive : 0 < max) where
  -- The storage evicts the least recently used, and holds at most `max` entries.
  Bounded : Storage.ShardedStorage m → Type 0
  unfolding lru
  Bounded s = Fits dec m laws (lru max) select_oldest-All max (λ e b. refl) s

  with_event_state-Bounded :
      {R : Type 0} (r : SuppressionRegistry f EventMetadata (sharded m)) (metrics : Metrics)
      (k : EventSignature) (clock : Option Instant) (now : Instant)
      (g : EventState f EventMetadata → Instant → EventState f EventMetadata × R)
      → Bounded r.storage
      → Bounded (with_event_state f base (sharded m) r metrics k clock now g).0.0.storage
  unfolding with_event_state Bounded lru
  with_event_state-Bounded r metrics k none now g h = h
  with_event_state-Bounded r metrics k (some time) now g h =
      let (s, metrics', x, done, within) =
        with_entry_mut-len dec m laws (lru max) select_oldest-All max (λ e b. refl) positive
          r.storage metrics k (new f base r.default_policy time) now (λ state. g state time) h in
      subst (λ x. Bounded x.0.0) (sym done) within

  attempt-Bounded :
      (l : RateLimiter f EventMetadata (sharded m)) (k : EventSignature) (r : Readings)
      (closure : EventState f EventMetadata → Instant → EventState f EventMetadata × LimitDecision)
      (granted : Bool)
      → Bounded l.registry.storage
      → Bounded (attempt f base (sharded m) l k r closure granted).0.registry.storage
  unfolding attempt
  attempt-Bounded l k r closure false h = h
  attempt-Bounded l k r closure true h =
      with_event_state-Bounded l.registry l.metrics k r.clock r.at_access closure h

  module _ {Formatter : Type 0} (t : Printing) (finish : List Text → ℕ) where
    event_enabled-Bounded :
        (l : TracingRateLimitLayer Formatter f (sharded m)) (event : Event t) (r : Readings)
        → Bounded l.limiter.registry.storage
        → Bounded (event_enabled t finish f base (sharded m) l event r).0.limiter.registry.storage
    unfolding event_enabled should_allow_with_metadata check_event_with_metadata check
    event_enabled-Bounded l event r h =
        let (breaker, granted) = allow_request l.limiter.circuit_breaker r.at_request in
        let limited =
          attempt-Bounded (record l.limiter { circuit_breaker = breaker })
            (event_signature t finish f base (sharded m) l event) r
            (decide_with_metadata f base (event_metadata t finish f base (sharded m) l event))
            granted h in
        elim (Bool-cases (same_text event.target summary_target)) [
          | inl e ↦ rw (e, event_enabled) h
          | inr e ↦ elim (Bool-cases (is_exempt t finish f base (sharded m) l event.target)) [
            | inl x ↦ rw (e, x, event_enabled) h
            | inr x ↦ rw (e, x, event_enabled) limited
          ]
        ]

    -- The layer after events, each with what the clocks read in its call.
    unfoldable pub after :
        TracingRateLimitLayer Formatter f (sharded m)
        → List (Event t × Readings)
        → TracingRateLimitLayer Formatter f (sharded m)
    after l [] = l
    after l ((event, r) ∷ es) = after (event_enabled t finish f base (sharded m) l event r).0 es

    after-Bounded :
        (l : TracingRateLimitLayer Formatter f (sharded m)) (es : List (Event t × Readings))
        → Bounded l.limiter.registry.storage
        → Bounded (after l es).limiter.registry.storage
    unfolding after
    after-Bounded l [] h = h
    after-Bounded l ((event, r) ∷ es) h =
        after-Bounded (event_enabled t finish f base (sharded m) l event r).0 es
          (event_enabled-Bounded l event r h)

    assemble-Bounded :
        (size_of_key size_of_value : ℕ) (b : TracingRateLimitLayerBuilder Formatter f)
        (breaker_epoch storage_epoch : Instant) (config : EmitterConfig)
        → b.eviction_strategy ≡ none
        → b.max_signatures ≡ some max
        → Bounded
            (assemble size_of_key size_of_value m b breaker_epoch storage_epoch
              config).limiter.registry.storage
    unfolding assemble Bounded lru Storage.with_eviction_policy Storage.new Storage.with_metrics
        eviction_policy equip Storage.len
    assemble-Bounded x y b be se config no_strategy limit =
        rw (no_strategy, limit, assemble, eviction_policy, equip)
          (record { has_policy = refl; within = omega (arith, laws.len-empty) })

    -- A layer that was built without an eviction strategy never tracks more signatures than its
    -- limit, at least 1, whatever events come.
    pub signature_count-build :
        (size_of_key size_of_value : ℕ) (b : TracingRateLimitLayerBuilder Formatter f)
        (breaker_epoch storage_epoch : Instant) (l : TracingRateLimitLayer Formatter f (sharded m))
        (es : List (Event t × Readings))
        → b.eviction_strategy ≡ none
        → b.max_signatures ≡ some max
        → build size_of_key size_of_value m b breaker_epoch storage_epoch ≡ ok l
        → signature_count t finish f base (sharded m) (after l es) ≤ max
    unfolding signature_count Registry.len Bounded
    signature_count-build x y b be se l es no_strategy limit built =
        let start =
          subst (λ l. Bounded l.limiter.registry.storage) (built-assemble x y m b be se l built)
            (assemble-Bounded x y b be se _ no_strategy limit) in
        (after-Bounded l es start).within
