-- ===== src/Layer/Validation.antt =====
-- infrastructure/layer.rs: which configurations `build` accepts.
use mathlib.Core.Option
use tracing_throttle.Prelude.{
  ℕ, ◌<◌, ◌≡◌, ◌≢◌, refl, ap, Bool, Bool-cases, inl, inr, true, false, arith, ◌==◌, ==_iff,
  if◌then◌else◌, Option, none, some, Result, ok, err, Instant,
}
use tracing_throttle.Policy.Float.{F64}
use tracing_throttle.Signature.{EventSignature}
use tracing_throttle.Metadata.{EventMetadata}
use tracing_throttle.Storage.{StorageEntry}
use tracing_throttle.Storage.Map.{DashMap}
use tracing_throttle.Ports.Sharded.{sharded}
use tracing_throttle.Registry.{EventState}
use tracing_throttle.Emitter.{zero_summary_interval, new_config}
use tracing_throttle.Layer.{TracingRateLimitLayer}
use tracing_throttle.Layer.Builder.{
  BuildError, zero_max_signatures, emitter_config, TracingRateLimitLayerBuilder,
}
use tracing_throttle.Layer.Build.{build, validate_max, from_config, assemble}

-- The limit of the signatures is 0.
unfoldable is_zero : Option ℕ → Bool
is_zero none = false
is_zero (some n) = n == 0

validate_max-is_zero :
    (o : Option ℕ) → validate_max o ≡ (if is_zero o then err zero_max_signatures else ok tt)
unfolding validate_max is_zero
validate_max-is_zero none = refl
validate_max-is_zero (some n) = refl

is_zero-some : (o : Option ℕ) → is_zero o ≡ true → o ≡ some 0
unfolding is_zero
is_zero-some none h = cc
is_zero-some (some n) h = ap some (ground (arith, h))

is_zero-other : (o : Option ℕ) → is_zero o ≡ false → o ≢ some 0
unfolding is_zero
is_zero-other none h = λ e. cc
is_zero-other (some n) h = λ e. ground (arith, h, ap (λ o. Option.get_or o 1) e)

module _ {Formatter : Type 0} {f : F64} (size_of_key size_of_value : ℕ)
    (m : DashMap EventSignature (StorageEntry (EventState f EventMetadata))) where
  -- What `build` gives for a configuration.
  pub data Built (b : TracingRateLimitLayerBuilder Formatter f)
      (breaker_epoch storage_epoch : Instant)
      : Result BuildError (TracingRateLimitLayer Formatter f (sharded m)) → Type 0 where
    no_signatures :
        b.max_signatures ≡ some 0 → Built b breaker_epoch storage_epoch (err zero_max_signatures)
    no_interval :
        b.max_signatures ≢ some 0
        → b.summary_interval ≡ 0
        → Built b breaker_epoch storage_epoch (err (emitter_config zero_summary_interval))
    accepted :
        b.max_signatures ≢ some 0
        → 0 < b.summary_interval
        → Built b breaker_epoch storage_epoch (
            ok (
              assemble size_of_key size_of_value m b breaker_epoch storage_epoch
                (record { interval = b.summary_interval; min_count = 1 })))

  -- A limit of 0 signatures is refused, and an interval of 0 where the limit is none or another;
  -- any other configuration is accepted.
  pub build-Built :
      (b : TracingRateLimitLayerBuilder Formatter f) (breaker_epoch storage_epoch : Instant)
      → Built b breaker_epoch storage_epoch
          (build size_of_key size_of_value m b breaker_epoch storage_epoch)
  unfolding build from_config new_config
  build-Built b be se =
      let checked = validate_max-is_zero b.max_signatures in
      elim (Bool-cases (is_zero b.max_signatures)) [
        | inl z ↦ rw (checked, z, build) (no_signatures (is_zero-some b.max_signatures z))
        | inr z ↦ elim (Bool-cases (b.summary_interval == 0)) [
          | inl i ↦
              rw (checked, z, i, build, from_config, new_config)
                (no_interval (is_zero-other b.max_signatures z) ((==_iff b.summary_interval 0).0 i))
          | inr i ↦
              rw (checked, z, i, build, from_config, new_config)
                (accepted (is_zero-other b.max_signatures z) (ground (arith, i)))
        ]
      ]

  assembled :
      (b : TracingRateLimitLayerBuilder Formatter f) (breaker_epoch storage_epoch : Instant)
      (r : Result BuildError (TracingRateLimitLayer Formatter f (sharded m)))
      (l : TracingRateLimitLayer Formatter f (sharded m))
      → Built b breaker_epoch storage_epoch r
      → r ≡ ok l
      → assemble size_of_key size_of_value m b breaker_epoch storage_epoch
          (record { interval = b.summary_interval; min_count = 1 })
        ≡ l
  assembled b be se r l (no_signatures h) e = cc
  assembled b be se r l (no_interval h i) e = cc
  assembled b be se r l (accepted h i) e = cc

  pub built-assemble :
      (b : TracingRateLimitLayerBuilder Formatter f) (breaker_epoch storage_epoch : Instant)
      (l : TracingRateLimitLayer Formatter f (sharded m))
      → build size_of_key size_of_value m b breaker_epoch storage_epoch ≡ ok l
      → assemble size_of_key size_of_value m b breaker_epoch storage_epoch
          (record { interval = b.summary_interval; min_count = 1 })
        ≡ l
  built-assemble b be se l e =
      assembled b be se (build size_of_key size_of_value m b be se) l (build-Built b be se) e
