-- ===== src/Layer/Events.antt =====
-- infrastructure/layer.rs, `event_enabled`: what it counts, and how it decides.
use mathlib.Core.Path.{subst}
use tracing_throttle.Prelude.{
  ℕ, ◌≡◌, refl, sym, ap, ◌∙◌, Bool, Bool-cases, inl, inr, true, false, List, [], ◌∷◌, All, All-map,
  map, Instant,
}
use tracing_throttle.Text.{Text, same_text}
use tracing_throttle.Visitor.{Printing}
use tracing_throttle.Policy.Float.{F64}
use tracing_throttle.Policy
use tracing_throttle.Signature.{EventSignature}
use tracing_throttle.Metadata.{EventMetadata}
use tracing_throttle.Metrics.{record_allowed}
use tracing_throttle.Registry.{EventState}
use tracing_throttle.Ports.{Storage, StorageLaws}
use tracing_throttle.Limiter.{
  LimitDecision, allowed, suppressed, Readings, check, check_event_with_metadata,
  decide_with_metadata,
}
use tracing_throttle.Limiter.Decided.{Counted, check-Counted}
use tracing_throttle.Limiter.Decisions.{of_policy, policy_decisions, decide_with_metadata-policy}
use tracing_throttle.Limiter.Run.{
  Event as Call, Reliable, Ready, current_policy, readings, check-policy,
}
use tracing_throttle.Layer.{
  TracingRateLimitLayer, Event, summary_target, is_allowed, is_exempt, event_signature,
  event_metadata, combined_fields, should_allow_with_metadata, event_enabled,
}

unfoldable pub decision_of : Bool → LimitDecision
decision_of true = allowed
decision_of false = suppressed

decision_of-is_allowed : (d : LimitDecision) → decision_of (is_allowed d) ≡ d
unfolding decision_of is_allowed
decision_of-is_allowed allowed = refl
decision_of-is_allowed suppressed = refl

module _ {Formatter : Type 0} (t : Printing) (finish : List Text → ℕ) (f : F64) (base : Instant)
    (p : Storage EventSignature (EventState f EventMetadata)) (laws : StorageLaws p) where
  should_allow_with_metadata-Counted :
      (l : TracingRateLimitLayer Formatter f p) (k : EventSignature) (metadata : EventMetadata)
      (r : Readings)
      → let (l', passes) = should_allow_with_metadata t finish f base p l k metadata r in
        Counted (decision_of passes) l.limiter.metrics l'.limiter.metrics
  unfolding should_allow_with_metadata check_event_with_metadata
  should_allow_with_metadata-Counted l k metadata r =
      let closure = decide_with_metadata f base metadata in
      let (limiter, d) = check f base p l.limiter k r closure in
      subst (λ d. Counted d l.limiter.metrics limiter.metrics) (sym (decision_of-is_allowed d))
        (check-Counted f base p laws l.limiter k r closure)

  -- Each event whose target is not that of the summaries is counted once, as allowed if it passes
  -- and as suppressed if not.
  pub event_enabled-Counted :
      (l : TracingRateLimitLayer Formatter f p) (event : Event t) (r : Readings)
      → same_text event.target summary_target ≡ false
      → let (l', passes) = event_enabled t finish f base p l event r in
        Counted (decision_of passes) l.limiter.metrics l'.limiter.metrics
  unfolding event_enabled decision_of Counted record_allowed
  event_enabled-Counted l event r h =
      elim (Bool-cases (is_exempt t finish f base p l event.target)) [
        | inl e ↦ rw (h, e, event_enabled) (refl, refl)
        | inr e ↦
            rw (h, e, event_enabled)
              (should_allow_with_metadata-Counted l (event_signature t finish f base p l event)
                (event_metadata t finish f base p l event) r)
      ]

  -- An event that the layer limits under the signature `k`.
  pub record Limited (l : TracingRateLimitLayer Formatter f p) (k : EventSignature)
      (event : Event t) : Type 0 where
    pub no_summary : same_text event.target summary_target ≡ false
    pub no_exemption : is_exempt t finish f base p l event.target ≡ false
    pub signature : event_signature t finish f base p l event ≡ k

  -- The answers on events, each with what the clocks read in its call.
  unfoldable pub passes : TracingRateLimitLayer Formatter f p → List (Event t × Call) → List Bool
  passes l [] = []
  passes l ((event, call) ∷ es) =
      let (l', pass) = event_enabled t finish f base p l event (readings call) in
      pass ∷ passes l' es

  event_enabled_under :
      (l : TracingRateLimitLayer Formatter f p) (k : EventSignature) (event : Event t)
      (r : Readings)
      → Limited l k event
      → event_enabled t finish f base p l event r
        ≡ should_allow_with_metadata t finish f base p l k
            (event_metadata t finish f base p l event)
            r
  unfolding event_enabled
  event_enabled_under l k event r h =
      rw (h.no_summary, h.no_exemption, event_enabled)
        (ap
          (λ k.
            should_allow_with_metadata t finish f base p l k
              (event_metadata t finish f base p l event) r)
          h.signature)

  -- The limiter changes, but not what selects and names the events.
  should_allow_with_metadata-Limited :
      (l : TracingRateLimitLayer Formatter f p) (k j : EventSignature) (metadata : EventMetadata)
      (r : Readings) (event : Event t)
      → Limited l k event
      → Limited (should_allow_with_metadata t finish f base p l j metadata r).0 k event
  unfolding should_allow_with_metadata event_signature combined_fields is_exempt
  should_allow_with_metadata-Limited l k j metadata r event h = record {
    no_summary = h.no_summary;
    no_exemption = h.no_exemption;
    signature = h.signature;
  }

  module _ (reliable : Reliable f base p) where
    -- The answers on events of one signature, none of them a summary's or exempt, are the
    -- decisions of the policy of that signature at the readings of the registry's clock, as long
    -- as the breaker is closed at first and no access panics.
    pub passes-policy :
        (l : TracingRateLimitLayer Formatter f p) (k : EventSignature) (es : List (Event t × Call))
        → Ready f base p laws reliable l.limiter
        → All (λ e. Limited l k e.0) es
        → passes l es
          ≡ map
              (λ d. is_allowed (of_policy d))
              (policy_decisions f
                (current_policy f base p l.limiter.registry k)
                (map (λ e. e.1.time) es))
    unfolding passes policy_decisions should_allow_with_metadata check_event_with_metadata
    passes-policy l k [] ready h = refl
    passes-policy l k ((event, call) ∷ es) ready h =
        let metadata = event_metadata t finish f base p l event in
        let closure = decide_with_metadata f base metadata in
        let limited = event_enabled_under l k event (readings call) h.0 in
        let l' = (should_allow_with_metadata t finish f base p l k metadata (readings call)).0 in
        let (decision, policy, ready') =
          check-policy f base p laws reliable l.limiter k call closure
            (decide_with_metadata-policy f base metadata) ready in
        let rest =
          passes-policy l' k es ready' (
            All-map es (λ e. should_allow_with_metadata-Limited l k k metadata (readings call) e.0)
              h.1)
          ∙ ap
              (λ q.
                map (λ d. is_allowed (of_policy d)) (policy_decisions f q (map (λ e. e.1.time) es)))
              policy in
        ap (λ x. x.1 ∷ passes x.0 es) limited
        ∙ ap (λ d. is_allowed d ∷ passes l' es) decision
        ∙ ap
            (λ ds.
              is_allowed (
                of_policy
                  (Policy.register_event f (current_policy f base p l.limiter.registry k)
                    call.time).1)
              ∷ ds)
            rest
