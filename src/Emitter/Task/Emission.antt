-- ===== src/Emitter/Task/Emission.antt =====
-- application/emitter.rs, `SummaryEmitter::start`: what one emission keeps.
use mathlib.Core.Path.{subst}
use mathlib.Core.List.{append-nil}
use tracing_throttle.Prelude.{
  ◌+◌, ◌<◌, ◌≤◌, ◌≡◌, refl, sym, ap, ◌∙◌, Bool-cases, inl, inr, true, false, List, [], ◌∷◌, All,
  All-map, Instant, arith, u64_mod, u64_max, instant_max, if◌then◌else◌,
}
use tracing_throttle.Policy.Float.{F64}
use tracing_throttle.Summary.{SuppressionCounter, claim_unreported}
use tracing_throttle.Summary.Claims.{IsValid, claim_unreported-IsValid}
use tracing_throttle.Summary.History.{delivered-claim}
use tracing_throttle.Registry.{EventState}
use tracing_throttle.Emitter.{
  EmitterConfig, SuppressionSummary, ClaimedSummary, collect_claimed_summaries,
  emit_claimed_summaries, emit_some, empty_batch,
}
use tracing_throttle.Emitter.Rollback.{
  Distinct, Sound, meanwhile, collect-claims, emit_claimed_summaries-collect,
}
use tracing_throttle.Emitter.Conservation.{collect_claimed_summaries-reported}
use tracing_throttle.Emitter.Task.{Poll, emission}
use tracing_throttle.Emitter.Task.Recorded.{
  recordings, change-recordings, change-Distinct, change-Sound, Sound-fewer, Kept, Kept-meanwhile,
  Kept-append,
}

module _ {K M : Type 0} (f : F64) (base : Instant) (dec : Discrete K) (config : EmitterConfig) where
  emit_some-true :
      (ss : List (SuppressionSummary K M)) (cs : List (ClaimedSummary K))
      (entries : List (K × EventState f M))
      → emit_some f base dec ss cs true entries ≡ (entries, true)
  unfolding emit_some
  emit_some-true [] cs entries = refl
  emit_some-true (s ∷ ss) cs entries = refl

  emit_some-false :
      (ss : List (SuppressionSummary K M)) (cs : List (ClaimedSummary K))
      (entries : List (K × EventState f M))
      → (if (emit_some f base dec ss cs false entries).1 then ss else []) ≡ []
  unfolding emit_some
  emit_some-false [] cs entries = refl
  emit_some-false (s ∷ ss) cs entries = refl

  pub recordings-nil :
      (entries : List (K × EventState f M)) → recordings f base (λ k. []) entries ≡ 0
  unfolding recordings
  recordings-nil [] = refl
  recordings-nil (e ∷ rest) = omega (arith, recordings-nil rest)

  Sound-IsValid :
      (entries : List (K × EventState f M))
      → Sound f base (λ k. []) entries
      → All (λ e. IsValid e.1.counter) entries
  unfolding Sound
  Sound-IsValid entries s = All-map entries (λ e h. h.0) s

  Kept-collect :
      (entries : List (K × EventState f M))
      → Distinct f base entries
      → Sound f base (λ k. []) entries
      → let (batch, entries') = collect_claimed_summaries f base config entries in
        Kept f base (λ k. []) entries entries' batch.summaries
  unfolding collect_claimed_summaries
  Kept-collect entries d s =
      let n = config.min_count in
      let (batch, entries') = collect_claimed_summaries f base config entries in
      let changed = (collect-claims f base n empty_batch entries).1 in
      let valid = Sound-IsValid entries s in
      let total = (collect_claimed_summaries-reported f base config entries valid).0 in
      let grows : (k : K) (c : SuppressionCounter)
          → IsValid c
          → c.suppressed_count + 0 < u64_mod
          → IsValid (claim_unreported base c n).0
            × ((claim_unreported base c n).0.suppressed_count ≡ c.suppressed_count + 0) =
        λ k c v small.
          (claim_unreported-IsValid base c n v, (delivered-claim base c n v).1 ∙ omega arith) in
      record {
        total = omega (arith, total, recordings-nil entries);
        distinct =
            subst (Distinct f base) (sym changed)
              (change-Distinct f base (λ k c. (claim_unreported base c n).0) entries d);
        sound = λ us h. subst (Sound f base us) (sym changed) (
            change-Sound f base (λ k c. (claim_unreported base c n).0) (λ k. []) us grows entries
              h);
        same = λ us.
            ap (recordings f base us) changed
            ∙ change-recordings f base (λ k c. (claim_unreported base c n).0) us entries;
      }

  pub Kept-emission :
      base + u64_max ≤ instant_max
      → (poll : Poll K M) (entries : List (K × EventState f M)) → Distinct f base entries
      → Sound f base poll.during entries
      → let (entries', ss) = emission f base dec config poll entries in
        Kept f base poll.during entries entries' ss
  unfolding emission emit_claimed_summaries
  Kept-emission fits poll entries d s =
      let (batch, entries') = collect_claimed_summaries f base config entries in
      let after = meanwhile f base poll.during entries' in
      elim (Bool-cases (poll.emit_fn batch.summaries)) [
        | inl returns ↦
            let claims =
              Kept-collect entries d
                (Sound-fewer f base poll.during (λ k. []) entries (λ k. omega arith) s) in
            let later =
              Kept-meanwhile f base poll.during entries' claims.distinct
                (claims.sound poll.during s) in
            rw (returns, emission, emit_some-true batch.summaries batch.claims after)
              (subst (Kept f base poll.during entries after) (append-nil batch.summaries)
                (Kept-append f base (λ k. []) poll.during claims later))
        | inr panics ↦
            let same =
              emit_claimed_summaries-collect f base dec fits config poll.during entries poll.emit_fn
                d s panics in
            let nothing =
              ap
                (λ r.
                  if (emit_some f base dec batch.summaries batch.claims r after).1
                  then batch.summaries
                  else [])
                panics
              ∙ emit_some-false batch.summaries batch.claims after in
            subst
              (λ es. Kept f base poll.during entries es (emission f base dec config poll entries).1)
              (sym same)
              (subst (Kept f base poll.during entries (meanwhile f base poll.during entries))
                (sym nothing) (Kept-meanwhile f base poll.during entries d s))
      ]
