-- ===== src/Emitter/Conservation.antt =====
-- application/emitter.rs: what one emission reports.
use Prim.Native.Nat.{max}
use tracing_throttle.Prelude.{
  ℕ, ◌+◌, ◌<◌, ◌≡◌, refl, List, [], ◌∷◌, ◌++◌, Option, none, some, All, Instant, arith,
}
use tracing_throttle.Policy.Float.{F64}
use tracing_throttle.Summary.{
  SuppressionCounter, ClaimedSuppressions, claim_unreported, unreported_count, mark_reported,
}
use tracing_throttle.Summary.Claims.{IsValid}
use tracing_throttle.Summary.History.{delivered, delivered-claim}
use tracing_throttle.Registry.{EventState}
use tracing_throttle.Emitter.{
  EmitterConfig, ClaimedSummaryBatch, SuppressionSummary, push, cleanup, claim_visit,
  collect_claimed_summaries, empty_batch, from_claim_with_metadata,
}

-- The suppressions that summaries report.
unfoldable pub reported : {K M : Type 0} → List (SuppressionSummary K M) → ℕ
reported [] = 0
reported (s ∷ ss) = s.count + reported ss

reported-append :
    {K M : Type 0} (ss : List (SuppressionSummary K M)) (s : SuppressionSummary K M)
    → reported (ss ++ s ∷ []) ≡ reported ss + s.count
unfolding reported
reported-append [] s = omega arith
reported-append (x ∷ ss) s = omega (arith, reported-append ss s)

push-reported :
    {K M : Type 0} (b : ClaimedSummaryBatch K M) (k : K) (meta : Option M)
    (o : Option ClaimedSuppressions)
    → reported (push b k meta o).summaries ≡ reported b.summaries + delivered o
unfolding push delivered from_claim_with_metadata
push-reported b k meta none = omega arith
push-reported b k meta (some claim) = reported-append b.summaries _

claim_unreported-lt :
    (base : Instant) (c : SuppressionCounter) (n : ℕ)
    → unreported_count (claim_unreported base c n).0 < max n 1
unfolding claim_unreported unreported_count mark_reported
claim_unreported-lt base c n = ground arith

module _ {K M : Type 0} (f : F64) (base : Instant) where
  -- The suppressions that the entries have not reported.
  unfoldable pub unreported : List (K × EventState f M) → ℕ
  unreported [] = 0
  unreported ((k, state) ∷ rest) = unreported_count state.counter + unreported rest

  cleanup-reported :
      (n : ℕ) (b : ClaimedSummaryBatch K M) (entries : List (K × EventState f M))
      → All (λ e. IsValid e.1.counter) entries
      → let (b', entries') = cleanup f (claim_visit f base n) b entries in
        (reported b'.summaries + unreported entries' ≡ reported b.summaries + unreported entries)
        × All (λ e. unreported_count e.1.counter < max n 1) entries'
  unfolding cleanup claim_visit unreported
  cleanup-reported n b [] v = (refl, tt)
  cleanup-reported n b ((k, state) ∷ rest) v =
      let (d, o) = claim_unreported base state.counter n in
      let (total, below) = cleanup-reported n (push b k state.metadata o) rest v.1 in
      let added = push-reported b k state.metadata o in
      let (moved, count) = delivered-claim base state.counter n v.0 in
      (omega arith, (claim_unreported-lt base state.counter n, below))

  -- The summaries of one collection report all and only what the entries no longer count as
  -- unreported, and leave below the minimum count, or at none, what each entry has unreported.
  pub collect_claimed_summaries-reported :
      (config : EmitterConfig) (entries : List (K × EventState f M))
      → All (λ e. IsValid e.1.counter) entries
      → let (batch, entries') = collect_claimed_summaries f base config entries in
        (reported batch.summaries + unreported entries' ≡ unreported entries)
        × All (λ e. unreported_count e.1.counter < max config.min_count 1) entries'
  unfolding collect_claimed_summaries empty_batch reported
  collect_claimed_summaries-reported config entries v =
      let (total, below) = cleanup-reported config.min_count empty_batch entries v in
      (omega arith, below)
