-- ===== src/Emitter.antt =====
-- application/emitter.rs, and the summaries of domain/summary.rs. The registry is the list of its
-- entries, in the order in which `cleanup` visits them; each visit is one step, and each signature
-- has one entry. `emit_fn` is a parameter: whether it returns on the summaries or panics.
pub mod Rollback
pub mod Conservation
pub mod Task
pub mod Handle
pub mod Message
use mathlib.Core.Logic.{ite}
use tracing_throttle.Prelude.{
  ℕ, Bool, true, false, Option, none, some, List, [], ◌∷◌, ◌++◌, Instant, Duration, Result, ok, err,
  from_secs, ◌==◌, if◌then◌else◌, saturating_duration_since,
}
use tracing_throttle.Policy.Float.{F64}
use tracing_throttle.Summary.{
  SuppressionCounter, ClaimedSuppressions, claim_unreported, rollback_claim, nanos_to_instant,
}
use tracing_throttle.Registry.{EventState}

pub data EmitterConfigError : Type 0 where
  zero_summary_interval : EmitterConfigError

pub record EmitterConfig : Type 0 where
  pub interval : Duration
  pub min_count : ℕ

abbrev pub default_config : EmitterConfig
default_config = record { interval = from_secs 30; min_count = 1 }

unfoldable pub new_config : Duration → Result EmitterConfigError EmitterConfig
new_config interval =
    if interval == 0
    then err zero_summary_interval
    else ok (record { interval = interval; min_count = 1 })

pub with_min_count : EmitterConfig → ℕ → EmitterConfig
with_min_count config min_count = record config { min_count = min_count }

pub record SuppressionSummary (K M : Type 0) : Type 0 where
  pub signature : K
  pub count : ℕ
  pub first_suppressed : Instant
  pub last_suppressed : Instant
  pub duration : Duration
  pub metadata : Option M

pub record ClaimedSummary (K : Type 0) : Type 0 where
  pub signature : K
  pub claim : ClaimedSuppressions

pub record ClaimedSummaryBatch (K M : Type 0) : Type 0 where
  pub summaries : List (SuppressionSummary K M)
  pub claims : List (ClaimedSummary K)

unfoldable pub from_claim_with_metadata :
    {K M : Type 0} → K → ClaimedSuppressions → Option M → SuppressionSummary K M
from_claim_with_metadata signature claim metadata = record {
  signature = signature;
  count = claim.count;
  first_suppressed = claim.first_suppressed;
  last_suppressed = claim.last_suppressed;
  duration = claim.duration;
  metadata = metadata;
}

pub from_claim : {K M : Type 0} → K → ClaimedSuppressions → SuppressionSummary K M
unfolding from_claim_with_metadata
from_claim signature claim = from_claim_with_metadata signature claim none

pub from_counter_with_metadata :
    {K M : Type 0} → Instant → K → SuppressionCounter → Option M → SuppressionSummary K M
from_counter_with_metadata base signature counter metadata =
    let first = nanos_to_instant base counter.first_suppressed_nanos in
    let last = nanos_to_instant base counter.last_suppressed_nanos in
    record {
      signature = signature;
      count = counter.suppressed_count;
      first_suppressed = first;
      last_suppressed = last;
      duration = saturating_duration_since last first;
      metadata = metadata;
    }

pub from_counter : {K M : Type 0} → Instant → K → SuppressionCounter → SuppressionSummary K M
unfolding from_counter_with_metadata
from_counter base signature counter = from_counter_with_metadata base signature counter none

unfoldable pub empty_batch : {K M : Type 0} → ClaimedSummaryBatch K M
empty_batch = record { summaries = []; claims = [] }

-- What one visit adds to the batch.
unfoldable pub push :
    {K M : Type 0}
    → ClaimedSummaryBatch K M
    → K
    → Option M
    → Option ClaimedSuppressions
    → ClaimedSummaryBatch K M
unfolding from_claim_with_metadata
push batch signature metadata none = batch
push batch signature metadata (some claim) = record {
  summaries = batch.summaries ++ from_claim_with_metadata signature claim metadata ∷ [];
  claims = batch.claims ++ record { signature = signature; claim = claim } ∷ [];
}

-- The loop over the claims, for one entry.
unfoldable pub roll_back :
    {K : Type 0}
    → Instant
    → Discrete K
    → List (ClaimedSummary K)
    → K
    → SuppressionCounter
    → SuppressionCounter
roll_back base dec [] signature c = c
roll_back base dec (claim ∷ claims) signature c =
    roll_back base dec claims signature
      (ite (dec claim.signature signature) (rollback_claim base c claim.claim).0 c)

module _ {K M : Type 0} (f : F64) where
  -- `cleanup` by a closure that keeps every entry, with a state of its own.
  unfoldable pub cleanup :
      {S : Type 0}
      → (S → K → EventState f M → S × EventState f M)
      → S
      → List (K × EventState f M)
      → S × List (K × EventState f M)
  cleanup g a [] = (a, [])
  cleanup g a ((signature, state) ∷ rest) =
      let (a', state') = g a signature state in
      let (b, rest') = cleanup g a' rest in (b, (signature, state') ∷ rest')

  module _ (base : Instant) where
    unfoldable pub claim_visit :
        ℕ → ClaimedSummaryBatch K M → K → EventState f M → ClaimedSummaryBatch K M × EventState f M
    unfolding push
    claim_visit min_count batch signature state =
        let (counter, claim) = claim_unreported base state.counter min_count in
        (push batch signature state.metadata claim, record state { counter = counter })

    unfoldable pub collect_claimed_summaries :
        EmitterConfig
        → List (K × EventState f M)
        → ClaimedSummaryBatch K M × List (K × EventState f M)
    unfolding cleanup claim_visit empty_batch
    collect_claimed_summaries config entries =
        cleanup (claim_visit config.min_count) empty_batch entries

    pub collect_summaries :
        EmitterConfig
        → List (K × EventState f M)
        → List (SuppressionSummary K M) × List (K × EventState f M)
    unfolding collect_claimed_summaries
    collect_summaries config entries =
        let (batch, entries') = collect_claimed_summaries config entries in
        (batch.summaries, entries')

    module _ (dec : Discrete K) where
      unfoldable pub rollback_visit :
          List (ClaimedSummary K) → Unit {0} → K → EventState f M → Unit {0} × EventState f M
      unfolding roll_back
      rollback_visit claims u signature state =
          (u, record state { counter = roll_back base dec claims signature state.counter })

      unfoldable pub rollback_claimed_summaries :
          List (ClaimedSummary K) → List (K × EventState f M) → List (K × EventState f M)
      unfolding cleanup rollback_visit
      rollback_claimed_summaries [] entries = entries
      rollback_claimed_summaries (claim ∷ claims) entries =
          (cleanup (rollback_visit (claim ∷ claims)) tt entries).1

      emit_some :
          List (SuppressionSummary K M)
          → List (ClaimedSummary K)
          → Bool
          → List (K × EventState f M)
          → List (K × EventState f M) × Bool
      emit_some [] claims returns entries = (entries, true)
      emit_some (s ∷ ss) claims true entries = (entries, true)
      emit_some (s ∷ ss) claims false entries = (rollback_claimed_summaries claims entries, false)

      -- `emit_fn` is whether the emission returns.
      unfoldable pub emit_claimed_summaries :
          ClaimedSummaryBatch K M
          → (List (SuppressionSummary K M) → Bool)
          → List (K × EventState f M)
          → List (K × EventState f M) × Bool
      unfolding emit_some
      emit_claimed_summaries batch emit_fn entries =
          emit_some batch.summaries batch.claims (emit_fn batch.summaries) entries
