-- ===== src/Emitter/Task.antt =====
-- application/emitter.rs, `SummaryEmitter::start`: the loop of the task. A poll is one iteration of
-- `select!`: what it finds on the channel and on the ticker, and what the other threads record.
pub mod Recorded
pub mod Emission
pub mod Reported
use tracing_throttle.Prelude.{
  ℕ, zero, suc, ◌+◌, ◌<◌, ◌≡◌, refl, sym, ap, ◌∙◌, Bool, Bool-cases, inl, inr, true, false, List,
  [], ◌∷◌, ◌++◌, Instant, arith, if◌then◌else◌,
}
use tracing_throttle.Policy.Float.{F64}
use tracing_throttle.Registry.{EventState}
use tracing_throttle.Emitter.{
  EmitterConfig, SuppressionSummary, collect_claimed_summaries, emit_claimed_summaries,
}
use tracing_throttle.Emitter.Rollback.{meanwhile}

-- Whether `changed` is ready, the value of the channel, whether the ticker is ready, and how
-- `emit_fn` takes an emission: it is called at most once in an iteration. The suppressions of each
-- signature that are recorded before the iteration's claims, and those from then on until the
-- emission is over.
pub record Poll (K M : Type 0) : Type 0 where
  pub changed : Bool
  pub shutdown : Bool
  pub ticked : Bool
  pub emit_fn : List (SuppressionSummary K M) → Bool
  pub before : K → List Instant
  pub during : K → List Instant

-- The entries, the summaries that were emitted, and whether the loop was left.
pub record Progress (K M : Type 0) (f : F64) : Type 0 where
  pub entries : List (K × EventState f M)
  pub emitted : List (SuppressionSummary K M)
  pub ended : Bool

-- Whether an iteration leaves the loop.
unfoldable pub stops : {K M : Type 0} → Poll K M → Bool
stops poll = if poll.changed then poll.shutdown else false

-- The suppressions that are recorded until the task ends, in so many iterations at most.
unfoldable pub history : {K M : Type 0} → ℕ → (ℕ → Poll K M) → K → List Instant
history zero polls k = []
history (suc n) polls k =
    let poll = polls 0 in
    let later = history n (λ i. polls (suc i)) k in
    (poll.before k ++ poll.during k) ++ (if stops poll then [] else later)

module _ {K M : Type 0} (f : F64) (base : Instant) (dec : Discrete K) (config : EmitterConfig) where
  -- The entries after a collection and its emission, and the summaries that were emitted.
  unfoldable pub emission :
      Poll K M
      → List (K × EventState f M)
      → List (K × EventState f M) × List (SuppressionSummary K M)
  emission poll entries =
      let (batch, entries') = collect_claimed_summaries f base config entries in
      let (entries'', emitted) =
        emit_claimed_summaries f base dec batch poll.emit_fn
          (meanwhile f base poll.during entries') in
      (entries'', if emitted then batch.summaries else [])

  -- One iteration of the loop: the channel has priority over the ticker.
  unfoldable pub iteration : Bool → Poll K M → List (K × EventState f M) → Progress K M f
  unfolding emission
  iteration emit_final poll entries =
      let now = meanwhile f base poll.before entries in
      let (entries', summaries) = emission poll now in
      let passed = meanwhile f base poll.during now in
      if poll.changed
      then (if poll.shutdown
          then (if emit_final
              then record { entries = entries'; emitted = summaries; ended = true }
              else record { entries = passed; emitted = []; ended = true })
          else record { entries = passed; emitted = []; ended = false })
      else if poll.ticked
      then record { entries = entries'; emitted = summaries; ended = false }
      else record { entries = passed; emitted = []; ended = false }

  -- The loop, for as many iterations at most.
  unfoldable pub task : Bool → ℕ → (ℕ → Poll K M) → List (K × EventState f M) → Progress K M f
  unfolding iteration
  task emit_final zero polls entries = record { entries = entries; emitted = []; ended = false }
  task emit_final (suc n) polls entries =
      let here = iteration emit_final (polls 0) entries in
      let rest = task emit_final n (λ i. polls (suc i)) here.entries in
      if here.ended then here else record rest { emitted = here.emitted ++ rest.emitted }

  pub iteration-stops :
      (emit_final : Bool) (poll : Poll K M) (entries : List (K × EventState f M))
      → (iteration emit_final poll entries).ended ≡ stops poll
  unfolding iteration stops
  iteration-stops emit_final poll entries = ground arith

  -- A shutdown ends the task: if the iteration `n` finds one, the loop is left in that iteration or
  -- before it, and to allow for more iterations than it takes changes nothing.
  pub task-stops :
      (emit_final : Bool) (n m : ℕ) (polls : ℕ → Poll K M) (entries : List (K × EventState f M))
      → n < m
      → stops (polls n) ≡ true
      → ((task emit_final m polls entries).ended ≡ true)
        × (task emit_final m polls entries ≡ task emit_final (suc n) polls entries)
  unfolding task
  task-stops emit_final n zero polls entries less h = absurd (omega arith)
  task-stops emit_final zero (suc m) polls entries less h =
      let ends = iteration-stops emit_final (polls 0) entries ∙ h in rw (ends, task) (ends, refl)
  task-stops emit_final (suc n) (suc m) polls entries less h =
      let here = iteration emit_final (polls 0) entries in
      let (ends, same) =
        task-stops emit_final n m (λ i. polls (suc i)) here.entries (omega (arith, less)) h in
      elim (Bool-cases here.ended) [
        | inl stop ↦ rw (stop, task) (stop, refl)
        | inr go ↦
            let onward : Progress K M f → Progress K M f =
              λ rest. record rest { emitted = here.emitted ++ rest.emitted } in
            rw (go, task) (ends, ap onward same)
      ]
