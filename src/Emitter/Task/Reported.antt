-- ===== src/Emitter/Task/Reported.antt =====
-- application/emitter.rs, `SummaryEmitter::start`: what the task reports.
use mathlib.Core.Path.{subst}
use mathlib.Core.List.{append-nil}
use tracing_throttle.Prelude.{
  ℕ, zero, suc, ◌+◌, ◌≤◌, ◌≡◌, refl, Bool, true, false, List, [], ◌++◌, length-append, Instant,
  arith, u64_max, instant_max, if◌then◌else◌,
}
use tracing_throttle.Policy.Float.{F64}
use tracing_throttle.Registry.{EventState}
use tracing_throttle.Emitter.{EmitterConfig}
use tracing_throttle.Emitter.Rollback.{Distinct, Sound, meanwhile}
use tracing_throttle.Emitter.Conservation.{reported, unreported}
use tracing_throttle.Emitter.Task.{Poll, Progress, iteration-stops, stops, history, iteration, task}
use tracing_throttle.Emitter.Task.Emission.{recordings-nil, Kept-emission}
use tracing_throttle.Emitter.Task.Recorded.{
  recordings, Sound-fewer, Kept, Kept-meanwhile, Kept-append,
}

if_both : {A : Type 0} (P : A → Type 0) (b : Bool) {x y : A} → P x → P y → P (if b then x else y)
if_both P true px py = px
if_both P false px py = py

module _ {K M : Type 0} (f : F64) (base : Instant) (dec : Discrete K) (config : EmitterConfig) where
  Kept-iteration :
      base + u64_max ≤ instant_max
      → (emit_final : Bool) (poll : Poll K M) (entries : List (K × EventState f M))
      → Distinct f base entries
      → Sound f base (λ k. poll.before k ++ poll.during k) entries
      → let p = iteration f base dec config emit_final poll entries in
        Kept f base (λ k. poll.before k ++ poll.during k) entries p.entries p.emitted
  unfolding iteration
  Kept-iteration fits emit_final poll entries d s =
      let now = meanwhile f base poll.before entries in
      let before = Kept-meanwhile f base poll.before entries d (
        Sound-fewer f base _ poll.before entries
          (λ k. rw (length-append (poll.before k)) (omega arith)) s) in
      let there = before.sound poll.during s in
      let idle =
        Kept-append f base poll.before poll.during before
          (Kept-meanwhile f base poll.during now before.distinct there) in
      let emits =
        Kept-append f base poll.before poll.during before
          (Kept-emission f base dec config fits poll now before.distinct there) in
      let P : Progress K M f → Type 0 =
        λ p. Kept f base (λ k. poll.before k ++ poll.during k) entries p.entries p.emitted in
      if_both P poll.changed (if_both P poll.shutdown (if_both P emit_final emits idle) idle)
        (if_both P poll.ticked emits idle)

  Kept-nil : (a : List (K × EventState f M)) → Distinct f base a → Kept f base (λ k. []) a a []
  unfolding reported
  Kept-nil a d = record {
    total = omega (arith, recordings-nil f base dec config a);
    distinct = d;
    sound = λ us s. s;
    same = λ us. refl;
  }

  -- The loop goes on unless it is left.
  Kept-next :
      (stop ended : Bool) (ts us : K → List Instant) (a : List (K × EventState f M))
      (here rest : Progress K M f)
      → ended ≡ stop
      → Kept f base ts a here.entries here.emitted
      → (stop ≡ false → Kept f base us here.entries rest.entries rest.emitted)
      → let p : Progress K M f =
          if ended then here else record rest { emitted = here.emitted ++ rest.emitted } in
        Kept f base (λ k. ts k ++ (if stop then [] else us k)) a p.entries p.emitted
  Kept-next true true ts us a here rest e h h' =
      subst (Kept f base (λ k. ts k ++ []) a here.entries) (append-nil here.emitted)
        (Kept-append f base ts (λ k. []) h (Kept-nil here.entries h.distinct))
  Kept-next false false ts us a here rest e h h' = Kept-append f base ts us h (h' refl)
  Kept-next true false ts us a here rest e h h' = absurd cc
  Kept-next false true ts us a here rest e h h' = absurd cc

  Kept-task :
      base + u64_max ≤ instant_max
      → (emit_final : Bool) (n : ℕ) (polls : ℕ → Poll K M) (entries : List (K × EventState f M))
      → Distinct f base entries
      → Sound f base (history n polls) entries
      → let p = task f base dec config emit_final n polls entries in
        Kept f base (history n polls) entries p.entries p.emitted
  unfolding task history
  Kept-task fits emit_final zero polls entries d s = Kept-nil entries d
  Kept-task fits emit_final (suc n) polls entries d s =
      let poll = polls 0 in
      let both : K → List Instant = λ k. poll.before k ++ poll.during k in
      let next : ℕ → Poll K M = λ i. polls (suc i) in
      let here = iteration f base dec config emit_final poll entries in
      let now = Kept-iteration fits emit_final poll entries d (
        Sound-fewer f base (history (suc n) polls) both entries
          (λ k. rw (length-append (both k)) (omega arith)) s) in
      Kept-next (stops poll) here.ended both (history n next) entries here
        (task f base dec config emit_final n next here.entries)
        (iteration-stops f base dec config emit_final poll entries) now
        (λ go. Kept-task fits emit_final n next here.entries now.distinct (
          now.sound (history n next) (
            subst (λ b. Sound f base (λ k. both k ++ (if b then [] else history n next k)) entries)
              go s)))

  -- However many iterations of the task run, with whatever panics of `emit_fn` and whatever
  -- shutdown, and whatever suppressions other threads record in the meantime, between the claims
  -- of an emission and its end too: what was emitted and what is left unreported add up to what
  -- was unreported at first and what was recorded. Each signature has one entry, the counters are
  -- valid and do not wrap, and no instant of a counter lies beyond the platform's last one.
  pub task-reported :
      base + u64_max ≤ instant_max
      → (emit_final : Bool) (n : ℕ) (polls : ℕ → Poll K M) (entries : List (K × EventState f M))
      → Distinct f base entries
      → Sound f base (history n polls) entries
      → let p = task f base dec config emit_final n polls entries in
        reported p.emitted + unreported f base p.entries
        ≡ unreported f base entries + recordings f base (history n polls) entries
  task-reported fits emit_final n polls entries d s =
      (Kept-task fits emit_final n polls entries d s).total
