-- ===== src/Summary/History.antt =====
-- domain/summary.rs: histories of a counter whose claims come from one emitter at a time, as those
-- of application/emitter.rs do. An emission that fails is a claim, a rollback, and what other
-- threads record in between.
use tracing_throttle.Prelude.{
  ℕ, suc, ◌+◌, ◌≤◌, ◌<◌, ◌≡◌, refl, ◌∙◌, ap, inl, inr, Option, none, some, Option-cases, Instant,
  List, [], ◌∷◌, length, arith, u64_mod, u64_max, instant_max,
}
use tracing_throttle.Summary.{
  SuppressionCounter, ClaimedSuppressions, unreported_count, record_suppression, claim_unreported,
  mark_reported, claimed, rollback_claim, record_all,
}
use tracing_throttle.Summary.Claims.{
  IsValid, record_suppression-IsValid, claim_unreported-IsValid, count-record_suppression,
  rollback_claim-claim_unreported,
}

pub data Op : Type 0 where
  suppressed : Instant → Op
  emitted : ℕ → Op
  failed : ℕ → List Instant → Op

unfoldable pub delivered : Option ClaimedSuppressions → ℕ
delivered none = 0
delivered (some claim) = claim.count

unfoldable pub recorded : List Op → ℕ
recorded [] = 0
recorded (suppressed t ∷ ops) = suc (recorded ops)
recorded (emitted n ∷ ops) = recorded ops
recorded (failed n ts ∷ ops) = length ts + recorded ops

module _ (base : Instant) where
  unfoldable pub give_back : SuppressionCounter → Option ClaimedSuppressions → SuppressionCounter
  give_back c none = c
  give_back c (some claim) = (rollback_claim base c claim).0

  unfoldable pub failed_emission : SuppressionCounter → ℕ → List Instant → SuppressionCounter
  failed_emission c n ts =
      let (d, claim) = claim_unreported base c n in give_back (record_all base d ts) claim

  -- The counter after a history, and how many suppressions its summaries reported.
  pub run : SuppressionCounter → List Op → SuppressionCounter × ℕ
  run c [] = (c, 0)
  run c (suppressed t ∷ ops) = run (record_suppression base c t) ops
  run c (emitted n ∷ ops) =
      let (d, claim) = claim_unreported base c n in
      let (e, m) = run d ops in (e, delivered claim + m)
  run c (failed n ts ∷ ops) = run (failed_emission c n ts) ops

  record_all-IsValid :
      (c : SuppressionCounter) (ts : List Instant)
      → c.suppressed_count + length ts < u64_mod
      → IsValid c
      → IsValid (record_all base c ts)
        × ((record_all base c ts).suppressed_count ≡ c.suppressed_count + length ts)
        × ((record_all base c ts).reported_count ≡ c.reported_count)
  unfolding record_all
  record_all-IsValid c [] small v = (v, omega arith, refl)
  record_all-IsValid c (t ∷ ts) small v =
      let n = count-record_suppression base c t (omega arith) in
      let (w, m, r) =
        record_all-IsValid (record_suppression base c t) ts (omega arith)
          (record_suppression-IsValid base c t (omega arith) v) in
      (w, omega arith, r ∙ (unfold record_suppression in refl))

  unreported-record_suppression :
      (c : SuppressionCounter) (t : Instant)
      → c.suppressed_count + 1 < u64_mod
      → IsValid c
      → ((record_suppression base c t).suppressed_count ≡ c.suppressed_count + 1)
        × (unreported_count (record_suppression base c t) ≡ unreported_count c + 1)
  unfolding unreported_count
  unreported-record_suppression c t small v =
      let n = count-record_suppression base c t small in
      let r : (record_suppression base c t).reported_count ≡ c.reported_count =
        unfold record_suppression in refl in
      (n, omega arith)

  pub record_all-unreported :
      (c : SuppressionCounter) (ts : List Instant)
      → c.suppressed_count + length ts < u64_mod
      → IsValid c
      → IsValid (record_all base c ts)
        × ((record_all base c ts).suppressed_count ≡ c.suppressed_count + length ts)
        × (unreported_count (record_all base c ts) ≡ unreported_count c + length ts)
  unfolding unreported_count
  record_all-unreported c ts small v =
      let (w, n, r) = record_all-IsValid c ts small v in (w, n, omega arith)

  pub failed_emission-record_all :
      base + u64_max ≤ instant_max
      → (c : SuppressionCounter) (n : ℕ) (ts : List Instant) → IsValid c
      → c.suppressed_count + length ts < u64_mod
      → failed_emission c n ts ≡ record_all base c ts
  unfolding failed_emission give_back
  failed_emission-record_all fits c n ts v small =
      elim (Option-cases (claim_unreported base c n).1) [
        | inl e ↦ rw (e, give_back) (unfold claim_unreported in ground arith)
        | inr (claim, e) ↦
            rw (e, give_back)
              (ap (λ r. r.0) (rollback_claim-claim_unreported base fits c n ts claim v small e))
      ]

  -- A claim moves what is unreported into the summary.
  pub delivered-claim :
      (c : SuppressionCounter) (n : ℕ)
      → IsValid c
      → let (d, claim) = claim_unreported base c n in
        (delivered claim + unreported_count d ≡ unreported_count c)
        × (d.suppressed_count ≡ c.suppressed_count)
  unfolding delivered claim_unreported mark_reported claimed unreported_count
  delivered-claim c n v = ground arith

  -- No suppression is lost or reported twice: over any history of a valid counter that does not
  -- wrap, what the emitted summaries count and what is still unreported add up to what was
  -- unreported before and all that was recorded since. No instant of the counter may lie beyond
  -- the platform's last one.
  pub delivered-run :
      base + u64_max ≤ instant_max
      → (c : SuppressionCounter) (ops : List Op) → IsValid c
      → c.suppressed_count + recorded ops < u64_mod
      → let (d, total) = run c ops in
        (total + unreported_count d ≡ unreported_count c + recorded ops)
        × (d.suppressed_count ≡ c.suppressed_count + recorded ops)
        × IsValid d
  unfolding run recorded
  delivered-run fits c [] v small = (omega arith, omega arith, v)
  delivered-run fits c (suppressed t ∷ ops) v small =
      let w = record_suppression-IsValid base c t (omega arith) v in
      let (n, r) = unreported-record_suppression c t (omega arith) v in
      let (e, m, x) = delivered-run fits (record_suppression base c t) ops w (omega arith) in
      (omega arith, omega arith, x)
  delivered-run fits c (emitted n ∷ ops) v small =
      let (moved, same) = delivered-claim c n v in
      let (e, m, x) =
        delivered-run fits (claim_unreported base c n).0 ops (claim_unreported-IsValid base c n v)
          (omega arith) in
      (omega arith, omega arith, x)
  delivered-run fits c (failed n ts ∷ ops) v small =
      rw (failed_emission-record_all fits c n ts v (omega arith), run, recorded)
        (let (w, n, r) = record_all-unreported c ts (omega arith) v in
          let (e, m, x) = delivered-run fits (record_all base c ts) ops w (omega arith) in
          (omega arith, omega arith, x))
