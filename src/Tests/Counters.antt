-- ===== src/Tests/Counters.antt =====
-- The suppression counter at concrete instants; its base instant is 0.
use tracing_throttle.Prelude.{◌≡◌, refl, List, [], ◌∷◌, true, arith}
use tracing_throttle.Summary.{
  SuppressionCounter, claim_unreported, rollback_claim, record_all, claimed, unreported_count,
}
use tracing_throttle.Summary.Claims.{IsValid, rollback_claim-claim_unreported}
use tracing_throttle.Summary.History.{Op, suppressed, emitted, failed}

-- Three suppressions, of which one was reported.
abbrev three : SuppressionCounter
three = record {
  suppressed_count = 3;
  reported_count = 1;
  first_suppressed_nanos = 10;
  last_suppressed_nanos = 30;
  last_reported_nanos = 10;
  first_unreported_nanos = 20;
}

three-IsValid : IsValid three
three-IsValid = record {
  reported_le = omega arith;
  count_fits = omega arith;
  last_reported_fits = omega arith;
  last_suppressed_fits = omega arith;
  first_unreported_fits = omega arith;
}

rollback_claim-claim_unreported_example :
    rollback_claim 0 (record_all 0 (claim_unreported 0 three 1).0 (40 ∷ 50 ∷ [])) (claimed 0 three)
    ≡ (record_all 0 three (40 ∷ 50 ∷ []), true)
unfolding claim_unreported unreported_count
rollback_claim-claim_unreported_example =
    rollback_claim-claim_unreported 0 (omega arith) three 1 (40 ∷ 50 ∷ []) (claimed 0 three)
      three-IsValid (omega arith) refl

abbrev history : List Op
history = suppressed 40 ∷ failed 1 (50 ∷ []) ∷ emitted 2 ∷ suppressed 60 ∷ []

-- All three reported.
abbrev settled : SuppressionCounter
settled = record three { reported_count = 3; last_reported_nanos = 30; first_unreported_nanos = 30 }
