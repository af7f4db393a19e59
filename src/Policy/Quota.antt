-- ===== src/Policy/Quota.antt =====
-- Decisions under a quota: what comes first passes.
use Prim.Native.Nat.{min}
use tracing_throttle.Prelude.{ℕ, suc, ◌-◌, ◌≡◌, List, [], ◌∷◌, ◌++◌, arith, replicate}
use tracing_throttle.Policy.Decision.{PolicyDecision, allow, suppress}

-- `room` events pass, and what is left of `n` does not.
unfoldable pub quota : (room n : ℕ) → List PolicyDecision
quota room n = replicate (min room n) allow ++ replicate (n - room) suppress

pub quota-nil : (room : ℕ) → quota room 0 ≡ []
unfolding quota
quota-nil room =
    let e : min room 0 ≡ 0 = omega arith in let f : 0 - room ≡ 0 = omega arith in rw (e, f)

pub quota-suc : (room n : ℕ) → quota (suc room) (suc n) ≡ allow ∷ quota room n
unfolding quota
quota-suc room n =
    let e : min (suc room) (suc n) ≡ suc (min room n) = omega arith in
    let f : suc n - suc room ≡ n - room = omega arith in rw (e, f)

pub quota-zero : (n : ℕ) → quota 0 (suc n) ≡ suppress ∷ quota 0 n
unfolding quota
quota-zero n =
    let e : min 0 (suc n) ≡ 0 = omega arith in
    let f : min 0 n ≡ 0 = omega arith in
    let g : suc n - 0 ≡ suc (n - 0) = omega arith in rw (e, f, g)
