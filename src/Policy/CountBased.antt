-- ===== src/Policy/CountBased.antt =====
-- domain/policy.rs, `CountBasedPolicy`: the first `max_count` events pass.
use tracing_throttle.Prelude.{
  ℕ, zero, suc, ◌+◌, ◌-◌, ◌<◌, ◌≡◌, refl, List, [], ◌∷◌, arith, ◌==◌, leb, if◌then◌else◌, Result,
  ok, err, u64_mod, wrapping_inc, Instant, length,
}
use tracing_throttle.Policy.Quota.{quota, quota-nil, quota-suc, quota-zero}
use tracing_throttle.Policy.Decision.{PolicyError, PolicyDecision, zero_max_count, allow, suppress}

pub record CountBasedPolicy : Type 0 where
  pub max_count : ℕ  -- usize
  pub current_count : ℕ  -- usize

unfoldable pub new : ℕ → Result PolicyError CountBasedPolicy
new max_count =
    if max_count == 0
    then err zero_max_count
    else ok (record { max_count = max_count; current_count = 0 })

unfoldable pub register_event : CountBasedPolicy → Instant → CountBasedPolicy × PolicyDecision
register_event p timestamp =
    let q = record p { current_count = wrapping_inc p.current_count } in
    (q, if leb q.current_count q.max_count then allow else suppress)

unfoldable pub reset : CountBasedPolicy → CountBasedPolicy
reset p = record p { current_count = 0 }

-- The decisions on a sequence of events, in order.
unfoldable pub decisions : CountBasedPolicy → List Instant → List PolicyDecision
decisions p [] = []
decisions p (t ∷ ts) = let (q, d) = register_event p t in d ∷ decisions q ts

-- With `room` and no wrap of the counter.
decisions_from :
    (room : ℕ) (p : CountBasedPolicy) (ts : List Instant)
    → p.current_count + length ts < u64_mod
    → p.max_count - p.current_count ≡ room
    → decisions p ts ≡ quota room (length ts)
unfolding decisions register_event
decisions_from room p [] h e = ground (arith, quota-nil room)
decisions_from zero p (t ∷ ts) h e =
    let c : wrapping_inc p.current_count ≡ p.current_count + 1 = omega arith in
    let q : CountBasedPolicy = record p { current_count = wrapping_inc p.current_count } in
    ground (arith, decisions_from zero q ts (omega arith) (omega arith), quota-zero (length ts))
decisions_from (suc room) p (t ∷ ts) h e =
    let c : wrapping_inc p.current_count ≡ p.current_count + 1 = omega arith in
    let q : CountBasedPolicy = record p { current_count = wrapping_inc p.current_count } in
    ground (arith, decisions_from room q ts (omega arith) (omega arith), quota-suc room (length ts))

-- While the counter does not wrap, a policy allows exactly as many events as are left of its
-- `max_count`, those that come first, and suppresses all others.
pub decisions-quota :
    (p : CountBasedPolicy) (ts : List Instant)
    → p.current_count + length ts < u64_mod
    → decisions p ts ≡ quota (p.max_count - p.current_count) (length ts)
decisions-quota p ts h = decisions_from (p.max_count - p.current_count) p ts h refl
