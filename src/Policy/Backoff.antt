-- ===== src/Policy/Backoff.antt =====
-- domain/policy.rs, `ExponentialBackoffPolicy`: the events number 1, 2, 4, 8, … pass.
use native.Mathlib.Nat.{pow-suc, pow-le-pow_right}
use native.Mathlib.Decide.{ℕ_discrete, dec_lt}
use tracing_throttle.Prelude.{
  ℕ, suc, ◌+◌, ◌*◌, ◌^◌, ◌≤◌, ◌<◌, ◌≡◌, ◌↔◌, ◌∙◌, ◌⊎◌, inl, inr, refl, List, [], ◌∷◌, arith, ◌==◌,
  if◌then◌else◌, wrapping_inc, saturating_mul, Instant, length,
}
use tracing_throttle.Policy.Decision.{PolicyDecision, allow, suppress}

pub record ExponentialBackoffPolicy : Type 0 where
  pub event_count : ℕ  -- u64
  pub next_allowed : ℕ  -- u64

unfoldable pub new : ExponentialBackoffPolicy
new = record { event_count = 0; next_allowed = 1 }

unfoldable pub register_event :
    ExponentialBackoffPolicy → Instant → ExponentialBackoffPolicy × PolicyDecision
register_event p timestamp =
    let q = record p { event_count = wrapping_inc p.event_count } in
    if q.event_count == q.next_allowed
    then (record q { next_allowed = saturating_mul q.next_allowed 2 }, allow)
    else (q, suppress)

unfoldable pub reset : ExponentialBackoffPolicy → ExponentialBackoffPolicy
reset p = record p { event_count = 0; next_allowed = 1 }

-- The policy after a sequence of events.
unfoldable pub after : ExponentialBackoffPolicy → List Instant → ExponentialBackoffPolicy
after p [] = p
after p (t ∷ ts) = after (register_event p t).0 ts

abbrev pub IsPowerOfTwo : ℕ → Type 0
IsPowerOfTwo n = (k : ℕ) × (n ≡ 2 ^ k)

-- `next_allowed` is the least power of two above the number of events so far.
record Inv (p : ExponentialBackoffPolicy) : Type 0 where
  exponent : ℕ
  next_pow : p.next_allowed ≡ 2 ^ exponent
  above : p.event_count < p.next_allowed
  least : (p.event_count ≡ 0) ⊎ (p.next_allowed ≤ 2 * p.event_count)
  first : p.event_count ≡ 0 → p.next_allowed ≡ 1

-- The state after an event that is counted, as the invariant says.
register_event-Inv :
    (p : ExponentialBackoffPolicy) (t : Instant)
    → p.event_count + 1 < 2 ^ 63
    → Inv p
    → Inv (register_event p t).0
register_event-Inv p t small v = elim (ℕ_discrete (p.event_count + 1) p.next_allowed) [
  | yes hit ↦
      let e : (register_event p t).0
          ≡ record { event_count = p.event_count + 1; next_allowed = p.next_allowed * 2 } =
        unfold register_event in ground (arith, no_wrap) in
      rw e (record {
        exponent = suc v.exponent;
        next_pow = rw (pow-suc 2 v.exponent) (rw (← v.next_pow) refl);
        above = omega arith;
        least = inr (omega arith);
        first = λ z. absurd (omega arith);
      })
  | no miss ↦
      let e : (register_event p t).0 ≡ record p { event_count = p.event_count + 1 } =
        unfold register_event in ground (arith, no_wrap) in
      rw e (record {
        exponent = v.exponent;
        next_pow = v.next_pow;
        above = omega arith;
        least = ground (arith, v.first);
        first = λ z. absurd (omega arith);
      })
]
  where
    no_wrap : wrapping_inc p.event_count ≡ p.event_count + 1
    no_wrap = omega arith

count-register_event :
    (p : ExponentialBackoffPolicy) (t : Instant)
    → p.event_count + 1 < 2 ^ 63
    → (register_event p t).0.event_count ≡ p.event_count + 1
unfolding register_event
count-register_event p t small =
    let e : wrapping_inc p.event_count ≡ p.event_count + 1 = omega arith in ground arith

after-Inv :
    (p : ExponentialBackoffPolicy) (ts : List Instant)
    → p.event_count + length ts < 2 ^ 63
    → Inv p
    → Inv (after p ts) × ((after p ts).event_count ≡ p.event_count + length ts)
unfolding after
after-Inv p [] small v = (v, omega arith)
after-Inv p (t ∷ ts) small v =
    let c : (register_event p t).0.event_count ≡ p.event_count + 1 =
      count-register_event p t (omega arith) in
    let (w, e) =
      after-Inv (register_event p t).0 ts (omega arith) (register_event-Inv p t (omega arith) v) in
    (w, omega arith)

new-Inv : Inv new
unfolding new
new-Inv = record {
  exponent = 0;
  next_pow = refl;
  above = omega arith;
  least = inl refl;
  first = λ z. refl;
}

allow-next :
    (p : ExponentialBackoffPolicy) (t : Instant)
    → p.event_count + 1 < 2 ^ 63
    → ((register_event p t).1 ≡ allow) ↔ (p.event_count + 1 ≡ p.next_allowed)
unfolding register_event
allow-next p t small =
    let e : wrapping_inc p.event_count ≡ p.event_count + 1 = omega arith in
    (λ h. ground arith, λ h. ground arith)

next_of_pow :
    (p : ExponentialBackoffPolicy)
    → Inv p
    → IsPowerOfTwo (p.event_count + 1)
    → p.event_count + 1 ≡ p.next_allowed
next_of_pow p v (j, e) = elim (dec_lt j v.exponent) [
  | yes below ↦
      let q : 2 ^ suc j ≤ 2 ^ v.exponent = pow-le-pow_right (omega arith) below in
      let r : 2 ^ suc j ≡ 2 ^ j * 2 = pow-suc 2 j in ground (arith, v.first, v.next_pow)
  | no above ↦
      let q : 2 ^ v.exponent ≤ 2 ^ j = pow-le-pow_right (omega arith) (omega arith) in
      omega (arith, v.next_pow, v.above)
]

-- A new policy allows an event if and only if the event's number, counted from 1, is a power of
-- two, as long as fewer than 2 ^ 63 events have come.
pub allow-IsPowerOfTwo_iff :
    (ts : List Instant) (t : Instant)
    → length ts + 1 < 2 ^ 63
    → ((register_event (after new ts) t).1 ≡ allow) ↔ IsPowerOfTwo (length ts + 1)
allow-IsPowerOfTwo_iff ts t small =
    let (v, e) = after-Inv new ts (unfold new in omega arith) new-Inv in
    let c : (after new ts).event_count ≡ length ts = e ∙ (unfold new in omega arith) in
    let (to, of) = allow-next (after new ts) t (omega arith) in
    (
      λ h. (v.exponent, ground (arith, to h, v.next_pow)),
      λ h. of (next_of_pow (after new ts) v (rw c h)),
    )
