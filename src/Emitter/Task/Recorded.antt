-- ===== src/Emitter/Task/Recorded.antt =====
-- application/emitter.rs: entries on which other threads record suppressions.
use mathlib.Core.List.{append_assoc}
use tracing_throttle.Prelude.{
  ℕ, ◌+◌, ◌<◌, ◌≤◌, ◌≡◌, ◌≢◌, refl, ◌∙◌, List, [], ◌∷◌, ◌++◌, length, length-append, All, Instant,
  arith, u64_mod,
}
use tracing_throttle.Policy.Float.{F64}
use tracing_throttle.Summary.{SuppressionCounter, record_all}
use tracing_throttle.Summary.Claims.{IsValid}
use tracing_throttle.Summary.History.{record_all-unreported}
use tracing_throttle.Registry.{EventState}
use tracing_throttle.Emitter.{SuppressionSummary}
use tracing_throttle.Emitter.Rollback.{Distinct, Sound, change, meanwhile}
use tracing_throttle.Emitter.Conservation.{reported, unreported}

reported-append :
    {K M : Type 0} (xs ys : List (SuppressionSummary K M))
    → reported (xs ++ ys) ≡ reported xs + reported ys
unfolding reported
reported-append [] ys = omega arith
reported-append (x ∷ xs) ys = omega (arith, reported-append xs ys)

module _ {K M : Type 0} (f : F64) (base : Instant) where
  -- The number of suppressions that the entries receive.
  unfoldable pub recordings : (K → List Instant) → List (K × EventState f M) → ℕ
  recordings ts [] = 0
  recordings ts (e ∷ rest) = length (ts e.0) + recordings ts rest

  recordings-append :
      (ts us : K → List Instant) (entries : List (K × EventState f M))
      → recordings (λ k. ts k ++ us k) entries ≡ recordings ts entries + recordings us entries
  unfolding recordings
  recordings-append ts us [] = omega arith
  recordings-append ts us (e ∷ rest) =
      omega (arith, recordings-append ts us rest, length-append (ts e.0) (us e.0))

  pub change-recordings :
      (g : K → SuppressionCounter → SuppressionCounter) (ts : K → List Instant)
      (entries : List (K × EventState f M))
      → recordings ts (change f base g entries) ≡ recordings ts entries
  unfolding change recordings
  change-recordings g ts [] = refl
  change-recordings g ts (e ∷ rest) = omega (arith, change-recordings g ts rest)

  pub change-Distinct :
      (g : K → SuppressionCounter → SuppressionCounter) (entries : List (K × EventState f M))
      → Distinct f base entries
      → Distinct f base (change f base g entries)
  unfolding change Distinct
  change-Distinct g [] d = tt
  change-Distinct g ((k, state) ∷ rest) d = (others rest d.0, change-Distinct g rest d.1)
    where
      others :
          (es : List (K × EventState f M))
          → All (λ e. e.0 ≢ k) es
          → All (λ e. e.0 ≢ k) (change f base g es)
      others [] h = tt
      others (e ∷ es) h = (h.0, others es h.1)

  pub Sound-fewer :
      (ts us : K → List Instant) (entries : List (K × EventState f M))
      → ((k : K) → length (us k) ≤ length (ts k))
      → Sound f base ts entries
      → Sound f base us entries
  unfolding Sound
  Sound-fewer ts us [] fewer h = tt
  Sound-fewer ts us (e ∷ rest) fewer h =
      ((h.0.0, omega (arith, h.0.1, fewer e.0)), Sound-fewer ts us rest fewer h.1)

  -- A change that counts up by what it records.
  pub change-Sound :
      (g : K → SuppressionCounter → SuppressionCounter) (ts us : K → List Instant)
      → ((k : K) (c : SuppressionCounter)
          → IsValid c
          → c.suppressed_count + length (ts k) < u64_mod
          → IsValid (g k c) × ((g k c).suppressed_count ≡ c.suppressed_count + length (ts k)))
      → (entries : List (K × EventState f M)) → Sound f base (λ k. ts k ++ us k) entries
      → Sound f base us (change f base g entries)
  unfolding Sound change
  change-Sound g ts us grows [] h = tt
  change-Sound g ts us grows ((k, state) ∷ rest) h =
      let both = length-append (ts k) (us k) in
      let small = h.0.1 in
      let (v, count) = grows k state.counter h.0.0 (omega arith) in
      ((v, omega arith), change-Sound g ts us grows rest h.1)

  pub meanwhile-unreported :
      (ts : K → List Instant) (entries : List (K × EventState f M))
      → Sound f base ts entries
      → unreported f base (meanwhile f base ts entries)
        ≡ unreported f base entries + recordings ts entries
  unfolding Sound meanwhile change unreported recordings
  meanwhile-unreported ts [] h = omega arith
  meanwhile-unreported ts ((k, state) ∷ rest) h =
      let (v, count, more) = record_all-unreported base state.counter (ts k) h.0.1 h.0.0 in
      omega (arith, more, meanwhile-unreported ts rest h.1)

  -- From the entries `a` to the entries `b` the suppressions `ts` were recorded, and the summaries
  -- `ss` were emitted.
  pub record Kept (ts : K → List Instant) (a b : List (K × EventState f M))
      (ss : List (SuppressionSummary K M)) : Type 0 where
    pub total : reported ss + unreported f base b ≡ unreported f base a + recordings ts a
    pub distinct : Distinct f base b
    pub sound : (us : K → List Instant) → Sound f base (λ k. ts k ++ us k) a → Sound f base us b
    pub same : (us : K → List Instant) → recordings us b ≡ recordings us a

  pub Kept-meanwhile :
      (ts : K → List Instant) (a : List (K × EventState f M))
      → Distinct f base a
      → Sound f base ts a
      → Kept ts a (meanwhile f base ts a) []
  unfolding reported meanwhile
  Kept-meanwhile ts a d s = record {
    total = omega (arith, meanwhile-unreported ts a s);
    distinct = change-Distinct (λ k c. record_all base c (ts k)) a d;
    sound = λ us.
        change-Sound (λ k c. record_all base c (ts k)) ts us
          (λ k c v small. let (w, n, r) = record_all-unreported base c (ts k) small v in (w, n)) a;
    same = λ us. change-recordings (λ k c. record_all base c (ts k)) us a;
  }

  pub Kept-append :
      (ts us : K → List Instant) {a b c : List (K × EventState f M)}
      {ss ss' : List (SuppressionSummary K M)}
      → Kept ts a b ss
      → Kept us b c ss'
      → Kept (λ k. ts k ++ us k) a c (ss ++ ss')
  Kept-append ts us {a} {b} {c} {ss} {ss'} h h' = record {
    total =
        omega
          (arith, h.total, h'.total, h.same us, recordings-append ts us a, reported-append ss ss');
    distinct = h'.distinct;
    sound = λ vs s. h'.sound vs (
        h.sound (λ k. us k ++ vs k)
          (Sound-fewer (λ k. (ts k ++ us k) ++ vs k) (λ k. ts k ++ (us k ++ vs k)) a
            (λ k. rw (append_assoc (ts k) (us k) (vs k)) (omega arith)) s));
    same = λ vs. h'.same vs ∙ h.same vs;
  }
