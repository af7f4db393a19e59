-- ===== src/Emitter/Rollback.antt =====
-- application/emitter.rs: an emission that panics.
use mathlib.Core.Logic.{if_pos, if_neg, ite}
use mathlib.Core.List.{append_assoc, append-nil}
use tracing_throttle.Prelude.{
  ℕ, ◌+◌, ◌<◌, ◌≤◌, ◌≡◌, ◌≢◌, refl, sym, ap, inl, inr, Option-cases, ◌∙◌, List, [], ◌∷◌, ◌++◌,
  length, Option, none, some, All, All-append, length-append, Instant, arith, u64_mod, u64_max,
  instant_max, false, Bool,
}
use tracing_throttle.Policy.Float.{F64}
use tracing_throttle.Summary.{
  SuppressionCounter, ClaimedSuppressions, claim_unreported, rollback_claim, record_all,
}
use tracing_throttle.Summary.Claims.{IsValid}
use tracing_throttle.Summary.History.{give_back, failed_emission, failed_emission-record_all}
use tracing_throttle.Registry.{EventState}
use tracing_throttle.Emitter.{
  EmitterConfig, ClaimedSummary, ClaimedSummaryBatch, push, cleanup, claim_visit,
  collect_claimed_summaries, roll_back, rollback_visit, rollback_claimed_summaries, emit_some,
  emit_claimed_summaries, empty_batch, SuppressionSummary,
}

unfoldable one : {K : Type 0} → K → Option ClaimedSuppressions → List (ClaimedSummary K)
one k none = []
one k (some claim) = record { signature = k; claim = claim } ∷ []

one-others :
    {K : Type 0} (k j : K) (o : Option ClaimedSuppressions)
    → k ≢ j
    → All (λ x. x.signature ≢ j) (one k o)
unfolding one
one-others k j none h = tt
one-others k j (some claim) h = (h, tt)

module _ {K : Type 0} (base : Instant) (dec : Discrete K) where
  roll_back-append :
      (xs ys : List (ClaimedSummary K)) (k : K) (c : SuppressionCounter)
      → roll_back base dec (xs ++ ys) k c ≡ roll_back base dec ys k (roll_back base dec xs k c)
  unfolding roll_back
  roll_back-append [] ys k c = refl
  roll_back-append (x ∷ xs) ys k c =
      roll_back-append xs ys k (ite (dec x.signature k) (rollback_claim base c x.claim).0 c)

  roll_back-others :
      (xs : List (ClaimedSummary K)) (k : K) (c : SuppressionCounter)
      → All (λ x. x.signature ≢ k) xs
      → roll_back base dec xs k c ≡ c
  unfolding roll_back
  roll_back-others [] k c h = refl
  roll_back-others (x ∷ xs) k c h =
      ap (roll_back base dec xs k)
        (if_neg (dec x.signature k) h.0 (rollback_claim base c x.claim).0 c)
      ∙ roll_back-others xs k c h.1

  roll_back-one :
      (k : K) (o : Option ClaimedSuppressions) (c : SuppressionCounter)
      → roll_back base dec (one k o) k c ≡ give_back base c o
  unfolding roll_back one give_back
  roll_back-one k none c = refl
  roll_back-one k (some claim) c = if_pos (dec k k) refl (rollback_claim base c claim).0 c

  -- Of all claims only its own concerns an entry.
  roll_back-own :
      (pre post : List (ClaimedSummary K)) (k : K) (o : Option ClaimedSuppressions)
      (c : SuppressionCounter)
      → All (λ x. x.signature ≢ k) pre
      → All (λ x. x.signature ≢ k) post
      → roll_back base dec (pre ++ (one k o ++ post)) k c ≡ give_back base c o
  roll_back-own pre post k o c before after =
      roll_back-append pre (one k o ++ post) k c
      ∙ ap (roll_back base dec (one k o ++ post) k) (roll_back-others pre k c before)
      ∙ roll_back-append (one k o) post k c
      ∙ roll_back-others post k (roll_back base dec (one k o) k c) after
      ∙ roll_back-one k o c

module _ {K M : Type 0} (f : F64) (base : Instant) where
  pub claims_of : ℕ → List (K × EventState f M) → List (ClaimedSummary K)
  claims_of n [] = []
  claims_of n ((k, state) ∷ rest) =
      one k (claim_unreported base state.counter n).1 ++ claims_of n rest

  -- The entries with counters changed.
  unfoldable pub change :
      (K → SuppressionCounter → SuppressionCounter)
      → List (K × EventState f M)
      → List (K × EventState f M)
  change g [] = []
  change g ((k, state) ∷ rest) = (k, record state { counter = g k state.counter }) ∷ change g rest

  -- The entries after suppressions of each signature.
  unfoldable pub meanwhile :
      (K → List Instant) → List (K × EventState f M) → List (K × EventState f M)
  unfolding change
  meanwhile ts entries = change (λ k c. record_all base c (ts k)) entries

  -- Each signature has one entry.
  unfoldable pub Distinct : List (K × EventState f M) → Type 0
  Distinct [] = Unit
  Distinct ((k, state) ∷ rest) = All (λ e. e.0 ≢ k) rest × Distinct rest

  push-claims :
      (b : ClaimedSummaryBatch K M) (k : K) (meta : Option M) (o : Option ClaimedSuppressions)
      → (push b k meta o).claims ≡ b.claims ++ one k o
  unfolding push one
  push-claims b k meta none = sym (append-nil b.claims)
  push-claims b k meta (some claim) = refl

  pub collect-claims :
      (n : ℕ) (b : ClaimedSummaryBatch K M) (entries : List (K × EventState f M))
      → let (b', entries') = cleanup f (claim_visit f base n) b entries in
        (b'.claims ≡ b.claims ++ claims_of n entries)
        × (entries' ≡ change (λ k c. (claim_unreported base c n).0) entries)
  unfolding cleanup claim_visit claims_of change
  collect-claims n b [] = (sym (append-nil b.claims), refl)
  collect-claims n b ((k, state) ∷ rest) =
      let o = (claim_unreported base state.counter n).1 in
      let (same, entries) = collect-claims n (push b k state.metadata o) rest in
      (
        same
            ∙ ap (λ cs. cs ++ claims_of n rest) (push-claims b k state.metadata o)
            ∙ append_assoc b.claims (one k o) (claims_of n rest),
        ap (λ es. (k, record state { counter = (claim_unreported base state.counter n).0 }) ∷ es)
            entries,
      )

  claims_of-others :
      (n : ℕ) (k : K) (entries : List (K × EventState f M))
      → All (λ e. e.0 ≢ k) entries
      → All (λ x. x.signature ≢ k) (claims_of n entries)
  unfolding claims_of one
  claims_of-others n k [] h = tt
  claims_of-others n k ((j, state) ∷ rest) h =
      let others = claims_of-others n k rest h.1 in
      elim (Option-cases (claim_unreported base state.counter n).1) [
        | inl e ↦ rw (e, one) others
        | inr (claim, e) ↦ rw (e, one) (h.0, others)
      ]

  -- No claim is one of these entries'.
  Foreign : List (ClaimedSummary K) → List (K × EventState f M) → Type 0
  Foreign cs entries = All (λ e. All (λ x. x.signature ≢ e.0) cs) entries

  Foreign-one :
      (pre : List (ClaimedSummary K)) (k : K) (o : Option ClaimedSuppressions)
      (entries : List (K × EventState f M))
      → Foreign pre entries
      → All (λ e. e.0 ≢ k) entries
      → Foreign (pre ++ one k o) entries
  unfolding Foreign
  Foreign-one pre k o [] h d = tt
  Foreign-one pre k o (e ∷ rest) h d = (
    All-append (λ x. x.signature ≢ e.0) pre (one k o) h.0
        (one-others k e.0 o (λ same. d.0 (sym same))),
    Foreign-one pre k o rest h.1 d.1,
  )

  Foreign-nil : (entries : List (K × EventState f M)) → Foreign [] entries
  unfolding Foreign
  Foreign-nil [] = tt
  Foreign-nil (e ∷ rest) = (tt, Foreign-nil rest)

  -- Each counter is valid, and does not wrap meanwhile.
  unfoldable pub Sound : (K → List Instant) → List (K × EventState f M) → Type 0
  Sound ts entries =
      All (λ e. IsValid e.1.counter × (e.1.counter.suppressed_count + length (ts e.0) < u64_mod))
        entries

  restored :
      (dec : Discrete K) (fits : base + u64_max ≤ instant_max) (n : ℕ) (ts : K → List Instant)
      (cs pre : List (ClaimedSummary K)) (entries : List (K × EventState f M))
      → cs ≡ pre ++ claims_of n entries
      → Foreign pre entries
      → Distinct entries
      → Sound ts entries
      → (cleanup f
          (rollback_visit f base dec cs)
          tt
          (meanwhile ts (change (λ k c. (claim_unreported base c n).0) entries))).1
        ≡ meanwhile ts entries
  unfolding cleanup rollback_visit meanwhile change claims_of Foreign Distinct Sound
  restored dec fits n ts cs pre [] e foreign d sound = refl
  restored dec fits n ts cs pre ((k, state) ∷ rest) e foreign d sound =
      let (d', o) = claim_unreported base state.counter n in
      let tail =
        restored dec fits n ts cs (pre ++ one k o) rest
          (e ∙ sym (append_assoc pre (one k o) (claims_of n rest)))
          (Foreign-one pre k o rest foreign.1 d.0) d.1 sound.1 in
      let emitted =
        (cleanup f (rollback_visit f base dec cs) tt
          (meanwhile ts (change (λ k c. (claim_unreported base c n).0) rest))).1 in
      let back : give_back base (record_all base d' (ts k)) o
          ≡ record_all base state.counter (ts k) =
        unfold failed_emission in
        failed_emission-record_all base fits state.counter n (ts k) sound.0.0 sound.0.1 in
      let own =
        ap (λ xs. roll_back base dec xs k (record_all base d' (ts k))) e
        ∙ roll_back-own base dec pre (claims_of n rest) k o (record_all base d' (ts k)) foreign.0
            (claims_of-others n k rest d.0)
        ∙ back in
      let first : SuppressionCounter → K × EventState f M =
        λ c. (k, record state { counter = c }) in
      ap (λ c. first c ∷ emitted) own
      ∙ ap (λ es. first (record_all base state.counter (ts k)) ∷ es) tail

  -- A batch has as many summaries as claims.
  push-Even :
      (b : ClaimedSummaryBatch K M) (k : K) (meta : Option M) (o : Option ClaimedSuppressions)
      → length b.summaries ≡ length b.claims
      → length (push b k meta o).summaries ≡ length (push b k meta o).claims
  unfolding push
  push-Even b k meta none h = h
  push-Even b k meta (some claim) h = rw (length-append b.summaries, length-append b.claims, h)

  collect-Even :
      (n : ℕ) (b : ClaimedSummaryBatch K M) (entries : List (K × EventState f M))
      → length b.summaries ≡ length b.claims
      → let b' = (cleanup f (claim_visit f base n) b entries).0 in
        length b'.summaries ≡ length b'.claims
  unfolding cleanup claim_visit
  collect-Even n b [] h = h
  collect-Even n b ((k, state) ∷ rest) h =
      let o = (claim_unreported base state.counter n).1 in
      collect-Even n (push b k state.metadata o) rest (push-Even b k state.metadata o h)

  cleanup-nil :
      (dec : Discrete K) (entries : List (K × EventState f M))
      → (cleanup f (rollback_visit f base dec []) tt entries).1 ≡ entries
  unfolding cleanup rollback_visit roll_back
  cleanup-nil dec [] = refl
  cleanup-nil dec (e ∷ rest) = ap (λ es. e ∷ es) (cleanup-nil dec rest)

  emit_some-cleanup :
      (dec : Discrete K) (ss : List (SuppressionSummary K M)) (cs : List (ClaimedSummary K))
      (entries : List (K × EventState f M))
      → length ss ≡ length cs
      → (emit_some f base dec ss cs false entries).0
        ≡ (cleanup f (rollback_visit f base dec cs) tt entries).1
  unfolding emit_some rollback_claimed_summaries
  emit_some-cleanup dec [] [] entries h = sym (cleanup-nil dec entries)
  emit_some-cleanup dec [] (c ∷ cs) entries h = absurd (omega arith)
  emit_some-cleanup dec (s ∷ ss) [] entries h = absurd (omega arith)
  emit_some-cleanup dec (s ∷ ss) (c ∷ cs) entries h = refl

  -- An emission that panics loses nothing: the registry is afterwards what it would have been
  -- without it, whatever suppressions were recorded between the claims and the rollback. Each
  -- signature has one entry, the counters are valid and do not wrap, and no instant of a counter
  -- lies beyond the platform's last one.
  pub emit_claimed_summaries-collect :
      (dec : Discrete K)
      → base + u64_max ≤ instant_max
      → (config : EmitterConfig) (ts : K → List Instant) (entries : List (K × EventState f M))
        (emit_fn : List (SuppressionSummary K M) → Bool)
      → Distinct entries
      → Sound ts entries
      → emit_fn (collect_claimed_summaries f base config entries).0.summaries ≡ false
      → let (batch, entries') = collect_claimed_summaries f base config entries in
        (emit_claimed_summaries f base dec batch emit_fn (meanwhile ts entries')).0
        ≡ meanwhile ts entries
  unfolding collect_claimed_summaries emit_claimed_summaries empty_batch Foreign
  emit_claimed_summaries-collect dec fits config ts entries emit_fn d sound panics =
      let n = config.min_count in
      let (claims, changed) = collect-claims n empty_batch entries in
      let (batch, entries') = cleanup f (claim_visit f base n) empty_batch entries in
      ap (λ r. (emit_some f base dec batch.summaries batch.claims r (meanwhile ts entries')).0)
        panics
      ∙ emit_some-cleanup dec batch.summaries batch.claims (meanwhile ts entries')
          (collect-Even n empty_batch entries refl)
      ∙ ap (λ es. (cleanup f (rollback_visit f base dec batch.claims) tt (meanwhile ts es)).1)
          changed
      ∙ restored dec fits n ts batch.claims [] entries claims (Foreign-nil entries) d sound
