-- ===== src/Storage/Lookup.antt =====
-- infrastructure/storage.rs: what an access sees and what it leaves of the other entries.
use mathlib.Core.Path.{subst}
use mathlib.Core.Option.{some-injective}
use mathlib.Core.Logic.{ite, if_pos, if_neg}
use tracing_throttle.Prelude.{
  ◌≡◌, ◌≢◌, refl, sym, ap, ◌∙◌, inl, inr, Bool-cases, Option-cases, Option, none, some, arith,
  Instant, not, ◌&&◌,
}
use tracing_throttle.Metrics.{Metrics}
use tracing_throttle.Eviction.Port.{EvictionPolicy, Selection, panicked, selected}
use tracing_throttle.Storage.Map.{DashMap, DashMapLaws}
use tracing_throttle.Storage.{
  StorageEntry, ShardedStorage, Outcome, unwound, returned, access_nanos, make_space, evict_one,
  evict_by, evict_selected, remove_victim, access_entry, with_entry_mut, update_access, new_entry,
  should_evict, candidates, is_some,
}

module _ {K V : Type 0} (dec : Discrete K) (m : DashMap K (StorageEntry V))
    (l : DashMapLaws dec m) where
  -- `s'` is `s` without the victim, if there was one.
  pub record Evicted (s s' : ShardedStorage m) (victim : Option K) : Type 0 where
    pub others : (j : K) → victim ≢ some j → m.get s'.table j ≡ m.get s.table j
    pub gone : (j : K) → victim ≡ some j → m.get s'.table j ≡ none
    pub epoch_kept : s'.epoch ≡ s.epoch
    pub policy_kept : s'.eviction_policy ≡ s.eviction_policy

  unchanged : (s : ShardedStorage m) → Evicted s s none
  unchanged s = record {
    others = λ j h. refl;
    gone = λ j h. cc;
    epoch_kept = refl;
    policy_kept = refl;
  }

  remove_victim-Evicted :
      (policy : EvictionPolicy K V) (k : K) (s : ShardedStorage m) (metrics : Metrics)
      → (victim : Option K) × Evicted s
          (remove_victim m policy k (m.get s.table k) s metrics).0
          victim
  unfolding remove_victim
  remove_victim-Evicted policy k s metrics = elim (Option-cases (m.get s.table k)) [
    | inl e ↦ (none, rw (e, remove_victim) (unchanged s))
    | inr (w, e) ↦ (
      some k,
      rw (e, remove_victim)
          (record {
            others =
                λ j h. l.get-remove s.table k j ∙ if_neg (dec k j) (λ same. h (ap some same)) _ _;
            gone = λ j h. l.get-remove s.table k j ∙ if_pos (dec k j) (some-injective _ _ h) _ _;
            epoch_kept = refl;
            policy_kept = refl;
          }),
    )
  ]

  evict_selected-Evicted :
      (policy : EvictionPolicy K V) (choice : Selection K) (s s' : ShardedStorage m)
      (metrics metrics' : Metrics)
      → evict_selected m policy choice s metrics ≡ returned (s', metrics')
      → (victim : Option K) × Evicted s s' victim
  unfolding evict_selected
  evict_selected-Evicted policy panicked s s' metrics metrics' h = cc
  evict_selected-Evicted policy (selected none) s s' metrics metrics' h =
      let e : s ≡ s' = ground arith in (none, subst (λ z. Evicted s z none) e (unchanged s))
  evict_selected-Evicted policy (selected (some k)) s s' metrics metrics' h =
      let (victim, v) = remove_victim-Evicted policy k s metrics in
      let e : (remove_victim m policy k (m.get s.table k) s metrics).0 ≡ s' = ground arith in
      (victim, subst (λ z. Evicted s z victim) e v)

  evict_by-Evicted :
      (o : Option (EvictionPolicy K V)) (s s' : ShardedStorage m) (metrics metrics' : Metrics)
      → evict_by m o s metrics ≡ returned (s', metrics')
      → (victim : Option K) × Evicted s s' victim
  unfolding evict_by
  evict_by-Evicted none s s' metrics metrics' h =
      let same : s ≡ s' = ground arith in (none, subst (λ z. Evicted s z none) same (unchanged s))
  evict_by-Evicted (some policy) s s' metrics metrics' h =
      evict_selected-Evicted policy (policy.select_victim (candidates m s)) s s' metrics metrics' h

  -- What the eviction before an access does, where it does not panic.
  make_space-Evicted :
      (s s' : ShardedStorage m) (metrics metrics' : Metrics) (k : K)
      → make_space m s metrics k ≡ returned (s', metrics')
      → (victim : Option K) × Evicted s s' victim × (m.get s.table k ≢ none → victim ≡ none)
  unfolding make_space evict_one
  make_space-Evicted s s' metrics metrics' k h =
      elim (Bool-cases (not (is_some (m.get s.table k)) && should_evict m s)) [
        | inl full ↦
            let (victim, v) =
              evict_by-Evicted s.eviction_policy s s' metrics metrics'
                (rw (full, make_space) at h) in
            (victim, v, λ old. absurd (unfold is_some in ground (arith, old)))
        | inr room ↦
            let same : s ≡ s' = ground arith in
            (none, subst (λ z. Evicted s z none) same (unchanged s), λ old. refl)
      ]

  -- The eviction does not touch the entry that is asked for.
  get-Evicted :
      (s t : ShardedStorage m) (k : K) (victim : Option K)
      → Evicted s t victim
      → (m.get s.table k ≢ none → victim ≡ none)
      → m.get t.table k ≡ m.get s.table k
  get-Evicted s t k none v old = v.others k (λ e. cc)
  get-Evicted s t k (some x) v old = elim (dec x k) [
    | yes hit ↦ elim (Option-cases (m.get s.table k)) [
      | inl e ↦ v.gone k (ap some hit) ∙ sym e
      | inr (w, e) ↦ absurd (cc (old (λ z. cc)))
    ]
    | no miss ↦ v.others k (λ e. miss (some-injective _ _ e))
  ]

  -- The value that an access works on: the stored one, or else a fresh one.
  unfoldable pub seen : ShardedStorage m → K → V → V
  seen s k fresh = elim (m.get s.table k) [ none ↦ fresh | some e ↦ e.value ]

  seen-get :
      (s t : ShardedStorage m) (k : K) (fresh : V)
      → m.get t.table k ≡ m.get s.table k
      → seen t k fresh ≡ seen s k fresh
  unfolding seen
  seen-get s t k fresh e = rw (e, seen)

  module _ {R : Type 0} (accessor : V → V × R) (fresh : V) (now : Instant) where
    access_entry-get :
        (s : ShardedStorage m) (k j : K)
        → m.get (access_entry m s k fresh now accessor).0.table j
          ≡ ite
              (dec k j)
              (some (record {
                value = (accessor (seen s k fresh)).0;
                last_access_nanos = access_nanos now s.epoch;
              }))
              (m.get s.table j)
    unfolding access_entry seen new_entry update_access
    access_entry-get s k j = elim (Option-cases (m.get s.table k)) [
      | inl e ↦ rw (e, access_entry, seen) (l.get-insert s.table k j _)
      | inr (w, e) ↦ rw (e, access_entry, seen) (l.get-insert s.table k j _)
    ]

    access_entry-result :
        (s : ShardedStorage m) (k : K)
        → (access_entry m s k fresh now accessor).1 ≡ (accessor (seen s k fresh)).1
    unfolding access_entry seen new_entry
    access_entry-result s k = elim (Option-cases (m.get s.table k)) [
      | inl e ↦ rw (e, access_entry, seen)
      | inr (w, e) ↦ rw (e, access_entry, seen)
    ]

    -- What an access to `k` that returns `r` does to the storage.
    pub record Accessed (s s' : ShardedStorage m) (k : K) (r : R) : Type 0 where
      pub result : r ≡ (accessor (seen s k fresh)).1
      pub stored :
          m.get s'.table k
          ≡ some (record {
            value = (accessor (seen s k fresh)).0;
            last_access_nanos = access_nanos now s.epoch;
          })
      pub victim : Option K
      pub for_new : m.get s.table k ≢ none → victim ≡ none
      pub kept : (j : K) → j ≢ k → victim ≢ some j → m.get s'.table j ≡ m.get s.table j
      pub lost : (j : K) → j ≢ k → victim ≡ some j → m.get s'.table j ≡ none

    access_entry-Accessed :
        (s t : ShardedStorage m) (k : K) (victim : Option K)
        → Evicted s t victim
        → (m.get s.table k ≢ none → victim ≡ none)
        → let (u, r) = access_entry m t k fresh now accessor in Accessed s u k r
    access_entry-Accessed s t k victim v old =
        let same = get-Evicted s t k victim v old in
        let seen_same : seen t k fresh ≡ seen s k fresh = seen-get s t k fresh same in
        let stored_at = λ (j : K). access_entry-get t k j in
        record {
          result = rw (← seen_same) (access_entry-result t k);
          stored = rw (← seen_same, ← v.epoch_kept) (stored_at k ∙ if_pos (dec k k) refl _ _);
          victim = victim;
          for_new = old;
          kept =
              λ j ne miss. stored_at j ∙ if_neg (dec k j) (λ e. ne (sym e)) _ _ ∙ v.others j miss;
          lost = λ j ne hit. stored_at j ∙ if_neg (dec k j) (λ e. ne (sym e)) _ _ ∙ v.gone j hit;
        }

    -- An access that returns has given its accessor the stored value of the key, or else a fresh
    -- one, returns what the accessor does, and stores the value that the accessor leaves with the
    -- time of the access. Of the other entries at most one, the victim, is lost, and that only if
    -- the key was new; all others stay as they were.
    pub with_entry_mut-Accessed :
        (s s' : ShardedStorage m) (metrics metrics' : Metrics) (k : K) (r : R)
        → with_entry_mut m s metrics k fresh now accessor ≡ ((s', metrics'), returned r)
        → Accessed s s' k r
    unfolding with_entry_mut
    with_entry_mut-Accessed s s' metrics metrics' k r h = go (make_space m s metrics k) refl
      where
        go :
            (o : Outcome (ShardedStorage m × Metrics))
            → make_space m s metrics k ≡ o
            → Accessed s s' k r
        go unwound e = let h' = rw (e, with_entry_mut) at h in cc
        go (returned (t, mt)) e =
            let (victim, v, old) = make_space-Evicted s t metrics mt k e in
            let h' = rw (e, with_entry_mut) at h in
            let same : (access_entry m t k fresh now accessor).0 ≡ s' = ap (λ x. x.0.0) h' in
            let same_r : (access_entry m t k fresh now accessor).1 ≡ r = ground (arith, h') in
            subst (λ z. Accessed s s' k z) same_r
              (subst (λ z. Accessed s z k (access_entry m t k fresh now accessor).1) same
                (access_entry-Accessed s t k victim v old))
