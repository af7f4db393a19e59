-- ===== src/Storage/Capacity.antt =====
-- infrastructure/storage.rs: how many entries a storage comes to hold.
use tracing_throttle.Prelude.{
  ℕ, ◌≤◌, ◌<◌, ◌≡◌, ◌≢◌, refl, ap, ◌∙◌, inl, inr, Bool-cases, Option-cases, none, some, List, [],
  ◌∷◌, All, arith, Instant, leb, leb→le,
}
use tracing_throttle.Metrics.{Metrics}
use tracing_throttle.Eviction.Port.{EvictionPolicy, EvictionCandidate, selected}
use tracing_throttle.Eviction.{lru, priority}
use tracing_throttle.Eviction.Oldest.{select_oldest-All, select_lowest-All}
use tracing_throttle.Storage.Map.{DashMap, DashMapLaws}
use tracing_throttle.Storage.Accesses.{Access, accessor, run}
use tracing_throttle.Storage.Removal.{evict_one-len, len-access_entry}
use tracing_throttle.Storage.{
  StorageEntry, ShardedStorage, returned, make_space, access_entry, with_entry_mut, should_evict,
  asks, is_some, len, with_eviction_policy, new,
}

module _ {K V : Type 0} (dec : Discrete K) (m : DashMap K (StorageEntry V))
    (l : DashMapLaws dec m) where
  -- A policy that goes by the number of entries, and selects one of its candidates.
  module _ (policy : EvictionPolicy K V)
      (picks : (cs : List (EvictionCandidate K V)) (P : K → Type 0)
        → All (λ c. P c.key) cs
        → cs ≢ []
        → (k : K) × (policy.select_victim cs ≡ selected (some k)) × P k)
      (max_entries : ℕ) (by_entries : (n b : ℕ) → policy.should_evict n b ≡ leb max_entries n) where
    -- The storage has the policy, and holds no more than it may.
    pub record Fits (s : ShardedStorage m) : Type 0 where
      pub has_policy : s.eviction_policy ≡ some policy
      pub within : len m s ≤ max_entries

    should_evict-len :
        (s : ShardedStorage m)
        → s.eviction_policy ≡ some policy
        → should_evict m s ≡ leb max_entries (len m s)
    unfolding should_evict len
    should_evict-len s e =
        ap (λ o. asks o (m.len s.table) s.current_memory_bytes) e
        ∙ by_entries (m.len s.table) s.current_memory_bytes

    -- Space for one more, where the key is new.
    make_space-len :
        0 < max_entries
        → (s : ShardedStorage m) (metrics : Metrics) (k : K) → Fits s
        → (t : ShardedStorage m) × (mt : Metrics) × (make_space m s metrics k ≡ returned (t, mt))
          × Fits t
          × (m.get t.table k ≡ none → len m t < max_entries)
    unfolding make_space is_some
    make_space-len positive s metrics k v = elim (Option-cases (m.get s.table k)) [
      | inr (w, e) ↦ (s, metrics, rw (e, make_space, is_some), v, λ z. cc)
      | inl e ↦ elim (Bool-cases (leb max_entries (len m s))) [
        | inl full ↦
            let (t, mt, done, fewer, kept, absent, _) =
              evict_one-len dec m l policy picks s metrics v.has_policy
                (omega (arith, leb→le _ _ full)) in
            (
              t,
              mt,
              rw (e, should_evict-len s v.has_policy, full, make_space) done,
              record { has_policy = kept ∙ v.has_policy; within = omega (arith, v.within) },
              λ z. omega (arith, v.within),
            )
        | inr room ↦ (
          s,
          metrics,
          rw (e, should_evict-len s v.has_policy, room, make_space),
          v,
          λ z. ground arith,
        )
      ]
    ]

    -- A storage whose policy goes by the number of entries, and selects one of the candidates, never
    -- holds more than `max_entries` (at least 1) if accesses alone change it. No access panics.
    pub with_entry_mut-len :
        {R : Type 0}
        → 0 < max_entries
        → (s : ShardedStorage m) (metrics : Metrics) (k : K) (fresh : V) (now : Instant)
          (accessor : V → V × R)
        → Fits s
        → (s' : ShardedStorage m) × (metrics' : Metrics) × (r : R) × (with_entry_mut m s metrics k
              fresh now accessor
            ≡ ((s', metrics'), returned r))
          × Fits s'
    unfolding with_entry_mut
    with_entry_mut-len positive s metrics k fresh now accessor v =
        let (t, mt, made, w, room) = make_space-len positive s metrics k v in
        let (n, kept) = len-access_entry dec m l t k fresh now accessor in
        (
          (access_entry m t k fresh now accessor).0,
          mt,
          (access_entry m t k fresh now accessor).1,
          rw (made, with_entry_mut),
          record {
            has_policy = kept ∙ w.has_policy;
            within = rw n (elim (Option-cases (m.get t.table k)) [
              | inl e ↦ rw (e, is_some) (room e)
              | inr (x, e) ↦ rw (e, is_some) w.within
            ]);
          },
        )

module _ {K V : Type 0} (dec : Discrete K) (m : DashMap K (StorageEntry V))
    (l : DashMapLaws dec m) where
  run-Fits :
      (policy : EvictionPolicy K V)
      (picks : (cs : List (EvictionCandidate K V)) (P : K → Type 0)
        → All (λ c. P c.key) cs
        → cs ≢ []
        → (k : K) × (policy.select_victim cs ≡ selected (some k)) × P k)
      (max_entries : ℕ) (by_entries : (n b : ℕ) → policy.should_evict n b ≡ leb max_entries n)
      → 0 < max_entries
      → (s : ShardedStorage m) (metrics : Metrics) (as' : List (Access K V))
      → Fits dec m l policy picks max_entries by_entries s
      → Fits dec m l policy picks max_entries by_entries (run m s metrics as').0
  unfolding run
  run-Fits policy picks n by_entries positive s metrics [] v = v
  run-Fits policy picks n by_entries positive s metrics (a ∷ as') v =
      let (s', metrics', r, done, w) =
        with_entry_mut-len dec m l policy picks n by_entries positive s metrics a.key a.fresh a.now
          (accessor a) v in
      rw (done, run) (run-Fits policy picks n by_entries positive s' metrics' as' w)

  -- A new storage with LRU eviction at `max_entries`, at least 1, never holds more entries than
  -- that, whatever accesses come.
  pub len-run-lru :
      (max_entries : ℕ)
      → 0 < max_entries
      → (start : Instant) (metrics : Metrics) (as' : List (Access K V))
      → len m (run m (with_eviction_policy m (new m start) (lru max_entries)) metrics as').0
        ≤ max_entries
  unfolding lru with_eviction_policy new len
  len-run-lru n positive start metrics as' =
      (run-Fits (lru n) select_oldest-All n (λ e b. refl) positive
        (with_eviction_policy m (new m start) (lru n)) metrics as'
        (record { has_policy = refl; within = omega (arith, l.len-empty) })).within

  -- So with a priority function that does not panic.
  pub len-run-priority :
      (max_entries : ℕ) (rank : K → V → ℕ)
      → 0 < max_entries
      → (start : Instant) (metrics : Metrics) (as' : List (Access K V))
      → len m
          (run m
            (with_eviction_policy m (new m start) (priority max_entries (λ k v. some (rank k v))))
            metrics
            as').0
        ≤ max_entries
  unfolding priority with_eviction_policy new len
  len-run-priority n rank positive start metrics as' =
      (run-Fits (priority n (λ k v. some (rank k v))) (select_lowest-All rank) n (λ e b. refl)
        positive (with_eviction_policy m (new m start) (priority n (λ k v. some (rank k v))))
        metrics as' (record { has_policy = refl; within = omega (arith, l.len-empty) })).within
