-- ===== src/Storage/Accounting.antt =====
-- infrastructure/storage.rs: the memory that a storage counts against its limit.
use tracing_throttle.Prelude.{
  ℕ, suc, ◌+◌, ◌-◌, ◌*◌, ◌≤◌, ◌<◌, ◌≡◌, refl, sym, ap, ◌∙◌, inl, inr, ◌⊎◌, true, false, Bool-cases,
  Option-cases, none, some, List, [], ◌∷◌, map, take, length, arith, if◌then◌else◌, leb, u64_mod,
}
use native.Mathlib.Decide.{ℕ_discrete}
use tracing_throttle.Metrics.{Metrics}
use tracing_throttle.Eviction.Port.{EvictionPolicy}
use tracing_throttle.Eviction.{memory, select_oldest}
use tracing_throttle.Eviction.Oldest.{select_oldest-All}
use tracing_throttle.Storage.Map.{DashMap, DashMapLaws}
use tracing_throttle.Storage.Removal.{evict_one-len, len-access_entry, with_entry_mut-make_space}
use tracing_throttle.Storage.Accesses.{Access, accessor}
use tracing_throttle.Storage.{
  StorageEntry, ShardedStorage, returned, make_space, evict_one, asks, should_evict, is_some, len,
  access_entry, with_entry_mut, untracked, tracked, evict_by, evict_selected, candidates, candidate,
}

pub *-of_suc : (n l c : ℕ) → suc n ≡ l → l * c ≡ n * c + c
*-of_suc n l c h = rw (← h) (omega arith)

module _ {K V : Type 0} (dec : Discrete K) (m : DashMap K (StorageEntry V)) (l : DashMapLaws dec m)
    (size_of_key size_of_value max_bytes : ℕ) where
  abbrev pub policy : EvictionPolicy K V
  policy = memory size_of_key size_of_value max_bytes

  -- What each entry is taken to use.
  abbrev pub entry_size : ℕ
  entry_size = size_of_key + size_of_value + 64 + 200

  -- The memory in use is what the entries are taken to use, and `extra`.
  pub record Ledger (extra : ℕ) (s : ShardedStorage m) : Type 0 where
    pub has_policy : s.eviction_policy ≡ some policy
    pub balance : s.current_memory_bytes ≡ extra + len m s * entry_size

  untracked-memory :
      (k : K) (v : V) (bytes : ℕ)
      → entry_size ≤ bytes
      → bytes < u64_mod
      → untracked policy k v bytes ≡ bytes - entry_size
  unfolding untracked memory
  untracked-memory k v bytes enough fits = omega arith

  should_evict-memory :
      (s : ShardedStorage m)
      → s.eviction_policy ≡ some policy
      → should_evict m s ≡ leb max_bytes s.current_memory_bytes
  unfolding should_evict asks memory
  should_evict-memory s e = ap (λ o. asks o (m.len s.table) s.current_memory_bytes) e

  memory-access_entry :
      (s : ShardedStorage m) (a : Access K V)
      → s.eviction_policy ≡ some policy
      → s.current_memory_bytes + entry_size < u64_mod
      → (access_entry m s a.key a.fresh a.now (accessor a)).0.current_memory_bytes ≡ (
          if is_some (m.get s.table a.key)
          then s.current_memory_bytes
          else s.current_memory_bytes + entry_size)
  unfolding access_entry is_some
  memory-access_entry s a e fits = elim (Option-cases (m.get s.table a.key)) [
    | inr (w, z) ↦ rw (z, access_entry, is_some)
    | inl z ↦
        rw (z, access_entry, is_some)
          (ap (λ o. tracked o a.key a.fresh s.current_memory_bytes) e
            ∙ (unfold tracked memory in omega arith))
  ]

  -- With no entry there is no candidate, and nothing is evicted.
  evict_one-empty :
      (s : ShardedStorage m) (metrics : Metrics)
      → s.eviction_policy ≡ some policy
      → len m s ≡ 0
      → evict_one m s metrics ≡ returned (s, metrics)
  unfolding evict_one evict_by evict_selected candidates len memory select_oldest
  evict_one-empty s metrics e empty = go (m.iter s.table) refl
    where
      go :
          (es : List (K × StorageEntry V))
          → m.iter s.table ≡ es
          → evict_one m s metrics ≡ returned (s, metrics)
      go [] f =
          ap (λ o. evict_by m o s metrics) e
          ∙ ap
              (λ es.
                evict_selected m policy (select_oldest (map (candidate s.epoch) (take 20 es))) s
                  metrics)
              f
      go (x ∷ xs) f = absurd (omega (arith, l.length-iter s.table, ap length f))

  module _ (extra : ℕ) where
    -- What the eviction before an access does: it takes an entry away, or the limit is not reached,
    -- or there is nothing to evict.
    make_space-Ledger :
        (s : ShardedStorage m) (metrics : Metrics) (k : K)
        → Ledger extra s
        → s.current_memory_bytes < u64_mod
        → m.get s.table k ≡ none
        → (t : ShardedStorage m) × (mt : Metrics) × (make_space m s metrics k ≡ returned (t, mt))
          × Ledger extra t
          × (m.get t.table k ≡ none)
          × ((suc (len m t) ≡ len m s)
              ⊎ ((t ≡ s) × ((s.current_memory_bytes < max_bytes) ⊎ (len m s ≡ 0))))
    unfolding make_space is_some memory select_oldest
    make_space-Ledger s metrics k v fits e =
        elim (Bool-cases (leb max_bytes s.current_memory_bytes)) [
          | inr room ↦ (
            s,
            metrics,
            rw (e, should_evict-memory s v.has_policy, room, make_space),
            v,
            e,
            inr (refl, inl (ground arith)),
          )
          | inl full ↦ elim (ℕ_discrete (len m s) 0) [
            | yes empty ↦ (
              s,
              metrics,
              rw (e, should_evict-memory s v.has_policy, full, make_space)
                  (evict_one-empty s metrics v.has_policy empty),
              v,
              e,
              inr (refl, inr empty),
            )
            | no more ↦
                let (t, mt, done, fewer, kept, absent, (j, x, bytes)) =
                  evict_one-len dec m l policy select_oldest-All s metrics v.has_policy
                    (omega arith) in
                let e' = *-of_suc (len m t) (len m s) entry_size fewer in
                (
                  t,
                  mt,
                  rw (e, should_evict-memory s v.has_policy, full, make_space) done,
                  record {
                    has_policy = kept ∙ v.has_policy;
                    balance =
                        bytes
                        ∙ untracked-memory j x s.current_memory_bytes (omega (arith, v.balance))
                            fits
                        ∙ omega (arith, v.balance);
                  },
                  absent k e,
                  inl fewer,
                )
          ]
        ]

    access_old :
        (s : ShardedStorage m) (a : Access K V) (w : StorageEntry V)
        → Ledger extra s
        → s.current_memory_bytes + entry_size < u64_mod
        → m.get s.table a.key ≡ some w
        → let u = (access_entry m s a.key a.fresh a.now (accessor a)).0 in
          Ledger extra u × (len m u ≡ len m s)
    access_old s a w v fits e =
        let (n, kept) = len-access_entry dec m l s a.key a.fresh a.now (accessor a) in
        let b = memory-access_entry s a v.has_policy fits in
        let old : is_some (m.get s.table a.key) ≡ true = ap is_some e ∙ (unfold is_some in refl) in
        let n' : len m (access_entry m s a.key a.fresh a.now (accessor a)).0 ≡ len m s =
          ground (arith, n, old) in
        let b' : (access_entry m s a.key a.fresh a.now (accessor a)).0.current_memory_bytes
            ≡ s.current_memory_bytes =
          ground (arith, b, old) in
        (
          record {
            has_policy = kept ∙ v.has_policy;
            balance = b' ∙ v.balance ∙ ap (λ n. extra + n * entry_size) (sym n');
          },
          n',
        )

    access_new :
        (s : ShardedStorage m) (a : Access K V)
        → Ledger extra s
        → s.current_memory_bytes + entry_size < u64_mod
        → m.get s.table a.key ≡ none
        → let u = (access_entry m s a.key a.fresh a.now (accessor a)).0 in
          Ledger extra u × (len m u ≡ suc (len m s))
    access_new s a v fits e =
        let (n, kept) = len-access_entry dec m l s a.key a.fresh a.now (accessor a) in
        let b = memory-access_entry s a v.has_policy fits in
        let new_key : is_some (m.get s.table a.key) ≡ false =
          ap is_some e ∙ (unfold is_some in refl) in
        let u : ShardedStorage m = (access_entry m s a.key a.fresh a.now (accessor a)).0 in
        let n' : len m u ≡ suc (len m s) = ground (arith, n, new_key) in
        let b' : u.current_memory_bytes ≡ s.current_memory_bytes + entry_size =
          ground (arith, b, new_key) in
        let e' = *-of_suc (len m s) (len m u) entry_size (sym n') in
        (record { has_policy = kept ∙ v.has_policy; balance = omega (arith, v.balance) }, n')

    no_more :
        (s t : ShardedStorage m)
        → Ledger extra s
        → Ledger extra t
        → (suc (len m t) ≡ len m s)
          ⊎ ((t ≡ s) × ((s.current_memory_bytes < max_bytes) ⊎ (len m s ≡ 0)))
        → s.current_memory_bytes + entry_size < u64_mod
        → t.current_memory_bytes + entry_size < u64_mod
    no_more s t v w (inl fewer) fits =
        omega (arith, v.balance, w.balance, *-of_suc (len m t) (len m s) entry_size fewer)
    no_more s t v w (inr (same, reason)) fits = omega (arith, ap (λ z. z.current_memory_bytes) same)

    -- One access keeps the ledger, and adds an entry only below the limit or to an empty map.
    pub with_entry_mut-Ledger :
        (s : ShardedStorage m) (metrics : Metrics) (a : Access K V)
        → Ledger extra s
        → s.current_memory_bytes + entry_size < u64_mod
        → (s' : ShardedStorage m) × (metrics' : Metrics) × (with_entry_mut m s metrics a.key a.fresh
              a.now
              (accessor a)
            ≡ ((s', metrics'), returned tt))
          × Ledger extra s'
          × ((len m s' ≡ len m s)
              ⊎ ((len m s' ≡ suc (len m s))
                  × ((s.current_memory_bytes < max_bytes) ⊎ (len m s ≡ 0))))
    with_entry_mut-Ledger s metrics a v fits = elim (Option-cases (m.get s.table a.key)) [
      | inr (w, e) ↦
          let (ledger, n) = access_old s a w v fits e in
          let still : make_space m s metrics a.key ≡ returned (s, metrics) =
            unfold make_space is_some in rw (e, make_space, is_some) in
          (
            (access_entry m s a.key a.fresh a.now (accessor a)).0,
            metrics,
            with_entry_mut-make_space dec m l s s metrics metrics a.key a.fresh a.now (accessor a)
                still,
            ledger,
            inl n,
          )
      | inl e ↦
          let (t, mt, made, w, absent, why) = make_space-Ledger s metrics a.key v (omega arith) e in
          let fits' : t.current_memory_bytes + entry_size < u64_mod = no_more s t v w why fits in
          let (ledger, n) = access_new t a w fits' absent in
          (
            (access_entry m t a.key a.fresh a.now (accessor a)).0,
            mt,
            with_entry_mut-make_space dec m l s t metrics mt a.key a.fresh a.now (accessor a) made,
            ledger,
            elim why [
              | inl fewer ↦ inl (n ∙ fewer)
              | inr (same, reason) ↦ inr (n ∙ ap (λ z. suc (len m z)) same, reason)
            ],
          )
    ]
