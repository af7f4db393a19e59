-- ===== src/Storage/Removal.antt =====
-- infrastructure/storage.rs: the removal of one entry.
use tracing_throttle.Prelude.{
  suc, ◌<◌, ◌≡◌, ◌≢◌, refl, ap, ◌∙◌, inl, inr, Option-cases, none, some, List, [], ◌∷◌, map, take,
  length, All, All-map, All-take, All-of_map, arith, Instant, if◌then◌else◌,
}
use mathlib.Core.Logic.{ite}
use tracing_throttle.Metrics.{Metrics}
use tracing_throttle.Eviction.Port.{EvictionPolicy, EvictionCandidate, selected}
use tracing_throttle.Storage.Map.{DashMap, DashMapLaws}
use tracing_throttle.Storage.{
  StorageEntry, ShardedStorage, returned, make_space, evict_one, evict_selected, remove_victim,
  untracked, access_entry, with_entry_mut, candidates, candidate, evict_by, is_some, len,
}

ite_same : {A P : Type 0} (d : Dec P) {x y : A} → y ≡ x → ite d x y ≡ x
ite_same (yes h) e = refl
ite_same (no h) e = e

module _ {K V : Type 0} (dec : Discrete K) (m : DashMap K (StorageEntry V))
    (l : DashMapLaws dec m) where
  -- Each candidate is an entry of the map, and only an empty map has none.
  pub candidates-All :
      (s : ShardedStorage m) → All (λ c. m.get s.table c.key ≢ none) (candidates m s)
  unfolding candidates candidate
  candidates-All s =
      All-of_map (candidate s.epoch) (λ c. m.get s.table c.key ≢ none) (take 20 (m.iter s.table))
        (All-take _ 20 (m.iter s.table)
          (All-map (m.iter s.table) (λ e h z. cc) (l.iter-get s.table)))

  pub candidates-ne_nil : (s : ShardedStorage m) → 0 < len m s → candidates m s ≢ []
  unfolding candidates len
  candidates-ne_nil s h = go (m.iter s.table) (l.length-iter s.table)
    where
      go :
          (es : List (K × StorageEntry V))
          → length es ≡ m.len s.table
          → map (candidate s.epoch) (take 20 es) ≢ []
      go [] e = absurd (omega arith)
      go (x ∷ xs) e = λ z. cc

  pub len-access_entry :
      {R : Type 0} (s : ShardedStorage m) (k : K) (fresh : V) (now : Instant) (accessor : V → V × R)
      → let s' = (access_entry m s k fresh now accessor).0 in
        (len m s' ≡ (if is_some (m.get s.table k) then len m s else suc (len m s)))
        × (s'.eviction_policy ≡ s.eviction_policy)
  unfolding access_entry len is_some
  len-access_entry s k fresh now accessor = elim (Option-cases (m.get s.table k)) [
    | inl e ↦ rw (e, access_entry, is_some) (l.len-insert_new s.table k _ e, refl)
    | inr (w, e) ↦ rw (e, access_entry, is_some) (l.len-insert_old s.table k _ w e, refl)
  ]

  pub with_entry_mut-make_space :
      {R : Type 0} (s t : ShardedStorage m) (metrics mt : Metrics) (k : K) (fresh : V)
      (now : Instant) (accessor : V → V × R)
      → make_space m s metrics k ≡ returned (t, mt)
      → with_entry_mut m s metrics k fresh now accessor ≡ (
        ((access_entry m t k fresh now accessor).0, mt),
        returned (access_entry m t k fresh now accessor).1,
      )
  unfolding with_entry_mut
  with_entry_mut-make_space s t metrics mt k fresh now accessor e = rw (e, with_entry_mut)

  -- A policy that selects one of its candidates, if there are any.
  module _ (policy : EvictionPolicy K V)
      (picks : (cs : List (EvictionCandidate K V)) (P : K → Type 0)
        → All (λ c. P c.key) cs
        → cs ≢ []
        → (k : K) × (policy.select_victim cs ≡ selected (some k)) × P k) where
    evict_one-remove_victim :
        (s : ShardedStorage m) (metrics : Metrics) (k : K) (w : StorageEntry V)
        → s.eviction_policy ≡ some policy
        → policy.select_victim (candidates m s) ≡ selected (some k)
        → m.get s.table k ≡ some w
        → evict_one m s metrics ≡ returned (remove_victim m policy k (some w) s metrics)
    unfolding evict_one
    evict_one-remove_victim s metrics k w e found here =
        ap (λ o. evict_by m o s metrics) e
        ∙ ap (λ c. evict_selected m policy c s metrics) found
        ∙ ap (λ o. returned (remove_victim m policy k o s metrics)) here

    pub evict_one-len :
        (s : ShardedStorage m) (metrics : Metrics)
        → s.eviction_policy ≡ some policy
        → 0 < len m s
        → (t : ShardedStorage m) × (mt : Metrics) × (evict_one m s metrics ≡ returned (t, mt))
          × (suc (len m t) ≡ len m s)
          × (t.eviction_policy ≡ s.eviction_policy)
          × ((j : K) → m.get s.table j ≡ none → m.get t.table j ≡ none)
          × ((k : K) × (v : V) × (t.current_memory_bytes
                ≡ untracked policy k v s.current_memory_bytes))
    unfolding remove_victim len
    evict_one-len s metrics e some_there =
        let (k, found, here) =
          picks (candidates m s) (λ k. m.get s.table k ≢ none) (candidates-All s)
            (candidates-ne_nil s some_there) in
        elim (Option-cases (m.get s.table k)) [
          | inl z ↦ absurd (here z)
          | inr (w, z) ↦ (
            (remove_victim m policy k (some w) s metrics).0,
            (remove_victim m policy k (some w) s metrics).1,
            evict_one-remove_victim s metrics k w e found z,
            l.len-remove s.table k w z,
            refl,
            λ j none_there. l.get-remove s.table k j ∙ ite_same (dec k j) none_there,
            (k, w.value, refl),
          )
        ]
