-- ===== src/Storage/Counts.antt =====
-- infrastructure/storage.rs: the metrics that an access leaves alone.
use mathlib.Core.Path.{subst}
use tracing_throttle.Prelude.{
  ◌≡◌, refl, not, ◌&&◌, inl, inr, Bool-cases, Option, none, some, Instant, arith,
}
use tracing_throttle.Metrics.{Metrics, record_eviction}
use tracing_throttle.Eviction.Port.{EvictionPolicy, Selection, panicked, selected}
use tracing_throttle.Storage.Map.{DashMap}
use tracing_throttle.Storage.{
  StorageEntry, ShardedStorage, Outcome, unwound, returned, remove_victim, evict_selected, evict_by,
  evict_one, make_space, should_evict, candidates, is_some, with_entry_mut,
}

module _ {K V : Type 0} (m : DashMap K (StorageEntry V)) where
  abbrev pub KeepsCounts : Metrics → Metrics → Type 0
  KeepsCounts metrics metrics' =
      (metrics'.events_allowed ≡ metrics.events_allowed)
      × (metrics'.events_suppressed ≡ metrics.events_suppressed)

  remove_victim-counts :
      (policy : EvictionPolicy K V) (k : K) (found : Option (StorageEntry V)) (s : ShardedStorage m)
      (metrics : Metrics)
      → KeepsCounts metrics (remove_victim m policy k found s metrics).1
  unfolding remove_victim record_eviction
  remove_victim-counts policy k none s metrics = (refl, refl)
  remove_victim-counts policy k (some e) s metrics = (ground arith, ground arith)

  -- The outcome of an eviction leaves the counts as they were.
  KeptBy : Metrics → Outcome (ShardedStorage m × Metrics) → Type 0
  KeptBy metrics unwound = Unit
  KeptBy metrics (returned (s, metrics')) = KeepsCounts metrics metrics'

  evict_selected-counts :
      (policy : EvictionPolicy K V) (choice : Selection K) (s : ShardedStorage m)
      (metrics : Metrics)
      → KeptBy metrics (evict_selected m policy choice s metrics)
  unfolding KeptBy evict_selected
  evict_selected-counts policy panicked s metrics = tt
  evict_selected-counts policy (selected none) s metrics = (refl, refl)
  evict_selected-counts policy (selected (some k)) s metrics =
      remove_victim-counts policy k (m.get s.table k) s metrics

  evict_by-counts :
      (o : Option (EvictionPolicy K V)) (s : ShardedStorage m) (metrics : Metrics)
      → KeptBy metrics (evict_by m o s metrics)
  unfolding evict_by KeptBy
  evict_by-counts none s metrics = (refl, refl)
  evict_by-counts (some policy) s metrics =
      evict_selected-counts policy (policy.select_victim (candidates m s)) s metrics

  make_space-counts :
      (s : ShardedStorage m) (metrics : Metrics) (k : K) → KeptBy metrics (make_space m s metrics k)
  unfolding make_space evict_one KeptBy
  make_space-counts s metrics k =
      elim (Bool-cases (not (is_some (m.get s.table k)) && should_evict m s)) [
        | inl full ↦ rw (full, make_space) (evict_by-counts s.eviction_policy s metrics)
        | inr room ↦ rw (room, make_space) (refl, refl)
      ]

  -- An access counts evictions only.
  pub with_entry_mut-counts :
      {R : Type 0} (s : ShardedStorage m) (metrics : Metrics) (k : K) (fresh : V) (now : Instant)
      (accessor : V → V × R)
      → KeepsCounts metrics (with_entry_mut m s metrics k fresh now accessor).0.1
  unfolding with_entry_mut KeptBy
  with_entry_mut-counts s metrics k fresh now accessor = go (make_space m s metrics k) refl
    where
      go :
          (o : Outcome (ShardedStorage m × Metrics))
          → make_space m s metrics k ≡ o
          → KeepsCounts metrics (with_entry_mut m s metrics k fresh now accessor).0.1
      go unwound e = rw (e, with_entry_mut) (refl, refl)
      go (returned (t, mt)) e =
          let h = subst (KeptBy metrics) e (make_space-counts s metrics k) in
          rw (e, with_entry_mut) h
