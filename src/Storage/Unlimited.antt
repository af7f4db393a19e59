-- ===== src/Storage/Unlimited.antt =====
-- infrastructure/storage.rs: a storage without an eviction policy.
use tracing_throttle.Prelude.{◌≡◌, inl, inr, Bool-cases, Option-cases, none, Instant, not, ◌&&◌}
use tracing_throttle.Metrics.{Metrics}
use tracing_throttle.Storage.Map.{DashMap}
use tracing_throttle.Storage.{
  StorageEntry, ShardedStorage, returned, make_space, evict_one, evict_by, should_evict,
  access_entry, fetch, with_entry_mut, is_some,
}

module _ {K V : Type 0} (m : DashMap K (StorageEntry V)) where
  make_space-unlimited :
      (s : ShardedStorage m) (metrics : Metrics) (k : K)
      → s.eviction_policy ≡ none
      → make_space m s metrics k ≡ returned (s, metrics)
  unfolding make_space evict_one evict_by
  make_space-unlimited s metrics k h =
      elim (Bool-cases (not (is_some (m.get s.table k)) && should_evict m s)) [
        | inl full ↦ rw (full, h, make_space, evict_by)
        | inr room ↦ rw (room, make_space)
      ]

  -- Each access returns what the accessor does, and evicts nothing.
  pub with_entry_mut-unlimited :
      {R : Type 0} (s : ShardedStorage m) (metrics : Metrics) (k : K) (fresh : V) (now : Instant)
      (accessor : V → V × R)
      → s.eviction_policy ≡ none
      → let (s', r) = access_entry m s k fresh now accessor in
        with_entry_mut m s metrics k fresh now accessor ≡ ((s', metrics), returned r)
  unfolding with_entry_mut
  with_entry_mut-unlimited s metrics k fresh now accessor h =
      rw (make_space-unlimited s metrics k h, with_entry_mut)

  pub access_entry-unlimited :
      {R : Type 0} (s : ShardedStorage m) (k : K) (fresh : V) (now : Instant) (accessor : V → V × R)
      → s.eviction_policy ≡ none
      → (access_entry m s k fresh now accessor).0.eviction_policy ≡ none
  unfolding access_entry fetch
  access_entry-unlimited s k fresh now accessor h = elim (Option-cases (m.get s.table k)) [
    | inl e ↦ rw (e, access_entry, h)
    | inr (w, e) ↦ rw (e, access_entry, h)
  ]
