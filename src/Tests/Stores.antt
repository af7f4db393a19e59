-- ===== src/Tests/Stores.antt =====
-- The sharded storage over a map of two slots, which hold numbers.
use tracing_throttle.Prelude.{
  ℕ, ◌+◌, ◌*◌, ◌≤◌, ◌<◌, ◌≡◌, suc, refl, List, [], ◌∷◌, none, some, false, arith,
}
use tracing_throttle.Metrics.{Metrics}
use tracing_throttle.Eviction.{min_by_key, min_from, victim_key, lru, select_oldest}
use tracing_throttle.Eviction.Port.{EvictionCandidate}
use tracing_throttle.Storage.{
  StorageEntry, ShardedStorage, new, with_eviction_policy, should_evict, asks, evict_one, evict_by,
  evict_selected, remove_victim, candidates, candidate, last_access, fetch, new_entry,
  update_access, access_nanos, is_some, untracked, tracked, with_entry_mut, make_space,
  access_entry, len, clear,
}
use tracing_throttle.Storage.Map.{DashMap}
use tracing_throttle.Storage.Lookup.{Accessed, with_entry_mut-Accessed}
use tracing_throttle.Storage.Accesses.{Access, run}
use tracing_throttle.Storage.Limit.{limit_policy, Balanced, memory-run, len-run-clear}
use tracing_throttle.Tests.Maps.{
  Key, login, logout, Key-discrete, slots, slots-Laws, get_slot, set_slot, held, list_slots,
}

abbrev store : DashMap Key (StorageEntry ℕ)
store = slots (StorageEntry ℕ)

abbrev no_metrics : Metrics
no_metrics = record { events_allowed = 0; events_suppressed = 0; signatures_evicted = 0 }

abbrev old_entry : EvictionCandidate Key ℕ
old_entry = record { key = login; value = 7; last_access = 10 }

abbrev new_entry' : EvictionCandidate Key ℕ
new_entry' = record { key = logout; value = 3; last_access = 20 }

abbrev visits : List (Access Key ℕ)
visits =
    record { key = login; fresh = 1; now = 20; change = suc }
    ∷ record { key = logout; fresh = 2; now = 30; change = suc }
    ∷ []

-- A storage that holds 5 under `login`, and no more room.
abbrev filled : ShardedStorage store
filled = record {
  table = (some (record { value = 5; last_access_nanos = 3 }), none);
  epoch = 10;
  has_metrics = false;
  eviction_policy = some (lru 1);
  current_memory_bytes = 0;
}

-- After an access to `logout`, which evicts `login`.
abbrev replaced : ShardedStorage store
replaced = record filled { table = (none, some (record { value = 2; last_access_nanos = 90 })) }

with_entry_mut-Accessed_example :
    Accessed Key-discrete store
      (slots-Laws (StorageEntry ℕ))
      (λ v. (suc v, v))
      1
      100
      filled
      replaced
      logout
      1
unfolding with_entry_mut make_space should_evict asks evict_one evict_by evict_selected
    remove_victim candidates candidate last_access select_oldest min_by_key min_from victim_key
    access_entry fetch new_entry update_access access_nanos is_some untracked tracked lru get_slot
    set_slot held list_slots
with_entry_mut-Accessed_example =
    with_entry_mut-Accessed Key-discrete store (slots-Laws (StorageEntry ℕ)) (λ v. (suc v, v)) 1 100
      filled replaced no_metrics no_metrics logout 1 refl

-- Keys of 8 bytes and values of 8, so 280 bytes each, and room for 100 bytes.
memory-run_example :
    let s =
      (run store
        (with_eviction_policy store
          (new store 10)
          (limit_policy Key-discrete store (slots-Laws (StorageEntry ℕ)) 8 8 100))
        no_metrics
        visits).0 in
    (s.current_memory_bytes ≡ len store s * 280) × (len store s * 280 < 100 + 280)
memory-run_example =
    memory-run Key-discrete store (slots-Laws (StorageEntry ℕ)) 8 8 100 (omega arith) (omega arith)
      10 no_metrics visits

abbrev heavy : ShardedStorage store
heavy = record filled {
  eviction_policy = some (limit_policy Key-discrete store (slots-Laws (StorageEntry ℕ)) 8 8 100);
  current_memory_bytes = 280;
}

heavy-Balanced : Balanced Key-discrete store (slots-Laws (StorageEntry ℕ)) 8 8 100 0 heavy
unfolding len held
heavy-Balanced = record { has_policy = refl; balance = refl }

len-run-clear_example : len store (run store (clear store heavy) no_metrics visits).0 ≤ 1
len-run-clear_example =
    len-run-clear Key-discrete store (slots-Laws (StorageEntry ℕ)) 8 8 100 heavy no_metrics visits
      heavy-Balanced (omega arith) (omega arith)

abbrev visit_logout : Access Key ℕ
visit_logout = record { key = logout; fresh = 2; now = 30; change = suc }
