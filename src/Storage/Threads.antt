-- ===== src/Storage/Threads.antt =====
-- infrastructure/storage.rs, `with_entry_mut` of several threads, a shared access at a time. An
-- entry's guard holds the lock of its shard from the look-up in `entry` to the end of the
-- accessor, so that this is one step.
pub mod Atomic
pub mod Sequential
pub mod Overshoot
pub mod Rest
pub mod Alone
use Prim.Native.Nat.{ℕ, ◌<◌}
use mathlib.Core.Option
use tracing_throttle.Prelude.{
  ◌≡◌, Bool, true, false, not, Option, none, some, List, [], ◌∷◌, ◌++◌, Instant, if◌then◌else◌,
}
use tracing_throttle.Metrics.{Metrics, record_eviction}
use tracing_throttle.Eviction.Port.{
  EvictionPolicy, EvictionCandidate, Selection, panicked, selected,
}
use tracing_throttle.Storage.Map.{DashMap}
use tracing_throttle.Storage.{
  StorageEntry, ShardedStorage, is_some, untracked, tracked, new_entry, update_access,
}

-- The calls that the clients make: the key, the fresh value and the accessor of each.
pub record Calls (K V R : Type 0) : Type 1 where
  pub Call : Type 0
  pub key : Call → K
  pub fresh : Call → V
  pub accessor : Call → V → V × R

module _ {K V R : Type 0} (calls : Calls K V R) where
  open calls use {Call}

  -- Where a thread stands in its call, with the local variables that are live there.
  pub data Pc : Type 0 where
    idle : Pc
    looked : (c : Call) (is_new_entry : Bool) → Pc
    measured : (c : Call) (policy : EvictionPolicy K V) (entries : ℕ) → Pc
    sampling : (c : Call) (policy : EvictionPolicy K V) → Pc
    chosen : (c : Call) (policy : EvictionPolicy K V) (victim : K) → Pc
    freed : (c : Call) (policy : EvictionPolicy K V) (victim : K) (value : V) → Pc
    counted : (c : Call) → Pc
    entering : (c : Call) (is_new_entry : Bool) → Pc

  -- What a step does to the entries.
  pub data Effect : Type 0 where
    quiet : Effect
    gone : K → Effect
    accessed : Call → R → Effect

-- The storage, and the metrics that it shares with the limiter.
pub record Shared {K V : Type 0} (m : DashMap K (StorageEntry V)) : Type 0 where
  pub storage : ShardedStorage m
  pub metrics : Metrics

unfoldable pub with_table :
    {K V : Type 0} {m : DashMap K (StorageEntry V)} → Shared m → m.Table → Shared m
with_table s table = record s { storage = record s.storage { table = table } }

-- What an iteration over the map may yield of its first candidates: the shards are locked one
-- after the other.
abbrev pub Sampling : {K V : Type 0} → DashMap K (StorageEntry V) → Type 1
Sampling {K} {V} m = ShardedStorage m → List (EvictionCandidate K V) → Type 0

module _ {K V R : Type 0} (calls : Calls K V R) (m : DashMap K (StorageEntry V))
    (Sample : Sampling m) where
  open calls use {Call, key, fresh, accessor}

  -- The entry as the accessor leaves it.
  unfoldable pub stored : Shared m → Call → StorageEntry V → Instant → StorageEntry V
  stored s c entry now = record (update_access entry now s.storage.epoch) {
    value = (accessor c entry.value).0;
  }

  unfoldable pub enter_old : Shared m → Call → StorageEntry V → Instant → Shared m
  unfolding with_table stored
  enter_old s c entry now = with_table s (m.insert s.storage.table (key c) (stored s c entry now))

  unfoldable pub track : Shared m → Call → Bool → ℕ
  unfolding tracked
  track s c is_new_entry =
      if is_new_entry
      then tracked s.storage.eviction_policy (key c) (fresh c) s.storage.current_memory_bytes
      else s.storage.current_memory_bytes

  unfoldable pub enter_new : Shared m → Call → Bool → Instant → Shared m
  unfolding track enter_old
  enter_new s c is_new_entry now =
      enter_old
        (record s { storage = record s.storage { current_memory_bytes = track s c is_new_entry } })
        c (new_entry (fresh c) now s.storage.epoch) now

  -- One step of one thread. A panic of the policy ends the call.
  pub data Move (s : Shared m) : Pc calls → Effect calls → Shared m → Pc calls → Type 0 where
    begin :
        (c : Call) → Move s idle quiet s (looked c (not (is_some (m.get s.storage.table (key c)))))
    present : {c : Call} → Move s (looked c false) quiet s (entering c false)
    unlimited :
        {c : Call}
        → s.storage.eviction_policy ≡ none
        → Move s (looked c true) quiet s (entering c true)
    measure :
        {c : Call} {policy : EvictionPolicy K V}
        → s.storage.eviction_policy ≡ some policy
        → Move s (looked c true) quiet s (measured c policy (m.len s.storage.table))
    room :
        {c : Call} {policy : EvictionPolicy K V} {entries : ℕ}
        → policy.should_evict entries s.storage.current_memory_bytes ≡ false
        → Move s (measured c policy entries) quiet s (entering c true)
    full :
        {c : Call} {policy : EvictionPolicy K V} {entries : ℕ}
        → policy.should_evict entries s.storage.current_memory_bytes ≡ true
        → Move s (measured c policy entries) quiet s (sampling c policy)
    panic :
        {c : Call} {policy : EvictionPolicy K V} (candidates : List (EvictionCandidate K V))
        → Sample s.storage candidates
        → policy.select_victim candidates ≡ panicked
        → Move s (sampling c policy) quiet s idle
    no_victim :
        {c : Call} {policy : EvictionPolicy K V} (candidates : List (EvictionCandidate K V))
        → Sample s.storage candidates
        → policy.select_victim candidates ≡ selected none
        → Move s (sampling c policy) quiet s (entering c true)
    choose :
        {c : Call} {policy : EvictionPolicy K V} {victim : K}
        (candidates : List (EvictionCandidate K V))
        → Sample s.storage candidates
        → policy.select_victim candidates ≡ selected (some victim)
        → Move s (sampling c policy) quiet s (chosen c policy victim)
    missed :
        {c : Call} {policy : EvictionPolicy K V} {victim : K}
        → m.get s.storage.table victim ≡ none
        → Move s (chosen c policy victim) quiet s (entering c true)
    remove :
        {c : Call} {policy : EvictionPolicy K V} {victim : K} (entry : StorageEntry V)
        → m.get s.storage.table victim ≡ some entry
        → Move s
            (chosen c policy victim)
            (gone victim)
            (with_table s (m.remove s.storage.table victim))
            (freed c policy victim entry.value)
    untrack :
        {c : Call} {policy : EvictionPolicy K V} {victim : K} {value : V}
        → Move s
            (freed c policy victim value)
            quiet
            (record s {
              storage = record s.storage {
                current_memory_bytes = untracked policy victim value s.storage.current_memory_bytes;
              };
            })
            (counted c)
    count :
        {c : Call}
        → Move s
            (counted c)
            quiet
            (record s {
              metrics = if s.storage.has_metrics then record_eviction s.metrics else s.metrics;
            })
            (entering c true)
    access_old :
        {c : Call} {is_new_entry : Bool} (entry : StorageEntry V) (now : Instant)
        → m.get s.storage.table (key c) ≡ some entry
        → Move s
            (entering c is_new_entry)
            (accessed c (accessor c entry.value).1)
            (enter_old s c entry now)
            idle
    access_new :
        {c : Call} {is_new_entry : Bool} (now : Instant)
        → m.get s.storage.table (key c) ≡ none
        → Move s
            (entering c is_new_entry)
            (accessed c (accessor c (fresh c)).1)
            (enter_new s c is_new_entry now)
            idle
