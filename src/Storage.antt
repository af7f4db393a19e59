-- ===== src/Storage.antt =====
-- infrastructure/storage.rs: `ShardedStorage`, one call at a time. `now` is the reading of the
-- clock that a call makes; the metrics are shared with the limiter, and so pass through each call.
pub mod Map
pub mod Lookup
pub mod Removal
pub mod Accesses
pub mod Capacity
pub mod Accounting
pub mod Limit
pub mod Counts
pub mod Unlimited
pub mod Threads
use mathlib.Core.Option
use Prim.Native.Nat.{min}
use tracing_throttle.Prelude.{
  ℕ, ◌+◌, ◌-◌, ◌%◌, Bool, true, false, not, ◌&&◌, Option, none, some, List, [], ◌∷◌, map, leb, ltb,
  if◌then◌else◌, Instant, u64_mod, u64_max, checked_add, saturating_duration_since, take, ◌==◌,
}
use tracing_throttle.Metrics.{Metrics, record_eviction}
use tracing_throttle.Eviction.Port.{
  EvictionPolicy, EvictionCandidate, Selection, panicked, selected,
}
use Map.{DashMap}

pub record StorageEntry (V : Type 0) : Type 0 where
  pub value : V
  pub last_access_nanos : ℕ  -- u64

-- Of an access, a panic or a result; the state is kept in both cases.
pub data Outcome (R : Type 0) : Type 0 where
  unwound : Outcome R
  returned : R → Outcome R

unfoldable pub access_nanos : Instant → Instant → ℕ
access_nanos now epoch = min (saturating_duration_since now epoch) u64_max

module _ {V : Type 0} where
  unfoldable pub new_entry : V → Instant → Instant → StorageEntry V
  unfolding access_nanos
  new_entry value now epoch = record { value = value; last_access_nanos = access_nanos now epoch }

  unfoldable pub update_access : StorageEntry V → Instant → Instant → StorageEntry V
  unfolding access_nanos
  update_access e now epoch = record e { last_access_nanos = access_nanos now epoch }

  unfoldable pub last_access : StorageEntry V → Instant → Instant
  last_access e epoch = Option.get_or (checked_add epoch e.last_access_nanos) epoch

unfoldable pub is_some : {A : Type 0} → Option A → Bool
is_some none = false
is_some (some a) = true

abbrev pub sample_size : ℕ
sample_size = 20

unfoldable pub candidate : {K V : Type 0} → Instant → K × StorageEntry V → EvictionCandidate K V
unfolding last_access
candidate epoch (k, e) = record { key = k; value = e.value; last_access = last_access e epoch }

-- `fetch_sub` and `fetch_add` on the memory in use, where the policy tracks it.
module _ {K V : Type 0} where
  unfoldable pub untracked : EvictionPolicy K V → K → V → ℕ → ℕ
  untracked policy k v bytes =
      if policy.tracks_memory
      then (bytes + u64_mod - policy.estimate_entry_size k v) % u64_mod
      else bytes

  unfoldable pub tracked : Option (EvictionPolicy K V) → K → V → ℕ → ℕ
  tracked none k v bytes = bytes
  tracked (some policy) k v bytes =
      if policy.tracks_memory then (bytes + policy.estimate_entry_size k v) % u64_mod else bytes

unfoldable pub asks : {K V : Type 0} → Option (EvictionPolicy K V) → ℕ → ℕ → Bool
asks none entries bytes = false
asks (some policy) entries bytes = policy.should_evict entries bytes

pub record ShardedStorage {K V : Type 0} (m : DashMap K (StorageEntry V)) : Type 0 where
  pub table : m.Table
  pub epoch : Instant
  -- Whether the storage was given metrics.
  pub has_metrics : Bool
  pub eviction_policy : Option (EvictionPolicy K V)
  pub current_memory_bytes : ℕ  -- usize

module _ {K V : Type 0} (m : DashMap K (StorageEntry V)) where
  unfoldable pub new : Instant → ShardedStorage m
  new now = record {
    table = m.empty;
    epoch = now;
    has_metrics = false;
    eviction_policy = none;
    current_memory_bytes = 0;
  }

  unfoldable pub with_metrics : ShardedStorage m → ShardedStorage m
  with_metrics s = record s { has_metrics = true }

  unfoldable pub with_eviction_policy : ShardedStorage m → EvictionPolicy K V → ShardedStorage m
  with_eviction_policy s policy = record s { eviction_policy = some policy }

  unfoldable pub should_evict : ShardedStorage m → Bool
  unfolding asks
  should_evict s = asks s.eviction_policy (m.len s.table) s.current_memory_bytes

  unfoldable pub candidates : ShardedStorage m → List (EvictionCandidate K V)
  unfolding candidate
  candidates s = map (candidate s.epoch) (take sample_size (m.iter s.table))

  -- The removal of the entry that the policy has selected, if the map still holds it.
  unfoldable pub remove_victim :
      EvictionPolicy K V
      → K
      → Option (StorageEntry V)
      → ShardedStorage m
      → Metrics
      → ShardedStorage m × Metrics
  unfolding untracked
  remove_victim policy k none s metrics = (s, metrics)
  remove_victim policy k (some entry) s metrics = (
    record s {
      table = m.remove s.table k;
      current_memory_bytes = untracked policy k entry.value s.current_memory_bytes;
    },
    if s.has_metrics then record_eviction metrics else metrics,
  )

  unfoldable pub evict_selected :
      EvictionPolicy K V
      → Selection K
      → ShardedStorage m
      → Metrics
      → Outcome (ShardedStorage m × Metrics)
  unfolding remove_victim
  evict_selected policy panicked s metrics = unwound
  evict_selected policy (selected none) s metrics = returned (s, metrics)
  evict_selected policy (selected (some k)) s metrics =
      returned (remove_victim policy k (m.get s.table k) s metrics)

  unfoldable pub evict_by :
      Option (EvictionPolicy K V)
      → ShardedStorage m
      → Metrics
      → Outcome (ShardedStorage m × Metrics)
  unfolding candidates evict_selected
  evict_by none s metrics = returned (s, metrics)
  evict_by (some policy) s metrics =
      evict_selected policy (policy.select_victim (candidates s)) s metrics

  unfoldable pub evict_one : ShardedStorage m → Metrics → Outcome (ShardedStorage m × Metrics)
  unfolding evict_by
  evict_one s metrics = evict_by s.eviction_policy s metrics

  -- `with_entry_mut` from the call of `entry` on: a new entry is made, or the old one found.
  unfoldable pub fetch :
      Option (StorageEntry V)
      → K
      → V
      → Instant
      → ShardedStorage m
      → ShardedStorage m × StorageEntry V
  unfolding new_entry tracked
  fetch (some entry) k fresh now s = (s, entry)
  fetch none k fresh now s = (
    record s { current_memory_bytes = tracked s.eviction_policy k fresh s.current_memory_bytes },
    new_entry fresh now s.epoch,
  )

  unfoldable pub access_entry :
      {R : Type 0} → ShardedStorage m → K → V → Instant → (V → V × R) → ShardedStorage m × R
  unfolding fetch update_access
  access_entry s k fresh now accessor =
      let (s', entry) = fetch (m.get s.table k) k fresh now s in
      let (v, r) = accessor entry.value in
      (
        record s' {
          table = m.insert s'.table k (record (update_access entry now s.epoch) { value = v });
        },
        r,
      )

  -- The space that a new entry may need.
  unfoldable pub make_space : ShardedStorage m → Metrics → K → Outcome (ShardedStorage m × Metrics)
  unfolding should_evict evict_one
  make_space s metrics k =
      if not (is_some (m.get s.table k)) && should_evict s
      then evict_one s metrics
      else returned (s, metrics)

  -- A panic of the policy leaves the storage as it was.
  unfoldable pub with_entry_mut :
      {R : Type 0}
      → ShardedStorage m
      → Metrics
      → K
      → V
      → Instant
      → (V → V × R)
      → (ShardedStorage m × Metrics) × Outcome R
  unfolding make_space access_entry is_some
  with_entry_mut s metrics k fresh now accessor = elim (make_space s metrics k) [
    | unwound ↦ ((s, metrics), unwound)
    | returned (s', metrics') ↦
        let (s'', r) = access_entry s' k fresh now accessor in ((s'', metrics'), returned r)
  ]

  unfoldable pub len : ShardedStorage m → ℕ
  len s = m.len s.table

  pub is_empty : ShardedStorage m → Bool
  is_empty s = m.len s.table == 0

  -- `clear` of the map alone.
  unfoldable pub clear : ShardedStorage m → ShardedStorage m
  clear s = record s { table = m.empty }

  unfoldable pub for_each : {S : Type 0} → (S → K → V → S) → S → List (K × StorageEntry V) → S
  for_each f a [] = a
  for_each f a ((k, e) ∷ entries) = for_each f (f a k e.value) entries

  unfoldable pub retain :
      {S : Type 0} → (S → K → V → S × V × Bool) → S → ShardedStorage m → S × ShardedStorage m
  retain f a s =
      let (a', t) =
        m.retain
          (λ b k e.
            let (b', v, keep) = f b k e.value in
            (b', if keep then some (record e { value = v }) else none))
          a s.table in
      (a', record s { table = t })
