-- ===== src/Storage/Threads/Rest.antt =====
-- infrastructure/storage.rs: what is left to do of a call, from each place in it on, if no other
-- thread's interrupts it.
use tracing_throttle.Prelude.{
  ℕ, ◌≡◌, refl, Bool, Bool-cases, true, false, not, ◌&&◌, Option, none, some, inl, inr, List, [],
  ◌∷◌, Instant, if◌then◌else◌,
}
use tracing_throttle.Metrics.{Metrics, record_eviction}
use tracing_throttle.Eviction.Port.{EvictionPolicy, Selection, panicked, selected}
use tracing_throttle.Storage.Map.{DashMap, DashMapLaws}
use tracing_throttle.Storage.{
  StorageEntry, ShardedStorage, Outcome, unwound, returned, candidates, is_some, fetch,
  access_entry, remove_victim, evict_selected, evict_by, evict_one, asks, should_evict, make_space,
  with_entry_mut, untracked,
}
use tracing_throttle.Storage.Threads.{
  Calls, Shared, with_table, stored, enter_old, enter_new, track,
}
use tracing_throttle.Storage.Threads.Overshoot.{snapshot}

module _ {K V R : Type 0} (dec : Discrete K) (calls : Calls K V R) (m : DashMap K (StorageEntry V))
    (l : DashMapLaws dec m) where
  open calls use {Call, key, fresh, accessor}

  unfoldable pub answer_of : Outcome R → List R
  answer_of unwound = []
  answer_of (returned r) = r ∷ []

  unfoldable pub shared_of : ShardedStorage m × Metrics → Shared m
  shared_of r = record { storage = r.0; metrics = r.1 }

  -- What a call leaves and answers, from a place in it on.
  unfoldable pub entered :
      Option (StorageEntry V) → Shared m → Call → Bool → Instant → Shared m × List R
  entered none s c is_new_entry now = (
    enter_new calls m (snapshot dec calls m l) s c is_new_entry now,
    (accessor c (fresh c)).1 ∷ [],
  )
  entered (some entry) s c is_new_entry now =
      (enter_old calls m (snapshot dec calls m l) s c entry now, (accessor c entry.value).1 ∷ [])

  unfoldable pub from_entering : Shared m → Call → Bool → Instant → Shared m × List R
  unfolding entered
  from_entering s c is_new_entry now = entered (m.get s.storage.table (key c)) s c is_new_entry now

  unfoldable pub from_counted : Shared m → Call → Instant → Shared m × List R
  unfolding from_entering
  from_counted s c now =
      from_entering
        (record s {
          metrics = if s.storage.has_metrics then record_eviction s.metrics else s.metrics;
        })
        c true now

  unfoldable pub from_freed :
      Shared m → Call → EvictionPolicy K V → K → V → Instant → Shared m × List R
  unfolding from_counted
  from_freed s c policy victim value now =
      from_counted
        (record s {
          storage = record s.storage {
            current_memory_bytes = untracked policy victim value s.storage.current_memory_bytes;
          };
        })
        c now

  unfoldable pub removed :
      Option (StorageEntry V)
      → Shared m
      → Call
      → EvictionPolicy K V
      → K
      → Instant
      → Shared m × List R
  unfolding from_freed
  removed none s c policy victim now = from_entering s c true now
  removed (some entry) s c policy victim now =
      from_freed (with_table s (m.remove s.storage.table victim)) c policy victim entry.value now

  unfoldable pub sampled :
      Selection K → Shared m → Call → EvictionPolicy K V → Instant → Shared m × List R
  unfolding removed
  sampled panicked s c policy now = (s, [])
  sampled (selected none) s c policy now = from_entering s c true now
  sampled (selected (some victim)) s c policy now =
      removed (m.get s.storage.table victim) s c policy victim now

  unfoldable pub from_sampling : Shared m → Call → EvictionPolicy K V → Instant → Shared m × List R
  unfolding sampled
  from_sampling s c policy now =
      sampled (policy.select_victim (candidates m s.storage)) s c policy now

  unfoldable pub from_measured :
      Shared m → Call → EvictionPolicy K V → ℕ → Instant → Shared m × List R
  unfolding from_sampling
  from_measured s c policy entries now =
      if policy.should_evict entries s.storage.current_memory_bytes
      then from_sampling s c policy now
      else from_entering s c true now

  unfoldable pub absent :
      Option (EvictionPolicy K V) → Shared m → Call → Instant → Shared m × List R
  unfolding from_measured
  absent none s c now = from_entering s c true now
  absent (some policy) s c now = from_measured s c policy (m.len s.storage.table) now

  unfoldable pub from_looked : Shared m → Call → Bool → Instant → Shared m × List R
  unfolding absent
  from_looked s c true now = absent s.storage.eviction_policy s c now
  from_looked s c false now = from_entering s c false now

  unfoldable pub whole : Shared m → Call → Instant → (ShardedStorage m × Metrics) × Outcome R
  whole s c now = with_entry_mut m s.storage s.metrics (key c) (fresh c) now (accessor c)

  -- The access, and its result.
  accessing : Shared m → Call → Instant → (ShardedStorage m × Metrics) × Outcome R
  accessing s c now =
      let (s', r) = access_entry m s.storage (key c) (fresh c) now (accessor c) in
      ((s', s.metrics), returned r)

  -- A call, from the outcome of its search for space.
  ended :
      Shared m
      → Call
      → Instant
      → Outcome (ShardedStorage m × Metrics)
      → (ShardedStorage m × Metrics) × Outcome R
  unfolding accessing
  ended s c now o = elim o [
    | unwound ↦ ((s.storage, s.metrics), unwound)
    | returned (storage, metrics) ↦
        accessing (record { storage = storage; metrics = metrics }) c now
  ]

  unfoldable pub with_answer : (ShardedStorage m × Metrics) × Outcome R → Shared m × List R
  unfolding shared_of
  with_answer r = (shared_of r.0, answer_of r.1)

  accessing-from_entering :
      (s : Shared m) (c : Call) (is_new_entry : Bool) (now : Instant) (o : Option (StorageEntry V))
      → m.get s.storage.table (key c) ≡ o
      → not (is_some o) ≡ (is_new_entry && not (is_some o))
      → with_answer (accessing s c now) ≡ from_entering s c is_new_entry now
  unfolding with_answer shared_of answer_of accessing access_entry fetch from_entering entered
      enter_new enter_old with_table stored track is_some
  accessing-from_entering s c true now none e h = rw (e, access_entry, entered) refl
  accessing-from_entering s c false now none e h = absurd cc
  accessing-from_entering s c is_new_entry now (some entry) e h = rw (e, access_entry, entered) refl

  entering_new :
      (s : Shared m) (c : Call) (now : Instant)
      → with_answer (accessing s c now) ≡ from_entering s c true now
  unfolding is_some
  entering_new s c now =
      accessing-from_entering s c true now (m.get s.storage.table (key c)) refl refl

  ended-removed :
      (s : Shared m) (c : Call) (now : Instant) (policy : EvictionPolicy K V) (victim : K)
      (o : Option (StorageEntry V))
      → with_answer (ended s c now (returned (remove_victim m policy victim o s.storage s.metrics)))
        ≡ removed o s c policy victim now
  unfolding remove_victim ended removed with_table from_freed from_counted
  ended-removed s c now policy victim none = entering_new s c now
  ended-removed s c now policy victim (some entry) = entering_new _ c now

  ended-sampled :
      (s : Shared m) (c : Call) (now : Instant) (policy : EvictionPolicy K V) (sel : Selection K)
      → with_answer (ended s c now (evict_selected m policy sel s.storage s.metrics))
        ≡ sampled sel s c policy now
  unfolding evict_selected ended sampled with_answer answer_of shared_of
  ended-sampled s c now policy panicked = refl
  ended-sampled s c now policy (selected none) = entering_new s c now
  ended-sampled s c now policy (selected (some victim)) =
      ended-removed s c now policy victim (m.get s.storage.table victim)

  ended-absent :
      (s : Shared m) (c : Call) (now : Instant) (o : Option (EvictionPolicy K V))
      → with_answer (
          ended s c now (
            if asks o (m.len s.storage.table) s.storage.current_memory_bytes
            then evict_by m o s.storage s.metrics
            else returned (s.storage, s.metrics)))
        ≡ absent o s c now
  unfolding asks evict_by ended absent
  ended-absent s c now none = entering_new s c now
  ended-absent s c now (some policy) =
      unfold from_measured in
      elim (Bool-cases
        (policy.should_evict (m.len s.storage.table) s.storage.current_memory_bytes)) [
          | inl full ↦ rw (full, asks) (ended-sampled s c now policy _)
          | inr room ↦ rw (room, asks) (entering_new s c now)
        ]

  ended-from_looked :
      (s : Shared m) (c : Call) (now : Instant) (o : Option (StorageEntry V))
      → m.get s.storage.table (key c) ≡ o
      → with_answer (
          ended s c now (
            if not (is_some o) && should_evict m s.storage
            then evict_one m s.storage s.metrics
            else returned (s.storage, s.metrics)))
        ≡ from_looked s c (not (is_some o)) now
  unfolding should_evict evict_one is_some from_looked
  ended-from_looked s c now none e = ended-absent s c now s.storage.eviction_policy
  ended-from_looked s c now (some entry) e =
      unfold ended in accessing-from_entering s c false now (some entry) e refl

  pub whole-from_looked :
      (s : Shared m) (c : Call) (now : Instant)
      → with_answer (whole s c now)
        ≡ from_looked s c (not (is_some (m.get s.storage.table (key c)))) now
  unfolding whole with_entry_mut make_space ended accessing
  whole-from_looked s c now = ended-from_looked s c now (m.get s.storage.table (key c)) refl
