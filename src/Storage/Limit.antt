-- ===== src/Storage/Limit.antt =====
-- infrastructure/storage.rs: the limit on the memory that a storage counts, and what `clear` does to it.
use tracing_throttle.Prelude.{
  ℕ, zero, suc, ◌+◌, ◌*◌, ◌≤◌, ◌<◌, ◌≡◌, refl, sym, ap, inl, inr, ◌⊎◌, List, [], ◌∷◌, arith,
  Instant, u64_mod,
}
use tracing_throttle.Metrics.{Metrics}
use tracing_throttle.Eviction.Port.{EvictionPolicy}
use tracing_throttle.Storage.Map.{DashMap, DashMapLaws}
use tracing_throttle.Storage.Accounting.{
  *-of_suc, policy, entry_size, Ledger, with_entry_mut-Ledger,
}
use tracing_throttle.Storage.Accesses.{Access, run}
use tracing_throttle.Storage.{StorageEntry, ShardedStorage, len, new, with_eviction_policy, clear}

module _ {K V : Type 0} (dec : Discrete K) (m : DashMap K (StorageEntry V)) (l : DashMapLaws dec m)
    (size_of_key size_of_value max_bytes : ℕ) where
  abbrev pub limit_policy : EvictionPolicy K V
  limit_policy = policy dec m l size_of_key size_of_value max_bytes

  abbrev pub per_entry : ℕ
  per_entry = entry_size dec m l size_of_key size_of_value max_bytes

  abbrev pub Balanced : ℕ → ShardedStorage m → Type 0
  Balanced = Ledger dec m l size_of_key size_of_value max_bytes

  -- Below the limit, but for the entry that reached it.
  record IsLimited (s : ShardedStorage m) : Type 0 where
    ledger : Balanced 0 s
    limited : s.current_memory_bytes < max_bytes + per_entry

  run-IsLimited :
      0 < max_bytes
      → max_bytes + 2 * per_entry < u64_mod
      → (s : ShardedStorage m) (metrics : Metrics) (as' : List (Access K V)) → IsLimited s
      → IsLimited (run m s metrics as').0
  unfolding run
  run-IsLimited positive fits s metrics [] v = v
  run-IsLimited positive fits s metrics (a ∷ as') v =
      let (s', metrics', done, ledger, why) =
        with_entry_mut-Ledger dec m l size_of_key size_of_value max_bytes 0 s metrics a v.ledger
          (omega (arith, v.limited)) in
      rw (done, run)
        (run-IsLimited positive fits s' metrics' as'
          (record { ledger = ledger; limited = step_limited s s' v ledger why }))
    where
      step_limited :
          (s s' : ShardedStorage m)
          → IsLimited s
          → Balanced 0 s'
          → (len m s' ≡ len m s)
            ⊎ ((len m s' ≡ suc (len m s)) × ((s.current_memory_bytes < max_bytes) ⊎ (len m s ≡ 0)))
          → s'.current_memory_bytes < max_bytes + per_entry
      step_limited s s' v w (inl same) =
          let e = ap (λ n. n * per_entry) same in
          omega (arith, v.ledger.balance, w.balance, v.limited)
      step_limited s s' v w (inr (more, inl room)) =
          let e = *-of_suc (len m s) (len m s') per_entry (sym more) in
          omega (arith, v.ledger.balance, w.balance)
      step_limited s s' v w (inr (more, inr empty)) =
          let e = *-of_suc (len m s) (len m s') per_entry (sym more) in
          let z = ap (λ n. n * per_entry) empty in omega (arith, v.ledger.balance, w.balance)

  -- A new storage with memory eviction at `max_bytes`, at least 1, counts just what its entries are
  -- taken to use, whatever accesses come, and so much stays below `max_bytes` and one more entry.
  -- The limit must leave room for two entries below 2 ^ 64.
  pub memory-run :
      0 < max_bytes
      → max_bytes + 2 * per_entry < u64_mod
      → (start : Instant) (metrics : Metrics) (as' : List (Access K V))
      → let s = (run m (with_eviction_policy m (new m start) limit_policy) metrics as').0 in
        (s.current_memory_bytes ≡ len m s * per_entry)
        × (len m s * per_entry < max_bytes + per_entry)
  memory-run positive fits start metrics as' =
      let v =
        run-IsLimited positive fits (with_eviction_policy m (new m start) limit_policy) metrics as'
          began in
      (omega (arith, v.ledger.balance), omega (arith, v.ledger.balance, v.limited))
    where
      began : IsLimited (with_eviction_policy m (new m start) limit_policy)
      began =
          unfold with_eviction_policy new len in
          record {
            ledger = record {
              has_policy = refl;
              balance = let z = ap (λ n. n * per_entry) l.len-empty in omega arith;
            };
            limited = omega arith;
          }

  -- At most one entry, and at least `extra` of memory in use.
  record IsDegraded (extra : ℕ) (s : ShardedStorage m) : Type 0 where
    ledger : Balanced extra s
    single : len m s ≤ 1

  run-IsDegraded :
      (extra : ℕ)
      → max_bytes ≤ extra
      → extra + 2 * per_entry < u64_mod
      → (s : ShardedStorage m) (metrics : Metrics) (as' : List (Access K V)) → IsDegraded extra s
      → IsDegraded extra (run m s metrics as').0
  unfolding run
  run-IsDegraded extra full fits s metrics [] v = v
  run-IsDegraded extra full fits s metrics (a ∷ as') v =
      let (s', metrics', done, ledger, why) =
        with_entry_mut-Ledger dec m l size_of_key size_of_value max_bytes extra s metrics a v.ledger
          (in_range (len m s) v.single v.ledger.balance) in
      rw (done, run)
        (run-IsDegraded extra full fits s' metrics' as'
          (record { ledger = ledger; single = step_single s' why }))
    where
      in_range :
          (n : ℕ)
          → n ≤ 1
          → s.current_memory_bytes ≡ extra + n * per_entry
          → s.current_memory_bytes + per_entry < u64_mod
      in_range zero h e = omega arith
      in_range (suc zero) h e = omega arith
      in_range (suc (suc n)) h e = absurd (omega arith)

      step_single :
          (s' : ShardedStorage m)
          → (len m s' ≡ len m s)
            ⊎ ((len m s' ≡ suc (len m s)) × ((s.current_memory_bytes < max_bytes) ⊎ (len m s ≡ 0)))
          → len m s' ≤ 1
      step_single s' (inl same) = omega (arith, v.single)
      step_single s' (inr (more, inl room)) = absurd (omega (arith, v.ledger.balance))
      step_single s' (inr (more, inr empty)) = omega arith

  -- `clear` does not give back the memory in use. So a storage that has reached its memory limit
  -- when it is cleared never holds more than one entry again, whatever accesses come. Its memory
  -- in use must be that of its entries, and leave room for two entries below 2 ^ 64.
  pub len-run-clear :
      (s : ShardedStorage m) (metrics : Metrics) (as' : List (Access K V))
      → Balanced 0 s
      → max_bytes ≤ s.current_memory_bytes
      → s.current_memory_bytes + 2 * per_entry < u64_mod
      → len m (run m (clear m s) metrics as').0 ≤ 1
  len-run-clear s metrics as' v full fits =
      (run-IsDegraded s.current_memory_bytes full fits (clear m s) metrics as' cleared).single
    where
      cleared : IsDegraded s.current_memory_bytes (clear m s)
      cleared =
          unfold clear len in
          record {
            ledger = record { has_policy = v.has_policy; balance = ground (arith, l.len-empty) };
            single = omega (arith, l.len-empty);
          }
