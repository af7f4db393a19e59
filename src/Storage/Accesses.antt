-- ===== src/Storage/Accesses.antt =====
-- Sequences of accesses to a storage.
use tracing_throttle.Prelude.{List, [], ◌∷◌, Instant}
use tracing_throttle.Metrics.{Metrics}
use tracing_throttle.Storage.Map.{DashMap}
use tracing_throttle.Storage.{StorageEntry, ShardedStorage, with_entry_mut}

-- One access by a client: a key, the fresh value, the time and what the client does to the value.
pub record Access (K V : Type 0) : Type 0 where
  pub key : K
  pub fresh : V
  pub now : Instant
  pub change : V → V

abbrev pub accessor : {K V : Type 0} → Access K V → V → V × Unit {0}
accessor a v = (a.change v, tt)

unfoldable pub run :
    {K V : Type 0} (m : DashMap K (StorageEntry V))
    → ShardedStorage m
    → Metrics
    → List (Access K V)
    → ShardedStorage m × Metrics
run m s metrics [] = (s, metrics)
run m s metrics (a ∷ as') =
    let ((s', metrics'), _) = with_entry_mut m s metrics a.key a.fresh a.now (accessor a) in
    run m s' metrics' as'
