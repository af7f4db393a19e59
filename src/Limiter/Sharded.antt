-- ===== src/Limiter/Sharded.antt =====
-- application/limiter.rs over infrastructure/storage.rs: a sharded storage without eviction.
use tracing_throttle.Prelude.{◌≡◌, none, Instant}
use tracing_throttle.Policy.Float.{F64}
use tracing_throttle.Storage
use tracing_throttle.Storage.{StorageEntry, ShardedStorage, returned}
use tracing_throttle.Storage.Map.{DashMap}
use tracing_throttle.Storage.Unlimited.{with_entry_mut-unlimited, access_entry-unlimited}
use tracing_throttle.Registry.{EventState}
use tracing_throttle.Limiter.Run.{Reliable}
use tracing_throttle.Ports.Sharded.{sharded}

-- Without an eviction policy no access to a sharded storage panics.
unfoldable pub sharded-Reliable :
    {K M : Type 0} (f : F64) (base : Instant) (m : DashMap K (StorageEntry (EventState f M)))
    → Reliable f base (sharded m)
sharded-Reliable f base m = record {
  Safe = λ s. s.eviction_policy ≡ none;
  access_returns = λ s metrics k fresh now accessor h.
      let (s', r) = Storage.access_entry m s k fresh now accessor in
      (
        s',
        metrics,
        r,
        with_entry_mut-unlimited m s metrics k fresh now accessor h,
        access_entry-unlimited m s k fresh now accessor h,
      );
}
