-- ===== src/Ports/Sharded.antt =====
-- `ShardedStorage` as a storage of application/ports.rs.
use mathlib.Core.Option
use tracing_throttle.Prelude.{◌≡◌, ◌∙◌, ap, inl, inr, Option-cases, some}
use tracing_throttle.Storage.Map.{DashMap, DashMapLaws}
use tracing_throttle.Storage.Lookup.{with_entry_mut-Accessed, seen as seen_entry}
use tracing_throttle.Storage.Counts.{with_entry_mut-counts}
use tracing_throttle.Storage
use tracing_throttle.Storage.{StorageEntry, ShardedStorage}
use tracing_throttle.Ports.{Storage as StoragePort, StorageLaws, seen}

abbrev pub sharded : {K V : Type 0} → DashMap K (StorageEntry V) → StoragePort K V
sharded m = record {
  State = ShardedStorage m;
  with_entry_mut = Storage.with_entry_mut m;
  len = Storage.len m;
  is_empty = Storage.is_empty m;
  clear = Storage.clear m;
  for_each = λ f a s. Storage.for_each m f a (m.iter s.table);
  retain = Storage.retain m;
  peek = λ s k. Option.map (λ e. e.value) (m.get s.table k);
}

module _ {K V : Type 0} (dec : Discrete K) (m : DashMap K (StorageEntry V))
    (l : DashMapLaws dec m) where
  seen-seen_entry :
      (s : ShardedStorage m) (k : K) (fresh : V)
      → seen_entry dec m l s k fresh ≡ seen (sharded m) s k fresh
  unfolding seen_entry
  seen-seen_entry s k fresh = elim (Option-cases (m.get s.table k)) [
    | inl e ↦ rw (e, seen_entry)
    | inr (w, e) ↦ rw (e, seen_entry)
  ]

  -- The sharded storage keeps what the clients of a storage rely on.
  pub sharded-Laws : StorageLaws (sharded m)
  sharded-Laws = record {
    access = λ s s' metrics metrics' k fresh now accessor r h.
        let a = with_entry_mut-Accessed dec m l accessor fresh now s s' metrics metrics' k r h in
        let same = seen-seen_entry s k fresh in
        (
          a.result ∙ ap (λ v. (accessor v).1) same,
          ap (Option.map (λ e. e.value)) a.stored ∙ ap (λ v. some (accessor v).0) same,
        );
    counts_kept =
        λ s metrics k fresh now accessor. with_entry_mut-counts m s metrics k fresh now accessor;
  }
