-- ===== src/Storage/Threads/Atomic.antt =====
-- infrastructure/storage.rs: the accesses of several threads take effect one after the other.
use mathlib.Core.Option
use mathlib.Core.Logic.{ite}
use Prim.Native.Nat.{ℕ}
use tracing_throttle.Prelude.{
  System, Step, pick, ◌≡◌, refl, sym, ap, ◌∙◌, Bool, Option, none, some, Instant,
}
use tracing_throttle.Storage.Map.{DashMap, DashMapLaws}
use tracing_throttle.Storage.{StorageEntry, new_entry}
use tracing_throttle.Storage.Threads.{
  Calls, Pc, Effect, quiet, gone, accessed, Shared, Sampling, Move, with_table, stored, enter_old,
  enter_new, track,
}

module _ {K V R : Type 0} (dec : Discrete K) (calls : Calls K V R) where
  open calls use {Call, key, fresh, accessor}

  -- The specification: a map in which an access or a removal is one step.
  unfoldable pub apply : Effect calls → (K → Option V) → K → Option V
  apply quiet view j = view j
  apply (gone k) view j = ite (dec k j) none (view j)
  apply (accessed c r) view j =
      ite (dec (key c) j) (some (accessor c (Option.get_or (view (key c)) (fresh c))).0) (view j)

  -- What the specification answers to an access.
  unfoldable pub Answers : Effect calls → (K → Option V) → Type 0
  Answers quiet view = Unit
  Answers (gone k) view = Unit
  Answers (accessed c r) view = r ≡ (accessor c (Option.get_or (view (key c)) (fresh c))).1

  module _ (m : DashMap K (StorageEntry V)) (l : DashMapLaws dec m) (Sample : Sampling m) where
    unfoldable pub view : Shared m → K → Option V
    view s k = Option.map (λ e. e.value) (m.get s.storage.table k)

    map-ite :
        {P : Type 0} (d : Dec P) (a b : Option (StorageEntry V))
        → Option.map (λ e. e.value) (ite d a b)
          ≡ ite d (Option.map (λ e. e.value) a) (Option.map (λ e. e.value) b)
    map-ite (yes p) a b = refl
    map-ite (no np) a b = refl

    removed-view :
        (t : m.Table) (k j : K)
        → Option.map (λ e. e.value) (m.get (m.remove t k) j)
          ≡ ite (dec k j) none (Option.map (λ e. e.value) (m.get t j))
    removed-view t k j =
        ap (Option.map (λ e. e.value)) (l.get-remove t k j) ∙ map-ite (dec k j) none (m.get t j)

    removed_at :
        (s : Shared m) (k j : K)
        → view (with_table s (m.remove s.storage.table k)) j ≡ ite (dec k j) none (view s j)
    unfolding view with_table
    removed_at s k j = removed-view s.storage.table k j

    stored-view :
        (t : m.Table) (k j : K) (entry : StorageEntry V) (v : V)
        → entry.value ≡ v
        → Option.map (λ e. e.value) (m.get (m.insert t k entry) j)
          ≡ ite (dec k j) (some v) (Option.map (λ e. e.value) (m.get t j))
    stored-view t k j entry v e =
        ap (Option.map (λ e. e.value)) (l.get-insert t k j entry)
        ∙ map-ite (dec k j) (some entry) (m.get t j)
        ∙ ap (λ v. ite (dec k j) (some v) (Option.map (λ e. e.value) (m.get t j))) e

    entered-view :
        (s : Shared m) (c : Call) (entry : StorageEntry V) (now : Instant) (v : V) (j : K)
        → (accessor c entry.value).0 ≡ v
        → view (enter_old calls m Sample s c entry now) j ≡ ite (dec (key c) j) (some v) (view s j)
    unfolding view enter_old with_table stored
    entered-view s c entry now v j e = stored-view s.storage.table (key c) j _ v e

    new_at :
        (s : Shared m) (c : Call) (b : Bool) (now : Instant) {v : V}
        → (accessor c (fresh c)).0 ≡ v
        → (j : K)
        → view (enter_new calls m Sample s c b now) j ≡ ite (dec (key c) j) (some v) (view s j)
    unfolding enter_new new_entry view
    new_at s c b now e j =
        entered-view
          (record s {
            storage = record s.storage { current_memory_bytes = track calls m Sample s c b };
          })
          c (new_entry (fresh c) now s.storage.epoch) now _ j e

    value-held :
        (s : Shared m) (c : Call) (o : Option (StorageEntry V))
        → m.get s.storage.table (key c) ≡ o
        → Option.get_or (Option.map (λ e. e.value) o) (fresh c)
          ≡ Option.get_or (view s (key c)) (fresh c)
    unfolding view
    value-held s c o h = ap (λ o. Option.get_or (Option.map (λ e. e.value) o) (fresh c)) (sym h)

    -- Every step of a thread is a step of the specification, with its answer.
    pub Move-apply :
        {s t : Shared m} {p q : Pc calls} {e : Effect calls}
        → Move calls m Sample s p e t q
        → ((j : K) → view t j ≡ apply e (view s) j) × Answers e (view s)
    unfolding apply Answers
    Move-apply (Move.begin c) = ((λ j. refl), tt)
    Move-apply Move.present = ((λ j. refl), tt)
    Move-apply (Move.unlimited h) = ((λ j. refl), tt)
    Move-apply (Move.measure h) = ((λ j. refl), tt)
    Move-apply (Move.room h) = ((λ j. refl), tt)
    Move-apply (Move.full h) = ((λ j. refl), tt)
    Move-apply (Move.panic cs h p) = ((λ j. refl), tt)
    Move-apply (Move.no_victim cs h p) = ((λ j. refl), tt)
    Move-apply (Move.choose cs h p) = ((λ j. refl), tt)
    Move-apply (Move.missed h) = ((λ j. refl), tt)
    Move-apply {s} (Move.remove {victim} entry h) = ((removed_at s victim), tt)
    Move-apply Move.untrack = ((λ j. unfold view in refl), tt)
    Move-apply Move.count = ((λ j. unfold view in refl), tt)
    Move-apply {s} (Move.access_old {c} entry now h) =
        let held = value-held s c (some entry) h in
        (
          (λ j. entered-view s c entry now _ j (ap (λ v. (accessor c v).0) held)),
          ap (λ v. (accessor c v).1) held,
        )
    Move-apply {s} (Move.access_new {c} {is_new_entry} now h) =
        let held = value-held s c none h in
        (
          new_at s c is_new_entry now (ap (λ v. (accessor c v).0) held),
          ap (λ v. (accessor c v).1) held,
        )

    pub Step-apply :
        {n : ℕ} {s t : System (Shared m) (Pc calls)} {e : Effect calls}
        → Step (Move calls m Sample) n s e t
        → ((j : K) → view t.shared j ≡ apply e (view s.shared) j) × Answers e (view s.shared)
    Step-apply (pick i lt mv) = Move-apply mv
