-- ===== src/Storage/Threads/Alone.antt =====
-- infrastructure/storage.rs: a call that no other thread's interrupts.
use tracing_throttle.Prelude.{◌≡◌, List, [], ◌∷◌, Instant}
use tracing_throttle.Storage.Map.{DashMap, DashMapLaws}
use tracing_throttle.Storage.{StorageEntry}
use tracing_throttle.Storage.Threads.{Calls, Pc, Effect, quiet, gone, accessed, Shared, Move}
use tracing_throttle.Storage.Threads.Overshoot.{snapshot}
use tracing_throttle.Storage.Threads.Rest.{
  answer_of, shared_of, from_entering, from_counted, from_freed, removed, from_sampling,
  from_measured, from_looked, whole,
}

module _ {K V R : Type 0} (dec : Discrete K) (calls : Calls K V R) (m : DashMap K (StorageEntry V))
    (l : DashMapLaws dec m) where
  open calls use {Call, key, fresh, accessor}

  -- What the calls answered.
  unfoldable pub answers : List (Effect calls) → List R
  answers [] = []
  answers (quiet ∷ es) = answers es
  answers (gone k ∷ es) = answers es
  answers (accessed c r ∷ es) = r ∷ answers es

  -- The moves of a call, all at one reading of the clock.
  unfoldable pub Does :
      (c : Call) (now : Instant) {s t : Shared m} {p q : Pc calls} {e : Effect calls}
      → Move calls m (snapshot dec calls m l) s p e t q
      → Type 0
  Does c now (Move.begin c') = c' ≡ c
  Does c now (Move.access_old entry now' e) = now' ≡ now
  Does c now (Move.access_new now' e) = now' ≡ now
  Does c now mv = Unit

  -- In a call.
  unfoldable pub IsBusy : Pc calls → Type 0
  IsBusy Pc.idle = ⊥
  IsBusy _ = Unit

  -- A thread goes on from a place in its call up to its end, while no other one moves.
  pub data Alone (c : Call) (now : Instant)
      : Shared m → Pc calls → List (Effect calls) → Shared m → Type 0 where
    last :
        {s t : Shared m} {p : Pc calls} {e : Effect calls}
        (mv : Move calls m (snapshot dec calls m l) s p e t Pc.idle)
        → Does c now mv
        → Alone c now s p (e ∷ []) t
    more :
        {s t u : Shared m} {p q : Pc calls} {e : Effect calls} {es : List (Effect calls)}
        (mv : Move calls m (snapshot dec calls m l) s p e t q)
        → Does c now mv
        → IsBusy q
        → Alone c now t q es u
        → Alone c now s p (e ∷ es) u

  -- The call ends, and leaves `t` and these answers.
  unfoldable pub Ends : Call → Instant → Shared m → Shared m → List R → Type 0
  Ends c now s t l = (es : List (Effect calls)) × Alone c now s Pc.idle es t × (answers es ≡ l)

  goes : Call → Instant → Shared m → Pc calls → Shared m × List R
  unfolding from_looked whole shared_of
  goes c now s Pc.idle = (
    shared_of dec calls m l (whole dec calls m l s c now).0,
    answer_of dec calls m l (whole dec calls m l s c now).1,
  )
  goes c now s (Pc.looked d is_new_entry) = from_looked dec calls m l s d is_new_entry now
  goes c now s (Pc.measured d policy entries) = from_measured dec calls m l s d policy entries now
  goes c now s (Pc.sampling d policy) = from_sampling dec calls m l s d policy now
  goes c now s (Pc.chosen d policy victim) =
      removed dec calls m l (m.get s.storage.table victim) s d policy victim now
  goes c now s (Pc.freed d policy victim value) =
      from_freed dec calls m l s d policy victim value now
  goes c now s (Pc.counted d) = from_counted dec calls m l s d now
  goes c now s (Pc.entering d is_new_entry) = from_entering dec calls m l s d is_new_entry now

  -- The same once it has moved, where it may have ended.
  onward : Call → Instant → Shared m → Pc calls → Shared m × List R
  onward c now s Pc.idle = (s, [])
  onward c now s p = goes c now s p

  -- A thread can end its call from a place in it.
  CanEnd : Call → Instant → Shared m → Pc calls → Type 0
  CanEnd c now s p = (es : List (Effect calls)) × (t : Shared m) × Alone c now s p es t
