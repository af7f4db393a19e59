-- ===== src/Ports.antt =====
-- application/ports.rs: the interface of a storage, and what its clients rely on.
pub mod Sharded
use mathlib.Core.Option
use tracing_throttle.Prelude.{ℕ, Bool, ◌≡◌, Option, none, some, Instant}
use tracing_throttle.Metrics.{Metrics}
use tracing_throttle.Storage.{Outcome, returned}

-- `peek` is no operation of the trait: it is what the laws below are about.
pub record Storage (K V : Type 0) : Type 1 where
  pub State : Type 0
  pub with_entry_mut :
      {R : Type 0} → State → Metrics → K → V → Instant → (V → V × R) → (State × Metrics) × Outcome R
  pub len : State → ℕ
  pub is_empty : State → Bool
  pub clear : State → State
  -- Both by a closure with a state of its own.
  pub for_each : {S : Type 0} → (S → K → V → S) → S → State → S
  pub retain : {S : Type 0} → (S → K → V → S × V × Bool) → S → State → S × State
  pub peek : State → K → Option V

abbrev pub seen : {K V : Type 0} (p : Storage K V) → p.State → K → V → V
seen p s k fresh = Option.get_or (p.peek s k) fresh

pub record StorageLaws {K V : Type 0} (p : Storage K V) : Type 1 where
  -- The accessor gets the stored value or else the fresh one, and what it leaves is stored.
  pub access :
      {R : Type 0} (s s' : p.State) (metrics metrics' : Metrics) (k : K) (fresh : V) (now : Instant)
      (accessor : V → V × R) (r : R)
      → p.with_entry_mut s metrics k fresh now accessor ≡ ((s', metrics'), returned r)
      → (r ≡ (accessor (seen p s k fresh)).1) × (p.peek s' k ≡ some (accessor (seen p s k fresh)).0)
  -- A storage counts evictions only.
  pub counts_kept :
      {R : Type 0} (s : p.State) (metrics : Metrics) (k : K) (fresh : V) (now : Instant)
      (accessor : V → V × R)
      → let metrics' = (p.with_entry_mut s metrics k fresh now accessor).0.1 in
        (metrics'.events_allowed ≡ metrics.events_allowed)
        × (metrics'.events_suppressed ≡ metrics.events_suppressed)
