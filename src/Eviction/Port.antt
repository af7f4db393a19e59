-- ===== src/Eviction/Port.antt =====
-- application/ports.rs: the interface of an eviction policy.
use tracing_throttle.Prelude.{ℕ, Bool, Option, List, Instant}

pub record EvictionCandidate (K V : Type 0) : Type 0 where
  pub key : K
  pub value : V
  pub last_access : Instant

-- What a selection comes to: the priority function is the user's, and may panic.
pub data Selection (A : Type 0) : Type 0 where
  panicked : Selection A
  selected : Option A → Selection A

pub record EvictionPolicy (K V : Type 0) : Type 0 where
  pub select_victim : List (EvictionCandidate K V) → Selection K
  pub should_evict : ℕ → ℕ → Bool
  pub tracks_memory : Bool
  pub estimate_entry_size : K → V → ℕ
