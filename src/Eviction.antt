-- ===== src/Eviction.antt =====
-- application/ports.rs, `EvictionPolicy`, and its implementations in infrastructure/eviction.
pub mod Port
pub mod Oldest
use tracing_throttle.Prelude.{
  ℕ, ◌+◌, Bool, true, false, Option, none, some, List, [], ◌∷◌, ◌||◌, leb, ltb, if◌then◌else◌,
  Instant,
}
use Port.{EvictionCandidate, EvictionPolicy, Selection, panicked, selected}

module _ {A : Type 0} where
  -- `min_by_key` of the standard library: of several least elements, the first. A key that panics
  -- ends the search.
  unfoldable pub min_from : (A → Option ℕ) → A → ℕ → List A → Selection A
  min_from key best best_key [] = selected (some best)
  min_from key best best_key (x ∷ xs) = elim (key x) [
    | none ↦ panicked
    | some k ↦
        let less = ltb k best_key in
        min_from key (if less then x else best) (if less then k else best_key) xs
  ]

  unfoldable pub min_by_key : (A → Option ℕ) → List A → Selection A
  unfolding min_from
  min_by_key key [] = selected none
  min_by_key key (x ∷ xs) = elim (key x) [ none ↦ panicked | some k ↦ min_from key x k xs ]

-- The key of the candidate that was found.
unfoldable pub victim_key : {K V : Type 0} → Selection (EvictionCandidate K V) → Selection K
victim_key panicked = panicked
victim_key (selected none) = selected none
victim_key (selected (some c)) = selected (some c.key)

-- The selection of `LruEviction` and `MemoryEviction`, and that of the two priority policies.
unfoldable pub select_oldest : {K V : Type 0} → List (EvictionCandidate K V) → Selection K
unfolding min_by_key victim_key
select_oldest candidates = victim_key (min_by_key (λ c. some c.last_access) candidates)

unfoldable pub select_lowest :
    {K V : Type 0} → (K → V → Option ℕ) → List (EvictionCandidate K V) → Selection K
unfolding min_by_key victim_key
select_lowest priority_fn candidates =
    victim_key (min_by_key (λ c. priority_fn c.key c.value) candidates)

module _ {K V : Type 0} where
  unfoldable pub lru : ℕ → EvictionPolicy K V
  lru max_entries = record {
    select_victim = select_oldest;
    should_evict = λ entries bytes. leb max_entries entries;
    tracks_memory = false;
    estimate_entry_size = λ k v. 0;
  }

  unfoldable pub priority : ℕ → (K → V → Option ℕ) → EvictionPolicy K V
  priority max_entries priority_fn = record {
    select_victim = select_lowest priority_fn;
    should_evict = λ entries bytes. leb max_entries entries;
    tracks_memory = false;
    estimate_entry_size = λ k v. 0;
  }

  -- `size_of::<K>()` and `size_of::<V>()` are the compiler's.
  module _ (size_of_key size_of_value : ℕ) where
    unfoldable pub memory : ℕ → EvictionPolicy K V
    memory max_bytes = record {
      select_victim = select_oldest;
      should_evict = λ entries bytes. leb max_bytes bytes;
      tracks_memory = true;
      estimate_entry_size = λ k v. size_of_key + size_of_value + 64 + 200;
    }

    unfoldable pub priority_with_memory : ℕ → (K → V → Option ℕ) → ℕ → EvictionPolicy K V
    priority_with_memory max_entries priority_fn max_bytes = record {
      select_victim = select_lowest priority_fn;
      should_evict = λ entries bytes. leb max_entries entries || leb max_bytes bytes;
      tracks_memory = true;
      estimate_entry_size = λ k v. size_of_key + size_of_value + 64 + 200;
    }
