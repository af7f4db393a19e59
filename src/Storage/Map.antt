-- ===== src/Storage/Map.antt =====
-- The third-party map `DashMap` of infrastructure/storage.rs, by one thread at a time, and what its
-- documentation says of the calls that the storage makes.
use tracing_throttle.Prelude.{ℕ, suc, ◌≡◌, Option, none, some, List, [], ◌∷◌, length, All}
use mathlib.Core.Logic.{ite}

pub record DashMap (K W : Type 0) : Type 1 where
  pub Table : Type 0
  pub empty : Table
  pub get : Table → K → Option W
  -- A write through an entry's guard, of a new entry or an old one.
  pub insert : Table → K → W → Table
  pub remove : Table → K → Table
  pub len : Table → ℕ
  -- The entries in the order in which the map's iterator gives them.
  pub iter : Table → List (K × W)
  -- `retain` by a closure with a state of its own, which keeps an entry, with the value that it
  -- may have changed, or gives it up.
  pub retain : {S : Type 0} → (S → K → W → S × Option W) → S → Table → S × Table

-- One visit after another to entries of the map.
module _ {K W S : Type 0} (m : DashMap K W) (f : S → K → W → S × Option W) where
  unfoldable pub settle : m.Table → K → Option W → m.Table
  settle t k none = m.remove t k
  settle t k (some w) = m.insert t k w

  unfoldable pub visit : S → List (K × W) → m.Table → S × m.Table
  unfolding settle
  visit s [] t = (s, t)
  visit s ((k, w) ∷ rest) t = let (s', kept) = f s k w in visit s' rest (settle t k kept)

pub record DashMapLaws {K W : Type 0} (dec : Discrete K) (m : DashMap K W) : Type 1 where
  pub get-empty : (k : K) → m.get m.empty k ≡ none
  pub get-insert :
      (t : m.Table) (k j : K) (w : W)
      → m.get (m.insert t k w) j ≡ ite (dec k j) (some w) (m.get t j)
  pub get-remove : (t : m.Table) (k j : K) → m.get (m.remove t k) j ≡ ite (dec k j) none (m.get t j)
  pub len-empty : m.len m.empty ≡ 0
  pub len-insert_new :
      (t : m.Table) (k : K) (w : W) → m.get t k ≡ none → m.len (m.insert t k w) ≡ suc (m.len t)
  pub len-insert_old :
      (t : m.Table) (k : K) (w w' : W) → m.get t k ≡ some w' → m.len (m.insert t k w) ≡ m.len t
  pub len-remove :
      (t : m.Table) (k : K) (w : W) → m.get t k ≡ some w → suc (m.len (m.remove t k)) ≡ m.len t
  pub length-iter : (t : m.Table) → length (m.iter t) ≡ m.len t
  pub iter-get : (t : m.Table) → All (λ e. m.get t e.0 ≡ some e.1) (m.iter t)
  -- `retain` visits each entry once.
  pub retain-visit :
      {S : Type 0} (f : S → K → W → S × Option W) (s : S) (t : m.Table)
      → m.retain f s t ≡ visit m f s (m.iter t) t
