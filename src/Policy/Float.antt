-- ===== src/Policy/Float.antt =====
-- The operations of `f64` that the token bucket uses, and what is relied on of them.
use tracing_throttle.Prelude.{ℕ, suc, ◌≤◌, ◌≡◌, Bool, true, false, Duration}

-- `leb_f` is `<=`, which is false if an operand is NaN. `as_secs_f64` is the method of `Duration`.
pub record F64 : Type 1 where
  pub Float : Type 0
  pub zero_f : Float
  pub one_f : Float
  pub leb_f : Float → Float → Bool
  pub is_finite : Float → Bool
  pub add_f : Float → Float → Float
  pub sub_f : Float → Float → Float
  pub mul_f : Float → Float → Float
  pub min_f : Float → Float → Float
  pub as_secs_f64 : Duration → Float

-- Order: what holds of `<=` and of sums, products and minima that rounding does not break.
pub record OrderLaws (f : F64) : Type 1 where
  pub leb-trans : (a b c : f.Float) → f.leb_f a b ≡ true → f.leb_f b c ≡ true → f.leb_f a c ≡ true
  pub min-leb : (a b : f.Float) → f.leb_f b b ≡ true → f.leb_f (f.min_f a b) b ≡ true
  pub zero-leb-min :
      (a b : f.Float)
      → f.leb_f f.zero_f a ≡ true
      → f.leb_f f.zero_f b ≡ true
      → f.leb_f f.zero_f (f.min_f a b) ≡ true
  pub zero-leb-add :
      (a b : f.Float)
      → f.leb_f f.zero_f a ≡ true
      → f.leb_f f.zero_f b ≡ true
      → f.leb_f f.zero_f (f.add_f a b) ≡ true
  -- A finite factor, so that no product is 0 times infinity.
  pub zero-leb-mul :
      (d : Duration) (r : f.Float)
      → f.is_finite r ≡ true
      → f.leb_f f.zero_f r ≡ true
      → f.leb_f f.zero_f (f.mul_f (f.as_secs_f64 d) r) ≡ true
  pub zero-leb-sub_one :
      (a : f.Float) → f.leb_f f.one_f a ≡ true → f.leb_f f.zero_f (f.sub_f a f.one_f) ≡ true
  pub sub_one-leb : (a : f.Float) → f.leb_f f.one_f a ≡ true → f.leb_f (f.sub_f a f.one_f) a ≡ true

-- Exactness: a natural number up to 2 ^ 53 is a float, and small sums with it are not rounded.
pub record WholeLaws (f : F64) : Type 1 where
  pub from_nat : ℕ → f.Float
  pub from_nat-zero : f.leb_f f.one_f (from_nat 0) ≡ false
  pub from_nat-suc :
      (k : ℕ) → suc k ≤ 0x20_0000_0000_0000 → f.leb_f f.one_f (from_nat (suc k)) ≡ true
  pub sub_one :
      (k : ℕ) → suc k ≤ 0x20_0000_0000_0000 → f.sub_f (from_nat (suc k)) f.one_f ≡ from_nat k
  -- No time elapsed adds nothing at a finite rate.
  pub add_none :
      (k : ℕ) (r : f.Float)
      → k ≤ 0x20_0000_0000_0000
      → f.is_finite r ≡ true
      → f.add_f (from_nat k) (f.mul_f (f.as_secs_f64 0) r) ≡ from_nat k
  pub min_whole :
      (k c : ℕ) → k ≤ c → c ≤ 0x20_0000_0000_0000 → f.min_f (from_nat k) (from_nat c) ≡ from_nat k

-- NaN: no comparison with it holds, and it spreads, but `min` of two is NaN only if both are.
pub record NanLaws (f : F64) : Type 1 where
  pub nan : f.Float
  pub nan-leb : (a : f.Float) → f.leb_f nan a ≡ false
  pub leb-nan : (a : f.Float) → f.leb_f a nan ≡ false
  pub nan-add : (a : f.Float) → f.add_f nan a ≡ nan
  pub min-nan : f.min_f nan nan ≡ nan
