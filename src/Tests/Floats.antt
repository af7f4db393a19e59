-- ===== src/Tests/Floats.antt =====
-- `f64` as whole numbers and NaN.
use tracing_throttle.Prelude.{
  ℕ, ◌+◌, ◌-◌, ◌*◌, ◌/◌, ◌≡◌, refl, Bool, true, false, leb, arith, Duration, ap,
}
use Prim.Native.Nat.{min}
use tracing_throttle.Policy.Float.{F64, OrderLaws, WholeLaws, NanLaws}

pub data Whole : Type 0 where
  nan : Whole
  num : ℕ → Whole

unfoldable pub leb_whole : Whole → Whole → Bool
leb_whole (num a) (num b) = leb a b
leb_whole (num a) nan = false
leb_whole nan b = false

unfoldable pub is_num : Whole → Bool
is_num nan = false
is_num (num a) = true

unfoldable pub lift : (ℕ → ℕ → ℕ) → Whole → Whole → Whole
lift g (num a) (num b) = num (g a b)
lift g (num a) nan = nan
lift g nan b = nan

unfoldable pub min_whole : Whole → Whole → Whole
min_whole (num a) (num b) = num (min a b)
min_whole (num a) nan = num a
min_whole nan b = b

abbrev pub whole : F64
whole = record {
  Float = Whole;
  zero_f = num 0;
  one_f = num 1;
  leb_f = leb_whole;
  is_finite = is_num;
  add_f = lift (◌+◌);
  sub_f = lift (◌-◌);
  mul_f = lift (◌*◌);
  min_f = min_whole;
  as_secs_f64 = λ d. num (d / 1000000000);
}

pub whole_order : OrderLaws whole
unfolding leb_whole is_num lift min_whole
whole_order = record {
  leb-trans = λ a b c h h'. trans a b c h h';
  min-leb = λ a b h. below a b h;
  zero-leb-min = λ a b h h'. low a b h h';
  zero-leb-add = λ a b h h'. sum a b h h';
  zero-leb-mul = λ d r h h'. product d r h';
  zero-leb-sub_one = λ a h. less a h;
  sub_one-leb = λ a h. less' a h;
}
  where
    trans : (a b c : Whole) → leb_whole a b ≡ true → leb_whole b c ≡ true → leb_whole a c ≡ true
    trans (num a) (num b) (num c) h h' = ground arith
    trans nan b c h h' = cc
    trans (num a) nan c h h' = cc
    trans (num a) (num b) nan h h' = cc

    below : (a b : Whole) → leb_whole b b ≡ true → leb_whole (min_whole a b) b ≡ true
    below (num a) (num b) h = ground arith
    below nan b h = h
    below (num a) nan h = cc

    low :
        (a b : Whole)
        → leb_whole (num 0) a ≡ true
        → leb_whole (num 0) b ≡ true
        → leb_whole (num 0) (min_whole a b) ≡ true
    low (num a) (num b) h h' = ground arith
    low nan b h h' = h'
    low (num a) nan h h' = cc

    sum :
        (a b : Whole)
        → leb_whole (num 0) a ≡ true
        → leb_whole (num 0) b ≡ true
        → leb_whole (num 0) (lift (◌+◌) a b) ≡ true
    sum (num a) (num b) h h' = ground arith
    sum nan b h h' = cc
    sum (num a) nan h h' = cc

    product :
        (d : Duration) (r : Whole)
        → leb_whole (num 0) r ≡ true
        → leb_whole (num 0) (lift (◌*◌) (num (d / 1000000000)) r) ≡ true
    product d (num r) h = ground arith
    product d nan h = cc

    less :
        (a : Whole) → leb_whole (num 1) a ≡ true → leb_whole (num 0) (lift (◌-◌) a (num 1)) ≡ true
    less (num a) h = ground arith
    less nan h = cc

    less' : (a : Whole) → leb_whole (num 1) a ≡ true → leb_whole (lift (◌-◌) a (num 1)) a ≡ true
    less' (num a) h = ground arith
    less' nan h = cc

unfoldable pub whole_exact : WholeLaws whole
unfolding leb_whole is_num lift min_whole
whole_exact = record {
  from_nat = num;
  from_nat-zero = refl;
  from_nat-suc = λ k h. ground arith;
  sub_one = λ k h. ap num (omega arith);
  add_none = λ k r h h'. add k r h';
  min_whole = λ k c h h'. ap num (omega arith);
}
  where
    add :
        (k : ℕ) (r : Whole)
        → is_num r ≡ true
        → lift (◌+◌) (num k) (lift (◌*◌) (num (0 / 1000000000)) r) ≡ num k
    add k (num r) h = ap num (omega arith)
    add k nan h = cc

unfoldable pub whole_nan : NanLaws whole
unfolding leb_whole lift min_whole
whole_nan = record {
  nan = nan;
  nan-leb = λ a. refl;
  leb-nan = λ a. below a;
  nan-add = λ a. refl;
  min-nan = refl;
}
  where
    below : (a : Whole) → leb_whole a nan ≡ false
    below (num a) = refl
    below nan = refl
