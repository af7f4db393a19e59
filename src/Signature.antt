-- ===== src/Signature.antt =====
-- domain/signature.rs: what a signature is computed from, and its text. `finish` is the hash of
-- the third-party hasher over the strings that it was fed, in order.
pub mod Feed
pub mod Hex
use tracing_throttle.Prelude.{
  ℕ, ◌+◌, ◌-◌, ◌/◌, ◌%◌, List, [], ◌∷◌, ◌++◌, Option, none, some, zero, suc, ltb, if◌then◌else◌,
}
use tracing_throttle.Text.{Text}

-- A `u64`.
abbrev pub EventSignature : Type 0
EventSignature = ℕ

unfoldable pub feed_fields : List (Text × Text) → List Text
feed_fields [] = []
feed_fields ((key, value) ∷ fields) = key ∷ value ∷ feed_fields fields

unfoldable pub feed_target : Option Text → List Text
feed_target none = []
feed_target (some target) = target ∷ []

-- The strings that `new` hashes.
unfoldable pub feed : Text → Text → List (Text × Text) → Option Text → List Text
unfolding feed_fields feed_target
feed level message fields target = level ∷ message ∷ (feed_fields fields ++ feed_target target)

module _ (finish : List Text → ℕ) where
  unfoldable pub new : Text → Text → List (Text × Text) → Option Text → EventSignature
  new level message fields target = finish (feed level message fields target)

  unfoldable pub simple : Text → Text → EventSignature
  simple level message = new level message [] none

pub from_hash : ℕ → EventSignature
from_hash hash = hash

pub as_hash : EventSignature → ℕ
as_hash signature = signature

pub as_u64 : EventSignature → ℕ
as_u64 signature = signature

unfoldable pub hex_digit : ℕ → ℕ
hex_digit d = if ltb d 10 then b'0' + d else b'a' + (d - 10)

-- The `k` last hexadecimal digits of a number, the first of them first.
unfoldable pub hex_digits : ℕ → ℕ → Text
hex_digits zero n = []
hex_digits (suc k) n = hex_digits k (n / 16) ++ (hex_digit (n % 16) ∷ [])

-- `{:016x}`
unfoldable pub display : EventSignature → Text
unfolding hex_digits
display signature = hex_digits 16 signature
