-- ===== src/Redis/Keys.antt =====
-- infrastructure/redis_storage.rs: the keys of the entries, and how a scan reads them back.
pub mod Decimal
use tracing_throttle.Prelude.{
  ℕ, ◌+◌, ◌-◌, ◌*◌, ◌==◌, ltb, ◌||◌, if◌then◌else◌, List, [], ◌∷◌, ◌++◌, Option, none, some,
  u64_max, Bool, true, false,
}
use tracing_throttle.Text.{Text}
use tracing_throttle.Signature.{EventSignature, display}

-- `str::parse::<u64>`, of the standard library: decimal digits, after a `+` or not.
unfoldable pub parse_digits : Text → ℕ → Option ℕ
parse_digits [] n = some n
parse_digits (c ∷ cs) n =
    let m = n * 10 + (c - b'0') in
    let rest = parse_digits cs m in
    if ltb c b'0' || ltb b'9' c then none else if ltb u64_max m then none else rest

unfoldable pub strip_plus : Text → Text
strip_plus [] = []
strip_plus (c ∷ []) = c ∷ []
strip_plus (c ∷ d ∷ cs) = if c == b'+' then d ∷ cs else c ∷ d ∷ cs

unfoldable pub parse_some : Text → Option ℕ
unfolding parse_digits
parse_some [] = none
parse_some (c ∷ cs) = parse_digits (c ∷ cs) 0

unfoldable pub parse_u64 : Text → Option ℕ
unfolding parse_some strip_plus
parse_u64 text = parse_some (strip_plus text)

unfoldable pub strip_prefix : Text → Text → Option Text
strip_prefix [] text = some text
strip_prefix (p ∷ ps) [] = none
strip_prefix (p ∷ ps) (c ∷ cs) = let rest = strip_prefix ps cs in if p == c then rest else none

unfoldable pub key : Text → EventSignature → Text
unfolding display
key key_prefix signature = key_prefix ++ display signature

unfoldable pub parsed : Option Text → Option EventSignature
unfolding parse_u64
parsed none = none
parsed (some text) = parse_u64 text

-- The signature under which `for_each` and `retain` look a scanned key up.
unfoldable pub scanned_signature : Text → Text → Option EventSignature
unfolding parsed strip_prefix
scanned_signature key_prefix scanned = parsed (strip_prefix key_prefix scanned)
