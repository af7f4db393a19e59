-- ===== src/Signature/Hex.antt =====
-- domain/signature.rs: the text of a signature.
use tracing_throttle.Prelude.{
  ℕ, zero, suc, ◌+◌, ◌-◌, ◌*◌, ◌/◌, ◌%◌, ◌<◌, ◌≡◌, refl, sym, ap, ◌∙◌, [], ◌∷◌, ◌++◌, arith, ltb,
  if◌then◌else◌, u64_mod,
}
use tracing_throttle.Text.{Text}
use tracing_throttle.Signature.{EventSignature, display, hex_digit, hex_digits}

-- The number that hexadecimal digits stand for, after `acc`.
read_hex : ℕ → Text → ℕ
read_hex acc [] = acc
read_hex acc (c ∷ cs) = read_hex (acc * 16 + (if ltb c b'a' then c - b'0' else c - b'a' + 10)) cs

read_hex-append :
    (acc c : ℕ) (cs : Text) → read_hex acc (cs ++ (c ∷ [])) ≡ read_hex (read_hex acc cs) (c ∷ [])
unfolding read_hex
read_hex-append acc c [] = refl
read_hex-append acc c (b ∷ cs) =
    read_hex-append (acc * 16 + (if ltb b b'a' then b - b'0' else b - b'a' + 10)) c cs

power_of_16 : ℕ → ℕ
power_of_16 zero = 1
power_of_16 (suc k) = 16 * power_of_16 k

read_hex-hex_digits : (k n : ℕ) → n < power_of_16 k → read_hex 0 (hex_digits k n) ≡ n
unfolding hex_digits power_of_16
read_hex-hex_digits zero n h = unfold read_hex in omega arith
read_hex-hex_digits (suc k) n h =
    let front = read_hex-hex_digits k (n / 16) (omega arith) in
    rw (read_hex-append 0 (hex_digit (n % 16)) (hex_digits k (n / 16)), front)
      (unfold read_hex in unfold hex_digit in ground arith)

-- Signatures with the same text are the same.
pub display-eq : (a b : EventSignature) → a < u64_mod → b < u64_mod → display a ≡ display b → a ≡ b
unfolding display
display-eq a b small small' h =
    let x = read_hex-hex_digits 16 a (unfold power_of_16 in small) in
    let y = read_hex-hex_digits 16 b (unfold power_of_16 in small') in sym x ∙ ap (read_hex 0) h ∙ y
