-- ===== src/Redis/Keys/Decimal.antt =====
-- infrastructure/redis_storage.rs: the keys are written in hexadecimal and read in decimal.
use tracing_throttle.Prelude.{
  ℕ, zero, suc, ◌+◌, ◌-◌, ◌*◌, ◌/◌, ◌%◌, ◌<◌, ◌≤◌, ◌≡◌, ◌≢◌, ◌↔◌, refl, sym, ap, ◌∙◌, [], ◌∷◌, ◌++◌,
  arith, Option, none, some, All, All-append, Option-cases, inl, inr,
}
use tracing_throttle.Text.{Text}
use tracing_throttle.Signature.{EventSignature, display, hex_digit, hex_digits}
use tracing_throttle.Redis.Keys.{
  parse_digits, parse_some, strip_plus, parse_u64, strip_prefix, key, parsed, scanned_signature,
}

-- One more digit.
unfoldable pub more : Option ℕ → ℕ → Option ℕ
more none c = none
more (some n) c = parse_digits (c ∷ []) n

pub parse_digits-append :
    (cs : Text) (c n : ℕ) → parse_digits (cs ++ (c ∷ [])) n ≡ more (parse_digits cs n) c
unfolding parse_digits more
parse_digits-append [] c n = refl
parse_digits-append (b ∷ cs) c n = ground (arith, parse_digits-append cs c (n * 10 + (b - b'0')))

pub more-hex_digit :
    (m d n : ℕ) → d < 16 → more (some m) (hex_digit d) ≡ some n → (d < 10) × (n ≡ m * 10 + d)
unfolding more parse_digits hex_digit
more-hex_digit m d n h e = ground arith

-- In decimal, hexadecimal digits stand for less, but for one digit alone.
parse_digits-hex_digits :
    (k n m : ℕ) → parse_digits (hex_digits k n) 0 ≡ some m → (m ≤ n) × (m ≡ n → n < 10)
unfolding hex_digits
parse_digits-hex_digits zero n m e =
    let z : ◌≡◌ {A = ℕ} 0 m = unfold parse_digits in ground arith in
    (omega arith, λ same. omega arith)
parse_digits-hex_digits (suc k) n m e =
    elim (Option-cases (parse_digits (hex_digits k (n / 16)) 0)) [
      | inl nothing ↦
          let h = sym (parse_digits-append (hex_digits k (n / 16)) (hex_digit (n % 16)) 0) ∙ e in
          let h' = rw nothing at h in absurd (unfold more in ground arith)
      | inr (f, front) ↦
          let h = sym (parse_digits-append (hex_digits k (n / 16)) (hex_digit (n % 16)) 0) ∙ e in
          let h' = rw front at h in
          let (small, last) = more-hex_digit f (n % 16) m (omega arith) h' in
          let (le, eq) = parse_digits-hex_digits k (n / 16) f front in
          (omega arith, λ same. omega arith)
    ]

parse_digits-zeros : (k : ℕ) → parse_digits (hex_digits k 0) 0 ≡ some 0
unfolding hex_digits
parse_digits-zeros zero = unfold parse_digits in refl
parse_digits-zeros (suc k) =
    parse_digits-append (hex_digits k 0) (hex_digit 0) 0
    ∙ ap (λ o. more o (hex_digit 0)) (parse_digits-zeros k)
    ∙ (unfold more in unfold parse_digits in unfold hex_digit in refl)

parse_digits-one : (k n : ℕ) → n < 10 → parse_digits (hex_digits (suc k) n) 0 ≡ some n
unfolding hex_digits
parse_digits-one k n h =
    let none_above : n / 16 ≡ 0 = omega arith in
    parse_digits-append (hex_digits k (n / 16)) (hex_digit (n % 16)) 0
    ∙ ap (λ o. more o (hex_digit (n % 16)))
        (ap (λ z. parse_digits (hex_digits k z) 0) none_above ∙ parse_digits-zeros k)
    ∙ (unfold more in unfold parse_digits in unfold hex_digit in ground arith)

no_plus : (k n : ℕ) → All (λ c. c ≢ b'+') (hex_digits k n)
unfolding hex_digits
no_plus zero n = tt
no_plus (suc k) n =
    All-append (λ c. c ≢ b'+') (hex_digits k (n / 16)) (hex_digit (n % 16) ∷ [])
      (no_plus k (n / 16)) (unfold hex_digit in ground arith, tt)

parse_u64-digits :
    (cs : Text) (c : ℕ)
    → All (λ d. d ≢ b'+') (cs ++ (c ∷ []))
    → parse_u64 (cs ++ (c ∷ [])) ≡ parse_digits (cs ++ (c ∷ [])) 0
unfolding parse_u64 parse_some strip_plus
parse_u64-digits [] c h = refl
parse_u64-digits (b ∷ []) c h = ground (arith, h.0)
parse_u64-digits (b ∷ d ∷ cs) c h = ground (arith, h.0)

strip_prefix-key : (p text : Text) → strip_prefix p (p ++ text) ≡ some text
unfolding strip_prefix
strip_prefix-key [] text = refl
strip_prefix-key (c ∷ p) text = ground (arith, strip_prefix-key p text)

-- What a scan makes of the key of a signature.
pub scanned_signature-key :
    (key_prefix : Text) (signature : EventSignature)
    → scanned_signature key_prefix (key key_prefix signature)
      ≡ parse_digits (hex_digits 16 signature) 0
unfolding scanned_signature key display hex_digits
scanned_signature-key p s =
    ap parsed (strip_prefix-key p (display s))
    ∙ parse_u64-digits (hex_digits 15 (s / 16)) (hex_digit (s % 16)) (no_plus 16 s)

-- `for_each` and `retain` look the entry of a signature up under that signature only if it is
-- below 10: they read its key, which is written in hexadecimal, as a decimal number.
pub scanned_signature-key_iff :
    (key_prefix : Text) (signature : EventSignature)
    → (scanned_signature key_prefix (key key_prefix signature) ≡ some signature) ↔ (signature < 10)
scanned_signature-key_iff p s =
    let read = scanned_signature-key p s in
    (
      λ same. (parse_digits-hex_digits 16 s s (sym read ∙ same)).1 refl,
      λ small. read ∙ parse_digits-one 15 s small,
    )
