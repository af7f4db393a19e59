-- ===== src/Redis/Scan.antt =====
-- infrastructure/redis_storage.rs: what a scan leaves out.
use tracing_throttle.Prelude.{
  ℕ, zero, suc, ◌/◌, ◌%◌, ◌≤◌, ◌≡◌, ◌⊎◌, inl, inr, refl, ap, ◌∙◌, List, [], ◌∷◌, map, Option, none,
  some, All, Bool, Instant, arith, Option-cases,
}
use tracing_throttle.Text.{Text}
use tracing_throttle.Signature.{EventSignature, hex_digit, hex_digits}
use tracing_throttle.Policy.Float.{F64}
use tracing_throttle.Storage.{returned}
use tracing_throttle.Registry.{EventState}
use tracing_throttle.Redis.{Codec, Server, RedisStorage, retain_keys}
use tracing_throttle.Redis.Keys.{key, parse_digits, scanned_signature}
use tracing_throttle.Redis.Keys.Decimal.{
  more, more-hex_digit, parse_digits-append, scanned_signature-key,
}

-- A letter is among the `k` last hexadecimal digits of `n`.
unfoldable pub HasLetter : ℕ → ℕ → Type 0
HasLetter zero n = ⊥
HasLetter (suc k) n = (10 ≤ n % 16) ⊎ HasLetter k (n / 16)

parse_digits-letter : (k n : ℕ) → HasLetter k n → parse_digits (hex_digits k n) 0 ≡ none
unfolding HasLetter hex_digits
parse_digits-letter zero n letter = elim letter [ ]
parse_digits-letter (suc k) n (inl letter) =
    parse_digits-append (hex_digits k (n / 16)) (hex_digit (n % 16)) 0
    ∙ no_more (parse_digits (hex_digits k (n / 16)) 0)
  where
    no_more : (o : Option ℕ) → more o (hex_digit (n % 16)) ≡ none
    no_more o = elim (Option-cases (more o (hex_digit (n % 16)))) [
      | inl nothing ↦ nothing
      | inr (m, e) ↦ absurd (refuted o m e)
    ]
      where
        refuted : (p : Option ℕ) (m : ℕ) → more p (hex_digit (n % 16)) ≡ some m → ⊥
        refuted none m e = unfold more in cc
        refuted (some a) m e =
            let (small, last) = more-hex_digit a (n % 16) m (omega arith) e in omega arith
parse_digits-letter (suc k) n (inr before) =
    parse_digits-append (hex_digits k (n / 16)) (hex_digit (n % 16)) 0
    ∙ ap (λ o. more o (hex_digit (n % 16))) (parse_digits-letter k (n / 16) before)
    ∙ (unfold more in refl)

scanned_signature-letter :
    (key_prefix : Text) (signature : EventSignature)
    → HasLetter 16 signature
    → scanned_signature key_prefix (key key_prefix signature) ≡ none
scanned_signature-letter p s letter = scanned_signature-key p s ∙ parse_digits-letter 16 s letter

module _ (f : F64) (M : Type 0) (base : Instant) (codec : Codec f) (server : Server codec.Bytes)
    (storage : RedisStorage) {S : Type 0}
    (visit : S → EventSignature → EventState f M → S × EventState f M × Bool) where
  -- `retain`, and so a collection of summaries, passes every entry by whose signature has a letter
  -- among its sixteen hexadecimal digits: it visits none, sends no command, and changes nothing.
  pub retain_keys-letters :
      (a : S) (conn : server.Conn) (signatures : List EventSignature)
      → All (HasLetter 16) signatures
      → retain_keys f M base codec server storage visit a conn
          (map (key storage.config.key_prefix) signatures)
        ≡ (conn, returned a)
  unfolding retain_keys
  retain_keys-letters a conn [] h = refl
  retain_keys-letters a conn (s ∷ signatures) h =
      rw (scanned_signature-letter storage.config.key_prefix s h.0, retain_keys)
        (retain_keys-letters a conn signatures h.1)
