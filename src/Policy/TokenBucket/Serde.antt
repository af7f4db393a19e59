-- ===== src/Policy/TokenBucket/Serde.antt =====
-- domain/policy.rs: `Serialize` and `Deserialize` of `TokenBucketPolicy`.
use tracing_throttle.Prelude.{
  ◌≡◌, refl, Bool, true, false, List, [], ◌∷◌, Option, none, some, Result, ok, err, ◌>>=◌, Instant,
}
use tracing_throttle.Policy.Float.{F64}
use tracing_throttle.Policy.TokenBucket.{TokenBucketPolicy, take_token, register_event, refill}
use tracing_throttle.Policy.Decoding.{
  DecodeError, duplicate_field, invalid_entry, invalid_type, Input, as_map, as_seq, required,
}

-- `has_last_refill` may come twice, or not at all.
pub data Field : Type 0 where
  capacity refill_rate tokens : Field

module _ (f : F64) where
  open f use {Float}

  -- A field with its value, or one that the format cannot read.
  pub data Entry : Type 0 where
    capacity_is : Float → Entry
    refill_rate_is : Float → Entry
    tokens_is : Float → Entry
    has_last_refill_is : Bool → Entry
    unreadable : Entry

  unfoldable pub is_some : Option Instant → Bool
  is_some none = false
  is_some (some t) = true

  -- The fields, in order.
  unfoldable pub serialize : TokenBucketPolicy f → List Entry
  unfolding is_some
  serialize p =
      capacity_is p.capacity
      ∷ refill_rate_is p.refill_rate
      ∷ tokens_is p.tokens
      ∷ has_last_refill_is (is_some p.last_refill)
      ∷ []

  -- What the loop of the visitor has read.
  pub record Seen : Type 0 where
    pub capacity : Option Float
    pub refill_rate : Option Float
    pub tokens : Option Float

  -- A field that may be read once.
  unfoldable pub once :
      Field → Option Float → Result (DecodeError Field) Seen → Result (DecodeError Field) Seen
  once field none seen = seen
  once field (some a) seen = err (duplicate_field field)

  unfoldable pub read_entry : Entry → Seen → Result (DecodeError Field) Seen
  unfolding once
  read_entry (capacity_is x) s =
      once Field.capacity s.capacity (ok (record s { capacity = some x }))
  read_entry (refill_rate_is x) s =
      once Field.refill_rate s.refill_rate (ok (record s { refill_rate = some x }))
  read_entry (tokens_is x) s = once Field.tokens s.tokens (ok (record s { tokens = some x }))
  read_entry (has_last_refill_is b) s = ok s
  read_entry unreadable s = err invalid_entry

  unfoldable pub read_entries : List Entry → Seen → Result (DecodeError Field) Seen
  unfolding read_entry
  read_entries [] s = ok s
  read_entries (e ∷ es) s = do s' ← read_entry e s; read_entries es s'

  unfoldable pub finish : Seen → Result (DecodeError Field) (TokenBucketPolicy f)
  unfolding required
  finish s = do
    x ← required Field.capacity s.capacity
    y ← required Field.refill_rate s.refill_rate
    z ← required Field.tokens s.tokens
    ok (record { capacity = x; refill_rate = y; tokens = z; last_refill = none })

  unfoldable pub deserialize : Input Entry → Result (DecodeError Field) (TokenBucketPolicy f)
  unfolding read_entries finish
  deserialize (as_seq es) = err invalid_type
  deserialize (as_map es) = do
    s ← read_entries es (record { capacity = none; refill_rate = none; tokens = none })
    finish s

  -- A bucket that is written and read back as a map decides its first event, at whatever time, as
  -- the old bucket would decide one at the time of its last refill: nothing is refilled for the
  -- time between.
  pub register_event-deserialize :
      (p : TokenBucketPolicy f) (t : Instant)
      → (deserialize (as_map (serialize p)) >>= (λ q. ok (register_event f q t)))
        ≡ ok (take_token f (record p { last_refill = some t }))
  unfolding deserialize serialize register_event refill
  register_event-deserialize p t = refl
