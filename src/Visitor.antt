-- ===== src/Visitor.antt =====
-- infrastructure/visitor.rs: the fields of an event or a span, as text. How `f64`, an error and
-- `Debug` print is a parameter.
pub mod Values
use tracing_throttle.Prelude.{
  ℕ, zero, suc, ◌+◌, ◌/◌, ◌%◌, Bool, true, false, ltb, if◌then◌else◌, List, [], ◌∷◌, ◌++◌,
}
use tracing_throttle.Text.{Text, codes, insert}

-- The values that are printed by code that is not the repository's, and how.
pub record Printing : Type 1 where
  pub Float : Type 0
  pub Error : Type 0
  pub Debugged : Type 0
  pub float_text : Float → Text
  pub error_text : Error → Text
  pub debug_text : Debugged → Text

-- An `i64`: `negsuc n` is -1 - n.
pub data ℤ : Type 0 where
  pos negsuc : ℕ → ℤ

-- The at most `k` last decimal digits of a number.
unfoldable pub decimal_digits : ℕ → ℕ → Text
decimal_digits zero n = []
decimal_digits (suc k) n =
    let rest = decimal_digits k (n / 10) in
    if ltb n 10 then (b'0' + n) ∷ [] else rest ++ ((b'0' + n % 10) ∷ [])

-- `to_string` of the integers and of `bool`; a `u64` has at most 20 digits.
unfoldable pub u64_text : ℕ → Text
unfolding decimal_digits
u64_text n = decimal_digits 20 n

unfoldable pub i64_text : ℤ → Text
unfolding u64_text
i64_text (pos n) = u64_text n
i64_text (negsuc n) = b'-' ∷ u64_text (suc n)

unfoldable pub bool_text : Bool → Text
bool_text true = codes "true"
bool_text false = codes "false"

pub record FieldVisitor : Type 0 where
  pub fields : List (Text × Text)

unfoldable pub new : FieldVisitor
new = record { fields = [] }

unfoldable pub into_fields : FieldVisitor → List (Text × Text)
into_fields visitor = visitor.fields

module _ (t : Printing) where
  open t use {Float, Error, Debugged, float_text, error_text, debug_text}

  unfoldable pub record_f64 : FieldVisitor → Text → Float → FieldVisitor
  record_f64 visitor field value = record {
    fields = insert field (float_text value) visitor.fields;
  }

  unfoldable pub record_i64 : FieldVisitor → Text → ℤ → FieldVisitor
  unfolding i64_text
  record_i64 visitor field value = record { fields = insert field (i64_text value) visitor.fields }

  unfoldable pub record_u64 : FieldVisitor → Text → ℕ → FieldVisitor
  unfolding u64_text
  record_u64 visitor field value = record { fields = insert field (u64_text value) visitor.fields }

  unfoldable pub record_bool : FieldVisitor → Text → Bool → FieldVisitor
  unfolding bool_text
  record_bool visitor field value = record {
    fields = insert field (bool_text value) visitor.fields;
  }

  unfoldable pub record_str : FieldVisitor → Text → Text → FieldVisitor
  record_str visitor field value = record { fields = insert field value visitor.fields }

  unfoldable pub record_error : FieldVisitor → Text → Error → FieldVisitor
  record_error visitor field value = record {
    fields = insert field (error_text value) visitor.fields;
  }

  unfoldable pub record_debug : FieldVisitor → Text → Debugged → FieldVisitor
  record_debug visitor field value = record {
    fields = insert field (debug_text value) visitor.fields;
  }

  -- The value of a field, by the method of the visitor that it is handed to.
  pub data Value : Type 0 where
    f64_value : Float → Value
    i64_value : ℤ → Value
    u64_value : ℕ → Value
    bool_value : Bool → Value
    str_value : Text → Value
    error_value : Error → Value
    debug_value : Debugged → Value

  unfoldable pub visit_value : FieldVisitor → Text → Value → FieldVisitor
  unfolding record_f64 record_i64 record_u64 record_bool record_str record_error record_debug
  visit_value visitor field (f64_value x) = record_f64 visitor field x
  visit_value visitor field (i64_value x) = record_i64 visitor field x
  visit_value visitor field (u64_value x) = record_u64 visitor field x
  visit_value visitor field (bool_value x) = record_bool visitor field x
  visit_value visitor field (str_value x) = record_str visitor field x
  visit_value visitor field (error_value x) = record_error visitor field x
  visit_value visitor field (debug_value x) = record_debug visitor field x

  -- `record` of an event, of attributes or of a record: each field that has a value, in order.
  unfoldable pub visit : FieldVisitor → List (Text × Value) → FieldVisitor
  unfolding visit_value
  visit visitor [] = visitor
  visit visitor ((field, value) ∷ values) = visit (visit_value visitor field value) values

  unfoldable pub collected : List (Text × Value) → List (Text × Text)
  unfolding visit new into_fields
  collected values = into_fields (visit new values)
