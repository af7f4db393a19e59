-- ===== src/Policy/Decoding.antt =====
-- domain/policy.rs: what the deserializers of the policies are handed by a data format, and how
-- they fail. A format hands a visitor the struct as a map of its fields, in any order, or as a
-- sequence of their values; the visitors have no `visit_seq`, and so refuse a sequence.
use tracing_throttle.Prelude.{Option, none, some, List, Result, ok, err}

-- `N` are the names of the fields.
pub data DecodeError (N : Type 0) : Type 0 where
  duplicate_field missing_field : N → DecodeError N
  -- An unknown field's name, or a value of another type.
  invalid_entry : DecodeError N
  invalid_type : DecodeError N

-- `E` are the fields with their values.
pub data Input (E : Type 0) : Type 0 where
  as_map : List E → Input E
  as_seq : List E → Input E

-- The value of a field that must be there.
unfoldable pub required : {N A : Type 0} → N → Option A → Result (DecodeError N) A
required name none = err (missing_field name)
required name (some a) = ok a
