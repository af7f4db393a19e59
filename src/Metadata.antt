-- ===== src/Metadata.antt =====
-- domain/metadata.rs: what a summary tells of an event.
use tracing_throttle.Prelude.{List, [], ◌∷◌, ◌++◌}
use tracing_throttle.Text.{Text, codes}

pub record EventMetadata : Type 0 where
  pub level : Text
  pub message : Text
  pub target : Text
  pub fields : List (Text × Text)

unfoldable pub new : Text → Text → Text → List (Text × Text) → EventMetadata
new level message target fields = record {
  level = level;
  message = message;
  target = target;
  fields = fields;
}

unfoldable pub format_brief : EventMetadata → Text
format_brief m = codes "[" ++ (m.level ++ (codes "] " ++ (m.target ++ (codes ": " ++ m.message))))

-- `join(", ")` of the fields.
unfoldable pub join_fields : List (Text × Text) → Text
join_fields [] = []
join_fields ((k, v) ∷ []) = k ++ (codes "=\"" ++ (v ++ codes "\""))
join_fields ((k, v) ∷ field ∷ fields) =
    k ++ (codes "=\"" ++ (v ++ (codes "\", " ++ join_fields (field ∷ fields))))

format_fields : EventMetadata → List (Text × Text) → Text
unfolding format_brief join_fields
format_fields m [] = format_brief m
format_fields m (field ∷ fields) =
    format_brief m ++ (codes " {" ++ (join_fields (field ∷ fields) ++ codes "}"))

unfoldable pub format_detailed : EventMetadata → Text
unfolding format_fields
format_detailed m = format_fields m m.fields
