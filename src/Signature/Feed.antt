-- ===== src/Signature/Feed.antt =====
-- domain/signature.rs: what a signature distinguishes, as far as the hash does.
use tracing_throttle.Prelude.{◌≡◌, refl, List, [], ◌∷◌, ◌++◌, Option, none, some, arith}
use tracing_throttle.Text.{Text}
use tracing_throttle.Signature.{feed, feed_fields, feed_target}

feed_rest-eq :
    (fields fields' : List (Text × Text)) (target target' : Option Text)
    → feed_fields fields ++ feed_target target ≡ feed_fields fields' ++ feed_target target'
    → (fields ≡ fields') × (target ≡ target')
unfolding feed_fields feed_target
feed_rest-eq [] [] none none h = (refl, refl)
feed_rest-eq [] [] none (some t) h = cc
feed_rest-eq [] [] (some t) none h = cc
feed_rest-eq [] [] (some t) (some u) h = (refl, ground (arith, h))
feed_rest-eq [] (f ∷ fs) none target' h = cc
feed_rest-eq [] ((k, v) ∷ fs) (some t) target' h = absurd (ground (arith, h))
feed_rest-eq (f ∷ fs) [] target none h = cc
feed_rest-eq ((k, v) ∷ fs) [] target (some t) h = absurd (ground (arith, h))
feed_rest-eq ((k, v) ∷ fs) ((j, w) ∷ gs) target target' h =
    ground (arith, feed_rest-eq fs gs target target')

-- The hash is fed with different strings for events that differ in level, message, any field's
-- name or value, or target: nothing of an event is lost before the hash, and no field is taken for
-- the target.
pub feed-eq :
    (level level' message message' : Text) (fields fields' : List (Text × Text))
    (target target' : Option Text)
    → feed level message fields target ≡ feed level' message' fields' target'
    → (level ≡ level') × (message ≡ message') × (fields ≡ fields') × (target ≡ target')
unfolding feed
feed-eq level level' message message' fields fields' target target' h =
    ground (arith, feed_rest-eq fields fields' target target')
