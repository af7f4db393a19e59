-- ===== src/Tests/Signatures.antt =====
-- Signatures of concrete events.
use tracing_throttle.Prelude.{◌≡◌, refl, List, [], ◌∷◌, some}
use tracing_throttle.Text.{Text, codes}
use tracing_throttle.Signature.Feed.{feed-eq}

abbrev user : List (Text × Text)
user = (codes "user", codes "42") ∷ []

feed-eq_example :
    (codes "INFO" ≡ codes "INFO")
    × (codes "login" ≡ codes "login")
    × (user ≡ user)
    × (some (codes "auth") ≡ some (codes "auth"))
feed-eq_example =
    feed-eq (codes "INFO") (codes "INFO") (codes "login") (codes "login") user user
      (some (codes "auth")) (some (codes "auth")) refl
