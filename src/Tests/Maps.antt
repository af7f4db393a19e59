-- ===== src/Tests/Maps.antt =====
-- The map as two slots, one for each of two keys.
use mathlib.Core.Logic.{ite}
use tracing_throttle.Prelude.{
  ℕ, suc, ◌+◌, ◌≡◌, refl, ap, ◌∙◌, Option, none, some, List, [], ◌∷◌, length, All, arith,
}
use tracing_throttle.Storage.Map.{DashMap, DashMapLaws, visit, settle}

pub data Key : Type 0 where
  login logout : Key

pub Key-discrete : Discrete Key
Key-discrete login login = yes refl
Key-discrete login logout = no (λ e. cc)
Key-discrete logout login = no (λ e. cc)
Key-discrete logout logout = yes refl

abbrev pub Slots : Type 0 → Type 0
Slots W = Option W × Option W

module _ {W : Type 0} where
  unfoldable pub get_slot : Option W × Option W → Key → Option W
  get_slot t login = t.0
  get_slot t logout = t.1

  unfoldable pub set_slot : Option W × Option W → Key → Option W → Option W × Option W
  set_slot t login w = (w, t.1)
  set_slot t logout w = (t.0, w)

  unfoldable pub held : Option W → ℕ
  held none = 0
  held (some w) = 1

  unfoldable pub list_slots : Slots W → List (Key × W)
  list_slots (none, none) = []
  list_slots (some v, none) = (login, v) ∷ []
  list_slots (none, some w) = (logout, w) ∷ []
  list_slots (some v, some w) = (login, v) ∷ (logout, w) ∷ []

abbrev pub bare : (W : Type 0) → DashMap Key W
bare W = record {
  Table = Slots W;
  empty = (none, none);
  get = get_slot;
  insert = λ t k w. set_slot t k (some w);
  remove = λ t k. set_slot t k none;
  len = λ t. held t.0 + held t.1;
  iter = list_slots;
  retain = λ f s t. (s, t);
}

abbrev pub slots : (W : Type 0) → DashMap Key W
slots W = record (bare W) { retain = λ f s t. visit (bare W) f s (list_slots t) t }

visit-bare :
    (W : Type 0) {S : Type 0} (f : S → Key → W → S × Option W) (s : S) (es : List (Key × W))
    (t : Slots W)
    → visit (bare W) f s es t ≡ visit (slots W) f s es t
unfolding visit settle
visit-bare W f s [] t = refl
visit-bare W f s ((k, w) ∷ es) t =
    let (s', o) = f s k w in
    ap (λ t'. visit (bare W) f s' es t') (settle-bare t k o) ∙ visit-bare W f s' es _
  where
    settle-bare :
        (t' : Slots W) (k' : Key) (o' : Option W)
        → settle (bare W) f t' k' o' ≡ settle (slots W) f t' k' o'
    settle-bare t' k' none = refl
    settle-bare t' k' (some v) = refl

pub slots-Laws : (W : Type 0) → DashMapLaws Key-discrete (slots W)
unfolding get_slot set_slot held list_slots Key-discrete
slots-Laws W = record {
  get-empty = λ k. in_empty k;
  get-insert = λ t k j w. after_insert t k j w;
  get-remove = λ t k j. after_remove t k j;
  len-empty = refl;
  len-insert_new = λ t k w h. one_more t k w h;
  len-insert_old = λ t k w w' h. as_many t k w w' h;
  len-remove = λ t k w h. one_less t k w h;
  length-iter = λ t. all_listed t;
  iter-get = λ t. listed_held t;
  retain-visit = λ f s t. visit-bare W f s (list_slots t) t;
}
  where
    in_empty : (k : Key) → get_slot {W = W} (none, none) k ≡ none
    in_empty login = refl
    in_empty logout = refl

    after_insert :
        (t : Slots W) (k j : Key) (w : W)
        → get_slot (set_slot t k (some w)) j ≡ ite (Key-discrete k j) (some w) (get_slot t j)
    after_insert t login login w = refl
    after_insert t login logout w = refl
    after_insert t logout login w = refl
    after_insert t logout logout w = refl

    after_remove :
        (t : Slots W) (k j : Key)
        → get_slot (set_slot t k none) j ≡ ite (Key-discrete k j) none (get_slot t j)
    after_remove t login login = refl
    after_remove t login logout = refl
    after_remove t logout login = refl
    after_remove t logout logout = refl

    one_more :
        (t : Slots W) (k : Key) (w : W)
        → get_slot t k ≡ none
        → held (set_slot t k (some w)).0 + held (set_slot t k (some w)).1
          ≡ suc (held t.0 + held t.1)
    one_more (a, b) login w h = ground arith
    one_more (a, b) logout w h = ground arith

    as_many :
        (t : Slots W) (k : Key) (w w' : W)
        → get_slot t k ≡ some w'
        → held (set_slot t k (some w)).0 + held (set_slot t k (some w)).1 ≡ held t.0 + held t.1
    as_many (a, b) login w w' h = ground arith
    as_many (a, b) logout w w' h = ground arith

    one_less :
        (t : Slots W) (k : Key) (w : W)
        → get_slot t k ≡ some w
        → suc (held (set_slot t k none).0 + held (set_slot t k none).1) ≡ held t.0 + held t.1
    one_less (a, b) login w h = ground arith
    one_less (a, b) logout w h = ground arith

    all_listed : (t : Slots W) → length (list_slots t) ≡ held t.0 + held t.1
    all_listed (none, none) = refl
    all_listed (some v, none) = refl
    all_listed (none, some w) = refl
    all_listed (some v, some w) = refl

    listed_held : (t : Slots W) → All (λ e. get_slot t e.0 ≡ some e.1) (list_slots t)
    listed_held (none, none) = tt
    listed_held (some v, none) = (refl, tt)
    listed_held (none, some w) = (refl, tt)
    listed_held (some v, some w) = (refl, (refl, tt))
