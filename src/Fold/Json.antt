-- ===== src/Fold/Json.antt =====
-- The values that `json.loads` returns, and the `dict` reads of apps/scheduler/br_fold.py.
use lumi_observatory.Base.{
  Bool, true, false, String, List, [], ◌∷◌, Option, none, some, if◌then◌else◌,
}
use lumi_observatory.Base.Int.{ℤ, pos}
use lumi_observatory.Base.Text.{◌=ₛ◌}

mutual
  -- `float` keeps a number that is no integer as its text. A `dict` is its items, keys distinct.
  pub data Json : Type 0 where
    null : Json
    bool : Bool → Json
    int : ℤ → Json
    float : String → Json
    text : String → Json
    array : Items → Json
    object : Fields → Json

  pub data Items : Type 0 where
    nil : Items
    cons : Json → Items → Items

  pub data Fields : Type 0 where
    end : Fields
    field : String → Json → Fields → Fields

-- `frame.get(key)`: a missing key and a JSON null are both `None`.
unfoldable pub get : String → Fields → Json
get k end = null
get k (field j v fs) = if j =ₛ k then v else get k fs

-- `key in fields`
unfoldable pub has : String → Fields → Bool
has k end = false
has k (field j v fs) = let rest = has k fs in if j =ₛ k then true else rest

-- `list(frame)`: the keys
unfoldable pub keys : Fields → List String
keys end = []
keys (field k v fs) = k ∷ keys fs

-- `{k: v for k, v in fields.items() if k != key}`
unfoldable pub without : String → Fields → Fields
without k end = end
without k (field j v fs) = let rest = without k fs in if j =ₛ k then rest else field j v rest

-- `value is None`
abbrev pub is_null : Json → Bool
is_null null = true
is_null _ = false

-- A value that `validate_frame` has checked to be a text.
abbrev pub text_of : Json → String
text_of (text s) = s
text_of _ = ""

-- A value that `validate_frame` has checked to be an integer.
abbrev pub int_of : Json → ℤ
int_of (int n) = n
int_of _ = pos 0

-- `value == s` for a text `s`
abbrev pub is_text : Json → String → Bool
is_text (text t) s = t =ₛ s
is_text _ s = false

-- `value in (...)` for a tuple of texts
abbrev pub is_one_of : Json → List String → Bool
is_one_of v [] = false
is_one_of v (s ∷ ss) = if is_text v s then true else is_one_of v ss

-- Membership in a `set` hashes the value; a list or a dict has no hash.
abbrev pub is_hashable : Json → Bool
is_hashable (array xs) = false
is_hashable (object fs) = false
is_hashable _ = true

-- an optional text of a frame, `None` when absent
abbrev pub opt_text : Json → Option String
opt_text (text s) = some s
opt_text _ = none

-- the texts of a list that `validate_frame` has checked
abbrev pub texts_of_items : Items → List String
texts_of_items nil = []
texts_of_items (cons v vs) = text_of v ∷ texts_of_items vs

abbrev pub texts_of : Json → List String
texts_of (array vs) = texts_of_items vs
texts_of _ = []
