-- ===== src/Domain/Values.antt =====
-- apps/api/internal/domain: the values that decoding JSON into `any` gives, and how the validators
-- read them.
use proxy_core.Base.{
  ℕ, String, Bool, false, Option, none, some, List, [], ◌∷◌, if◌then◌else◌, str_eq, leb, ◌&&◌,
}
use proxy_core.Base.Int.{ℤ, pos, negsuc}

-- `whole` is a number that `int` holds exactly, `fraction` every other.
mutual
  pub data Json : Type 0 where
    null : Json
    boolean : Bool → Json
    whole : ℤ → Json
    fraction : String → Json
    text : String → Json
    array : Elements → Json
    object : Fields → Json

  pub data Elements : Type 0 where
    no_elements : Elements
    element : Json → Elements → Elements

  pub data Fields : Type 0 where
    no_fields : Fields
    field : String → Json → Fields → Fields

abbrev pub elements : Elements → List Json
elements no_elements = []
elements (element v vs) = v ∷ elements vs

-- `m[key]`; a missing key reads as nil.
unfoldable pub get : String → Fields → Json
get key no_fields = null
get key (field k v m) = let rest = get key m in if str_eq k key then v else rest

-- `value.(bool)`, `value.(string)`, `value.(map[string]any)` and `toInt`.
abbrev pub as_bool : Json → Option Bool
as_bool (boolean b) = some b
as_bool _ = none

abbrev pub as_text : Json → Option String
as_text (text s) = some s
as_text _ = none

abbrev pub as_object : Json → Option Fields
as_object (object m) = some m
as_object _ = none

abbrev pub to_int : Json → Option ℤ
to_int (whole n) = some n
to_int _ = none

abbrev pub or_else {ℓ} : {A : Type ℓ} → A → Option A → A
or_else d none = d
or_else d (some a) = a

-- The zero value where the value has another type.
abbrev pub proxy_bool : Fields → String → Bool
proxy_bool m key = or_else false (as_bool (get key m))

abbrev pub proxy_string : Fields → String → String
proxy_string m key = or_else "" (as_text (get key m))

unfoldable pub slice_of : Json → List Json
slice_of (array vs) = elements vs
slice_of _ = []

-- `low <= n && n <= high`.
abbrev pub is_between : ℕ → ℕ → ℤ → Bool
is_between low high (negsuc n) = false
is_between low high (pos n) = leb low n && leb n high
