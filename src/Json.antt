-- ===== src/Json.antt =====
-- Parsed JSON, the `unknown` of the source, with the safe accessors that the components share:
-- `asObject`, `asString` and `asStringArray` of web/src/lib/dag.ts.
-- `undefined` is `none`. The fields of an object stand in the order of `Object.values`, each key
-- once; numbers are those the source reads, which are not negative.
use kro_ui.Prelude.{ℕ, Bool, false, Option, none, some, List, [], ◌∷◌, if◌then◌else◌}
use kro_ui.Prelude.Text.{Text, text_eq}

mutual
  pub data Json : Type 0 where
    null : Json
    bool : Bool → Json
    num : ℕ → Json
    str : Text → Json
    arr : Items → Json
    obj : Fields → Json

  pub data Items : Type 0 where
    nil : Items
    cons : Json → Items → Items

  pub data Fields : Type 0 where
    end : Fields
    field : Text → Json → Fields → Fields

-- The elements of an array.
unfoldable pub elements : Items → List Json
elements nil = []
elements (cons v vs) = v ∷ elements vs

-- `o[k]` of an object.
unfoldable pub get : Text → Fields → Option Json
get k end = none
get k (field j v o) = if text_eq j k then some v else get k o

-- `Object.keys(o)`
unfoldable pub keys : Fields → List Text
keys end = []
keys (field k v o) = k ∷ keys o

abbrev pub as_object : Option Json → Option Fields
as_object (some (obj o)) = some o
as_object _ = none

abbrev pub as_string : Option Json → Text
as_string (some (str s)) = s
as_string _ = []

-- `Array.isArray(v) ? v : []`
abbrev pub as_array : Option Json → List Json
as_array (some (arr vs)) = elements vs
as_array _ = []

-- The strings of an array.
unfoldable pub strings : List Json → List Text
strings [] = []
strings (str s ∷ vs) = s ∷ strings vs
strings (v ∷ vs) = strings vs

unfoldable pub as_string_array : Option Json → List Text
unfolding strings
as_string_array v = strings (as_array v)

-- `v?.[k]`, and `v[k]` where `v` has been tested: no key that the source reads is a property of a
-- string, a number or an array.
unfoldable pub prop : Text → Option Json → Option Json
prop k (some (obj o)) = get k o
prop k _ = none

-- `typeof v === 'string' ? v : undefined`
abbrev pub string_or_none : Option Json → Option Text
string_or_none (some (str s)) = some s
string_or_none _ = none

-- `v === 's'`
abbrev pub is_string : Option Json → Text → Bool
is_string (some (str t)) s = text_eq t s
is_string _ s = false
