-- ===== src/Dag/Expressions.antt =====
-- web/src/lib/dag.ts: `extractExpressions` and `walkTemplate`.
-- A position of the string is the text from it on. The outer loop takes fuel, one unit a character.
pub mod Sound
pub mod Balanced
use kro_ui.Prelude.{
  ℕ, zero, suc, ◌+◌, ◌-◌, Bool, true, false, not, ◌&&◌, Option, none, some, List, [], ◌∷◌, ◌++◌,
  map, ◌==◌, if◌then◌else◌, length,
}
use kro_ui.Prelude.Text.{Text}
use kro_ui.Json.{Json, null, bool, num, str, arr, obj, Items, nil, cons, Fields, end, field}

abbrev pub prepend : ℕ → Option (Text × Text) → Option (Text × Text)
prepend c none = none
prepend c (some (expr, after)) = some (c ∷ expr, after)

-- The inner loop, from `endIdx` on: the text up to the brace that closes the expression, and the
-- text behind it; `none` where the text ends first.
unfoldable pub close_from : ℕ → Bool → Bool → Text → Option (Text × Text)
close_from bracket_count in_string escape_next [] = none
close_from bracket_count in_string escape_next (c ∷ s) =
    let plain = close_from bracket_count in_string false s in
    let escaping = close_from bracket_count in_string true s in
    let toggled = close_from bracket_count (not in_string) false s in
    let opened = close_from (bracket_count + 1) in_string false s in
    let closed = close_from (bracket_count - 1) in_string false s in
    if escape_next
    then prepend c plain
    else if in_string && c == b'\\'
    then prepend c escaping
    else if c == b'"'
    then prepend c toggled
    else if in_string
    then prepend c plain
    else if c == b'{'
    then prepend c opened
    else if c == b'}'
    then if bracket_count == 1 then some ([], s) else prepend c closed
    else prepend c plain

-- `str.indexOf('${', start)`: the text behind the first `${`.
unfoldable pub after_marker : Text → Option Text
after_marker [] = none
after_marker (c ∷ []) = none
after_marker (c ∷ d ∷ s) =
    let later = after_marker (d ∷ s) in if c == b'$' && d == b'{' then some s else later

-- `start++` behind an expression that is not closed.
abbrev pub rest_of : Text → Text
rest_of [] = []
rest_of (c ∷ s) = s

unfoldable pub extract_from : ℕ → Text → List Text
extract_from zero s = []
extract_from (suc fuel) s = elim (after_marker s) [
  | none ↦ []
  | some t ↦ elim (close_from 1 false false t) [
    | none ↦ extract_from fuel (rest_of s)
    | some (expr, after) ↦ expr ∷ extract_from fuel after
  ]
]

unfoldable pub extract_expressions : Text → List Text
extract_expressions s = extract_from (length s) s

-- `'${' + expr + '}'`
abbrev pub wrap : Text → Text
wrap expr = b'$' ∷ b'{' ∷ (expr ++ b'}' ∷ [])

unfoldable mutual
  pub walk_template : Json → List Text → List Text
  walk_template null results = results
  walk_template (bool b) results = results
  walk_template (num n) results = results
  walk_template (str s) results = results ++ map wrap (extract_expressions s)
  walk_template (arr vs) results = walk_items vs results
  walk_template (obj o) results = walk_fields o results

  pub walk_items : Items → List Text → List Text
  walk_items nil results = results
  walk_items (cons v vs) results = walk_items vs (walk_template v results)

  pub walk_fields : Fields → List Text → List Text
  walk_fields end results = results
  walk_fields (field k v o) results = walk_fields o (walk_template v results)
