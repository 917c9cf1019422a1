-- ===== src/Generator/SimpleSchema.antt =====
-- web/src/lib/generator.ts: buildSimpleSchemaStr and parseSimpleSchemaStr, the printer and the parser
-- of type strings such as "integer | default=3 | minimum=1".
pub mod Parts
pub mod RoundTrip
use kro_ui.Prelude.{
  ℕ, ◌-◌, Bool, true, false, ◌&&◌, Option, none, some, List, [], ◌∷◌, ◌++◌, if◌then◌else◌, ◌==◌,
  length, take, drop, reverse,
}
use kro_ui.Prelude.Text.{Text, codes, is_empty, text_eq, cons_piece, starts_with}
use kro_ui.Prelude.Chars.{trim}
use kro_ui.Generator.{AuthoringField}

-- `s.split(' | ')`
unfoldable pub split_bar : Text → List Text
split_bar [] = [] ∷ []
split_bar (a ∷ []) = (a ∷ []) ∷ []
split_bar (a ∷ b ∷ []) = (a ∷ b ∷ []) ∷ []
split_bar (a ∷ b ∷ c ∷ s) = elim (a == 32 && (b == 124 && c == 32)) [
  | true ↦ [] ∷ split_bar s
  | false ↦ cons_piece a (split_bar (b ∷ c ∷ s))
]

-- `parts.join(' | ')`
unfoldable pub join_bar : List Text → Text
join_bar [] = []
join_bar (p ∷ []) = p
join_bar (p ∷ q ∷ ps) = p ++ (32 ∷ 124 ∷ 32 ∷ join_bar (q ∷ ps))

-- `field.type || 'string'`
abbrev pub or_string : Text → Text
or_string [] = codes "string"
or_string (c ∷ s) = c ∷ s

-- A modifier with a value, left out where the value is empty.
abbrev pub modifier : Text → Text → List Text
modifier prefix [] = []
modifier prefix (c ∷ s) = (prefix ++ (c ∷ s)) ∷ []

abbrev pub text_or_empty : Option Text → Text
text_or_empty none = []
text_or_empty (some s) = s

unfoldable pub parts_of : AuthoringField → List Text
parts_of field =
    or_string field.type
    ∷ ((if field.required
          then codes "required" ∷ []
          else modifier (codes "default=") field.default_value)
        ++ (modifier (codes "minimum=") (text_or_empty field.minimum)
            ++ (modifier (codes "maximum=") (text_or_empty field.maximum)
                ++ (modifier (codes "enum=") (text_or_empty field.enum)
                    ++ modifier (codes "pattern=") (text_or_empty field.pattern)))))

unfoldable pub build_simple_schema_str : AuthoringField → Text
build_simple_schema_str field = join_bar (parts_of field)

pub record SimpleSchema : Type 0 where
  pub type : Text
  pub required : Bool
  pub default_value : Text
  pub minimum : Text
  pub maximum : Text
  pub enum : Text
  pub pattern : Text

-- `s.slice(prefix.length)`
abbrev pub value_behind : Text → Text → Text
value_behind prefix s = drop (length prefix) s

-- The loop body, for a trimmed token.
unfoldable pub set_modifier : Text → SimpleSchema → SimpleSchema
set_modifier token p =
    if text_eq token (codes "required")
    then record p { required = true }
    else if starts_with (codes "default=") token
    then record p { default_value = value_behind (codes "default=") token }
    else if starts_with (codes "minimum=") token
    then record p { minimum = value_behind (codes "minimum=") token }
    else if starts_with (codes "maximum=") token
    then record p { maximum = value_behind (codes "maximum=") token }
    else if starts_with (codes "enum=") token
    then record p { enum = value_behind (codes "enum=") token }
    else if starts_with (codes "pattern=") token
    then record p { pattern = value_behind (codes "pattern=") token }
    else p

unfoldable pub set_modifiers : List Text → SimpleSchema → SimpleSchema
set_modifiers [] p = p
set_modifiers (token ∷ tokens) p = set_modifiers tokens (set_modifier (trim token) p)

abbrev pub starts_quoted : Text → Bool
starts_quoted [] = false
starts_quoted (c ∷ s) = c == b'"'

-- `raw.startsWith('"') && raw.endsWith('"') ? raw.slice(1, -1) : raw`
unfoldable pub unquoted : Text → Text
unquoted raw =
    if starts_quoted raw && starts_quoted (reverse raw)
    then take (length raw - 2) (drop 1 raw)
    else raw

abbrev pub plain_type : Text → SimpleSchema
plain_type type = record {
  type = type;
  required = false;
  default_value = [];
  minimum = [];
  maximum = [];
  enum = [];
  pattern = [];
}

-- `parts[0]?.trim() || 'string'` and the loop over the other parts.
abbrev pub parse_parts : List Text → SimpleSchema
parse_parts [] = plain_type (codes "string")
parse_parts (base ∷ modifiers) = set_modifiers modifiers (plain_type (or_string (trim base)))

unfoldable pub parse_simple_schema_str : Text → SimpleSchema
parse_simple_schema_str raw = parse_parts (split_bar (unquoted raw))
