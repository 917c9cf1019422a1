-- ===== src/Highlighter.antt =====
-- web/src/lib/highlighter.ts: the YAML/CEL/SimpleSchema tokenizer.
-- The cursor holds the line before `pos` backwards (`past`) and the line from `pos` on (`rest`), so
-- that `line[pos - 1]` is the head of `past`. A round of the `while` loop is `round`, which tries the
-- blocks of the loop's body in order; `scan` repeats it, on fuel.
mod Scan
mod Lossless
mod Merged
mod Tests
use mathlib.Core.List.{reverse_aux}
use kro_ui.Prelude.{
  ℕ, zero, suc, Bool, true, false, not, ◌&&◌, ◌||◌, Option, none, some, List, [], ◌∷◌, ◌++◌, ◌==◌,
  if◌then◌else◌, length, all,
}
use kro_ui.Prelude.Text.{Text, text_eq, codes, split_on}
use kro_ui.Prelude.Chars.{is_word, is_space, take_while, drop_while, trim_start}
use kro_ui.Prelude.Sets.{contains}

pub data TokenType : Type 0 where
  cel_expression kro_keyword yaml_key schema_type schema_pipe schema_keyword : TokenType
  schema_value comment plain : TokenType

pub record Token : Type 0 where
  pub type : TokenType
  pub text : Text

abbrev pub kro_keywords : List Text
kro_keywords =
    codes "id"
    ∷ codes "template"
    ∷ codes "readyWhen"
    ∷ codes "includeWhen"
    ∷ codes "forEach"
    ∷ codes "externalRef"
    ∷ codes "scope"
    ∷ codes "types"
    ∷ []

abbrev pub schema_types : List Text
schema_types =
    codes "string"
    ∷ codes "integer"
    ∷ codes "boolean"
    ∷ codes "number"
    ∷ codes "object"
    ∷ codes "array"
    ∷ []

abbrev pub schema_keywords : List Text
schema_keywords =
    codes "default"
    ∷ codes "required"
    ∷ codes "min"
    ∷ codes "max"
    ∷ codes "pattern"
    ∷ codes "enum"
    ∷ []

pub TokenType-discrete : Discrete TokenType
TokenType-discrete = hlevel

-- `last.type === type`
unfoldable pub type_eq : TokenType → TokenType → Bool
unfolding TokenType-discrete
type_eq a b = elim (TokenType-discrete a b) [ yes _ ↦ true | no _ ↦ false ]

-- The two parts of `pushToken`: nothing for an empty text, and a merge into the last token.
pub append_token : List Token → TokenType → Text → List Token
append_token [] ty x = record { type = ty; text = x } ∷ []
append_token (t ∷ []) ty x =
    if type_eq t.type ty
    then record { type = t.type; text = t.text ++ x } ∷ []
    else t ∷ record { type = ty; text = x } ∷ []
append_token (t ∷ u ∷ ts) ty x = t ∷ append_token (u ∷ ts) ty x

pub push_token : List Token → TokenType → Text → List Token
push_token tokens ty [] = tokens
push_token tokens ty (c ∷ x) = append_token tokens ty (c ∷ x)

-- Tokens pushed in a row.
pub push_tokens : List Token → List Token → List Token
push_tokens tokens [] = tokens
push_tokens tokens (t ∷ ts) = push_tokens (push_token tokens t.type t.text) ts

-- `/[\w\-.]/`, `/[\w-]/`, a blank, and `/[\s-]/`.
pub is_word_char : ℕ → Bool
is_word_char c = is_word c || c == b'-' || c == b'.'

pub is_key_char : ℕ → Bool
is_key_char c = is_word c || c == b'-'

pub is_blank : ℕ → Bool
is_blank c = c == 32 || c == 9

pub is_margin : ℕ → Bool
is_margin c = is_space c || c == b'-'

pub record Cursor : Type 0 where
  pub past : Text
  pub rest : Text
  pub in_value_position : Bool
  pub is_schema_value : Bool

-- What a round does: it pushes tokens and goes on, or pushes tokens and returns.
pub data Round : Type 0 where
  go_on : List Token → Cursor → Round
  return : List Token → Round

abbrev pub token : TokenType → Text → Token
token ty x = record { type = ty; text = x }

-- The cursor behind a consumed text.
abbrev pub advance : Cursor → Text → Text → Cursor
advance cur eaten rest = record cur { past = reverse_aux eaten cur.past; rest = rest }

-- `s.indexOf(ch)`, as the texts before and behind the first `ch`.
pub split_at : ℕ → Text → Option (Text × Text)
split_at ch [] = none
split_at ch (c ∷ s) =
    let later = split_at ch s in
    if c == ch
    then some ([], s)
    else elim later [ none ↦ none | some (before, after) ↦ some (c ∷ before, after) ]

pub is_valid_key_word : Text → Bool
unfolding is_key_char
is_valid_key_word [] = false
is_valid_key_word (c ∷ w) = all is_key_char (c ∷ w)

-- `pos` is at the head of `c ∷ r`.
pub is_key_position : Text → ℕ → Text → Bool
unfolding is_word_char is_margin is_valid_key_word split_at
is_key_position past c r =
    is_word_char c
    && all is_margin past
    && elim (split_at b':' (c ∷ r)) [ none ↦ false | some (segment, _) ↦ is_valid_key_word segment ]

pub extract_word : Text → Text
unfolding is_key_char
extract_word s = take_while is_key_char s

-- `line[pos - 1]` is one of two characters.
abbrev pub behind : Text → ℕ → ℕ → Bool
behind [] a b = false
behind (p ∷ past) a b = p == a || p == b

abbrev pub is_empty : Text → Bool
is_empty [] = true
is_empty (c ∷ s) = false
