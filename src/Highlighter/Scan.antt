-- ===== src/Highlighter/Scan.antt =====
-- The loop of `tokenizeLine` block by block, and `tokenize`.
use kro_ui.Prelude.{
  ℕ, zero, suc, Bool, true, false, not, ◌&&◌, ◌||◌, Option, none, some, List, [], ◌∷◌, ◌++◌, ◌==◌,
  if◌then◌else◌, length,
}
use kro_ui.Prelude.Text.{Text, split_on}
use kro_ui.Prelude.Chars.{is_space, take_while, drop_while}
use kro_ui.Prelude.Sets.{contains}
use kro_ui.Highlighter.{
  TokenType, cel_expression, kro_keyword, yaml_key, schema_type, schema_pipe, schema_keyword,
  schema_value, comment, plain, Token, kro_keywords, schema_types, schema_keywords, push_token,
  push_tokens, is_key_char, is_blank, Cursor, Round, go_on, return, token, advance, split_at,
  is_valid_key_word, is_key_position, extract_word, behind, is_empty,
}

-- `${…}`: to the first closing brace, or the rest of the line as plain text.
abbrev pub cel_round : Cursor → Text → Text → Option (Text × Text) → Round
cel_round cur opening r none = return (token plain (opening ++ r) ∷ [])
cel_round cur opening r (some (inside, after)) =
    let text = opening ++ inside ++ b'}' ∷ [] in
    go_on (token cel_expression text ∷ []) (advance cur text after)

unfoldable pub cel_block : Cursor → ℕ → Text → Option Round
cel_block cur c [] = none
cel_block cur c (d ∷ r) =
    if c == b'$' && d == b'{' then some (cel_round cur (c ∷ d ∷ []) r (split_at b'}' r)) else none

-- `#` at the start or behind a blank.
unfoldable pub comment_block : Cursor → ℕ → Text → Option Round
comment_block cur c r =
    if c == b'#' && (is_empty cur.past || behind cur.past 32 9)
    then some (return (token comment (c ∷ r) ∷ []))
    else none

-- A word followed by a colon, in front of any value.
abbrev pub key_round : Cursor → Option (Text × Text) → Option Round
key_round cur none = none
key_round cur (some (word, after)) =
    let text = word ++ b':' ∷ [] in
    let type = if contains word kro_keywords then kro_keyword else yaml_key in
    let cur' = record cur {
      past = (advance cur text after).past;
      rest = after;
      in_value_position = true;
    } in
    if is_valid_key_word word then some (go_on (token type text ∷ []) cur') else none

unfoldable pub key_block : Cursor → ℕ → Text → Option Round
key_block cur c r =
    if not cur.in_value_position && is_key_position cur.past c r
    then key_round cur (split_at b':' (c ∷ r))
    else none

-- One character pushed with a type.
abbrev pub one : TokenType → Cursor → ℕ → Text → Round
one ty cur c r = go_on (token ty (c ∷ []) ∷ []) (advance cur (c ∷ []) r)

-- A word pushed with a type; `s` is the line from `pos` on.
abbrev pub word_round : TokenType → Cursor → Text → Round
word_round ty cur s =
    go_on (token ty (take_while is_key_char s) ∷ [])
      (advance cur (take_while is_key_char s) (drop_while is_key_char s))

-- The first word of a value: blanks are skipped, and a schema type starts the schema mode.
unfoldable pub value_block : Cursor → ℕ → Text → Option Round
unfolding extract_word is_blank
value_block cur c r =
    let value_word = extract_word (c ∷ r) in
    let schema = record cur {
      past = (advance cur value_word []).past;
      rest = drop_while is_key_char (c ∷ r);
      is_schema_value = true;
    } in
    if cur.in_value_position && not cur.is_schema_value
    then if is_blank c
      then some (one plain cur c r)
      else if not (is_empty value_word) && contains value_word schema_types
      then if behind cur.past b'"' b'\''
        then some (one plain cur c r)
        else some (go_on (token schema_type value_word ∷ []) schema)
      else none
    else none

-- The text behind `=`: up to a blank or a pipe.
unfoldable pub is_constraint_char : ℕ → Bool
unfolding is_blank
is_constraint_char c = not (is_blank c) && not (c == b'|')

unfoldable pub schema_block : Cursor → ℕ → Text → Option Round
unfolding extract_word is_blank is_constraint_char
schema_block cur c r =
    let schema_word = extract_word (c ∷ r) in
    let value = take_while is_constraint_char r in
    if cur.is_schema_value
    then if is_blank c
      then some (one plain cur c r)
      else if c == b'|'
      then some (one schema_pipe cur c r)
      else if c == b'='
      then some (
          go_on (token plain (c ∷ []) ∷ token schema_value value ∷ [])
            (advance cur (c ∷ value) (drop_while is_constraint_char r)))
      else if is_empty schema_word
      then none
      else if contains schema_word schema_keywords
      then some (word_round schema_keyword cur (c ∷ r))
      else if contains schema_word schema_types
      then some (word_round schema_type cur (c ∷ r))
      else some (word_round plain cur (c ∷ r))
    else none

-- The next block is tried where one does not apply.
abbrev pub or_try : Option Round → Round → Round
or_try none later = later
or_try (some r) later = r

unfoldable pub round : Cursor → ℕ → Text → Round
unfolding cel_block comment_block key_block value_block schema_block
round cur c r = or_try (cel_block cur c r) (
    or_try (comment_block cur c r) (
      or_try (key_block cur c r)
        (or_try (value_block cur c r) (or_try (schema_block cur c r) (one plain cur c r)))))

-- `while (pos < len)`; `none` is out of fuel.
unfoldable pub scan : ℕ → Cursor → List Token → Option (List Token)
unfolding round
scan zero cur tokens = elim cur.rest [ [] ↦ some tokens | c ∷ r ↦ none ]
scan (suc fuel) cur tokens = elim cur.rest [
  | [] ↦ some tokens
  | c ∷ r ↦ elim (round cur c r) [
    | return ts ↦ some (push_tokens tokens ts)
    | go_on ts cur' ↦ scan fuel cur' (push_tokens tokens ts)
  ]
]

abbrev pub starts_comment : Text → Bool
starts_comment [] = false
starts_comment (c ∷ s) = c == b'#'

unfoldable pub tokenize_line : Text → List Token → Option (List Token)
unfolding scan push_tokens is_space
tokenize_line line tokens =
    let start : Cursor = record {
      past = [];
      rest = line;
      in_value_position = false;
      is_schema_value = false;
    } in
    let margin = take_while is_space line in
    let trimmed = drop_while is_space line in
    if starts_comment trimmed
    then some (push_token (push_token tokens plain margin) comment trimmed)
    else scan (length line) start tokens

-- The lines behind the first, each after a newline token.
unfoldable pub tokenize_lines : List Text → List Token → Option (List Token)
unfolding tokenize_line
tokenize_lines [] tokens = some tokens
tokenize_lines (line ∷ lines) tokens =
    elim (tokenize_line line (push_token tokens plain (10 ∷ []))) [
      | none ↦ none
      | some tokens' ↦ tokenize_lines lines tokens'
    ]

unfoldable pub tokenize_split : List Text → Option (List Token)
unfolding tokenize_lines
tokenize_split [] = some []
tokenize_split (line ∷ lines) = elim (tokenize_line line []) [
  | none ↦ none
  | some tokens ↦ tokenize_lines lines tokens
]

unfoldable pub tokenize : Text → Option (List Token)
unfolding tokenize_split
tokenize [] = some []
tokenize (c ∷ yaml) = tokenize_split (split_on 10 (c ∷ yaml))
