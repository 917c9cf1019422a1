-- ===== src/Highlighter/Tests.antt =====
-- Runs of the tokenizer.
use kro_ui.Prelude.{◌≡◌, refl, some, List, [], ◌∷◌}
use kro_ui.Prelude.Text.{Text, codes, text_eq, split_on}
use kro_ui.Prelude.Chars.{is_word}
use kro_ui.Prelude.Sets.{contains}
use kro_ui.Highlighter.{
  Token, token, kro_keyword, yaml_key, cel_expression, plain, schema_type, schema_pipe,
  schema_keyword, schema_value, comment, append_token, push_token, type_eq, is_key_position,
  is_word_char, is_key_char, is_margin,
}
use kro_ui.Highlighter.Lossless.{text_of, tokenize_lossless}
use kro_ui.Highlighter.Merged.{IsMerged, tokenize-IsMerged}
use kro_ui.Highlighter.Scan.{tokenize}

abbrev yaml : Text
yaml = codes "- id: ${a}${b}\nn: string | default=x # c"

abbrev tokens : List Token
tokens =
    token plain (codes "- ")
    ∷ token kro_keyword (codes "id:")
    ∷ token plain (codes " ")
    ∷ token cel_expression (codes "${a}${b}")
    ∷ token plain (codes "\n")
    ∷ token yaml_key (codes "n:")
    ∷ token plain (codes " ")
    ∷ token schema_type (codes "string")
    ∷ token plain (codes " ")
    ∷ token schema_pipe (codes "|")
    ∷ token plain (codes " ")
    ∷ token schema_keyword (codes "default")
    ∷ token plain (codes "=")
    ∷ token schema_value (codes "x")
    ∷ token plain (codes " ")
    ∷ token comment (codes "# c")
    ∷ []

line : tokenize yaml ≡ some tokens
unfolding tokenize split_on text_eq contains append_token push_token type_eq is_word_char
    is_key_char is_margin is_word is_key_position
line = refl

tokenize_lossless_example :
    (tokens : List Token) × (tokenize yaml ≡ some tokens) × (text_of tokens ≡ yaml)
tokenize_lossless_example = tokenize_lossless yaml

tokenize-IsMerged_example : IsMerged tokens
tokenize-IsMerged_example = tokenize-IsMerged yaml tokens line
