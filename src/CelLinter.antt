-- ===== src/CelLinter.antt =====
-- web/src/lib/cel-linter.ts: the syntax checks of CEL expressions.
-- The scans keep what their index is inside of as a mode: code, a string literal with its quote, the
-- character behind a backslash of a literal, or a template. A raw prefix is skipped like any other
-- character of the code, and the quote behind it opens a literal in which a backslash escapes, as
-- the source has it. An index of 2 past the end is the end.
pub mod Grammar
pub mod Errors
pub mod Sound
pub mod Complete
pub mod Matching
pub mod Accepted
mod Tests
use kro_ui.Prelude.{
  ℕ, Bool, true, false, not, ◌||◌, ◌&&◌, Option, none, some, List, [], ◌∷◌, ◌++◌, ◌==◌,
  if◌then◌else◌, any,
}
use kro_ui.Prelude.Text.{Text, codes}
use kro_ui.Prelude.Chars.{trim}

pub data CelDiagnosticLevel : Type 0 where
  error warning : CelDiagnosticLevel

pub record CelDiagnostic : Type 0 where
  pub level : CelDiagnosticLevel
  pub message : Text

pub data CelContext : Type 0 where
  ready_when include_when : CelContext

pub data Mode : Type 0 where
  code template : Mode
  literal escaped : ℕ → Mode

abbrev pub is_quote : ℕ → Bool
is_quote c = c == b'"' || c == b'\''

-- The inside of a literal: a backslash escapes, and the quote closes.
abbrev pub in_literal : ℕ → ℕ → Mode
in_literal q c = if c == b'\\' then escaped q else if c == q then code else literal q

-- `closed` is false at the end of the string.
abbrev pub string_step : Mode → ℕ → Mode
string_step (literal q) c = in_literal q c
string_step (escaped q) c = literal q
string_step _ c = if is_quote c then literal c else code

abbrev pub unclosed_string : ℕ → CelDiagnostic
unclosed_string q = record {
  level = error;
  message = codes "Unclosed string literal (missing closing " ++ q ∷ codes ")";
}

unfoldable pub scan_strings : Mode → Text → Option CelDiagnostic
scan_strings (literal q) [] = some (unclosed_string q)
scan_strings (escaped q) [] = some (unclosed_string q)
scan_strings code [] = none
scan_strings template [] = none
scan_strings m (c ∷ s) = scan_strings (string_step m c) s

unfoldable pub check_unclosed_strings : Text → Option CelDiagnostic
check_unclosed_strings expr = scan_strings code expr

abbrev pub opens : ℕ → Text → Bool
opens c [] = false
opens c (d ∷ s) = c == b'$' && d == b'{'

-- The brace behind the dollar sign is the first character of the template.
abbrev pub template_step : Mode → ℕ → Text → Mode
template_step template c s = if c == b'}' then code else template
template_step _ c s = if opens c s then template else code

unfoldable pub scan_templates : Mode → Text → Option CelDiagnostic
scan_templates template [] =
    some
      (record { level = error; message = codes "Unclosed template expression (missing closing })" })
scan_templates code [] = none
scan_templates (literal q) [] = none
scan_templates (escaped q) [] = none
scan_templates m (c ∷ s) = scan_templates (template_step m c s) s

unfoldable pub check_unclosed_templates : Text → Option CelDiagnostic
check_unclosed_templates expr = scan_templates code expr

-- `closes[ch]` and `labels[ch]`.
abbrev pub opening_of : ℕ → ℕ
opening_of c = if c == b')' then b'(' else if c == b']' then b'[' else b'{'

abbrev pub closing_of : ℕ → ℕ
closing_of c = if c == b'(' then b')' else if c == b'[' then b']' else b'}'

abbrev pub is_opening : ℕ → Bool
is_opening c = c == b'(' || c == b'[' || c == b'{'

abbrev pub is_closing : ℕ → Bool
is_closing c = c == b')' || c == b']' || c == b'}'

-- A round of the bracket check: the mode and the stack behind the character, or an error.
pub data Step : Type 0 where
  go_on : Mode → List ℕ → Step
  fail : CelDiagnostic → Step

abbrev pub unexpected : ℕ → CelDiagnostic
unexpected c = record {
  level = error;
  message = codes "Unexpected '" ++ c ∷ codes "' — no matching opening bracket";
}

abbrev pub pop : ℕ → List ℕ → Step
pop c [] = fail (unexpected c)
pop c (top ∷ stack) = if top == opening_of c then go_on code stack else fail (unexpected c)

unfoldable pub code_step : List ℕ → ℕ → Text → Step
code_step stack c s =
    if is_quote c
    then go_on (literal c) stack
    else if opens c s
    then go_on template stack
    else if is_opening c
    then go_on code (c ∷ stack)
    else if is_closing c
    then pop c stack
    else go_on code stack

abbrev pub bracket_step : Mode → List ℕ → ℕ → Text → Step
bracket_step code stack c s = code_step stack c s
bracket_step template stack c s = go_on (if c == b'}' then code else template) stack
bracket_step (literal q) stack c s = go_on (in_literal q c) stack
bracket_step (escaped q) stack c s = go_on (literal q) stack

abbrev pub unclosed_bracket : List ℕ → Option CelDiagnostic
unclosed_bracket [] = none
unclosed_bracket (top ∷ stack) = some (record {
  level = error;
  message =
      codes "Unclosed '" ++ top ∷ (codes "' (missing closing '" ++ closing_of top ∷ codes "')");
})

unfoldable pub scan_brackets : Mode → List ℕ → Text → Option CelDiagnostic
scan_brackets m stack [] = unclosed_bracket stack
scan_brackets m stack (c ∷ s) = elim (bracket_step m stack c s) [
  | go_on m' stack' ↦ scan_brackets m' stack' s
  | fail d ↦ some d
]

unfoldable pub check_unclosed_brackets : Text → Option CelDiagnostic
check_unclosed_brackets expr = scan_brackets code [] expr

-- The text without its last character, where this is the quote.
abbrev pub without_last : ℕ → Text → Option Text
without_last q [] = none
without_last q (c ∷ []) = if c == q then some [] else none
without_last q (c ∷ d ∷ s) = elim (without_last q (d ∷ s)) [ none ↦ none | some r ↦ some (c ∷ r) ]

-- The inside of a text that starts and ends with the same quote.
abbrev pub quoted_inside : Text → Option Text
quoted_inside [] = none
quoted_inside (c ∷ s) = if is_quote c then without_last c s else none

abbrev pub is_operator : ℕ → Bool
is_operator c = c == b'=' || c == b'!' || c == b'<' || c == b'>' || c == b'&' || c == b'|'

abbrev pub field_label : CelContext → Text
field_label ready_when = codes "readyWhen"
field_label include_when = codes "includeWhen"

abbrev pub bare_warning : CelContext → CelDiagnostic
bare_warning context = record {
  level = warning;
  message =
      field_label context
      ++ codes
          " must evaluate to a boolean; a bare string literal always returns a truthy value, not a comparison result";
}

unfoldable pub check_bare_string_literal : Text → CelContext → Option CelDiagnostic
check_bare_string_literal expr context = elim (quoted_inside (trim expr)) [
  | none ↦ none
  | some inner ↦ if any is_operator inner then none else some (bare_warning context)
]

abbrev pub is_empty : Text → Bool
is_empty [] = true
is_empty (c ∷ s) = false

abbrev pub diagnostics : Option CelDiagnostic → List CelDiagnostic
diagnostics none = []
diagnostics (some d) = d ∷ []

-- The first check that finds something ends the run.
abbrev pub or_check : Option CelDiagnostic → Option CelDiagnostic → Option CelDiagnostic
or_check none later = later
or_check (some d) later = some d

unfoldable pub lint_cel : Text → CelContext → List CelDiagnostic
lint_cel expr context =
    if is_empty (trim expr)
    then []
    else diagnostics (
        or_check (check_unclosed_strings expr) (
          or_check (check_unclosed_templates expr)
            (or_check (check_unclosed_brackets expr) (check_bare_string_literal expr context))))
