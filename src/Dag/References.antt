-- ===== src/Dag/References.antt =====
-- web/src/lib/dag.ts: `extractReferencedIds`.
-- `\b([a-zA-Z_][a-zA-Z0-9_]*)\b` matches the maximal runs of word characters that do not begin with
-- a digit.
pub mod Mentions
use kro_ui.Prelude.{
  ℕ, Bool, true, false, not, ◌&&◌, ◌||◌, Option, none, some, List, [], ◌∷◌, ◌++◌, ◌==◌,
  if◌then◌else◌,
}
use kro_ui.Prelude.Text.{Text, starts_with, codes}
use kro_ui.Prelude.Chars.{is_word, is_digit}
use kro_ui.Prelude.Sets.{contains, insert}

-- A run that ends is a match unless it is empty or begins with a digit.
unfoldable pub flush : Text → List Text
flush [] = []
flush (c ∷ w) = if is_digit c then [] else (c ∷ w) ∷ []

-- The matches of `exec` in order; `run` is the run of word characters in front of the text.
unfoldable pub identifiers_from : Text → Text → List Text
identifiers_from run [] = flush run
identifiers_from run (c ∷ s) =
    let longer = identifiers_from (run ++ c ∷ []) s in
    let closed = identifiers_from [] s in if is_word c then longer else flush run ++ closed

unfoldable pub identifiers : Text → List Text
identifiers s = identifiers_from [] s

-- `expr.endsWith('}')` and `slice(2, -1)`.
abbrev pub last_is : ℕ → Text → Bool
last_is ch [] = false
last_is ch (c ∷ []) = c == ch
last_is ch (c ∷ d ∷ s) = last_is ch (d ∷ s)

abbrev pub drop_last : Text → Text
drop_last [] = []
drop_last (c ∷ []) = []
drop_last (c ∷ d ∷ s) = c ∷ drop_last (d ∷ s)

abbrev pub inside : Text → Text
inside (c ∷ d ∷ s) = drop_last s
inside s = []

unfoldable pub strip : Text → Text
strip expr = if starts_with (codes "${") expr && last_is b'}' expr then inside expr else expr

-- The loop over the matches of one expression, and the loop over the expressions.
unfoldable pub note_ids : List Text → List Text → List Text → List Text → List Text
note_ids known exclude [] found = found
note_ids known exclude (id ∷ ids) found =
    note_ids known exclude ids
      (if contains id exclude then found else if contains id known then insert id found else found)

unfoldable pub collect_ids : List Text → List Text → List Text → List Text → List Text
collect_ids known exclude [] found = found
collect_ids known exclude (expr ∷ exprs) found =
    collect_ids known exclude exprs (note_ids known exclude (identifiers (strip expr)) found)

unfoldable pub extract_referenced_ids : List Text → List Text → List Text → List Text
extract_referenced_ids expressions known exclude = collect_ids known exclude expressions []
