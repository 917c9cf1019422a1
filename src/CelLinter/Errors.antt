-- ===== src/CelLinter/Errors.antt =====
-- The checks of the syntax report errors only.
use kro_ui.Prelude.{ℕ, Bool, true, false, Option, none, some, List, [], ◌∷◌, ◌≡◌, refl, arith}
use kro_ui.Prelude.Text.{Text}
use kro_ui.CelLinter.{
  CelDiagnostic, error, warning, Mode, code, template, literal, escaped, string_step, template_step,
  scan_strings, scan_templates, Step, go_on, fail, bracket_step, code_step, pop, unclosed_bracket,
  scan_brackets,
}

abbrev pub is_error : CelDiagnostic → Bool
is_error d = elim d.level [ error ↦ true | warning ↦ false ]

-- The three checks of the syntax report errors.
abbrev pub IsErrors : Option CelDiagnostic → Type 0
IsErrors none = Unit
IsErrors (some d) = is_error d ≡ true

pub strings-IsErrors : (m : Mode) (s : Text) → IsErrors (scan_strings m s)
unfolding scan_strings
strings-IsErrors code [] = tt
strings-IsErrors template [] = tt
strings-IsErrors (literal q) [] = refl
strings-IsErrors (escaped q) [] = refl
strings-IsErrors code (c ∷ s) = strings-IsErrors (string_step code c) s
strings-IsErrors template (c ∷ s) = strings-IsErrors (string_step template c) s
strings-IsErrors (literal q) (c ∷ s) = strings-IsErrors (string_step (literal q) c) s
strings-IsErrors (escaped q) (c ∷ s) = strings-IsErrors (string_step (escaped q) c) s

pub templates-IsErrors : (m : Mode) (s : Text) → IsErrors (scan_templates m s)
unfolding scan_templates
templates-IsErrors code [] = tt
templates-IsErrors template [] = refl
templates-IsErrors (literal q) [] = tt
templates-IsErrors (escaped q) [] = tt
templates-IsErrors code (c ∷ s) = templates-IsErrors (template_step code c s) s
templates-IsErrors template (c ∷ s) = templates-IsErrors (template_step template c s) s
templates-IsErrors (literal q) (c ∷ s) = templates-IsErrors (template_step (literal q) c s) s
templates-IsErrors (escaped q) (c ∷ s) = templates-IsErrors (template_step (escaped q) c s) s

-- A failing round fails with an error.
abbrev IsFailure : Step → Type 0
IsFailure (go_on m stack) = Unit
IsFailure (fail d) = is_error d ≡ true

pop-IsFailure : (c : ℕ) (stack : List ℕ) → IsFailure (pop c stack)
pop-IsFailure c [] = refl
pop-IsFailure c (top ∷ stack) = ground arith

step-IsFailure :
    (m : Mode) (stack : List ℕ) (c : ℕ) (s : Text) → IsFailure (bracket_step m stack c s)
unfolding code_step
step-IsFailure code stack c s = ground (arith, pop-IsFailure c stack)
step-IsFailure template stack c s = tt
step-IsFailure (literal q) stack c s = tt
step-IsFailure (escaped q) stack c s = tt

bracket-IsErrors : (stack : List ℕ) → IsErrors (unclosed_bracket stack)
bracket-IsErrors [] = tt
bracket-IsErrors (o ∷ stack) = refl

pub brackets-IsErrors : (m : Mode) (stack : List ℕ) (s : Text) → IsErrors (scan_brackets m stack s)
unfolding scan_brackets
brackets-IsErrors m stack [] = bracket-IsErrors stack
brackets-IsErrors m stack (c ∷ s) =
    go (bracket_step m stack c s) (step-IsFailure m stack c s) (λ n st. brackets-IsErrors n st s)
  where
    go :
        (r : Step)
        → IsFailure r
        → ((n : Mode) (st : List ℕ) → IsErrors (scan_brackets n st s))
        → IsErrors (elim r [ go_on n st ↦ scan_brackets n st s | fail d ↦ some d ])
    go (go_on n st) f later = later n st
    go (fail d) f later = f
