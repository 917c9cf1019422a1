-- ===== src/CelLinter/Tests.antt =====
-- The theorem on the linter at a concrete expression, and runs of its checks.
use kro_ui.Prelude.{some, [], ◌∷◌, ◌≡◌, refl, any, length, true, false, ◌↔◌, ◌⊎◌, ◌≤◌}
use kro_ui.Prelude.Text.{codes}
use kro_ui.Prelude.Chars.{trim}
use kro_ui.CelLinter.{
  error, ready_when, is_empty, lint_cel, check_unclosed_templates, scan_templates,
  check_unclosed_strings, scan_strings, unclosed_string, check_unclosed_brackets, scan_brackets,
  code_step, unexpected,
}
use kro_ui.CelLinter.Errors.{is_error}
use kro_ui.CelLinter.Accepted.{IsClosed, is_warning, IsBare, lint_cel_iff}

lint_cel_iff_example :
    (any is_error (lint_cel (codes "a(b)") ready_when) ≡ false
      ↔ ((is_empty (trim (codes "a(b)")) ≡ true) ⊎ IsClosed (codes "a(b)")))
    × (any is_warning (lint_cel (codes "a(b)") ready_when) ≡ true
        ↔ (IsClosed (codes "a(b)") × IsBare (trim (codes "a(b)"))))
    × (length (lint_cel (codes "a(b)") ready_when) ≤ 1)
lint_cel_iff_example = lint_cel_iff (codes "a(b)") ready_when

-- A dollar sign in a literal hides no brace from the template check.
dollar_in_literal :
    check_unclosed_templates (codes "a == '${'")
    ≡ some (record {
      level = error;
      message = codes "Unclosed template expression (missing closing })";
    })
unfolding check_unclosed_templates scan_templates
dollar_in_literal = refl

-- A raw literal that ends with a backslash counts as unclosed.
raw_literal : check_unclosed_strings (114 ∷ 34 ∷ 92 ∷ 34 ∷ []) ≡ some (unclosed_string 34)
unfolding check_unclosed_strings scan_strings
raw_literal = refl

mismatch : check_unclosed_brackets (codes "(a]") ≡ some (unexpected 93)
unfolding check_unclosed_brackets scan_brackets code_step
mismatch = refl
