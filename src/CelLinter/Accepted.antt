-- ===== src/CelLinter/Accepted.antt =====
-- What the linter says of an expression.
use kro_ui.Prelude.{
  ℕ, Bool, true, false, Option, none, some, List, [], ◌∷◌, ◌++◌, ◌≡◌, refl, ap, ◌∙◌, arith, ◌==◌,
  ◌≤◌, any, length, ◌↔◌, ◌⊎◌, inl, inr, if◌then◌else◌, Bool-cases, Option-cases, is_some,
}
use kro_ui.Prelude.Text.{Text}
use kro_ui.Prelude.Chars.{trim}
use kro_ui.CelLinter.{
  CelContext, CelDiagnostic, error, warning, code, is_quote, is_operator, check_unclosed_strings,
  check_unclosed_templates, check_unclosed_brackets, without_last, quoted_inside, bare_warning,
  check_bare_string_literal, is_empty, diagnostics, or_check, lint_cel,
}
use kro_ui.CelLinter.Errors.{
  is_error, IsErrors, strings-IsErrors, templates-IsErrors, brackets-IsErrors,
}
use kro_ui.CelLinter.Grammar.{IsTerminated, IsInterpolated, IsMatched}
use kro_ui.CelLinter.Sound.{strings-terminated, templates-interpolated, brackets-matched}
use kro_ui.CelLinter.Complete.{strings_complete, templates_complete}
use kro_ui.CelLinter.Matching.{brackets_complete}

-- Literals and templates end, and brackets match.
abbrev pub IsClosed : Text → Type 0
IsClosed s = IsTerminated s × IsInterpolated s × IsMatched s

abbrev pub is_warning : CelDiagnostic → Bool
is_warning d = elim d.level [ error ↦ false | warning ↦ true ]

-- One literal between two equal quotes, without an operator inside.
abbrev pub IsBare : Text → Type 0
IsBare t =
    (q : ℕ) × (s : Text) × (t ≡ q ∷ (s ++ q ∷ []))
    × (is_quote q ≡ true)
    × (any is_operator s ≡ false)

-- The last check, which warns.
without_last_sound : (q : ℕ) (s r : Text) → without_last q s ≡ some r → s ≡ r ++ q ∷ []
without_last_sound q [] r h = ground (arith, h)
without_last_sound q (c ∷ []) r h = elim (Bool-cases (c == q)) [
  | inl e ↦ ground (arith, h, e)
  | inr e ↦ ground (arith, h, e)
]
without_last_sound q (c ∷ d ∷ s) r h = elim (Option-cases (without_last q (d ∷ s))) [
  | inl e ↦ ground (arith, h, e)
  | inr (t, e) ↦ ground (arith, h, e, without_last_sound q (d ∷ s) t e)
]

without_last_lem : (q : ℕ) (r : Text) → without_last q (r ++ q ∷ []) ≡ some r
without_last_lem q [] = ground arith
without_last_lem q (c ∷ []) = ground (arith, without_last_lem q [])
without_last_lem q (c ∷ d ∷ r) = ground (arith, without_last_lem q (d ∷ r))

-- The check behind `trim`.
abbrev bare_check : CelContext → Text → Option CelDiagnostic
bare_check context t = elim (quoted_inside t) [
  | none ↦ none
  | some inner ↦ if any is_operator inner then none else some (bare_warning context)
]

bare_check_lem :
    (context : CelContext) (t : Text) → IsBare t → is_some (bare_check context t) ≡ true
bare_check_lem context t (q, s, e, h, n) =
    ap (λ x. is_some (bare_check context x)) e ∙ ground (arith, h, n, without_last_lem q s)

bare_check_sound :
    (context : CelContext) (t : Text) → is_some (bare_check context t) ≡ true → IsBare t
bare_check_sound context [] h = ground (arith, h)
bare_check_sound context (c ∷ s) h = elim (Bool-cases (is_quote c)) [
  | inr e ↦ ground (arith, h, e)
  | inl e ↦ elim (Option-cases (without_last c s)) [
    | inl f ↦ ground (arith, h, e, f)
    | inr (r, f) ↦ (c, r, ap (λ x. c ∷ x) (without_last_sound c s r f), e, ground (arith, h, e, f))
  ]
]

bare_check-warning :
    (context : CelContext) (t : Text) (d : CelDiagnostic)
    → bare_check context t ≡ some d
    → is_error d ≡ false
bare_check-warning context t d h = elim (Option-cases (quoted_inside t)) [
  | inl e ↦ ground (arith, h, e)
  | inr (r, e) ↦ ground (arith, h, e)
]

-- What the checks say together.
abbrev IsVerdict :
    Option CelDiagnostic
    → Option CelDiagnostic
    → Option CelDiagnostic
    → Option CelDiagnostic
    → List CelDiagnostic
    → Type 0
IsVerdict a b c w ds =
    (any is_error ds ≡ false ↔ ((a ≡ none) × (b ≡ none) × (c ≡ none)))
    × (any is_warning ds ≡ true ↔ ((a ≡ none) × (b ≡ none) × (c ≡ none) × (is_some w ≡ true)))
    × (length ds ≤ 1)

IsVerdict-of :
    (a b c w : Option CelDiagnostic)
    → IsErrors a
    → IsErrors b
    → IsErrors c
    → ((d : CelDiagnostic) → w ≡ some d → is_error d ≡ false)
    → IsVerdict a b c w (diagnostics (or_check a (or_check b (or_check c w))))
IsVerdict-of (some d) b c w h k l n = (
  (λ x. ground (arith, x, h), λ (x, y, z). ground (arith, x, y, z)),
  (λ x. ground (arith, x, h), λ (x, y, z, _). ground (arith, x, y, z)),
  omega arith,
)
IsVerdict-of none (some d) c w h k l n = (
  (λ x. ground (arith, x, k), λ (x, y, z). ground (arith, x, y, z)),
  (λ x. ground (arith, x, k), λ (x, y, z, _). ground (arith, x, y, z)),
  omega arith,
)
IsVerdict-of none none (some d) w h k l n = (
  (λ x. ground (arith, x, l), λ (x, y, z). ground (arith, x, y, z)),
  (λ x. ground (arith, x, l), λ (x, y, z, _). ground (arith, x, y, z)),
  omega arith,
)
IsVerdict-of none none none none h k l n = (
  (λ x. (refl, refl, refl), λ x. refl),
  (λ x. ground (arith, x), λ (_, _, _, x). ground (arith, x)),
  omega arith,
)
IsVerdict-of none none none (some d) h k l n =
    let f = n d refl in
    (
      (λ x. (refl, refl, refl), λ x. ground (arith, f)),
      (λ x. (refl, refl, refl, refl), λ x. ground (arith, f)),
      omega arith,
    )

checks_iff :
    (expr : Text)
    → ((check_unclosed_strings expr ≡ none)
        × (check_unclosed_templates expr ≡ none)
        × (check_unclosed_brackets expr ≡ none))
      ↔ IsClosed expr
unfolding check_unclosed_strings check_unclosed_templates check_unclosed_brackets
checks_iff expr = (
  (λ (a, b, c). (strings_complete expr a, templates_complete expr b, brackets_complete expr c)),
  (λ (a, b, c). (strings-terminated a, templates-interpolated b, brackets-matched c)),
)

-- The linter reports an error exactly for an expression that is not blank and in which a literal does
-- not end, a template does not end, wherever it starts, or the brackets outside of literals and
-- templates do not match; it warns exactly of an expression without such a fault that is, trimmed,
-- one text between equal quotes without an operator; and it reports one thing at most.
pub lint_cel_iff :
    (expr : Text) (context : CelContext)
    → (any is_error (lint_cel expr context) ≡ false
        ↔ ((is_empty (trim expr) ≡ true) ⊎ IsClosed expr))
      × (any is_warning (lint_cel expr context) ≡ true ↔ (IsClosed expr × IsBare (trim expr)))
      × (length (lint_cel expr context) ≤ 1)
unfolding lint_cel check_bare_string_literal
lint_cel_iff expr context = go (is_empty (trim expr)) refl
  where
    ds : List CelDiagnostic
    ds = diagnostics (
        or_check (check_unclosed_strings expr) (
          or_check (check_unclosed_templates expr)
            (or_check (check_unclosed_brackets expr) (bare_check context (trim expr)))))

    said :
        IsVerdict
          (check_unclosed_strings expr)
          (check_unclosed_templates expr)
          (check_unclosed_brackets expr)
          (bare_check context (trim expr))
          ds
    said =
        IsVerdict-of (check_unclosed_strings expr) (check_unclosed_templates expr)
          (check_unclosed_brackets expr) (bare_check context (trim expr))
          (unfold check_unclosed_strings in strings-IsErrors code expr)
          (unfold check_unclosed_templates in templates-IsErrors code expr)
          (unfold check_unclosed_brackets in brackets-IsErrors code [] expr)
          (bare_check-warning context (trim expr))

    go :
        (t : Bool)
        → is_empty (trim expr) ≡ t
        → (any is_error (if t then [] else ds) ≡ false ↔ ((t ≡ true) ⊎ IsClosed expr))
          × (any is_warning (if t then [] else ds) ≡ true ↔ (IsClosed expr × IsBare (trim expr)))
          × (length (if t then [] else ds) ≤ 1)
    go true e = (
      (λ x. inl refl, λ x. refl),
      (λ x. ground (arith, x), λ (_, (q, s, f, _, _)). ground (arith, e, ap is_empty f)),
      omega arith,
    )
    go false e =
        let (errs, warns, c) = said in
        let (f, g) = checks_iff expr in
        (
          (
            λ x. inr (f (errs.0 x)),
            λ x. elim x [ inl t ↦ ground (arith, t) | inr d ↦ errs.1 (g d) ],
          ),
          (
            (λ x.
                let (i, j, k, l) = warns.0 x in
                (f (i, j, k), bare_check_sound context (trim expr) l)),
            (λ (d, b).
                let (i, j, k) = g d in warns.1 (i, j, k, bare_check_lem context (trim expr) b)),
          ),
          c,
        )
