-- ===== src/CelLinter/Complete.antt =====
-- The expressions in which the checks find nothing are the ones that the grammar describes.
use kro_ui.Prelude.{
  ℕ, true, false, none, [], ◌∷◌, ◌++◌, ◌≡◌, ◌≢◌, refl, ap, sym, ◌∙◌, arith, ◌==◌, inl, inr, subst,
  Bool-cases,
}
use kro_ui.Prelude.Text.{Text}
use kro_ui.CelLinter.{
  Mode, code, template, literal, escaped, is_quote, opens, scan_strings, scan_templates,
}
use kro_ui.CelLinter.Grammar.{
  IsBody, no_more, next, skipped, IsOpenBody, IsTerminated, starts_brace, IsInside, IsInterpolated,
  is_plain, IsBracketed, IsMatched,
}
use kro_ui.CelLinter.Grammar
use kro_ui.CelLinter.Sound.{opens-dollar}

-- The rest of a text in a mode, up to where the literal ends and from there on.
abbrev pub Closes : (Text → Type 0) → ℕ → Text → Type 0
Closes P q s = (a : Text) × (t : Text) × (s ≡ a ++ q ∷ t) × IsBody q a × P t

abbrev pub Escapes : (Text → Type 0) → ℕ → Text → Type 0
Escapes P q s = (c : ℕ) × (t : Text) × (s ≡ c ∷ t) × Closes P q t

-- One more character of the literal.
pub Closes-end : (P : Text → Type 0) (q c : ℕ) (s : Text) → c ≡ q → P s → Closes P q (c ∷ s)
Closes-end P q c s e p = ([], s, ap (λ x. x ∷ s) e, no_more, p)

pub Closes-next :
    (P : Text → Type 0) (q c : ℕ) (s : Text) → c ≢ q → c ≢ b'\\' → Closes P q s → Closes P q (c ∷ s)
Closes-next P q c s n m (a, t, e, b, p) = (c ∷ a, t, ap (λ x. c ∷ x) e, next n m b, p)

pub Closes-escaped :
    (P : Text → Type 0) (q c : ℕ) (s : Text) → c ≡ b'\\' → Escapes P q s → Closes P q (c ∷ s)
Closes-escaped P q c s m (d, u, f, (a, t, e, b, p)) =
    (c ∷ d ∷ a, t, ap (λ x. c ∷ x) (f ∙ ap (λ x. d ∷ x) e), skipped m b, p)

-- String check.
abbrev StringsEnd : Mode → Text → Type 0
StringsEnd (literal q) s = Closes IsTerminated q s
StringsEnd (escaped q) s = Escapes IsTerminated q s
StringsEnd _ s = IsTerminated s

quoted_text :
    (q : ℕ) (s : Text) → is_quote q ≡ true → Closes IsTerminated q s → IsTerminated (q ∷ s)
quoted_text q s h (a, t, e, b, d) =
    subst (λ x. IsTerminated (q ∷ x)) (sym e) (Grammar.IsTerminated.quoted h b d)

strings-StringsEnd : (m : Mode) (s : Text) → scan_strings m s ≡ none → StringsEnd m s
unfolding scan_strings
strings-StringsEnd code [] h = Grammar.IsTerminated.done
strings-StringsEnd template [] h = Grammar.IsTerminated.done
strings-StringsEnd (literal q) [] h = ground (arith, h)
strings-StringsEnd (escaped q) [] h = ground (arith, h)
strings-StringsEnd code (c ∷ s) h = elim (Bool-cases (is_quote c)) [
  | inl e ↦ quoted_text c s e (strings-StringsEnd (literal c) s (rw e at h))
  | inr e ↦ Grammar.IsTerminated.char e (strings-StringsEnd code s (rw e at h))
]
strings-StringsEnd template (c ∷ s) h = elim (Bool-cases (is_quote c)) [
  | inl e ↦ quoted_text c s e (strings-StringsEnd (literal c) s (rw e at h))
  | inr e ↦ Grammar.IsTerminated.char e (strings-StringsEnd code s (rw e at h))
]
strings-StringsEnd (escaped q) (c ∷ s) h = (c, s, refl, strings-StringsEnd (literal q) s h)
strings-StringsEnd (literal q) (c ∷ s) h = elim (Bool-cases (c == b'\\')) [
  | inl e ↦
      Closes-escaped IsTerminated q c s (ground (arith, e))
        (strings-StringsEnd (escaped q) s (rw e at h))
  | inr e ↦ elim (Bool-cases (c == q)) [
    | inl f ↦
        Closes-end IsTerminated q c s (ground (arith, f))
          (strings-StringsEnd code s (rw (e, f) at h))
    | inr f ↦
        Closes-next IsTerminated q c s (λ k. ground (arith, f, k)) (λ k. ground (arith, e, k))
          (strings-StringsEnd (literal q) s (rw (e, f) at h))
  ]
]

pub strings_complete : (s : Text) → scan_strings code s ≡ none → IsTerminated s
strings_complete s h = strings-StringsEnd code s h

-- Template check.
abbrev pub Leaves : (Text → Type 0) → Text → Type 0
Leaves P s = (a : Text) × (t : Text) × (s ≡ a ++ b'}' ∷ t) × IsInside a × P t

pub Leaves-end : (P : Text → Type 0) (c : ℕ) (s : Text) → c ≡ b'}' → P s → Leaves P (c ∷ s)
Leaves-end P c s e p = ([], s, ap (λ x. x ∷ s) e, tt, p)

pub Leaves-next : (P : Text → Type 0) (c : ℕ) (s : Text) → c ≢ b'}' → Leaves P s → Leaves P (c ∷ s)
Leaves-next P c s n (a, t, e, i, p) = (c ∷ a, t, ap (λ x. c ∷ x) e, (n, i), p)

-- The brace that opens a template is not the one that closes it.
pub Leaves-behind : (P : Text → Type 0) (s : Text) → Leaves P (b'{' ∷ s) → Leaves P s
Leaves-behind P s ([], t, e, i, p) = ground (arith, e)
Leaves-behind P s (c ∷ a, t, e, (_, i), p) = (a, t, ground (arith, e), i, p)

pub opens_at : (c : ℕ) (s : Text) → opens c s ≡ true → (t : Text) × (c ≡ b'$') × (s ≡ b'{' ∷ t)
opens_at c [] h = ground (arith, h)
opens_at c (d ∷ s) h = (s, ground (arith, h), ap (λ x. x ∷ s) (ground (arith, h)))

abbrev TemplatesEnd : Mode → Text → Type 0
TemplatesEnd template s = Leaves IsInterpolated s
TemplatesEnd _ s = IsInterpolated s

template_text :
    (c : ℕ) (s : Text) → opens c s ≡ true → Leaves IsInterpolated s → IsInterpolated (c ∷ s)
template_text c s h l =
    let (t, e, f) = opens_at c s h in
    let (a, u, g, i, d) = Leaves-behind IsInterpolated t (subst (Leaves IsInterpolated) f l) in
    subst IsInterpolated
      (ap (λ x. b'$' ∷ b'{' ∷ x) (sym g) ∙ ap (λ x. b'$' ∷ x) (sym f) ∙ ap (λ x. x ∷ s) (sym e))
      (Grammar.IsInterpolated.template a i d)

code_text : (c : ℕ) (s : Text) → opens c s ≡ false → IsInterpolated s → IsInterpolated (c ∷ s)
code_text c s h d = elim (Bool-cases (c == b'$')) [
  | inl e ↦
      let p : c ≡ b'$' = ground (arith, e) in
      subst (λ x. IsInterpolated (x ∷ s)) (sym p)
        (Grammar.IsInterpolated.dollar (sym (opens-dollar s) ∙ ap (λ x. opens x s) (sym p) ∙ h) d)
  | inr e ↦ Grammar.IsInterpolated.char (λ k. ground (arith, e, k)) d
]

templates-TemplatesEnd : (m : Mode) (s : Text) → scan_templates m s ≡ none → TemplatesEnd m s
unfolding scan_templates
templates-TemplatesEnd template [] h = ground (arith, h)
templates-TemplatesEnd code [] h = Grammar.IsInterpolated.done
templates-TemplatesEnd (literal q) [] h = Grammar.IsInterpolated.done
templates-TemplatesEnd (escaped q) [] h = Grammar.IsInterpolated.done
templates-TemplatesEnd template (c ∷ s) h = elim (Bool-cases (c == b'}')) [
  | inl e ↦
      Leaves-end IsInterpolated c s (ground (arith, e)) (templates-TemplatesEnd code s (rw e at h))
  | inr e ↦
      Leaves-next IsInterpolated c s (λ k. ground (arith, e, k))
        (templates-TemplatesEnd template s (rw e at h))
]
templates-TemplatesEnd code (c ∷ s) h = elim (Bool-cases (opens c s)) [
  | inl e ↦ template_text c s e (templates-TemplatesEnd template s (rw e at h))
  | inr e ↦ code_text c s e (templates-TemplatesEnd code s (rw e at h))
]
templates-TemplatesEnd (literal q) (c ∷ s) h = elim (Bool-cases (opens c s)) [
  | inl e ↦ template_text c s e (templates-TemplatesEnd template s (rw e at h))
  | inr e ↦ code_text c s e (templates-TemplatesEnd code s (rw e at h))
]
templates-TemplatesEnd (escaped q) (c ∷ s) h = elim (Bool-cases (opens c s)) [
  | inl e ↦ template_text c s e (templates-TemplatesEnd template s (rw e at h))
  | inr e ↦ code_text c s e (templates-TemplatesEnd code s (rw e at h))
]

pub templates_complete : (s : Text) → scan_templates code s ≡ none → IsInterpolated s
templates_complete s h = templates-TemplatesEnd code s h
