-- ===== src/CelLinter/Matching.antt =====
-- The expressions in which the bracket check finds nothing are those of the grammar.
use kro_ui.Prelude.{
  ℕ, true, false, none, some, List, [], ◌∷◌, ◌++◌, ◌≡◌, ◌≢◌, refl, ap, sym, ◌∙◌, arith, ◌==◌,
  append_assoc, ◌⊎◌, inl, inr, subst, Bool-cases,
}
use kro_ui.Prelude.Text.{Text}
use kro_ui.CelLinter.{
  Mode, pop, fail, unexpected, unclosed_bracket, code, template, literal, escaped, is_quote, opens,
  opening_of, is_opening, is_closing, code_step, scan_brackets,
}
use kro_ui.CelLinter.Grammar.{
  IsBody, no_more, next, skipped, IsOpenBody, starts_brace, IsInside, is_plain, IsBracketed,
  IsMatched,
}
use kro_ui.CelLinter.Grammar
use kro_ui.CelLinter.Sound.{opens-dollar, brackets_quote, brackets_open, brackets_close}
use kro_ui.CelLinter.Complete.{
  Closes, Escapes, Leaves, Closes-end, Closes-next, Closes-escaped, Leaves-end, Leaves-next,
  Leaves-behind, opens_at,
}

-- A text that closes the open brackets of the stack one after another.
abbrev Unwinds : List ℕ → Text → Type 0
Unwinds [] s = IsMatched s
Unwinds (o ∷ stack) s =
    (a : Text) × (k : ℕ) × (t : Text) × (s ≡ a ++ k ∷ t)
    × IsBracketed a
    × (is_closing k ≡ true)
    × (opening_of k ≡ o)
    × Unwinds stack t

-- A piece that may stand in front of every beginning of the text `s` that matches.
abbrev IsPiece : Text → Text → Type 0
IsPiece p s =
    (a : Text)
    → (starts_brace s ≡ false → starts_brace a ≡ false)
    → IsBracketed a
    → IsBracketed (p ++ a)

no_brace : (s a t : Text) → s ≡ a ++ t → starts_brace s ≡ false → starts_brace a ≡ false
no_brace s [] t e h = refl
no_brace s (c ∷ a) t e h = sym (ap starts_brace e) ∙ h

IsMatched-piece : (p s : Text) → IsPiece p s → IsMatched s → IsMatched (p ++ s)
IsMatched-piece p s f (inl b) = inl (f s (λ h. h) b)
IsMatched-piece p s f (inr (inl (a, q, t, e, b, h, o))) = inr (
    inl (
      p ++ a,
      q,
      t,
      ap (λ x. p ++ x) e ∙ sym (append_assoc p a (q ∷ t)),
      f a (no_brace s a (q ∷ t) e) b,
      h,
      o,
    ))
IsMatched-piece p s f (inr (inr (a, t, e, b, i))) = inr (
    inr (
      p ++ a,
      t,
      ap (λ x. p ++ x) e ∙ sym (append_assoc p a (b'$' ∷ b'{' ∷ t)),
      f a (no_brace s a (b'$' ∷ b'{' ∷ t) e) b,
      i,
    ))

Unwinds-piece :
    (stack : List ℕ) (p s : Text) → IsPiece p s → Unwinds stack s → Unwinds stack (p ++ s)
Unwinds-piece [] p s f m = IsMatched-piece p s f m
Unwinds-piece (o ∷ stack) p s f (a, k, t, e, b, h, m, r) = (
  p ++ a,
  k,
  t,
  ap (λ x. p ++ x) e ∙ sym (append_assoc p a (k ∷ t)),
  f a (no_brace s a (k ∷ t) e) b,
  h,
  m,
  r,
)

-- The pieces.
plain-IsPiece : (c : ℕ) (s : Text) → is_plain c ≡ true → IsPiece (c ∷ []) s
plain-IsPiece c s h a f b = Grammar.IsBracketed.plain h b

dollar-IsPiece : (s : Text) → starts_brace s ≡ false → IsPiece (b'$' ∷ []) s
dollar-IsPiece s h a f b = Grammar.IsBracketed.dollar (f h) b

group-IsPiece :
    (o k : ℕ) (u s : Text)
    → is_opening o ≡ true
    → is_closing k ≡ true
    → opening_of k ≡ o
    → IsBracketed u
    → IsPiece (o ∷ (u ++ k ∷ [])) s
group-IsPiece o k u s p q r d a f b =
    subst (λ x. IsBracketed (o ∷ x)) (sym (append_assoc u (k ∷ []) a))
      (Grammar.IsBracketed.group o k p q r d b)

quoted-IsPiece :
    (q : ℕ) (u s : Text) → is_quote q ≡ true → IsBody q u → IsPiece (q ∷ (u ++ q ∷ [])) s
quoted-IsPiece q u s h d a f b =
    subst (λ x. IsBracketed (q ∷ x)) (sym (append_assoc u (q ∷ []) a))
      (Grammar.IsBracketed.quoted h d b)

template-IsPiece : (u s : Text) → IsInside u → IsPiece (b'$' ∷ b'{' ∷ (u ++ b'}' ∷ [])) s
template-IsPiece u s i a f b =
    subst (λ x. IsBracketed (b'$' ∷ b'{' ∷ x)) (sym (append_assoc u (b'}' ∷ []) a))
      (Grammar.IsBracketed.template u i b)

-- What follows a bracket, a quote and the start of a template.
abbrev LiteralEnds : List ℕ → ℕ → Text → Type 0
LiteralEnds stack q s = Closes (Unwinds stack) q s ⊎ (IsOpenBody q s × (stack ≡ []))

abbrev EscapeEnds : List ℕ → ℕ → Text → Type 0
EscapeEnds stack q s =
    Escapes (Unwinds stack) q s
    ⊎ (((s ≡ []) ⊎ ((c : ℕ) × (t : Text) × (s ≡ c ∷ t) × IsOpenBody q t)) × (stack ≡ []))

abbrev TemplateEnds : List ℕ → Text → Type 0
TemplateEnds stack s = Leaves (Unwinds stack) s ⊎ (IsInside s × (stack ≡ []))

opened :
    (stack : List ℕ) (o : ℕ) (s : Text)
    → is_opening o ≡ true
    → Unwinds (o ∷ stack) s
    → Unwinds stack (o ∷ s)
opened stack o s h (a, k, t, e, b, p, q, r) =
    subst (Unwinds stack) (ap (λ x. o ∷ x) (append_assoc a (k ∷ []) t ∙ sym e))
      (Unwinds-piece stack (o ∷ (a ++ k ∷ [])) t (group-IsPiece o k a t h p q b) r)

quote_opened :
    (stack : List ℕ) (q : ℕ) (s : Text)
    → is_quote q ≡ true
    → LiteralEnds stack q s
    → Unwinds stack (q ∷ s)
quote_opened stack q s h (inl (a, t, e, b, r)) =
    subst (Unwinds stack) (ap (λ x. q ∷ x) (append_assoc a (q ∷ []) t ∙ sym e))
      (Unwinds-piece stack (q ∷ (a ++ q ∷ [])) t (quoted-IsPiece q a t h b) r)
quote_opened stack q s h (inr (o, e)) =
    subst (λ x. Unwinds x (q ∷ s)) (sym e)
      (inr (inl ([], q, s, refl, Grammar.IsBracketed.done, h, o)))

template_opened :
    (stack : List ℕ) (c : ℕ) (s : Text)
    → opens c s ≡ true
    → TemplateEnds stack s
    → Unwinds stack (c ∷ s)
template_opened stack c s h l =
    let (t, e, f) = opens_at c s h in
    subst (Unwinds stack) (ap (λ x. b'$' ∷ x) (sym f) ∙ ap (λ x. x ∷ s) (sym e))
      (go t (subst (TemplateEnds stack) f l))
  where
    go : (t : Text) → TemplateEnds stack (b'{' ∷ t) → Unwinds stack (b'$' ∷ b'{' ∷ t)
    go t (inl l) =
        let (a, u, e, i, r) = Leaves-behind (Unwinds stack) t l in
        subst (Unwinds stack) (ap (λ x. b'$' ∷ b'{' ∷ x) (append_assoc a (b'}' ∷ []) u ∙ sym e))
          (Unwinds-piece stack (b'$' ∷ b'{' ∷ (a ++ b'}' ∷ [])) u (template-IsPiece a u i) r)
    go t (inr ((_, i), e)) =
        subst (λ x. Unwinds x (b'$' ∷ b'{' ∷ t)) (sym e)
          (inr (inr ([], t, refl, Grammar.IsBracketed.done, i)))

-- The remaining characters of the code.
other :
    (stack : List ℕ) (c : ℕ) (s : Text)
    → is_quote c ≡ false
    → opens c s ≡ false
    → is_opening c ≡ false
    → is_closing c ≡ false
    → Unwinds stack s
    → Unwinds stack (c ∷ s)
other stack c s p q r t u = elim (Bool-cases (c == b'$')) [
  | inl e ↦
      let d : c ≡ b'$' = ground (arith, e) in
      subst (λ x. Unwinds stack (x ∷ s)) (sym d)
        (Unwinds-piece stack (b'$' ∷ []) s
          (dollar-IsPiece s (sym (opens-dollar s) ∙ ap (λ x. opens x s) (sym d) ∙ q)) u)
  | inr e ↦ Unwinds-piece stack (c ∷ []) s (plain-IsPiece c s (ground (arith, e, p, r, t))) u
]

abbrev BracketsEnd : Mode → List ℕ → Text → Type 0
BracketsEnd code stack s = Unwinds stack s
BracketsEnd template stack s = TemplateEnds stack s
BracketsEnd (literal q) stack s = LiteralEnds stack q s
BracketsEnd (escaped q) stack s = EscapeEnds stack q s

empty_stack : (stack : List ℕ) → unclosed_bracket stack ≡ none → stack ≡ []
empty_stack [] h = refl
empty_stack (o ∷ stack) h = ground (arith, h)

template_next :
    (stack : List ℕ) (c : ℕ) (s : Text)
    → c ≢ b'}'
    → TemplateEnds stack s
    → TemplateEnds stack (c ∷ s)
template_next stack c s n (inl l) = inl (Leaves-next (Unwinds stack) c s n l)
template_next stack c s n (inr (i, e)) = inr ((n, i), e)

literal_next :
    (stack : List ℕ) (q c : ℕ) (s : Text)
    → c ≢ q
    → c ≢ b'\\'
    → LiteralEnds stack q s
    → LiteralEnds stack q (c ∷ s)
literal_next stack q c s n m (inl l) = inl (Closes-next (Unwinds stack) q c s n m l)
literal_next stack q c s n m (inr (inl b, e)) = inr (inl (next n m b), e)
literal_next stack q c s n m (inr (inr (a, b, f), e)) =
    inr (inr (c ∷ a, next n m b, ap (λ x. c ∷ x) f), e)

literal_escaped :
    (stack : List ℕ) (q c : ℕ) (s : Text)
    → c ≡ b'\\'
    → EscapeEnds stack q s
    → LiteralEnds stack q (c ∷ s)
literal_escaped stack q c s m (inl l) = inl (Closes-escaped (Unwinds stack) q c s m l)
literal_escaped stack q c s m (inr (inl f, e)) =
    inr (inr ([], no_more, ap (λ x. c ∷ x) f ∙ ap (λ x. x ∷ []) m), e)
literal_escaped stack q c s m (inr (inr (d, t, f, inl b), e)) =
    inr (inl (subst (IsBody q) (ap (λ x. c ∷ x) (sym f)) (skipped m b)), e)
literal_escaped stack q c s m (inr (inr (d, t, f, inr (a, b, g)), e)) =
    inr (inr (c ∷ d ∷ a, skipped m b, ap (λ x. c ∷ x) (f ∙ ap (λ x. d ∷ x) g)), e)

escape_next :
    (stack : List ℕ) (q c : ℕ) (s : Text) → LiteralEnds stack q s → EscapeEnds stack q (c ∷ s)
escape_next stack q c s (inl l) = inl (c, s, refl, l)
escape_next stack q c s (inr (o, e)) = inr (inr (c, s, refl, o), e)

-- The rounds of the check that the grammar's lemmas leave out.
brackets_opens :
    (stack : List ℕ) (c : ℕ) (s : Text)
    → is_quote c ≡ false
    → opens c s ≡ true
    → scan_brackets code stack (c ∷ s) ≡ scan_brackets template stack s
unfolding scan_brackets code_step
brackets_opens stack c s p q = ground (arith, p, q)

brackets_other :
    (stack : List ℕ) (c : ℕ) (s : Text)
    → is_quote c ≡ false
    → opens c s ≡ false
    → is_opening c ≡ false
    → is_closing c ≡ false
    → scan_brackets code stack (c ∷ s) ≡ scan_brackets code stack s
unfolding scan_brackets code_step
brackets_other stack c s p q r t = ground (arith, p, q, r, t)

brackets_fail :
    (stack : List ℕ) (c : ℕ) (s : Text)
    → is_quote c ≡ false
    → opens c s ≡ false
    → is_opening c ≡ false
    → is_closing c ≡ true
    → pop c stack ≡ fail (unexpected c)
    → scan_brackets code stack (c ∷ s) ≡ some (unexpected c)
unfolding scan_brackets code_step
brackets_fail stack c s p q r t e = ground (arith, p, q, r, t, e)

closed :
    (stack : List ℕ) (c : ℕ) (s : Text)
    → is_quote c ≡ false
    → opens c s ≡ false
    → is_opening c ≡ false
    → is_closing c ≡ true
    → scan_brackets code stack (c ∷ s) ≡ none
    → ((stack : List ℕ) → scan_brackets code stack s ≡ none → Unwinds stack s)
    → Unwinds stack (c ∷ s)
closed [] c s p q r t h later = ground (arith, sym (brackets_fail [] c s p q r t refl) ∙ h)
closed (top ∷ stack) c s p q r t h later = elim (Bool-cases (top == opening_of c)) [
  | inl e ↦ (
    [],
    c,
    s,
    refl,
    Grammar.IsBracketed.done,
    t,
    ground (arith, e),
    later stack (sym (brackets_close stack top c s t (ground (arith, e))) ∙ h),
  )
  | inr e ↦ ground (arith, sym (brackets_fail (top ∷ stack) c s p q r t (rw e refl)) ∙ h)
]

brackets-BracketsEnd :
    (m : Mode) (stack : List ℕ) (s : Text) → scan_brackets m stack s ≡ none → BracketsEnd m stack s
unfolding scan_brackets code_step
brackets-BracketsEnd code stack [] h =
    subst (λ x. Unwinds x []) (sym (empty_stack stack h)) (inl Grammar.IsBracketed.done)
brackets-BracketsEnd template stack [] h = inr (tt, empty_stack stack h)
brackets-BracketsEnd (literal q) stack [] h = inr (inl no_more, empty_stack stack h)
brackets-BracketsEnd (escaped q) stack [] h = inr (inl refl, empty_stack stack h)
brackets-BracketsEnd template stack (c ∷ s) h = elim (Bool-cases (c == b'}')) [
  | inl e ↦ inl (
      Leaves-end (Unwinds stack) c s (ground (arith, e))
        (brackets-BracketsEnd code stack s (rw e at h)))
  | inr e ↦
      template_next stack c s (λ k. ground (arith, e, k))
        (brackets-BracketsEnd template stack s (rw e at h))
]
brackets-BracketsEnd (escaped q) stack (c ∷ s) h =
    escape_next stack q c s (brackets-BracketsEnd (literal q) stack s h)
brackets-BracketsEnd (literal q) stack (c ∷ s) h = elim (Bool-cases (c == b'\\')) [
  | inl e ↦
      literal_escaped stack q c s (ground (arith, e))
        (brackets-BracketsEnd (escaped q) stack s (rw e at h))
  | inr e ↦ elim (Bool-cases (c == q)) [
    | inl f ↦ inl (
        Closes-end (Unwinds stack) q c s (ground (arith, f))
          (brackets-BracketsEnd code stack s (rw (e, f) at h)))
    | inr f ↦
        literal_next stack q c s (λ k. ground (arith, f, k)) (λ k. ground (arith, e, k))
          (brackets-BracketsEnd (literal q) stack s (rw (e, f) at h))
  ]
]
brackets-BracketsEnd code stack (c ∷ s) h = elim (Bool-cases (is_quote c)) [
  | inl p ↦
      quote_opened stack c s p
        (brackets-BracketsEnd (literal c) stack s (sym (brackets_quote stack c s p) ∙ h))
  | inr p ↦ elim (Bool-cases (opens c s)) [
    | inl q ↦
        template_opened stack c s q
          (brackets-BracketsEnd template stack s (sym (brackets_opens stack c s p q) ∙ h))
    | inr q ↦ elim (Bool-cases (is_opening c)) [
      | inl r ↦
          opened stack c s r
            (brackets-BracketsEnd code (c ∷ stack) s (sym (brackets_open stack c s r) ∙ h))
      | inr r ↦ elim (Bool-cases (is_closing c)) [
        | inl t ↦ closed stack c s p q r t h (λ st. brackets-BracketsEnd code st s)
        | inr t ↦
            other stack c s p q r t
              (brackets-BracketsEnd code stack s (sym (brackets_other stack c s p q r t) ∙ h))
      ]
    ]
  ]
]

pub brackets_complete : (s : Text) → scan_brackets code [] s ≡ none → IsMatched s
brackets_complete s h = brackets-BracketsEnd code [] s h
