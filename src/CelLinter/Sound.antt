-- ===== src/CelLinter/Sound.antt =====
-- The checks find nothing in the expressions that the grammar describes.
use kro_ui.Prelude.{
  ℕ, true, false, none, List, [], ◌∷◌, ◌++◌, ◌≡◌, ◌≢◌, refl, ap, sym, ◌∙◌, arith, append_assoc,
  append-nil, inl, inr,
}
use kro_ui.Prelude.Text.{Text}
use kro_ui.CelLinter.{
  code, template, literal, is_quote, opens, opening_of, is_opening, is_closing, code_step,
  scan_strings, scan_templates, scan_brackets,
}
use kro_ui.CelLinter.Grammar.{
  IsBody, no_more, next, skipped, IsOpenBody, IsTerminated, starts_brace, IsInside, IsInterpolated,
  is_plain, IsBracketed, IsMatched,
}
use kro_ui.CelLinter.Grammar

pub opens_lem : (c : ℕ) (s : Text) → c ≢ b'$' → opens c s ≡ false
opens_lem c [] h = refl
opens_lem c (d ∷ s) h = ground (arith, h)

pub opens-dollar : (s : Text) → opens b'$' s ≡ starts_brace s
opens-dollar [] = refl
opens-dollar (d ∷ s) = refl

-- String check.
strings-body :
    (q : ℕ) (rest : Text) {s : Text}
    → is_quote q ≡ true
    → IsBody q s
    → scan_strings (literal q) (s ++ q ∷ rest) ≡ scan_strings code rest
unfolding scan_strings
strings-body q rest h no_more = ground arith
strings-body q rest h (next a b m) = ground (arith, strings-body q rest h m)
strings-body q rest h (skipped a m) = ground (arith, strings-body q rest h m)

pub strings-terminated : {s : Text} → IsTerminated s → scan_strings code s ≡ none
unfolding scan_strings
strings-terminated Grammar.IsTerminated.done = refl
strings-terminated (Grammar.IsTerminated.char h d) = ground (arith, strings-terminated d)
strings-terminated (Grammar.IsTerminated.quoted {q} {s} {t} h b d) =
    ground (arith, strings-body q t h b ∙ strings-terminated d)

-- Template check.
templates-inside :
    (s rest : Text)
    → IsInside s
    → scan_templates template (s ++ b'}' ∷ rest) ≡ scan_templates code rest
unfolding scan_templates
templates-inside [] rest h = refl
templates-inside (c ∷ s) rest (a, h) = ground (arith, templates-inside s rest h)

pub templates-interpolated : {s : Text} → IsInterpolated s → scan_templates code s ≡ none
unfolding scan_templates
templates-interpolated Grammar.IsInterpolated.done = refl
templates-interpolated (Grammar.IsInterpolated.char {c} {s} h d) =
    ground (arith, opens_lem c s h, templates-interpolated d)
templates-interpolated (Grammar.IsInterpolated.dollar {s} h d) =
    ground (arith, opens-dollar s, templates-interpolated d)
templates-interpolated (Grammar.IsInterpolated.template s {t} i d) =
    templates-inside s t i ∙ templates-interpolated d

-- Bracket check.
brackets-body :
    (q : ℕ) (stack : List ℕ) (rest : Text) {s : Text}
    → is_quote q ≡ true
    → IsBody q s
    → scan_brackets (literal q) stack (s ++ q ∷ rest) ≡ scan_brackets code stack rest
unfolding scan_brackets
brackets-body q stack rest h no_more = ground arith
brackets-body q stack rest h (next a b m) = ground (arith, brackets-body q stack rest h m)
brackets-body q stack rest h (skipped a m) = ground (arith, brackets-body q stack rest h m)

brackets-inside :
    (stack : List ℕ) (s rest : Text)
    → IsInside s
    → scan_brackets template stack (s ++ b'}' ∷ rest) ≡ scan_brackets code stack rest
unfolding scan_brackets
brackets-inside stack [] rest h = refl
brackets-inside stack (c ∷ s) rest (a, h) = ground (arith, brackets-inside stack s rest h)

brackets_plain :
    (stack : List ℕ) (c : ℕ) (s : Text)
    → is_plain c ≡ true
    → scan_brackets code stack (c ∷ s) ≡ scan_brackets code stack s
unfolding scan_brackets code_step
brackets_plain stack c s h = ground (arith, opens_lem c s)

brackets_dollar :
    (stack : List ℕ) (s rest : Text)
    → starts_brace s ≡ false
    → starts_brace rest ≡ false
    → scan_brackets code stack (b'$' ∷ (s ++ rest)) ≡ scan_brackets code stack (s ++ rest)
unfolding scan_brackets code_step
brackets_dollar stack [] rest h k = ground (arith, opens-dollar rest, k)
brackets_dollar stack (c ∷ s) rest h k = ground (arith, h)

pub brackets_open :
    (stack : List ℕ) (o : ℕ) (s : Text)
    → is_opening o ≡ true
    → scan_brackets code stack (o ∷ s) ≡ scan_brackets code (o ∷ stack) s
unfolding scan_brackets code_step
brackets_open stack o s h = ground (arith, opens_lem o s)

pub brackets_close :
    (stack : List ℕ) (o k : ℕ) (s : Text)
    → is_closing k ≡ true
    → opening_of k ≡ o
    → scan_brackets code (o ∷ stack) (k ∷ s) ≡ scan_brackets code stack s
unfolding scan_brackets code_step
brackets_close stack o k s h e = ground (arith, opens_lem k s)

pub brackets_quote :
    (stack : List ℕ) (q : ℕ) (s : Text)
    → is_quote q ≡ true
    → scan_brackets code stack (q ∷ s) ≡ scan_brackets (literal q) stack s
unfolding scan_brackets code_step
brackets_quote stack q s h = ground arith

brackets_template :
    (stack : List ℕ) (s : Text)
    → scan_brackets code stack (b'$' ∷ b'{' ∷ s) ≡ scan_brackets template stack s
unfolding scan_brackets code_step
brackets_template stack s = refl

brackets-bracketed :
    (stack : List ℕ) (rest : Text) {s : Text}
    → starts_brace rest ≡ false
    → IsBracketed s
    → scan_brackets code stack (s ++ rest) ≡ scan_brackets code stack rest
brackets-bracketed stack rest n Grammar.IsBracketed.done = refl
brackets-bracketed stack rest n (Grammar.IsBracketed.plain {c} {s} p d) =
    brackets_plain stack c (s ++ rest) p ∙ brackets-bracketed stack rest n d
brackets-bracketed stack rest n (Grammar.IsBracketed.dollar {s} p d) =
    brackets_dollar stack s rest p n ∙ brackets-bracketed stack rest n d
brackets-bracketed stack rest n (Grammar.IsBracketed.group o k {s} {t} p q r d e) =
    brackets_open stack o ((s ++ k ∷ t) ++ rest) p
    ∙ ap (scan_brackets code (o ∷ stack)) (append_assoc s (k ∷ t) rest)
    ∙ brackets-bracketed (o ∷ stack) (k ∷ (t ++ rest)) (ground (arith, q)) d
    ∙ brackets_close stack o k (t ++ rest) q r
    ∙ brackets-bracketed stack rest n e
brackets-bracketed stack rest n (Grammar.IsBracketed.quoted {q} {s} {t} p b d) =
    brackets_quote stack q ((s ++ q ∷ t) ++ rest) p
    ∙ ap (scan_brackets (literal q) stack) (append_assoc s (q ∷ t) rest)
    ∙ brackets-body q stack (t ++ rest) p b
    ∙ brackets-bracketed stack rest n d
brackets-bracketed stack rest n (Grammar.IsBracketed.template s {t} i d) =
    brackets_template stack ((s ++ b'}' ∷ t) ++ rest)
    ∙ ap (scan_brackets template stack) (append_assoc s (b'}' ∷ t) rest)
    ∙ brackets-inside stack s (t ++ rest) i
    ∙ brackets-bracketed stack rest n d

-- A literal and a template that do not end.
open_literal :
    (q : ℕ) (rest : Text) {s : Text}
    → IsBody q s
    → scan_brackets (literal q) [] rest ≡ none
    → scan_brackets (literal q) [] (s ++ rest) ≡ none
unfolding scan_brackets
open_literal q rest no_more h = h
open_literal q rest (next a b m) h = ground (arith, open_literal q rest m h)
open_literal q rest (skipped a m) h = ground (arith, open_literal q rest m h)

open_body : (q : ℕ) (s : Text) → IsOpenBody q s → scan_brackets (literal q) [] s ≡ none
unfolding scan_brackets
open_body q s (inl b) =
    ap (scan_brackets (literal q) []) (sym (append-nil s)) ∙ open_literal q [] b refl
open_body q s (inr (a, b, e)) =
    ap (scan_brackets (literal q) []) e ∙ open_literal q (b'\\' ∷ []) b (ground arith)

open_template : (s : Text) → IsInside s → scan_brackets template [] s ≡ none
unfolding scan_brackets
open_template [] h = refl
open_template (c ∷ s) (a, h) = ground (arith, open_template s h)

pub brackets-matched : {s : Text} → IsMatched s → scan_brackets code [] s ≡ none
brackets-matched {s} (inl b) =
    ap (scan_brackets code []) (sym (append-nil s))
    ∙ brackets-bracketed [] [] refl b
    ∙ (unfold scan_brackets in refl)
brackets-matched (inr (inl (a, q, t, e, b, h, o))) =
    ap (scan_brackets code []) e
    ∙ brackets-bracketed [] (q ∷ t) (ground (arith, h)) b
    ∙ brackets_quote [] q t h
    ∙ open_body q t o
brackets-matched (inr (inr (a, t, e, b, i))) =
    ap (scan_brackets code []) e
    ∙ brackets-bracketed [] (b'$' ∷ b'{' ∷ t) refl b
    ∙ brackets_template [] t
    ∙ open_template t i
