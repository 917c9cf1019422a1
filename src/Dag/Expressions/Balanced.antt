-- ===== src/Dag/Expressions/Balanced.antt =====
-- What is found: every expression that is balanced, but for the literals with single quotes.
use kro_ui.Prelude.{
  ℕ, suc, ◌-◌, Bool, true, false, not, Option, some, [], ◌∷◌, ◌++◌, ◌≡◌, ◌≢◌, refl, ap, sym, All,
  ◌∙◌, arith, append_assoc,
}
use kro_ui.Prelude.Text.{Text}
use kro_ui.Dag.Expressions.Sound.{found, extract_expressions_lem, extract_expressions-Extracts}
use kro_ui.Dag.Expressions.{prepend, close_from, after_marker, extract_expressions}

-- The inside of a double-quoted literal: a quote or a backslash stands only behind a backslash.
pub data IsLiteral : Text → Type 0 where
  done : IsLiteral []
  char : {c : ℕ} {s : Text} → c ≢ b'"' → c ≢ b'\\' → IsLiteral s → IsLiteral (c ∷ s)
  escape : {c d : ℕ} {s : Text} → c ≡ b'\\' → IsLiteral s → IsLiteral (c ∷ d ∷ s)

-- An expression whose braces are balanced, where braces in double-quoted literals do not count.
pub data IsBalanced : Text → Type 0 where
  done : IsBalanced []
  char : {c : ℕ} {s : Text} → c ≢ b'"' → c ≢ b'{' → c ≢ b'}' → IsBalanced s → IsBalanced (c ∷ s)
  braces :
      {o k : ℕ} {s t : Text}
      → o ≡ b'{'
      → k ≡ b'}'
      → IsBalanced s
      → IsBalanced t
      → IsBalanced (o ∷ (s ++ k ∷ t))
  quoted :
      {q q' : ℕ} {s t : Text}
      → q ≡ b'"'
      → q' ≡ b'"'
      → IsLiteral s
      → IsBalanced t
      → IsBalanced (q ∷ (s ++ q' ∷ t))

abbrev prepend_all : Text → Option (Text × Text) → Option (Text × Text)
prepend_all [] o = o
prepend_all (c ∷ s) o = prepend c (prepend_all s o)

prepend_all-append :
    (s t : Text) (o : Option (Text × Text))
    → prepend_all (s ++ t) o ≡ prepend_all s (prepend_all t o)
prepend_all-append [] t o = refl
prepend_all-append (c ∷ s) t o = ap (prepend c) (prepend_all-append s t o)

close_literal :
    (n : ℕ) {l : Text} (r : Text)
    → IsLiteral l
    → close_from n true false (l ++ r) ≡ prepend_all l (close_from n true false r)
unfolding close_from
close_literal n r done = refl
close_literal n r (char {c} {s} p q l) = ground (arith, close_literal n r l)
close_literal n r (escape {c} {d} {s} p l) = ground (arith, close_literal n r l)

plain_char :
    (n c : ℕ) (u : Text)
    → c ≢ b'"'
    → c ≢ b'{'
    → c ≢ b'}'
    → close_from (suc n) false false (c ∷ u) ≡ prepend c (close_from (suc n) false false u)
unfolding close_from
plain_char n c u p q w = ground arith

open_brace :
    (n o : ℕ) (u : Text)
    → o ≡ b'{'
    → close_from (suc n) false false (o ∷ u) ≡ prepend o (close_from (suc (suc n)) false false u)
unfolding close_from
open_brace n o u p = rw p (ap (λ m. prepend b'{' (close_from m false false u)) (omega arith))

close_brace :
    (n k : ℕ) (u : Text)
    → k ≡ b'}'
    → close_from (suc (suc n)) false false (k ∷ u) ≡ prepend k (close_from (suc n) false false u)
unfolding close_from
close_brace n k u p = ground (arith, minus n)
  where
    minus : (n : ℕ) → suc (suc n) - 1 ≡ suc n
    minus n = omega arith

quote_toggles :
    (n q : ℕ) (b : Bool) (u : Text)
    → q ≡ b'"'
    → close_from n b false (q ∷ u) ≡ prepend q (close_from n (not b) false u)
unfolding close_from
quote_toggles n q true u p = rw p
quote_toggles n q false u p = rw p

close_balanced :
    (n : ℕ) {b : Text} (r : Text)
    → IsBalanced b
    → close_from (suc n) false false (b ++ r) ≡ prepend_all b (close_from (suc n) false false r)
close_balanced n r done = refl
close_balanced n r (char {c} {s} p q w b) =
    plain_char n c (s ++ r) p q w ∙ ap (prepend c) (close_balanced n r b)
close_balanced n r (braces {o} {k} {s} {t} p q b b') =
    let inner = close_balanced (suc n) (k ∷ (t ++ r)) b in
    let outer = close_balanced n r b' in
    rw (append_assoc s (k ∷ t) r) (
      open_brace n o (s ++ k ∷ (t ++ r)) p
      ∙ ap (prepend o)
          (inner ∙ ap (prepend_all s) (close_brace n k (t ++ r) q ∙ ap (prepend k) outer))
      ∙ ap (prepend o) (sym (prepend_all-append s (k ∷ t) _)))
close_balanced n r (quoted {q} {q'} {s} {t} p w l b) =
    let inner = close_literal (suc n) (q' ∷ (t ++ r)) l in
    let outer = close_balanced n r b in
    rw (append_assoc s (q' ∷ t) r) (
      quote_toggles (suc n) q false (s ++ q' ∷ (t ++ r)) p
      ∙ ap (prepend q) (
          inner
          ∙ ap (prepend_all s) (quote_toggles (suc n) q' true (t ++ r) w ∙ ap (prepend q') outer))
      ∙ ap (prepend q) (sym (prepend_all-append s (q' ∷ t) _)))

close_at_end :
    {e : Text} (rest : Text)
    → IsBalanced e
    → close_from 1 false false (e ++ b'}' ∷ rest) ≡ some (e, rest)
close_at_end {e} rest b = close_balanced 0 (b'}' ∷ rest) b ∙ collected e
  where
    collected : (e : Text) → prepend_all e (close_from 1 false false (b'}' ∷ rest)) ≡ some (e, rest)
    collected [] = unfold close_from in refl
    collected (c ∷ e) = ap (prepend c) (collected e)

-- Text in front of an expression: no dollar sign.
abbrev pub LacksDollar : Text → Type 0
LacksDollar = All (λ c. c ≢ b'$')

after_marker_lem : (p u : Text) → LacksDollar p → after_marker (p ++ b'$' ∷ b'{' ∷ u) ≡ some u
unfolding after_marker
after_marker_lem [] u h = refl
after_marker_lem (c ∷ []) u h = ground (arith, after_marker_lem [] u)
after_marker_lem (c ∷ d ∷ p) u h = ground (arith, after_marker_lem (d ∷ p) u h.1)

-- Extraction finds a balanced expression whole, whatever braces its double-quoted literals hold, and
-- goes on behind it, where single quotes count as any other character: in a text that begins with no
-- dollar sign before the expression, it is the first result, and the others are those of the text
-- that follows.
pub extract_expressions-balanced :
    {e : Text} (p rest : Text)
    → LacksDollar p
    → IsBalanced e
    → extract_expressions (p ++ b'$' ∷ b'{' ∷ (e ++ b'}' ∷ rest)) ≡ e ∷ extract_expressions rest
extract_expressions-balanced {e} p rest h b = extract_expressions_lem _ (
    found (after_marker_lem p (e ++ b'}' ∷ rest) h) (close_at_end rest b)
      (extract_expressions-Extracts rest))
