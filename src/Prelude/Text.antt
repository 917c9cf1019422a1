-- ===== src/Prelude/Text.antt =====
-- A JavaScript string as the list of its UTF-16 code units, and equality of strings.
use Prim.Native.Nat.{ℕ}
use Prim.Native.Char.{code}
use Prim.Native.String.{String}
use mathlib.Core.Path.{◌≡◌, refl, ap, sym, ◌∙◌}
use mathlib.Core.Logic.{◌↔◌, inl, inr}
use mathlib.Core.Bool.{Bool, true, false, ◌&&◌, ◌||◌}
use mathlib.Core.List.{List, [], ◌∷◌, ◌++◌}
use native.Mathlib.Omega.{arith}
use kro_ui.Prelude.Tests.{Bool-cases, ==_iff, ◌==◌, if◌then◌else◌, ltb}

abbrev pub Text : Type 0
Text = List ℕ

-- The code units of a literal; every literal of the source lies in the basic plane.
abbrev pub codes : String → Text
codes String.[] = []
codes (String.◌∷◌ c s) = code c ∷ codes s

-- `a === b` on strings.
unfoldable pub text_eq : Text → Text → Bool
text_eq [] [] = true
text_eq [] (d ∷ t) = false
text_eq (c ∷ s) [] = false
text_eq (c ∷ s) (d ∷ t) = c == d && text_eq s t

pub text_eq_iff : (s t : Text) → (text_eq s t ≡ true) ↔ (s ≡ t)
unfolding text_eq
text_eq_iff [] [] = ground arith
text_eq_iff [] (d ∷ t) = ground arith
text_eq_iff (c ∷ s) [] = ground arith
text_eq_iff (c ∷ s) (d ∷ t) = ground (arith, text_eq_iff s t)

pub text_eq_refl : (s : Text) → text_eq s s ≡ true
text_eq_refl s = (text_eq_iff s s).1 refl

-- The order of `Array.prototype.sort()` on strings: by code units.
unfoldable pub text_leb : Text → Text → Bool
text_leb [] t = true
text_leb (c ∷ s) [] = false
text_leb (c ∷ s) (d ∷ t) = if c == d then text_leb s t else ltb c d

-- `s.split(sep)` for a separator of one code unit: there is always a first piece.
abbrev pub cons_piece : ℕ → List Text → List Text
cons_piece c [] = (c ∷ []) ∷ []
cons_piece c (l ∷ ls) = (c ∷ l) ∷ ls

unfoldable pub split_on : ℕ → Text → List Text
split_on sep [] = [] ∷ []
split_on sep (c ∷ s) =
    let rest = split_on sep s in if c == sep then [] ∷ rest else cons_piece c rest

-- `pieces.join(sep)`
unfoldable pub join_with : ℕ → List Text → Text
join_with sep [] = []
join_with sep (l ∷ []) = l
join_with sep (l ∷ m ∷ ls) = l ++ sep ∷ join_with sep (m ∷ ls)

join_with-cons_piece :
    (sep c : ℕ) (ls : List Text) → join_with sep (cons_piece c ls) ≡ c ∷ join_with sep ls
unfolding join_with
join_with-cons_piece sep c [] = refl
join_with-cons_piece sep c (l ∷ []) = refl
join_with-cons_piece sep c (l ∷ m ∷ ls) = refl

join_with-nil_cons :
    (sep : ℕ) (l : Text) (ls : List Text)
    → join_with sep ([] ∷ l ∷ ls) ≡ sep ∷ join_with sep (l ∷ ls)
unfolding join_with
join_with-nil_cons sep l ls = refl

-- A text has at least one piece.
pub split_on-cons : (sep : ℕ) (s : Text) → (l : Text) × (ls : List Text) × (split_on sep s ≡ l ∷ ls)
unfolding split_on
split_on-cons sep [] = ([], [], refl)
split_on-cons sep (c ∷ s) = elim (Bool-cases (c == sep)) [
  | inl e ↦ ([], split_on sep s, rw e)
  | inr e ↦ let (l, ls, h) = split_on-cons sep s in (c ∷ l, ls, rw e (ap (cons_piece c) h))
]

pub join_with-split_on : (sep : ℕ) (s : Text) → join_with sep (split_on sep s) ≡ s
unfolding split_on
join_with-split_on sep [] = unfold join_with in refl
join_with-split_on sep (c ∷ s) = elim (Bool-cases (c == sep)) [
  | inl e ↦
      let (l, ls, h) = split_on-cons sep s in
      rw e (
        ap (λ r. join_with sep ([] ∷ r)) h
        ∙ join_with-nil_cons sep l ls
        ∙ ap (λ r. sep ∷ join_with sep r) (sym h)
        ∙ ap (λ t. sep ∷ t) (join_with-split_on sep s)
        ∙ ap (λ x. x ∷ s) (sym ((==_iff c sep).0 e)))
  | inr e ↦
      rw e
        (join_with-cons_piece sep c (split_on sep s) ∙ ap (λ t. c ∷ t) (join_with-split_on sep s))
]

-- `s.startsWith(p)`
unfoldable pub starts_with : Text → Text → Bool
starts_with [] s = true
starts_with (c ∷ p) [] = false
starts_with (c ∷ p) (d ∷ s) = c == d && starts_with p s

-- `s.includes(p)`
unfoldable pub includes : Text → Text → Bool
unfolding starts_with
includes p [] = starts_with p []
includes p (c ∷ s) = starts_with p (c ∷ s) || includes p s

-- `!s`
abbrev pub is_empty : Text → Bool
is_empty [] = true
is_empty (c ∷ s) = false
