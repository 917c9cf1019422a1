-- ===== src/CelLinter/Grammar.antt =====
-- The expressions that the checks are about, described without a scan: literals that end, templates
-- that end, and brackets that match outside of both.
use kro_ui.Prelude.{ℕ, Bool, true, false, not, ◌&&◌, [], ◌∷◌, ◌++◌, ◌≡◌, ◌≢◌, ◌==◌, All, ◌⊎◌}
use kro_ui.Prelude.Text.{Text}
use kro_ui.CelLinter.{is_quote, opening_of, is_opening, is_closing}

-- The inside of a literal with the quote `q`, where a backslash escapes the next character.
pub data IsBody (q : ℕ) : Text → Type 0 where
  no_more : IsBody q []
  next : {c : ℕ} {s : Text} → c ≢ q → c ≢ b'\\' → IsBody q s → IsBody q (c ∷ s)
  skipped : {c d : ℕ} {s : Text} → c ≡ b'\\' → IsBody q s → IsBody q (c ∷ d ∷ s)

-- What follows the quote of a literal that does not end: an inside, or one and a backslash.
abbrev pub IsOpenBody : ℕ → Text → Type 0
IsOpenBody q s = IsBody q s ⊎ ((a : Text) × IsBody q a × (s ≡ a ++ b'\\' ∷ []))

-- Every literal ends.
pub data IsTerminated : Text → Type 0 where
  done : IsTerminated []
  char : {c : ℕ} {s : Text} → is_quote c ≡ false → IsTerminated s → IsTerminated (c ∷ s)
  quoted :
      {q : ℕ} {s t : Text}
      → is_quote q ≡ true
      → IsBody q s
      → IsTerminated t
      → IsTerminated (q ∷ (s ++ q ∷ t))

abbrev pub starts_brace : Text → Bool
starts_brace [] = false
starts_brace (c ∷ s) = c == b'{'

-- The inside of a template.
abbrev pub IsInside : Text → Type 0
IsInside = All (λ c. c ≢ b'}')

-- Every template ends, where one may start in a literal as well.
pub data IsInterpolated : Text → Type 0 where
  done : IsInterpolated []
  char : {c : ℕ} {s : Text} → c ≢ b'$' → IsInterpolated s → IsInterpolated (c ∷ s)
  dollar : {s : Text} → starts_brace s ≡ false → IsInterpolated s → IsInterpolated (b'$' ∷ s)
  template :
      (s : Text) {t : Text}
      → IsInside s
      → IsInterpolated t
      → IsInterpolated (b'$' ∷ b'{' ∷ (s ++ b'}' ∷ t))

abbrev pub is_plain : ℕ → Bool
is_plain c = not (is_quote c) && not (c == b'$') && not (is_opening c) && not (is_closing c)

-- Brackets stand in matching pairs, outside of literals and templates, which end.
pub data IsBracketed : Text → Type 0 where
  done : IsBracketed []
  plain : {c : ℕ} {s : Text} → is_plain c ≡ true → IsBracketed s → IsBracketed (c ∷ s)
  dollar : {s : Text} → starts_brace s ≡ false → IsBracketed s → IsBracketed (b'$' ∷ s)
  group :
      (o k : ℕ) {s t : Text}
      → is_opening o ≡ true
      → is_closing k ≡ true
      → opening_of k ≡ o
      → IsBracketed s
      → IsBracketed t
      → IsBracketed (o ∷ (s ++ k ∷ t))
  quoted :
      {q : ℕ} {s t : Text}
      → is_quote q ≡ true
      → IsBody q s
      → IsBracketed t
      → IsBracketed (q ∷ (s ++ q ∷ t))
  template :
      (s : Text) {t : Text}
      → IsInside s
      → IsBracketed t
      → IsBracketed (b'$' ∷ b'{' ∷ (s ++ b'}' ∷ t))

-- The same, where a literal or a template that does not end may follow.
abbrev pub IsMatched : Text → Type 0
IsMatched s =
    IsBracketed s
    ⊎ ((a : Text) × (q : ℕ) × (t : Text) × (s ≡ a ++ q ∷ t)
        × IsBracketed a
        × (is_quote q ≡ true)
        × IsOpenBody q t)
    ⊎ ((a : Text) × (t : Text) × (s ≡ a ++ b'$' ∷ b'{' ∷ t) × IsBracketed a × IsInside t)
