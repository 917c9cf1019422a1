-- ===== src/Prelude/Chars.antt =====
-- Classes of code units that the source's regular expressions and trims use.
use Prim.Native.Nat.{ℕ}
use mathlib.Core.Bool.{Bool, true, false, ◌&&◌, ◌||◌}
use mathlib.Core.List.{[], ◌∷◌, ◌++◌, reverse}
use mathlib.Core.Path.{◌≡◌, refl}
use native.Mathlib.Omega.{arith}
use kro_ui.Prelude.Tests.{leb, ◌==◌}
use kro_ui.Prelude.Text.{Text}

abbrev pub between : ℕ → ℕ → ℕ → Bool
between lo hi c = leb lo c && leb c hi

-- `\d`, `[A-Za-z]`, `\w`
unfoldable pub is_digit : ℕ → Bool
is_digit c = between b'0' b'9' c

unfoldable pub is_letter : ℕ → Bool
is_letter c = between b'a' b'z' c || between b'A' b'Z' c

unfoldable pub is_word : ℕ → Bool
unfolding is_letter is_digit
is_word c = is_letter c || is_digit c || c == b'_'

-- `\s`, which is also what `trim` removes.
unfoldable pub is_space : ℕ → Bool
is_space c =
    between 9 13 c
    || c == 32
    || c == 160
    || c == 0x1680
    || between 0x2000 0x200a c
    || c == 0x2028
    || c == 0x2029
    || c == 0x202f
    || c == 0x205f
    || c == 0x3000
    || c == 0xfeff

-- The longest prefix of characters that pass a test, and what follows it.
abbrev pub take_while : (ℕ → Bool) → Text → Text
take_while p [] = []
take_while p (c ∷ s) = elim (p c) [ true ↦ c ∷ take_while p s | false ↦ [] ]

abbrev pub drop_while : (ℕ → Bool) → Text → Text
drop_while p [] = []
drop_while p (c ∷ s) = elim (p c) [ true ↦ drop_while p s | false ↦ c ∷ s ]

pub take_while-append-drop_while : (p : ℕ → Bool) (s : Text) → take_while p s ++ drop_while p s ≡ s
take_while-append-drop_while p [] = refl
take_while-append-drop_while p (c ∷ s) = ground (arith, take_while-append-drop_while p s)

-- `s.trimStart()`, `s.trim()`
unfoldable pub trim_start : Text → Text
unfolding is_space
trim_start s = drop_while is_space s

unfoldable pub trim : Text → Text
unfolding trim_start
trim s = reverse (trim_start (reverse (trim_start s)))
