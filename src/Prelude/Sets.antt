-- ===== src/Prelude/Sets.antt =====
-- `Set<string>` and membership in lists of strings.
use mathlib.Core.Path.{◌≡◌, refl}
use mathlib.Core.Bool.{Bool, true, false, ◌||◌}
use mathlib.Core.List.{List, [], ◌∷◌, ◌++◌}
use native.Mathlib.Omega.{arith}
use kro_ui.Prelude.Tests.{if◌then◌else◌}
use kro_ui.Prelude.Text.{Text, text_eq, text_eq_iff}

-- `set.has(x)`
unfoldable pub contains : Text → List Text → Bool
contains x [] = false
contains x (y ∷ ys) = text_eq x y || contains x ys

-- `set.add(x)`: a set keeps the order of insertion.
unfoldable pub insert : Text → List Text → List Text
insert x s = if contains x s then s else s ++ x ∷ []

pub contains-nil : (x : Text) → contains x [] ≡ false
unfolding contains
contains-nil x = refl

pub contains-append :
    (x : Text) (xs ys : List Text) → contains x (xs ++ ys) ≡ (contains x xs || contains x ys)
unfolding contains
contains-append x [] ys = refl
contains-append x (y ∷ xs) ys = ground (arith, contains-append x xs ys)

-- A list without repeated strings.
unfoldable pub distinct : List Text → Bool
unfolding contains
distinct [] = true
distinct (x ∷ xs) = if contains x xs then false else distinct xs

pub contains_one : (x y : Text) → contains x (y ∷ []) ≡ text_eq x y
unfolding contains
contains_one x y = ground arith

pub contains-insert :
    (x y : Text) (s : List Text) → contains x (insert y s) ≡ (text_eq x y || contains x s)
unfolding insert
contains-insert x y s =
    let one = contains_one x y in ground (arith, contains-append x s (y ∷ []), one, text_eq_iff x y)

pub distinct-concat :
    (x : Text) (s : List Text)
    → contains x s ≡ false
    → distinct s ≡ true
    → distinct (s ++ x ∷ []) ≡ true
unfolding distinct contains
distinct-concat x [] n h = refl
distinct-concat x (y ∷ s) n h =
    ground
      (arith, distinct-concat x s, contains-append y s (x ∷ []), text_eq_iff x y, text_eq_iff y x)

pub distinct-insert : (x : Text) (s : List Text) → distinct s ≡ true → distinct (insert x s) ≡ true
unfolding insert
distinct-insert x s h = ground (arith, distinct-concat x s)
