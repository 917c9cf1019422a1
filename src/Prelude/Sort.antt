-- ===== src/Prelude/Sort.antt =====
-- `Array.prototype.sort`, which is stable, with a comparator that compares a number of each element.
use Prim.Native.Nat.{ℕ, suc, ◌≤◌}
use mathlib.Core.Path.{◌≡◌, refl, ap, ◌∙◌}
use mathlib.Core.Bool.{Bool, true, false, ◌||◌}
use mathlib.Core.List.{List, [], ◌∷◌}
use native.Mathlib.Omega.{arith}
use kro_ui.Prelude.Tests.{if◌then◌else◌, ltb, ◌==◌}
use kro_ui.Prelude.Lists.{length, keep, any, All}

module _ {A : Type 0} (f : A → ℕ) where
  -- An element goes in front of the first whose number is not larger.
  unfoldable pub insert_desc : A → List A → List A
  insert_desc x [] = x ∷ []
  insert_desc x (y ∷ ys) =
      let later = insert_desc x ys in if ltb (f x) (f y) then y ∷ later else x ∷ y ∷ ys

  -- `sort((a, b) => f(b) - f(a))`
  unfoldable pub sort_desc : List A → List A
  sort_desc [] = []
  sort_desc (x ∷ xs) = insert_desc x (sort_desc xs)

  -- Each number is at least as large as all behind it.
  abbrev pub IsDescending : List A → Type 0
  IsDescending [] = Unit
  IsDescending (x ∷ xs) = All (λ y. f y ≤ f x) xs × IsDescending xs

  All-insert_desc :
      (P : A → Type 0) (x : A) (ys : List A) → P x → All P ys → All P (insert_desc x ys)
  unfolding insert_desc
  All-insert_desc P x [] p h = (p, h)
  All-insert_desc P x (y ∷ ys) p (q, h) =
      elim (ltb (f x) (f y)) as (λ b. All P (if b then y ∷ insert_desc x ys else x ∷ y ∷ ys)) [
        | true ↦ (q, All-insert_desc P x ys p h)
        | false ↦ (p, (q, h))
      ]

  All-below : (a b : ℕ) (ys : List A) → a ≤ b → All (λ y. f y ≤ a) ys → All (λ y. f y ≤ b) ys
  All-below a b [] h k = tt
  All-below a b (y ∷ ys) h (p, k) = (omega (arith, h, p), All-below a b ys h k)

  insert_desc-IsDescending :
      (x : A) (ys : List A) → IsDescending ys → IsDescending (insert_desc x ys)
  unfolding insert_desc
  insert_desc-IsDescending x [] h = (tt, h)
  insert_desc-IsDescending x (y ∷ ys) (q, h) =
      go (ltb (f x) (f y)) refl (insert_desc-IsDescending x ys h)
    where
      go :
          (b : Bool)
          → ltb (f x) (f y) ≡ b
          → IsDescending (insert_desc x ys)
          → IsDescending (if b then y ∷ insert_desc x ys else x ∷ y ∷ ys)
      go true e k = (All-insert_desc (λ z. f z ≤ f y) x ys (ground arith) q, k)
      go false e k = ((ground arith, All-below (f y) (f x) ys (ground arith) q), (q, h))

  pub sort_desc-IsDescending : (xs : List A) → IsDescending (sort_desc xs)
  unfolding sort_desc
  sort_desc-IsDescending [] = tt
  sort_desc-IsDescending (x ∷ xs) =
      insert_desc-IsDescending x (sort_desc xs) (sort_desc-IsDescending xs)

  keep-insert_desc :
      (n : ℕ) (x : A) (ys : List A)
      → keep (λ y. f y == n) (insert_desc x ys) ≡ keep (λ y. f y == n) (x ∷ ys)
  unfolding insert_desc
  keep-insert_desc n x [] = refl
  keep-insert_desc n x (y ∷ ys) = ground (arith, keep-insert_desc n x ys)

  -- The elements of each number keep their order: nothing is lost, and the sort is stable.
  pub keep-sort_desc :
      (n : ℕ) (xs : List A) → keep (λ y. f y == n) (sort_desc xs) ≡ keep (λ y. f y == n) xs
  unfolding sort_desc
  keep-sort_desc n [] = refl
  keep-sort_desc n (x ∷ xs) =
      keep-insert_desc n x (sort_desc xs) ∙ (ground (arith, keep-sort_desc n xs))

  any-insert_desc :
      (p : A → Bool) (x : A) (ys : List A) → any p (insert_desc x ys) ≡ (p x || any p ys)
  unfolding insert_desc
  any-insert_desc p x [] = refl
  any-insert_desc p x (y ∷ ys) = ground (arith, any-insert_desc p x ys)

  pub any-sort_desc : (p : A → Bool) (xs : List A) → any p (sort_desc xs) ≡ any p xs
  unfolding sort_desc
  any-sort_desc p [] = refl
  any-sort_desc p (x ∷ xs) =
      any-insert_desc p x (sort_desc xs) ∙ ap (λ b. p x || b) (any-sort_desc p xs)

  length-insert_desc : (x : A) (ys : List A) → length (insert_desc x ys) ≡ suc (length ys)
  unfolding insert_desc
  length-insert_desc x [] = refl
  length-insert_desc x (y ∷ ys) = ground (arith, length-insert_desc x ys)

  pub length-sort_desc : (xs : List A) → length (sort_desc xs) ≡ length xs
  unfolding sort_desc
  length-sort_desc [] = refl
  length-sort_desc (x ∷ xs) = length-insert_desc x (sort_desc xs) ∙ ap suc (length-sort_desc xs)
