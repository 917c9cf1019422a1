-- ===== src/Resolve/First.antt =====
-- The first element of a list that passes a test.
use kro_ui.Prelude.{
  Bool, true, false, ◌&&◌, none, some, List, [], ◌∷◌, ◌++◌, ◌≡◌, refl, sym, ap, ◌∙◌, inl, inr,
  arith, any, keep, find?, Bool-cases,
}

module _ {A : Type 0} where
  -- The element is in the list and passes the test, and none in front of it does.
  abbrev pub IsFirst : (A → Bool) → List A → A → Type 0
  IsFirst p xs x =
      (front : List A) × (back : List A) × (xs ≡ front ++ x ∷ back)
      × (p x ≡ true)
      × (any p front ≡ false)

  pub find?-IsFirst : (p : A → Bool) (xs : List A) (x : A) → find? p xs ≡ some x → IsFirst p xs x
  find?-IsFirst p [] x h = ground (arith, h)
  find?-IsFirst p (y ∷ xs) x h = elim (Bool-cases (p y)) [
    | inl e ↦
        let f : y ≡ x = ground (arith, e, h) in ([], xs, ap (λ z. z ∷ xs) f, ap p (sym f) ∙ e, refl)
    | inr e ↦
        let (front, back, q, t, n) = find?-IsFirst p xs x (ground (arith, e, h)) in
        (y ∷ front, back, ap (λ z. y ∷ z) q, t, ground (arith, e, n))
  ]

  pub find?-none : (p : A → Bool) (xs : List A) → find? p xs ≡ none → any p xs ≡ false
  find?-none p [] h = refl
  find?-none p (x ∷ xs) h = ground (arith, h, find?-none p xs)

  pub find?-keep : (p q : A → Bool) (xs : List A) → find? q (keep p xs) ≡ find? (λ x. p x && q x) xs
  find?-keep p q [] = refl
  find?-keep p q (x ∷ xs) = ground (arith, find?-keep p q xs)
