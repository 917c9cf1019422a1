-- ===== src/Health/Age/Units.antt =====
-- The unit and the number that an age is written with.
use kro_ui.Prelude.{
  ℕ, suc, ◌-◌, ◌*◌, ◌/◌, ◌≤◌, ◌<◌, Option, none, some, [], ◌∷◌, ◌++◌, ◌≡◌, ◌≢◌, subst, refl, ◌⊎◌,
  inl, inr, arith, Bool-cases, ltb,
}
use kro_ui.Prelude.Text.{Text, codes}
use kro_ui.Health.Age.{second_ms, minute_ms, hour_ms, day_ms, age_text, age_since, format_age}

-- The text is the number of the units, rounded down and at least `low`, and the unit's letter.
abbrev pub InUnits : (ℕ → Text) → ℕ → Text → ℕ → ℕ → Text → Type 0
InUnits decimal elapsed text unit low letter =
    (n : ℕ) × (text ≡ decimal n ++ letter)
    × (low ≤ n)
    × (n * unit ≤ elapsed)
    × (elapsed < suc n * unit)

-- An age by its time.
abbrev pub AgeOf : (ℕ → Text) → ℕ → Text → Type 0
AgeOf decimal e text =
    ((text ≡ codes "just now") × (e < 5 * second_ms))
    ⊎ (InUnits decimal e text second_ms 5 (codes "s") × (e < minute_ms))
    ⊎ (InUnits decimal e text minute_ms 1 (codes "m") × (e < hour_ms))
    ⊎ (InUnits decimal e text hour_ms 1 (codes "h") × (e < day_ms))
    ⊎ InUnits decimal e text day_ms 1 (codes "d")

module _ (decimal : ℕ → Text) where
  age_text-AgeOf : (e : ℕ) → AgeOf decimal e (age_text decimal e)
  unfolding age_text
  age_text-AgeOf e = elim (Bool-cases (ltb e 5000)) [
    | inl a ↦ inl (ground (arith, a), ground (arith, a))
    | inr a ↦ elim (Bool-cases (ltb e 60000)) [
      | inl b ↦ inr (
          inl (
            (e / 1000, ground (arith, a, b), ground (arith, a), omega arith, omega arith),
            ground (arith, b),
          ))
      | inr b ↦ elim (Bool-cases (ltb e 3600000)) [
        | inl c ↦ inr (
            inr (
              inl (
                (e / 60000, ground (arith, a, b, c), ground (arith, b), omega arith, omega arith),
                ground (arith, c),
              )))
        | inr c ↦ elim (Bool-cases (ltb e 86400000)) [
          | inl d ↦ inr (
              inr (
                inr (
                  inl (
                    (
                      e / 3600000,
                      ground (arith, a, b, c, d),
                      ground (arith, c),
                      omega arith,
                      omega arith,
                    ),
                    ground (arith, d),
                  ))))
          | inr d ↦ inr (
              inr (
                inr (
                  inr (
                    e / 86400000,
                    ground (arith, a, b, c, d),
                    ground (arith, d),
                    omega arith,
                    omega arith,
                  ))))
        ]
      ]
    ]
  ]

-- For any clock, date parser and number printer, the age of a timestamp that is empty or does not
-- parse is "Unknown"; any other is "just now" if it is in the future or less than five seconds old,
-- else the number of whole seconds from five on, minutes, hours or days since then, in the largest
-- unit that fits once.
pub format_age-AgeOf :
    (decimal : ℕ → Text) (parse : Text → Option ℕ) (now : ℕ) (iso : Text)
    → (((iso ≡ []) ⊎ (parse iso ≡ none)) × (format_age decimal parse now iso ≡ codes "Unknown"))
      ⊎ ((t : ℕ) × (iso ≢ [])
          × (parse iso ≡ some t)
          × (((now < t) × (format_age decimal parse now iso ≡ codes "just now"))
              ⊎ ((t ≤ now) × AgeOf decimal (now - t) (format_age decimal parse now iso))))
unfolding format_age
format_age-AgeOf decimal parse now [] = inl (inl refl, refl)
format_age-AgeOf decimal parse now (c ∷ s) = parsed (parse (c ∷ s)) refl
  where
    parsed :
        (o : Option ℕ)
        → parse (c ∷ s) ≡ o
        → (((c ∷ s ≡ []) ⊎ (parse (c ∷ s) ≡ none)) × (age_since decimal now o ≡ codes "Unknown"))
          ⊎ ((t : ℕ) × (c ∷ s ≢ [])
              × (parse (c ∷ s) ≡ some t)
              × (((now < t) × (age_since decimal now o ≡ codes "just now"))
                  ⊎ ((t ≤ now) × AgeOf decimal (now - t) (age_since decimal now o))))
    parsed none e = inl (inr e, refl)
    parsed (some t) e = inr (
      t,
      (λ h. ground (arith, h)),
      e,
      elim (Bool-cases (ltb now t)) [
        | inl f ↦ inl (ground (arith, f), ground (arith, f))
        | inr f ↦ inr (
          ground (arith, f),
          subst (AgeOf decimal (now - t)) (ground (arith, f)) (age_text-AgeOf decimal (now - t)),
        )
      ],
    )
