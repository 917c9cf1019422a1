-- ===== src/Generator/SimpleSchema/Parts.antt =====
-- Splitting what join_bar has joined.
use kro_ui.Prelude.{ℕ, false, List, [], ◌∷◌, ◌++◌, ◌≡◌, refl, ◌∙◌, ap, arith, All}
use kro_ui.Prelude.Text.{Text, cons_piece, starts_with, includes}
use kro_ui.Generator.SimpleSchema.{split_bar, join_bar}

abbrev pub bar : Text
bar = 32 ∷ 124 ∷ 32 ∷ []

-- No separator starts in the text, whatever follows it.
abbrev pub IsPart : Text → Type 0
IsPart p = includes bar (p ++ 32 ∷ []) ≡ false

split_step :
    (a : ℕ) (t : Text)
    → starts_with bar (a ∷ t) ≡ false
    → split_bar (a ∷ t) ≡ cons_piece a (split_bar t)
unfolding split_bar starts_with
split_step a [] h = refl
split_step a (b ∷ []) h = refl
split_step a (b ∷ c ∷ t) h = ground (arith, h)

-- Whether a separator starts at a character of a part does not depend on what follows.
starts_lem :
    (a : ℕ) (p u : Text)
    → starts_with bar (a ∷ (p ++ 32 ∷ [])) ≡ false
    → starts_with bar (a ∷ (p ++ 32 ∷ u)) ≡ false
unfolding starts_with
starts_lem a [] u h = ground arith
starts_lem a (b ∷ []) u h = ground (arith, h)
starts_lem a (b ∷ c ∷ p) u h = ground (arith, h)

split_bar-part : (p s : Text) → IsPart p → split_bar (p ++ (32 ∷ 124 ∷ 32 ∷ s)) ≡ p ∷ split_bar s
unfolding includes
split_bar-part [] s h = unfold split_bar in refl
split_bar-part (a ∷ p) s h =
    split_step a (p ++ (32 ∷ 124 ∷ 32 ∷ s)) (starts_lem a p (124 ∷ 32 ∷ s) (ground (arith, h)))
    ∙ ap (cons_piece a) (split_bar-part p s (ground (arith, h)))

alone_lem :
    (a : ℕ) (p : Text)
    → starts_with bar (a ∷ (p ++ 32 ∷ [])) ≡ false
    → starts_with bar (a ∷ p) ≡ false
unfolding starts_with
alone_lem a [] h = ground (arith, h)
alone_lem a (b ∷ []) h = ground (arith, h)
alone_lem a (b ∷ c ∷ p) h = ground (arith, h)

-- A last part is whole.
split_bar-last : (p : Text) → IsPart p → split_bar p ≡ p ∷ []
unfolding includes
split_bar-last [] h = unfold split_bar in refl
split_bar-last (a ∷ p) h =
    split_step a p (alone_lem a p (ground (arith, h)))
    ∙ ap (cons_piece a) (split_bar-last p (ground (arith, h)))

pub split_bar-join_bar :
    (p : Text) (ps : List Text) → All IsPart (p ∷ ps) → split_bar (join_bar (p ∷ ps)) ≡ p ∷ ps
unfolding join_bar
split_bar-join_bar p [] (h, _) = split_bar-last p h
split_bar-join_bar p (q ∷ ps) (h, k) =
    split_bar-part p (join_bar (q ∷ ps)) h ∙ ap (λ r. p ∷ r) (split_bar-join_bar q ps k)
