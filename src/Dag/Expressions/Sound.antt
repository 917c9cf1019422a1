-- ===== src/Dag/Expressions/Sound.antt =====
-- The loop ends, and what it returns stands in the string.
use kro_ui.Prelude.{
  ℕ, zero, suc, ◌+◌, ◌-◌, ◌≤◌, ◌<◌, ◌&&◌, ◌⊎◌, subst, ==_iff, Bool-cases, Bool, true, false, not,
  Option, none, some, List, [], ◌∷◌, ◌++◌, ◌≡◌, refl, ap, ◌∙◌, arith, length, inl, inr,
  if◌then◌else◌, ◌==◌, length-append,
}
use kro_ui.Prelude.Text.{Text}
use kro_ui.Dag.Expressions.{
  prepend, close_from, after_marker, extract_from, extract_expressions, rest_of,
}

-- The source's loop as a relation, with no bound on its rounds.
pub data Extracts : Text → List Text → Type 0 where
  finished : {s : Text} → after_marker s ≡ none → Extracts s []
  found :
      {s t e after : Text} {es : List Text}
      → after_marker s ≡ some t
      → close_from 1 false false t ≡ some (e, after)
      → Extracts after es
      → Extracts s (e ∷ es)
  unclosed :
      {s t : Text} {es : List Text}
      → after_marker s ≡ some t
      → close_from 1 false false t ≡ none
      → Extracts (rest_of s) es
      → Extracts s es

after_marker_split :
    (s t : Text) → after_marker s ≡ some t → (p : Text) × (s ≡ p ++ b'$' ∷ b'{' ∷ t)
unfolding after_marker
after_marker_split [] t h = absurd (ground arith)
after_marker_split (c ∷ []) t h = absurd (ground arith)
after_marker_split (c ∷ d ∷ s) t h =
    go (Bool-cases (c == b'$' && d == b'{')) (after_marker_split (d ∷ s) t)
  where
    go :
        (c == b'$' && d == b'{') ≡ true ⊎ ((c == b'$' && d == b'{') ≡ false)
        → (after_marker (d ∷ s) ≡ some t → (p : Text) × (d ∷ s ≡ p ++ b'$' ∷ b'{' ∷ t))
        → (p : Text) × (c ∷ d ∷ s ≡ p ++ b'$' ∷ b'{' ∷ t)
    go (inl e) ih = ([], ground arith)
    go (inr e) ih = let (p, q) = ih (ground arith) in (c ∷ p, ap (λ r. c ∷ r) q)

-- Where the inner loop finds the brace, the text is the expression, the brace and the rest.
abbrev SplitsMaybe : Text → Option (Text × Text) → Type 0
SplitsMaybe t none = Unit
SplitsMaybe t (some (e, after)) = t ≡ e ++ b'}' ∷ after

record Splits (t : Text) (o : Option (Text × Text)) : Type 0 where
  splits : SplitsMaybe t o

prepend-Splits :
    {t : Text} (c : ℕ) {o : Option (Text × Text)} → Splits t o → Splits (c ∷ t) (prepend c o)
prepend-Splits c {o = none} s = record { splits = tt }
prepend-Splits c {o = some (e, after)} s = record { splits = ap (λ r. c ∷ r) s.splits }

if_Splits :
    {t : Text} (b : Bool) {x y : Option (Text × Text)}
    → Splits t x
    → Splits t y
    → Splits t (if b then x else y)
if_Splits true p q = p
if_Splits false p q = q

-- The branch for a closing brace, which may use that the character is one.
brace-Splits :
    (c : ℕ) (t : Text) (b : Bool) {x y : Option (Text × Text)}
    → Splits (c ∷ t) x
    → Splits (c ∷ t) y
    → Splits (c ∷ t) (if c == b'}' then if b then some ([], t) else x else y)
brace-Splits c t b p q = elim (Bool-cases (c == b'}')) [
  | inl e ↦ rw e (if_Splits b (record { splits = ap (λ k. k ∷ t) ((==_iff c b'}').0 e) }) p)
  | inr e ↦ rw e q
]

close_from-Splits : (n : ℕ) (b x : Bool) (t : Text) → Splits t (close_from n b x t)
unfolding close_from
close_from-Splits n b x [] = record { splits = tt }
close_from-Splits n b x (c ∷ t) =
    let plain = prepend-Splits c (close_from-Splits n b false t) in
    let escaping = prepend-Splits c (close_from-Splits n b true t) in
    let toggled = prepend-Splits c (close_from-Splits n (not b) false t) in
    let opened = prepend-Splits c (close_from-Splits (n + 1) b false t) in
    let closed = prepend-Splits c (close_from-Splits (n - 1) b false t) in
    if_Splits x plain (
      if_Splits (b && c == b'\\') escaping (
        if_Splits (c == b'"') toggled (
          if_Splits b plain
            (if_Splits (c == b'{') opened (brace-Splits c t (n == 1) closed plain)))))

close_from_split :
    (n : ℕ) (t e after : Text)
    → close_from n false false t ≡ some (e, after)
    → t ≡ e ++ b'}' ∷ after
close_from_split n t e after h = (subst (Splits t) h (close_from-Splits n false false t)).splits

after_marker_shorter : (s t : Text) → after_marker s ≡ some t → length t + 2 ≤ length s
after_marker_shorter s t h =
    let (p, e) = after_marker_split s t h in
    omega (arith, ap length e, length-append p (b'$' ∷ b'{' ∷ t))

close_from_shorter :
    (t e after : Text) → close_from 1 false false t ≡ some (e, after) → length after < length t
close_from_shorter t e after h =
    omega (arith, ap length (close_from_split 1 t e after h), length-append e (b'}' ∷ after))

length-rest_of : (s : Text) → length (rest_of s) ≡ length s - 1
length-rest_of [] = refl
length-rest_of (c ∷ s) = omega arith

after_marker_nil : after_marker [] ≡ none
unfolding after_marker
after_marker_nil = refl

extract_from-Extracts : (f : ℕ) (s : Text) → length s ≤ f → Extracts s (extract_from f s)
unfolding extract_from
extract_from-Extracts zero [] h = finished after_marker_nil
extract_from-Extracts zero (c ∷ s) h = absurd (omega arith)
extract_from-Extracts (suc f) s h = go (after_marker s) refl (extract_from-Extracts f)
  where
    inner :
        (t : Text)
        → after_marker s ≡ some t
        → ((r : Text) → length r ≤ f → Extracts r (extract_from f r))
        → (o : Option (Text × Text)) → close_from 1 false false t ≡ o
        → Extracts s (elim o [
          | none ↦ extract_from f (rest_of s)
          | some (expr, after) ↦ expr ∷ extract_from f after
        ])
    inner t e ih none q = unclosed e q (ih (rest_of s) (omega (arith, length-rest_of s)))
    inner t e ih (some (expr, after)) q =
        found e q
          (ih after (omega (arith, after_marker_shorter s t e, close_from_shorter t expr after q)))

    go :
        (o : Option Text)
        → after_marker s ≡ o
        → ((r : Text) → length r ≤ f → Extracts r (extract_from f r))
        → Extracts s (elim o [
          | none ↦ []
          | some t ↦ elim (close_from 1 false false t) [
            | none ↦ extract_from f (rest_of s)
            | some (expr, after) ↦ expr ∷ extract_from f after
          ]
        ])
    go none e ih = finished e
    go (some t) e ih = inner t e ih (close_from 1 false false t) refl

-- The relation has one result.
Extracts-eq : {s : Text} {es es' : List Text} → Extracts s es → Extracts s es' → es ≡ es'
Extracts-eq (finished p) (finished q) = refl
Extracts-eq (finished p) (found q _ _) = cc
Extracts-eq (finished p) (unclosed q _ _) = cc
Extracts-eq (found p _ _) (finished q) = cc
Extracts-eq (found {e = e} {after = after} p p' d)
      (found {e = e'} {after = after'} {es = es'} q q' d') =
    let same_rest : after' ≡ after = cc in
    let same : e ≡ e' = cc in
    let ih = Extracts-eq d (subst (λ a. Extracts a es') same_rest d') in cc
Extracts-eq (found p p' d) (unclosed q q' d') = absurd (cc)
Extracts-eq (unclosed p _ _) (finished q) = cc
Extracts-eq (unclosed p p' d) (found q q' d') = absurd (cc)
Extracts-eq (unclosed p p' d) (unclosed q q' d') = Extracts-eq d d'

pub extract_expressions-Extracts : (s : Text) → Extracts s (extract_expressions s)
unfolding extract_expressions
extract_expressions-Extracts s = extract_from-Extracts (length s) s (omega arith)

pub extract_expressions_lem :
    (s : Text) {es : List Text} → Extracts s es → extract_expressions s ≡ es
extract_expressions_lem s d = Extracts-eq (extract_expressions-Extracts s) d

-- The expressions stand in the string one after another, each between `${` and `}`.
pub data Occurs : Text → List Text → Type 0 where
  no_more : {s : Text} → Occurs s []
  next :
      {s : Text} {es : List Text} (p e rest : Text)
      → s ≡ p ++ b'$' ∷ b'{' ∷ (e ++ b'}' ∷ rest)
      → Occurs rest es
      → Occurs s (e ∷ es)

Occurs-cons : {s : Text} {es : List Text} (c : ℕ) → Occurs s es → Occurs (c ∷ s) es
Occurs-cons c no_more = no_more
Occurs-cons c (next p e rest q o) = next (c ∷ p) e rest (ap (λ r. c ∷ r) q) o

Occurs-of_rest : (s : Text) {es : List Text} → Occurs (rest_of s) es → Occurs s es
Occurs-of_rest [] o = o
Occurs-of_rest (c ∷ s) o = Occurs-cons c o

Extracts-Occurs : {s : Text} {es : List Text} → Extracts s es → Occurs s es
Extracts-Occurs (finished e) = no_more
Extracts-Occurs (found {s} {t} {e} {after} p q d) =
    let (front, split) = after_marker_split s t p in
    next front e after (split ∙ ap (λ r. front ++ b'$' ∷ b'{' ∷ r) (close_from_split 1 t e after q))
      (Extracts-Occurs d)
Extracts-Occurs (unclosed {s} p q d) = Occurs-of_rest s (Extracts-Occurs d)

-- Extraction ends on every string, with the result of the source's loop, which runs without bound
-- in the relation `Extracts`; and the expressions stand in the string in the order of the result,
-- without overlap, each between `${` and `}`.
pub extract_expressions_sound :
    (s : Text) → Extracts s (extract_expressions s) × Occurs s (extract_expressions s)
extract_expressions_sound s =
    (extract_expressions-Extracts s, Extracts-Occurs (extract_expressions-Extracts s))
