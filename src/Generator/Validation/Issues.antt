-- ===== src/Generator/Validation/Issues.antt =====
-- What the loops of validateRGDState collect.
use kro_ui.Prelude.{
  ℕ, ◌+◌, Bool, true, false, not, ◌&&◌, Option, none, some, List, [], ◌∷◌, ◌≡◌, refl, arith, any,
  keep, length, ltb, ◌==◌, or_else, is_some, if◌then◌else◌,
}
use kro_ui.Prelude.Text.{Text, is_empty, text_eq, text_eq_iff}
use kro_ui.Prelude.Sets.{distinct}
use kro_ui.Prelude.Maps.{find_key, put, keys_of, find_key-put, distinct-put}
use kro_ui.Generator.Validation.{
  ValidationIssue, Issues, count_names, is_duplicate, set_issues, add_issues,
}

abbrev pub or_issue : Option ValidationIssue → Option ValidationIssue → Option ValidationIssue
or_issue none later = later
or_issue (some i) later = some i

length-put : (k : Text) (i : ValidationIssue) (m : Issues) → (length (put k i m) == 0) ≡ false
unfolding put
length-put k i [] = ground arith
length-put k i ((j, w) ∷ m) = ground arith

is_not_empty : (k : Text) (m : Issues) → is_some (find_key k m) ≡ true → (length m == 0) ≡ false
unfolding find_key
is_not_empty k [] h = ground (arith, h)
is_not_empty k ((j, w) ∷ m) h = ground arith

module _ {A : Type 0} (key : A → Text) (test : A → Bool) (i : ValidationIssue) where
  -- The issue of the rows with the key that fail.
  abbrev pub issue_at : Text → List A → Option ValidationIssue
  issue_at k xs = if any (λ x. test x && text_eq (key x) k) xs then some i else none

  pub find_key-set_issues :
      (k : Text) (xs : List A) (m : Issues)
      → find_key k (set_issues key test i xs m) ≡ or_issue (issue_at k xs) (find_key k m)
  unfolding set_issues
  find_key-set_issues k [] m = refl
  find_key-set_issues k (x ∷ xs) m = ground (
    arith,
    find_key-set_issues k xs m,
    find_key-set_issues k xs (put (key x) i m),
    find_key-put (key x) i m k,
  )

  pub find_key-add_issues :
      (k : Text) (xs : List A) (m : Issues)
      → find_key k (add_issues key test i xs m) ≡ or_issue (find_key k m) (issue_at k xs)
  unfolding add_issues
  find_key-add_issues k [] m = ground arith
  find_key-add_issues k (x ∷ xs) m = ground (
    arith,
    find_key-add_issues k xs m,
    find_key-add_issues k xs (put (key x) i m),
    find_key-put (key x) i m k,
    text_eq_iff (key x) k,
  )

  pub distinct-set_issues :
      (xs : List A) (m : Issues)
      → distinct (keys_of m) ≡ true
      → distinct (keys_of (set_issues key test i xs m)) ≡ true
  unfolding set_issues
  distinct-set_issues [] m h = h
  distinct-set_issues (x ∷ xs) m h = ground (
    arith,
    distinct-set_issues xs m,
    distinct-set_issues xs (put (key x) i m),
    distinct-put (key x) i m,
  )

  pub distinct-add_issues :
      (xs : List A) (m : Issues)
      → distinct (keys_of m) ≡ true
      → distinct (keys_of (add_issues key test i xs m)) ≡ true
  unfolding add_issues
  distinct-add_issues [] m h = h
  distinct-add_issues (x ∷ xs) m h = ground (
    arith,
    distinct-add_issues xs m,
    distinct-add_issues xs (put (key x) i m),
    distinct-put (key x) i m,
  )

  -- No issue is set exactly where no row fails.
  pub length-set_issues :
      (xs : List A) (m : Issues)
      → (length (set_issues key test i xs m) == 0) ≡ (length m == 0 && not (any test xs))
  unfolding set_issues
  length-set_issues [] m = ground arith
  length-set_issues (x ∷ xs) m = ground (
    arith,
    length-set_issues xs m,
    length-set_issues xs (put (key x) i m),
    length-put (key x) i m,
  )

  pub length-add_issues :
      (xs : List A) (m : Issues)
      → (length (add_issues key test i xs m) == 0) ≡ (length m == 0 && not (any test xs))
  unfolding add_issues
  length-add_issues [] m = ground arith
  length-add_issues (x ∷ xs) m = ground (
    arith,
    length-add_issues xs m,
    length-add_issues xs (put (key x) i m),
    length-put (key x) i m,
    is_not_empty (key x) m,
  )

-- The name is not empty and stands in the list more than once.
abbrev pub is_repeated : List Text → Text → Bool
is_repeated names name = not (is_empty name) && ltb 1 (length (keep (λ n. text_eq n name) names))

count_names_lem :
    (q : Text) (names : List Text) (m : List (Text × ℕ))
    → is_empty q ≡ false
    → or_else (find_key q (count_names names m)) 0
      ≡ or_else (find_key q m) 0 + length (keep (λ n. text_eq n q) names)
unfolding count_names
count_names_lem q [] m h = omega arith
count_names_lem q (n ∷ names) m h =
    let v = or_else (find_key n m) 0 + 1 in
    ground (
      arith,
      h,
      count_names_lem q names m h,
      count_names_lem q names (put n v m) h,
      find_key-put n v m q,
      text_eq_iff n q,
    )

pub is_duplicate-is_repeated :
    (names : List Text) (q : Text) → is_duplicate (count_names names []) q ≡ is_repeated names q
unfolding find_key
is_duplicate-is_repeated names q = ground (arith, count_names_lem q names [])
