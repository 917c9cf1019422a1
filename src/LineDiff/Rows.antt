-- ===== src/LineDiff/Rows.antt =====
-- What a row of the `dp` table holds: lengths of longest common subsequences of reversed prefixes.
use kro_ui.Prelude.{
  ℕ, zero, suc, ◌+◌, ◌≤◌, ◌<◌, max, List, [], ◌∷◌, ◌≡◌, refl, ap, arith, if◌then◌else◌, length,
}
use kro_ui.Prelude.Text.{Text, text_eq}
use kro_ui.LineDiff.{get_or, fill_row, next_row, zero_row, rows_from, lcs_table, entry, line_at}

-- The length of a longest common subsequence, by its textbook recursion.
unfoldable pub lcs_length : List Text → List Text → ℕ
lcs_length [] ys = 0
lcs_length (x ∷ xs) [] = 0
lcs_length (x ∷ xs) (y ∷ ys) =
    let both = lcs_length xs ys in
    let up = lcs_length xs (y ∷ ys) in
    let left = lcs_length (x ∷ xs) ys in if text_eq x y then both + 1 else max up left

pub lcs_length-nil : (xs : List Text) → lcs_length xs [] ≡ 0
unfolding lcs_length
lcs_length-nil [] = refl
lcs_length-nil (x ∷ xs) = refl

-- The row for the reversed prefix `xs`, from the column of the reversed prefix `acc` on.
spec_row : List Text → List Text → List Text → List ℕ
spec_row xs acc [] = lcs_length xs acc ∷ []
spec_row xs acc (y ∷ ys) = lcs_length xs acc ∷ spec_row xs (y ∷ acc) ys

spec_row-zero : (acc b : List Text) → spec_row [] acc b ≡ zero_row b
unfolding spec_row lcs_length zero_row
spec_row-zero acc [] = refl
spec_row-zero acc (y ∷ ys) = ap (λ r. 0 ∷ r) (spec_row-zero (y ∷ acc) ys)

spec_row-head :
    (xs acc b : List Text) → (rest : List ℕ) × (spec_row xs acc b ≡ lcs_length xs acc ∷ rest)
unfolding spec_row
spec_row-head xs acc [] = ([], refl)
spec_row-head xs acc (y ∷ ys) = (spec_row xs (y ∷ acc) ys, refl)

fill_row-cons :
    (x y : Text) (xs acc ys : List Text) (rest : List ℕ)
    → fill_row x
        (y ∷ ys)
        (lcs_length xs acc ∷ lcs_length xs (y ∷ acc) ∷ rest)
        (lcs_length (x ∷ xs) acc)
      ≡ lcs_length (x ∷ xs) (y ∷ acc)
        ∷ fill_row x ys (lcs_length xs (y ∷ acc) ∷ rest) (lcs_length (x ∷ xs) (y ∷ acc))
unfolding fill_row lcs_length
fill_row-cons x y xs acc ys rest = refl

fill_row-spec_row :
    (x : Text) (xs acc b : List Text)
    → lcs_length (x ∷ xs) acc ∷ fill_row x b (spec_row xs acc b) (lcs_length (x ∷ xs) acc)
      ≡ spec_row (x ∷ xs) acc b
unfolding spec_row
fill_row-spec_row x xs acc [] = unfold fill_row in refl
fill_row-spec_row x xs acc (y ∷ ys) =
    let (rest, e) = spec_row-head xs (y ∷ acc) ys in
    let ih = fill_row-spec_row x xs (y ∷ acc) ys in
    rw e
      (rw (fill_row-cons x y xs acc ys rest) (ap (λ r. lcs_length (x ∷ xs) acc ∷ r) (rw e at ih)))

next_row-spec_row :
    (x : Text) (xs b : List Text) → next_row x b (spec_row xs [] b) ≡ spec_row (x ∷ xs) [] b
unfolding next_row
next_row-spec_row x xs b = rw (← lcs_length-nil (x ∷ xs)) (fill_row-spec_row x xs [] b)

-- The rows below the one for the reversed prefix `done`.
spec_rows : List Text → List Text → List Text → List (List ℕ)
spec_rows done [] b = spec_row done [] b ∷ []
spec_rows done (x ∷ xs) b = spec_row done [] b ∷ spec_rows (x ∷ done) xs b

rows_from-spec_rows :
    (done xs b : List Text)
    → spec_row done [] b ∷ rows_from (spec_row done [] b) xs b ≡ spec_rows done xs b
unfolding spec_rows rows_from
rows_from-spec_rows done [] b = refl
rows_from-spec_rows done (x ∷ xs) b =
    rw (next_row-spec_row x done b)
      (ap (λ r. spec_row done [] b ∷ r) (rows_from-spec_rows (x ∷ done) xs b))

lcs_table-spec_rows : (a b : List Text) → lcs_table a b ≡ spec_rows [] a b
unfolding lcs_table
lcs_table-spec_rows a b = rw (← spec_row-zero [] b) (rows_from-spec_rows [] a b)

-- The first `n` lines, the last of them first, in front of `acc`.
unfoldable pub rev_take : List Text → ℕ → List Text → List Text
rev_take acc zero xs = acc
rev_take acc (suc n) [] = acc
rev_take acc (suc n) (x ∷ xs) = rev_take (x ∷ acc) n xs

get_or-spec_row :
    (xs acc b : List Text) (j : ℕ)
    → j ≤ length b
    → get_or (spec_row xs acc b) j 0 ≡ lcs_length xs (rev_take acc j b)
unfolding spec_row rev_take
get_or-spec_row xs acc [] zero h = refl
get_or-spec_row xs acc [] (suc j) h = absurd (omega arith)
get_or-spec_row xs acc (y ∷ ys) zero h = refl
get_or-spec_row xs acc (y ∷ ys) (suc j) h = get_or-spec_row xs (y ∷ acc) ys j (omega arith)

get_or-spec_rows :
    (done a b : List Text) (i : ℕ)
    → i ≤ length a
    → get_or (spec_rows done a b) i [] ≡ spec_row (rev_take done i a) [] b
unfolding spec_rows rev_take
get_or-spec_rows done [] b zero h = refl
get_or-spec_rows done [] b (suc i) h = absurd (omega arith)
get_or-spec_rows done (x ∷ xs) b zero h = refl
get_or-spec_rows done (x ∷ xs) b (suc i) h = get_or-spec_rows (x ∷ done) xs b i (omega arith)

-- Every entry of the table is the length of a longest common subsequence of two prefixes.
pub entry-lcs_table :
    (a b : List Text) (i j : ℕ)
    → i ≤ length a
    → j ≤ length b
    → entry (lcs_table a b) i j ≡ lcs_length (rev_take [] i a) (rev_take [] j b)
entry-lcs_table a b i j h k =
    rw (lcs_table-spec_rows a b)
      (rw (get_or-spec_rows [] a b i h) (get_or-spec_row (rev_take [] i a) [] b j k))

pub rev_take-suc :
    (acc a : List Text) (i : ℕ)
    → i < length a
    → rev_take acc (suc i) a ≡ line_at a i ∷ rev_take acc i a
unfolding rev_take
rev_take-suc acc [] i h = absurd (omega arith)
rev_take-suc acc (x ∷ xs) zero h = refl
rev_take-suc acc (x ∷ xs) (suc i) h = rev_take-suc (x ∷ acc) xs i (omega arith)
