-- ===== src/LineDiff/Optimal.antt =====
-- What `computeLineDiff` guarantees: it returns, its columns are the two inputs, its rows are
-- numbered, and no diff has more unchanged lines.
use mathlib.Core.List.{Sublistᴰ, reverse_aux}
use mathlib.Core.List.Sublistᴰ.{slnil, cons, cons-cons}
use kro_ui.Prelude.{
  ◌+◌, ◌*◌, ◌≤◌, some, List, [], ◌∷◌, ◌≡◌, refl, ap, ◌∙◌, arith, length, reverse, All, ◌⊎◌, inl,
  inr, subst,
}
use kro_ui.Prelude.Text.{Text, text_eq_iff}
use kro_ui.LineDiff.{
  Op, LinePairRow, number_rows, diff_lines, capped, compute_line_diff, count_changed_lines,
}
use kro_ui.LineDiff.Rows.{lcs_length}
use kro_ui.LineDiff.Numbered.{
  column, count_from, unchanged, IsRow, number_rows_a, number_rows_b, number_rows_a_index,
  number_rows_b_index, unchanged-number_rows, number_rows_changed, number_rows-IsRow, kept_lines,
  length-kept_lines, kept_lines-sublist,
}
use kro_ui.LineDiff.Projection.{a_side, b_side, sames, backtrack_ends}

sublist_tail : {a : Text} {s xs : List Text} → Sublistᴰ (a ∷ s) xs → Sublistᴰ s xs
sublist_tail (cons p) = cons (sublist_tail p)
sublist_tail (cons-cons _ p) = cons p

sublist_cases :
    {s xs : List Text} {x : Text}
    → Sublistᴰ s (x ∷ xs)
    → Sublistᴰ s xs ⊎ ((s' : List Text) × (s ≡ x ∷ s') × Sublistᴰ s' xs)
sublist_cases (cons p) = inl p
sublist_cases (cons-cons {l₁ = s'} e p) = inr (s', ap (λ a. a ∷ s') e, p)

eq-nil_of_sublist : {s : List Text} → Sublistᴰ s [] → s ≡ []
eq-nil_of_sublist slnil = refl

-- No common subsequence is longer than `lcs_length` says.
lcs_length_bound :
    (s xs ys : List Text) → Sublistᴰ s xs → Sublistᴰ s ys → length s ≤ lcs_length xs ys
unfolding lcs_length
lcs_length_bound s [] ys p q = omega (arith, ap length (eq-nil_of_sublist p))
lcs_length_bound s (x ∷ xs) [] p q = omega (arith, ap length (eq-nil_of_sublist q))
lcs_length_bound s (x ∷ xs) (y ∷ ys) p q =
    go (sublist_cases p) (sublist_cases q) (λ h. lcs_length_bound s xs (y ∷ ys) h q)
      (lcs_length_bound s (x ∷ xs) ys p) (λ s'. lcs_length_bound s' xs ys)
  where
    Cases : Text → List Text → Type 0
    Cases z zs = Sublistᴰ s zs ⊎ ((s' : List Text) × (s ≡ z ∷ s') × Sublistᴰ s' zs)

    go :
        Cases x xs
        → Cases y ys
        → (Sublistᴰ s xs → length s ≤ lcs_length xs (y ∷ ys))
        → (Sublistᴰ s ys → length s ≤ lcs_length (x ∷ xs) ys)
        → ((s' : List Text) → Sublistᴰ s' xs → Sublistᴰ s' ys → length s' ≤ lcs_length xs ys)
        → length s ≤ lcs_length (x ∷ xs) (y ∷ ys)
    go (inl p') (inl q') up left both = ground (arith, up p', left q', both s p' q')
    go (inl p') (inr (s', e, q')) up left both =
        ground (arith, up p', ap length e, both s' (sublist_tail (rw e at p')) q')
    go (inr (s', e, p')) (inl q') up left both =
        ground (arith, left q', ap length e, both s' p' (sublist_tail (rw e at q')))
    go (inr (s', e, p')) (inr (s'', e', q')) up left both =
        let same_tail : s'' ≡ s' = cc in
        let same_head : x ≡ y = cc in
        ground (
          arith,
          (text_eq_iff x y).1 same_head,
          ap length e,
          both s' p' (subst (λ r. Sublistᴰ r ys) same_tail q'),
        )

sublist-reverse_aux :
    {s a s' a' : List Text}
    → Sublistᴰ s a
    → Sublistᴰ s' a'
    → Sublistᴰ (reverse_aux s s') (reverse_aux a a')
sublist-reverse_aux slnil k = k
sublist-reverse_aux (cons p) k = sublist-reverse_aux p (cons k)
sublist-reverse_aux (cons-cons e p) k = sublist-reverse_aux p (cons-cons e k)

length-reverse_aux : (s r : List Text) → length (reverse_aux s r) ≡ length s + length r
length-reverse_aux [] r = omega arith
length-reverse_aux (x ∷ s) r = omega (arith, length-reverse_aux s (x ∷ r))

-- The operations behind the rows that the diff of two lists of lines returns.
diff_lines-rows :
    (a b : List Text)
    → (ops : List Op) × (diff_lines a b ≡ some (number_rows 1 1 ops))
      × (a_side ops ≡ a)
      × (b_side ops ≡ b)
      × (sames ops ≡ lcs_length (reverse a) (reverse b))
unfolding diff_lines
diff_lines-rows a b =
    let (ops, e, left, right, kept) = backtrack_ends a b in
    (ops, rw (e, diff_lines), left, right, kept)

rows_of :
    (a b : List Text) (rows : List LinePairRow)
    → diff_lines a b ≡ some rows
    → (ops : List Op) × (rows ≡ number_rows 1 1 ops)
      × (a_side ops ≡ a)
      × (b_side ops ≡ b)
      × (sames ops ≡ lcs_length (reverse a) (reverse b))
rows_of a b rows h =
    let (ops, e, left, right, kept) = diff_lines-rows a b in (ops, cc, left, right, kept)

-- The diff of any two texts returns rows. Read from the top, the left column holds exactly the
-- lines of A (the first 3000), numbered from 1, and the right column those of B; every row holds
-- text in just the columns that its status says, the same text where it holds two.
pub compute_line_diff_columns :
    (yaml_a yaml_b : Text)
    → (rows : List LinePairRow) × (compute_line_diff yaml_a yaml_b ≡ some rows)
      × (column (λ r. r.a_line) rows ≡ capped yaml_a)
      × (column (λ r. r.b_line) rows ≡ capped yaml_b)
      × (column (λ r. r.a_index) rows ≡ count_from 1 (length (capped yaml_a)))
      × (column (λ r. r.b_index) rows ≡ count_from 1 (length (capped yaml_b)))
      × All IsRow rows
unfolding compute_line_diff
compute_line_diff_columns yaml_a yaml_b =
    let (ops, e, left, right, _) = diff_lines-rows (capped yaml_a) (capped yaml_b) in
    (
      number_rows 1 1 ops,
      e,
      number_rows_a 1 1 ops ∙ left,
      number_rows_b 1 1 ops ∙ right,
      number_rows_a_index 1 1 ops ∙ ap (λ l. count_from 1 (length l)) left,
      number_rows_b_index 1 1 ops ∙ ap (λ l. count_from 1 (length l)) right,
      number_rows-IsRow 1 1 ops,
    )

optimal :
    (a b : List Text) (rows : List LinePairRow) (s : List Text)
    → diff_lines a b ≡ some rows
    → Sublistᴰ s a
    → Sublistᴰ s b
    → length s ≤ unchanged rows
optimal a b rows s h p q =
    let (ops, e, _, _, kept) = rows_of a b rows h in
    omega (
      arith,
      ap unchanged e,
      unchanged-number_rows 1 1 ops,
      kept,
      lcs_length_bound (reverse s) (reverse a) (reverse b) (sublist-reverse_aux p slnil)
          (sublist-reverse_aux q slnil),
      length-reverse_aux s [],
    )

changed :
    (a b : List Text) (rows : List LinePairRow)
    → diff_lines a b ≡ some rows
    → count_changed_lines rows + 2 * unchanged rows ≡ length a + length b
changed a b rows h =
    let (ops, e, left, right, _) = rows_of a b rows h in
    omega (
      arith,
      ap unchanged e,
      ap count_changed_lines e,
      unchanged-number_rows 1 1 ops,
      number_rows_changed 1 1 ops,
      ap length left,
      ap length right,
    )

-- The diff of any two texts returns rows, and those marked "same" hold a longest common subsequence
-- of the two texts' lines, the first 3000 of each: the lines that they hold are as many as these rows,
-- stand in this order in both texts, and are no fewer than those of any common subsequence.
pub compute_line_diff_optimal :
    (yaml_a yaml_b : Text) (s : List Text)
    → Sublistᴰ s (capped yaml_a)
    → Sublistᴰ s (capped yaml_b)
    → (rows : List LinePairRow) × (compute_line_diff yaml_a yaml_b ≡ some rows)
      × Sublistᴰ (kept_lines rows) (capped yaml_a)
      × Sublistᴰ (kept_lines rows) (capped yaml_b)
      × (length (kept_lines rows) ≡ unchanged rows)
      × (length s ≤ unchanged rows)
unfolding compute_line_diff
compute_line_diff_optimal yaml_a yaml_b s p q =
    let (ops, e, left, right, _) = diff_lines-rows (capped yaml_a) (capped yaml_b) in
    let rows = number_rows 1 1 ops in
    let (k, l) = kept_lines-sublist 1 1 ops in
    (
      rows,
      e,
      subst (λ a. Sublistᴰ (kept_lines rows) a) left k,
      subst (λ b. Sublistᴰ (kept_lines rows) b) right l,
      length-kept_lines 1 1 ops,
      optimal (capped yaml_a) (capped yaml_b) rows s e p q,
    )

sublist_refl : (a : List Text) → Sublistᴰ a a
sublist_refl [] = slnil
sublist_refl (x ∷ xs) = cons-cons refl (sublist_refl xs)

-- The changed lines that the badge counts, and twice the unchanged rows, make up both sides; so a
-- text compared with itself has no changed line.
pub count_changed_lines_sum :
    (yaml_a yaml_b : Text) (rows : List LinePairRow)
    → compute_line_diff yaml_a yaml_b ≡ some rows
    → (count_changed_lines rows + 2 * unchanged rows
        ≡ length (capped yaml_a) + length (capped yaml_b))
      × (yaml_a ≡ yaml_b → count_changed_lines rows ≡ 0)
unfolding compute_line_diff
count_changed_lines_sum yaml_a yaml_b rows h =
    let a = capped yaml_a in
    let b = capped yaml_b in
    let total = changed a b rows h in
    (
      total,
      λ e.
          let p = subst (λ y. Sublistᴰ a (capped y)) e (sublist_refl a) in
          omega
            (arith, total, optimal a b rows a h (sublist_refl a) p, ap (λ y. length (capped y)) e),
    )
