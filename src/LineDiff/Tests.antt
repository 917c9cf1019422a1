-- ===== src/LineDiff/Tests.antt =====
-- Runs of the line diff, and its theorems at concrete texts.
use mathlib.Core.List.{Sublistᴰ}
use mathlib.Core.List.Sublistᴰ.{slnil, cons, cons-cons}
use kro_ui.Prelude.{◌+◌, ◌*◌, ◌≤◌, ◌≡◌, refl, some, none, List, [], ◌∷◌, length, All}
use kro_ui.Prelude.Text.{Text, codes, text_eq, split_on}
use kro_ui.LineDiff.{
  LinePairRow, same, added, removed, compute_line_diff, capped, count_changed_lines,
}
use kro_ui.LineDiff.Numbered.{column, count_from, unchanged, IsRow, kept_lines}
use kro_ui.LineDiff.Optimal.{
  compute_line_diff_columns, compute_line_diff_optimal, count_changed_lines_sum,
}

abbrev left : Text
left = codes "x\ny"

abbrev right : Text
right = codes "x\nz"

abbrev rows : List LinePairRow
rows =
    record {
      status = same;
      a_line = some (codes "x");
      b_line = some (codes "x");
      a_index = some 1;
      b_index = some 1;
    }
    ∷ record {
      status = removed;
      a_line = some (codes "y");
      b_line = none;
      a_index = some 2;
      b_index = none;
    }
    ∷ record {
      status = added;
      a_line = none;
      b_line = some (codes "z");
      a_index = none;
      b_index = some 2;
    }
    ∷ []

replaced_line : compute_line_diff left right ≡ some rows
unfolding compute_line_diff text_eq split_on
replaced_line = refl

compute_line_diff_columns_example :
    (rows : List LinePairRow) × (compute_line_diff left right ≡ some rows)
    × (column (λ r. r.a_line) rows ≡ capped left)
    × (column (λ r. r.b_line) rows ≡ capped right)
    × (column (λ r. r.a_index) rows ≡ count_from 1 (length (capped left)))
    × (column (λ r. r.b_index) rows ≡ count_from 1 (length (capped right)))
    × All IsRow rows
compute_line_diff_columns_example = compute_line_diff_columns left right

compute_line_diff_optimal_example :
    (rows : List LinePairRow) × (compute_line_diff left right ≡ some rows)
    × Sublistᴰ (kept_lines rows) (capped left)
    × Sublistᴰ (kept_lines rows) (capped right)
    × (length (kept_lines rows) ≡ unchanged rows)
    × (1 ≤ unchanged rows)
unfolding capped split_on
compute_line_diff_optimal_example =
    compute_line_diff_optimal left right (codes "x" ∷ []) (cons-cons refl (cons slnil))
      (cons-cons refl (cons slnil))

count_changed_lines_sum_example :
    (count_changed_lines rows + 2 * unchanged rows ≡ length (capped left) + length (capped right))
    × (left ≡ right → count_changed_lines rows ≡ 0)
count_changed_lines_sum_example = count_changed_lines_sum left right rows replaced_line
