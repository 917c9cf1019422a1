-- ===== src/LineDiff.antt =====
-- web/src/lib/diff.ts: the side-by-side line diff of two YAML texts.
-- `dp` is the list of the table's rows. `ops` is kept with its newest entry first, which is how the
-- source reads it at the end of `backtrack`. The `while` loop of `backtrack` takes fuel.
mod Rows
mod Projection
pub mod Numbered
mod Optimal
mod Tests
use kro_ui.Prelude.{
  ℕ, zero, suc, ◌+◌, ◌-◌, max, Bool, true, false, not, ◌&&◌, ◌||◌, Option, none, some, List, [],
  ◌∷◌, ◌++◌, map, ltb, leb, ◌==◌, if◌then◌else◌, length, take, keep,
}
use kro_ui.Prelude.Text.{Text, text_eq, split_on}

pub data LineStatus : Type 0 where
  same added removed : LineStatus

pub record LinePairRow : Type 0 where
  pub status : LineStatus
  pub a_line : Option Text
  pub b_line : Option Text
  pub a_index : Option ℕ
  pub b_index : Option ℕ

pub record Op : Type 0 where
  pub op : LineStatus
  pub line : Text

abbrev pub get_or {ℓ} : {A : Type ℓ} → List A → ℕ → A → A
get_or [] i d = d
get_or (x ∷ xs) zero d = x
get_or (x ∷ xs) (suc i) d = get_or xs i d

-- One round of the inner loop: `dp[i][j]` from `dp[i-1][j-1]`, `dp[i-1][j]` and `dp[i][j-1]`.
pub cell : Text → Text → ℕ → ℕ → ℕ → ℕ
cell x y diag up left = if text_eq x y then diag + 1 else max up left

-- The inner loop, from the column whose left neighbour is `left`; the previous row starts there.
pub fill_row : Text → List Text → List ℕ → ℕ → List ℕ
unfolding cell
fill_row x (y ∷ ys) (diag ∷ up ∷ rest) left =
    let v = cell x y diag up left in v ∷ fill_row x ys (up ∷ rest) v
fill_row x _ _ left = []

pub next_row : Text → List Text → List ℕ → List ℕ
unfolding fill_row
next_row x b prev = 0 ∷ fill_row x b prev 0

-- `new Array(m + 1).fill(0)`
pub zero_row : List Text → List ℕ
zero_row [] = 0 ∷ []
zero_row (y ∷ ys) = 0 ∷ zero_row ys

pub rows_from : List ℕ → List Text → List Text → List (List ℕ)
unfolding next_row
rows_from prev [] b = []
rows_from prev (x ∷ xs) b = let row = next_row x b prev in row ∷ rows_from row xs b

pub lcs_table : List Text → List Text → List (List ℕ)
unfolding rows_from zero_row
lcs_table a b = zero_row b ∷ rows_from (zero_row b) a b

abbrev pub entry : List (List ℕ) → ℕ → ℕ → ℕ
entry dp i j = get_or (get_or dp i []) j 0

abbrev pub line_at : List Text → ℕ → Text
line_at a i = get_or a i []

-- The first test of the loop, `ci > 0 && cj > 0 && a[ci-1] === b[cj-1]`.
pub at_match : List Text → List Text → ℕ → ℕ → Bool
at_match a b ci cj = ltb 0 ci && ltb 0 cj && text_eq (line_at a (ci - 1)) (line_at b (cj - 1))

-- The second, `cj > 0 && (ci === 0 || dp[ci][cj-1] >= dp[ci-1][cj])`.
pub at_added : List (List ℕ) → ℕ → ℕ → Bool
at_added dp ci cj = ltb 0 cj && (ci == 0 || leb (entry dp (ci - 1) cj) (entry dp ci (cj - 1)))

pub backtrack : List (List ℕ) → List Text → List Text → ℕ → ℕ → ℕ → List Op → Option (List Op)
unfolding at_match at_added
backtrack dp a b zero ci cj ops = if ci == 0 && cj == 0 then some ops else none
backtrack dp a b (suc fuel) ci cj ops =
    let line = line_at a (ci - 1) in
    let new = line_at b (cj - 1) in
    let both = backtrack dp a b fuel (ci - 1) (cj - 1) (record { op = same; line = line } ∷ ops) in
    let add = backtrack dp a b fuel ci (cj - 1) (record { op = added; line = new } ∷ ops) in
    let remove = backtrack dp a b fuel (ci - 1) cj (record { op = removed; line = line } ∷ ops) in
    if ci == 0 && cj == 0
    then some ops
    else if at_match a b ci cj
    then both
    else if at_added dp ci cj
    then add
    else remove

-- The loop of `computeLineDiff` over the operations.
pub number_rows : ℕ → ℕ → List Op → List LinePairRow
number_rows i j [] = []
number_rows i j (o ∷ ops) = elim o.op [
  | same ↦
      record {
        status = same;
        a_line = some o.line;
        b_line = some o.line;
        a_index = some i;
        b_index = some j;
      }
      ∷ number_rows (i + 1) (j + 1) ops
  | removed ↦
      record {
        status = removed;
        a_line = some o.line;
        b_line = none;
        a_index = some i;
        b_index = none;
      }
      ∷ number_rows (i + 1) j ops
  | added ↦
      record {
        status = added;
        a_line = none;
        b_line = some o.line;
        a_index = none;
        b_index = some j;
      }
      ∷ number_rows i (j + 1) ops
]

-- At most 3000 lines a side.
pub capped : Text → List Text
capped yaml = take 3000 (split_on 10 yaml)

pub diff_lines : List Text → List Text → Option (List LinePairRow)
unfolding backtrack lcs_table number_rows
diff_lines a b =
    elim (backtrack (lcs_table a b) a b (length a + length b) (length a) (length b) []) [
      | none ↦ none
      | some ops ↦ some (number_rows 1 1 ops)
    ]

pub compute_line_diff : Text → Text → Option (List LinePairRow)
unfolding capped diff_lines
compute_line_diff yaml_a yaml_b = diff_lines (capped yaml_a) (capped yaml_b)

abbrev pub is_same : LinePairRow → Bool
is_same row = elim row.status [ same ↦ true | _ ↦ false ]

pub count_changed_lines : List LinePairRow → ℕ
count_changed_lines rows = length (keep (λ r. not (is_same r)) rows)
