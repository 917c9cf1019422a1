-- ===== src/LineDiff/Numbered.antt =====
-- The columns of numbered rows, and the lines of the rows marked "same".
use mathlib.Core.List.{Sublistᴰ}
use mathlib.Core.List.Sublistᴰ.{slnil, cons, cons-cons}
use kro_ui.Prelude.{
  ℕ, zero, suc, ◌+◌, ◌*◌, Option, none, some, List, [], ◌∷◌, ◌≡◌, refl, arith, length, keep, All,
  if◌then◌else◌,
}
use kro_ui.Prelude.Text.{Text}
use kro_ui.LineDiff.{
  LineStatus, same, added, removed, Op, LinePairRow, number_rows, is_same, count_changed_lines,
}
use kro_ui.LineDiff.Projection.{a_side, b_side, sames}

-- The cells of one column that hold something, from the top down.
abbrev pub column {ℓ} : {C : Type ℓ} → (LinePairRow → Option C) → List LinePairRow → List C
column f [] = []
column f (r ∷ rows) = elim (f r) [ none ↦ column f rows | some c ↦ c ∷ column f rows ]

-- `i`, `i + 1`, …, as many as asked for.
abbrev pub count_from : ℕ → ℕ → List ℕ
count_from i zero = []
count_from i (suc n) = i ∷ count_from (i + 1) n

abbrev pub unchanged : List LinePairRow → ℕ
unchanged rows = length (keep is_same rows)

pub number_rows_a :
    (i j : ℕ) (ops : List Op) → column (λ r. r.a_line) (number_rows i j ops) ≡ a_side ops
unfolding number_rows
number_rows_a i j [] = refl
number_rows_a i j (o ∷ ops) = ground (
  arith,
  number_rows_a (i + 1) (j + 1) ops,
  number_rows_a (i + 1) j ops,
  number_rows_a i (j + 1) ops,
)

pub number_rows_b :
    (i j : ℕ) (ops : List Op) → column (λ r. r.b_line) (number_rows i j ops) ≡ b_side ops
unfolding number_rows
number_rows_b i j [] = refl
number_rows_b i j (o ∷ ops) = ground (
  arith,
  number_rows_b (i + 1) (j + 1) ops,
  number_rows_b (i + 1) j ops,
  number_rows_b i (j + 1) ops,
)

pub number_rows_a_index :
    (i j : ℕ) (ops : List Op)
    → column (λ r. r.a_index) (number_rows i j ops) ≡ count_from i (length (a_side ops))
unfolding number_rows
number_rows_a_index i j [] = refl
number_rows_a_index i j (o ∷ ops) = ground (
  arith,
  number_rows_a_index (i + 1) (j + 1) ops,
  number_rows_a_index (i + 1) j ops,
  number_rows_a_index i (j + 1) ops,
)

pub number_rows_b_index :
    (i j : ℕ) (ops : List Op)
    → column (λ r. r.b_index) (number_rows i j ops) ≡ count_from j (length (b_side ops))
unfolding number_rows
number_rows_b_index i j [] = refl
number_rows_b_index i j (o ∷ ops) = ground (
  arith,
  number_rows_b_index (i + 1) (j + 1) ops,
  number_rows_b_index (i + 1) j ops,
  number_rows_b_index i (j + 1) ops,
)

pub unchanged-number_rows : (i j : ℕ) (ops : List Op) → unchanged (number_rows i j ops) ≡ sames ops
unfolding number_rows
unchanged-number_rows i j [] = refl
unchanged-number_rows i j (o ∷ ops) = ground (
  arith,
  unchanged-number_rows (i + 1) (j + 1) ops,
  unchanged-number_rows (i + 1) j ops,
  unchanged-number_rows i (j + 1) ops,
)

-- Removed and added rows are counted once, and an unchanged row holds a line of each side.
pub number_rows_changed :
    (i j : ℕ) (ops : List Op)
    → count_changed_lines (number_rows i j ops) + 2 * sames ops
      ≡ length (a_side ops) + length (b_side ops)
unfolding number_rows count_changed_lines
number_rows_changed i j [] = refl
number_rows_changed i j (o ∷ ops) = ground (
  arith,
  number_rows_changed (i + 1) (j + 1) ops,
  number_rows_changed (i + 1) j ops,
  number_rows_changed i (j + 1) ops,
)

-- A row holds a text in the columns that its status says, and the same one if it holds two.
abbrev pub IsRow : LinePairRow → Type 0
IsRow r = elim r.status [
  | same ↦ (l : Text) × (r.a_line ≡ some l) × (r.b_line ≡ some l)
  | removed ↦ (l : Text) × (r.a_line ≡ some l) × (r.b_line ≡ none)
  | added ↦ (l : Text) × (r.a_line ≡ none) × (r.b_line ≡ some l)
]

pub number_rows-IsRow : (i j : ℕ) (ops : List Op) → All IsRow (number_rows i j ops)
unfolding number_rows
number_rows-IsRow i j [] = tt
number_rows-IsRow i j (o ∷ ops) =
    go o.op (number_rows-IsRow (i + 1) (j + 1) ops) (number_rows-IsRow i (j + 1) ops)
      (number_rows-IsRow (i + 1) j ops)
  where
    go :
        (s : LineStatus)
        → All IsRow (number_rows (i + 1) (j + 1) ops)
        → All IsRow (number_rows i (j + 1) ops)
        → All IsRow (number_rows (i + 1) j ops)
        → All IsRow (number_rows i j (record { op = s; line = o.line } ∷ ops))
    go same h _ _ = ((o.line, refl, refl), h)
    go added _ h _ = ((o.line, refl, refl), h)
    go removed _ _ h = ((o.line, refl, refl), h)

-- The lines of the rows marked "same".
abbrev pub kept_line : LinePairRow → Option Text
kept_line r = if is_same r then r.a_line else none

abbrev pub kept_lines : List LinePairRow → List Text
kept_lines rows = column kept_line rows

pub length-kept_lines :
    (i j : ℕ) (ops : List Op)
    → length (kept_lines (number_rows i j ops)) ≡ unchanged (number_rows i j ops)
unfolding number_rows
length-kept_lines i j [] = refl
length-kept_lines i j (o ∷ ops) = ground (
  arith,
  length-kept_lines (i + 1) (j + 1) ops,
  length-kept_lines (i + 1) j ops,
  length-kept_lines i (j + 1) ops,
)

-- They stand in this order on both sides.
pub kept_lines-sublist :
    (i j : ℕ) (ops : List Op)
    → Sublistᴰ (kept_lines (number_rows i j ops)) (a_side ops)
      × Sublistᴰ (kept_lines (number_rows i j ops)) (b_side ops)
unfolding number_rows
kept_lines-sublist i j [] = (slnil, slnil)
kept_lines-sublist i j (o ∷ ops) =
    go o.op (kept_lines-sublist (i + 1) (j + 1) ops) (kept_lines-sublist i (j + 1) ops)
      (kept_lines-sublist (i + 1) j ops)
  where
    AreKept : List LinePairRow → List Op → Type 0
    AreKept rows os =
        Sublistᴰ (kept_lines rows) (a_side os) × Sublistᴰ (kept_lines rows) (b_side os)

    go :
        (s : LineStatus)
        → AreKept (number_rows (i + 1) (j + 1) ops) ops
        → AreKept (number_rows i (j + 1) ops) ops
        → AreKept (number_rows (i + 1) j ops) ops
        → AreKept
            (number_rows i j (record { op = s; line = o.line } ∷ ops))
            (record { op = s; line = o.line } ∷ ops)
    go same (p, q) _ _ = (cons-cons refl p, cons-cons refl q)
    go added _ (p, q) _ = (p, cons q)
    go removed _ _ (p, q) = (cons p, q)
