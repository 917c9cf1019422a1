-- ===== src/LineDiff/Projection.antt =====
-- The two columns of the diff are the two inputs, and the row numbers count them.
use kro_ui.Prelude.{
  ℕ, zero, suc, ◌+◌, ◌-◌, ◌≤◌, ◌<◌, true, false, some, List, [], ◌∷◌, ◌++◌, ◌≡◌, refl, ap, ◌∙◌, sym,
  inl, inr, arith, if◌then◌else◌, length, take, reverse, Bool-cases, max,
}
use mathlib.Core.Path.{ap₂}
use mathlib.Core.List.{reverse_aux}
use kro_ui.Prelude.Text.{Text, text_eq, text_eq_iff}
use kro_ui.LineDiff.{
  LineStatus, same, added, removed, Op, line_at, at_match, at_added, backtrack, lcs_table,
}
use kro_ui.LineDiff.Rows.{lcs_length, lcs_length-nil, rev_take, rev_take-suc, entry-lcs_table}

-- The lines of A, of B, and of both, that a list of operations stands for.
abbrev pub a_side : List Op → List Text
a_side [] = []
a_side (o ∷ ops) = elim o.op [ added ↦ a_side ops | _ ↦ o.line ∷ a_side ops ]

abbrev pub b_side : List Op → List Text
b_side [] = []
b_side (o ∷ ops) = elim o.op [ removed ↦ b_side ops | _ ↦ o.line ∷ b_side ops ]

abbrev pub sames : List Op → ℕ
sames [] = 0
sames (o ∷ ops) = elim o.op [ same ↦ suc (sames ops) | _ ↦ sames ops ]

-- What a position of the backtracking promises of its result.
pub record Traces (a b : List Text) (ci cj : ℕ) (ops out : List Op) : Type 0 where
  pub left : a_side out ≡ take ci a ++ a_side ops
  pub right : b_side out ≡ take cj b ++ b_side ops
  pub kept : sames out ≡ lcs_length (rev_take [] ci a) (rev_take [] cj b) + sames ops

take-suc :
    (a : List Text) (i : ℕ) (r : List Text)
    → i < length a
    → take (suc i) a ++ r ≡ take i a ++ line_at a i ∷ r
take-suc [] i r h = absurd (omega arith)
take-suc (x ∷ xs) zero r h = refl
take-suc (x ∷ xs) (suc i) r h = ap (λ t. x ∷ t) (take-suc xs i r (omega arith))

suc-sub-one : (i : ℕ) → suc i - 1 ≡ i
suc-sub-one i = omega arith

take_all : (a : List Text) → take (length a) a ++ [] ≡ a
take_all [] = refl
take_all (x ∷ xs) = ap (λ t. x ∷ t) (take_all xs)

rev_take_all : (acc a : List Text) → rev_take acc (length a) a ≡ reverse_aux a acc
unfolding rev_take
rev_take_all acc [] = refl
rev_take_all acc (x ∷ xs) = rev_take_all (x ∷ acc) xs

module _ (a b : List Text) where
  trace_done : (ops : List Op) → Traces a b 0 0 ops ops
  unfolding rev_take lcs_length
  trace_done ops = record { left = refl; right = refl; kept = omega arith }

  -- `lcs_length` of two prefixes by their last lines.
  lcs-suc :
      (i j : ℕ)
      → i < length a
      → j < length b
      → lcs_length (rev_take [] (suc i) a) (rev_take [] (suc j) b) ≡ (
          if text_eq (line_at a i) (line_at b j)
          then lcs_length (rev_take [] i a) (rev_take [] j b) + 1
          else max
              (lcs_length (rev_take [] i a) (rev_take [] (suc j) b))
              (lcs_length (rev_take [] (suc i) a) (rev_take [] j b)))
  lcs-suc i j h k =
      rw (rev_take-suc [] a i h) (rw (rev_take-suc [] b j k) (unfold lcs_length in refl))

  lcs-zero : (j : ℕ) → lcs_length (rev_take [] 0 a) (rev_take [] j b) ≡ 0
  unfolding lcs_length rev_take
  lcs-zero j = refl

  lcs-zero_right : (i : ℕ) → lcs_length (rev_take [] i a) (rev_take [] 0 b) ≡ 0
  unfolding rev_take
  lcs-zero_right i = lcs_length-nil (rev_take [] i a)

  -- Where the second test of the loop holds, dropping the line of B costs nothing.
  lcs-added :
      (i j : ℕ)
      → i ≤ length a
      → j < length b
      → at_match a b i (suc j) ≡ false
      → at_added (lcs_table a b) i (suc j) ≡ true
      → lcs_length (rev_take [] i a) (rev_take [] (suc j) b)
        ≡ lcs_length (rev_take [] i a) (rev_take [] j b)
  unfolding at_match at_added
  lcs-added zero j h k m e = omega (arith, lcs-zero j, lcs-zero (suc j))
  lcs-added (suc i) j h k m e = ground (
    arith,
    lcs-suc i j (omega arith) k,
    entry-lcs_table a b i (suc j) (omega arith) (omega arith),
    entry-lcs_table a b (suc i) j (omega arith) (omega arith),
  )

  lcs-removed :
      (i j : ℕ)
      → i < length a
      → j ≤ length b
      → at_match a b (suc i) j ≡ false
      → at_added (lcs_table a b) (suc i) j ≡ false
      → lcs_length (rev_take [] (suc i) a) (rev_take [] j b)
        ≡ lcs_length (rev_take [] i a) (rev_take [] j b)
  unfolding at_match at_added
  lcs-removed i zero h k m e = omega (arith, lcs-zero_right i, lcs-zero_right (suc i))
  lcs-removed i (suc j) h k m e = ground (
    arith,
    lcs-suc i j (omega arith) (omega arith),
    entry-lcs_table a b i (suc j) (omega arith) (omega arith),
    entry-lcs_table a b (suc i) j (omega arith) (omega arith),
  )

  matched :
      (i j : ℕ) → at_match a b (suc i) (suc j) ≡ true → text_eq (line_at a i) (line_at b j) ≡ true
  unfolding at_match
  matched i j m = ground (arith, suc-sub-one i, suc-sub-one j)

  Traces-same :
      (i j : ℕ) (ops out : List Op)
      → i < length a
      → j < length b
      → text_eq (line_at a i) (line_at b j) ≡ true
      → Traces a b i j (record { op = same; line = line_at a i } ∷ ops) out
      → Traces a b (suc i) (suc j) ops out
  Traces-same i j ops out h k e t = record {
    left = t.left ∙ sym (take-suc a i (a_side ops) h);
    right =
        t.right
        ∙ ap (λ l. take j b ++ l ∷ b_side ops) ((text_eq_iff _ _).0 e)
        ∙ sym (take-suc b j (b_side ops) k);
    kept = ground (arith, t.kept, lcs-suc i j h k);
  }

  Traces-added :
      (i j : ℕ) (ops out : List Op)
      → i ≤ length a
      → j < length b
      → at_match a b i (suc j) ≡ false
      → at_added (lcs_table a b) i (suc j) ≡ true
      → Traces a b i j (record { op = added; line = line_at b j } ∷ ops) out
      → Traces a b i (suc j) ops out
  Traces-added i j ops out h k m e t = record {
    left = t.left;
    right = t.right ∙ sym (take-suc b j (b_side ops) k);
    kept = omega (arith, t.kept, lcs-added i j h k m e);
  }

  Traces-removed :
      (i j : ℕ) (ops out : List Op)
      → i < length a
      → j ≤ length b
      → at_match a b (suc i) j ≡ false
      → at_added (lcs_table a b) (suc i) j ≡ false
      → Traces a b i j (record { op = removed; line = line_at a i } ∷ ops) out
      → Traces a b (suc i) j ops out
  Traces-removed i j ops out h k m e t = record {
    left = t.left ∙ sym (take-suc a i (a_side ops) h);
    right = t.right;
    kept = omega (arith, t.kept, lcs-removed i j h k m e);
  }

  abbrev step : LineStatus → Text → List Op → List Op
  step s l ops = record { op = s; line = l } ∷ ops

  module _ (dp : List (List ℕ)) (fuel i j : ℕ) (ops : List Op) where
    backtrack_same :
        at_match a b (suc i) (suc j) ≡ true
        → backtrack dp a b (suc fuel) (suc i) (suc j) ops
          ≡ backtrack dp a b fuel i j (step same (line_at a i) ops)
    unfolding backtrack
    backtrack_same m = ground (arith, suc-sub-one i, suc-sub-one j)

    backtrack_added :
        at_match a b i (suc j) ≡ false
        → at_added dp i (suc j) ≡ true
        → backtrack dp a b (suc fuel) i (suc j) ops
          ≡ backtrack dp a b fuel i j (step added (line_at b j) ops)
    unfolding backtrack
    backtrack_added m n = ground (arith, suc-sub-one j)

    backtrack_removed :
        at_match a b (suc i) j ≡ false
        → at_added dp (suc i) j ≡ false
        → backtrack dp a b (suc fuel) (suc i) j ops
          ≡ backtrack dp a b fuel i j (step removed (line_at a i) ops)
    unfolding backtrack
    backtrack_removed m n = ground (arith, suc-sub-one i)

  -- What the loop returns from a position: it ends, and its result traces the two prefixes.
  abbrev Ends : ℕ → ℕ → ℕ → List Op → Type 0
  Ends fuel ci cj ops =
      (out : List Op) × (backtrack (lcs_table a b) a b fuel ci cj ops ≡ some out)
      × Traces a b ci cj ops out

  backtrack-Traces :
      (fuel ci cj : ℕ) (ops : List Op)
      → ci + cj ≤ fuel
      → ci ≤ length a
      → cj ≤ length b
      → Ends fuel ci cj ops
  backtrack-Traces zero zero zero ops f h k = (ops, unfold backtrack in refl, trace_done ops)
  backtrack-Traces zero zero (suc j) ops f h k = absurd (omega arith)
  backtrack-Traces zero (suc i) j ops f h k = absurd (omega arith)
  backtrack-Traces (suc fuel) zero zero ops f h k = (ops, unfold backtrack in refl, trace_done ops)
  backtrack-Traces (suc fuel) zero (suc j) ops f h k =
      let (out, e, t) =
        backtrack-Traces fuel zero j (step added (line_at b j) ops) (omega arith) h (omega arith) in
      let m : at_match a b zero (suc j) ≡ false = unfold at_match in refl in
      let n : at_added (lcs_table a b) zero (suc j) ≡ true = unfold at_added in ground arith in
      (
        out,
        backtrack_added (lcs_table a b) fuel zero j ops m n ∙ e,
        Traces-added zero j ops out h k m n t,
      )
  backtrack-Traces (suc fuel) (suc i) zero ops f h k =
      let (out, e, t) =
        backtrack-Traces fuel i zero (step removed (line_at a i) ops) (omega arith) (omega arith)
          k in
      let m : at_match a b (suc i) zero ≡ false = unfold at_match in ground arith in
      let n : at_added (lcs_table a b) (suc i) zero ≡ false = unfold at_added in refl in
      (
        out,
        backtrack_removed (lcs_table a b) fuel i zero ops m n ∙ e,
        Traces-removed i zero ops out h k m n t,
      )
  backtrack-Traces (suc fuel) (suc i) (suc j) ops f h k =
      let (out, e, t) =
        backtrack-Traces fuel i j (step same (line_at a i) ops) (omega arith) (omega arith)
          (omega arith) in
      let (out', e', t') =
        backtrack-Traces fuel (suc i) j (step added (line_at b j) ops) (omega arith) h
          (omega arith) in
      let (out'', e'', t'') =
        backtrack-Traces fuel i (suc j) (step removed (line_at a i) ops) (omega arith) (omega arith)
          k in
      elim (Bool-cases (at_match a b (suc i) (suc j))) [
        | inl m ↦ (
          out,
          backtrack_same (lcs_table a b) fuel i j ops m ∙ e,
          Traces-same i j ops out h k (matched i j m) t,
        )
        | inr m ↦ elim (Bool-cases (at_added (lcs_table a b) (suc i) (suc j))) [
          | inl n ↦ (
            out',
            backtrack_added (lcs_table a b) fuel (suc i) j ops m n ∙ e',
            Traces-added (suc i) j ops out' h k m n t',
          )
          | inr n ↦ (
            out'',
            backtrack_removed (lcs_table a b) fuel i (suc j) ops m n ∙ e'',
            Traces-removed i (suc j) ops out'' h k m n t'',
          )
        ]
      ]

-- The loop of `backtrack` ends, with the whole of both sides.
pub backtrack_ends :
    (a b : List Text)
    → (out : List Op) × (backtrack
          (lcs_table a b)
          a
          b
          (length a + length b)
          (length a)
          (length b)
          []
        ≡ some out)
      × (a_side out ≡ a)
      × (b_side out ≡ b)
      × (sames out ≡ lcs_length (reverse a) (reverse b))
backtrack_ends a b =
    let (out, e, t) =
      backtrack-Traces a b (length a + length b) (length a) (length b) [] (omega arith)
        (omega arith) (omega arith) in
    (
      out,
      e,
      t.left ∙ take_all a,
      t.right ∙ take_all b,
      omega (arith, t.kept, ap₂ lcs_length (rev_take_all [] a) (rev_take_all [] b)),
    )
