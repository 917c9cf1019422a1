-- ===== src/Highlighter/Lossless.antt =====
-- The tokens of a text are the text, cut into pieces: nothing is lost, added or moved.
use kro_ui.Prelude.{
  ℕ, zero, suc, ◌≤◌, ◌<◌, Bool, true, false, not, ◌&&◌, ◌||◌, Option, none, some, List, [], ◌∷◌,
  ◌++◌, ◌==◌, if◌then◌else◌, length, ◌≡◌, refl, ap, sym, ◌∙◌, arith, append_assoc, append-nil,
  length-append, Bool-cases, Option-cases, List-cases, inl, inr, ==_iff,
}
use kro_ui.Prelude.Sets.{contains}
use kro_ui.Prelude.Text.{Text, join_with, join_with-split_on, split_on-cons}
use kro_ui.Prelude.Chars.{is_space, take_while, drop_while, take_while-append-drop_while}
use kro_ui.Highlighter.{
  TokenType, cel_expression, kro_keyword, yaml_key, schema_type, schema_pipe, schema_keyword,
  schema_value, comment, plain, Token, kro_keywords, schema_types, schema_keywords, is_empty,
  behind, push_token, push_tokens, append_token, Cursor, Round, go_on, return, token, advance,
  split_at, is_valid_key_word, is_key_position, extract_word, is_key_char, is_blank,
}
use kro_ui.Highlighter.Scan.{
  cel_block, comment_block, key_block, value_block, schema_block, cel_round, key_round, one, round,
  scan, tokenize_line, tokenize_lines, tokenize_split, tokenize, is_constraint_char, or_try,
  starts_comment,
}

-- The text that tokens show.
abbrev pub text_of : List Token → Text
text_of [] = []
text_of (t ∷ ts) = t.text ++ text_of ts

pub text_of-append_token :
    (ts : List Token) (ty : TokenType) (x : Text) → text_of (append_token ts ty x) ≡ text_of ts ++ x
unfolding append_token
text_of-append_token [] ty x = append-nil x
text_of-append_token (t ∷ []) ty x =
    ground (arith, append_assoc t.text x [], append-nil x, append-nil t.text)
text_of-append_token (t ∷ u ∷ ts) ty x = simp (text_of-append_token (u ∷ ts) ty x, append_assoc)

text_of-push_token :
    (ts : List Token) (ty : TokenType) (x : Text) → text_of (push_token ts ty x) ≡ text_of ts ++ x
unfolding push_token
text_of-push_token ts ty [] = sym (append-nil (text_of ts))
text_of-push_token ts ty (c ∷ x) = text_of-append_token ts ty (c ∷ x)

text_of-push_tokens : (ts us : List Token) → text_of (push_tokens ts us) ≡ text_of ts ++ text_of us
unfolding push_tokens
text_of-push_tokens ts [] = sym (append-nil (text_of ts))
text_of-push_tokens ts (u ∷ us) =
    simp (text_of-push_tokens (push_token ts u.type u.text) us, text_of-push_token, append_assoc)

-- A round consumes what it pushes, and at least one character.
abbrev Eats : ℕ → Text → Round → Type 0
Eats c r (return ts) = text_of ts ≡ c ∷ r
Eats c r (go_on ts cur) = (text_of ts ++ cur.rest ≡ c ∷ r) × (length cur.rest ≤ length r)

split_at_lem :
    (ch : ℕ) (s before after : Text)
    → split_at ch s ≡ some (before, after)
    → s ≡ before ++ ch ∷ after
unfolding split_at
split_at_lem ch [] before after h = cc
split_at_lem ch (c ∷ s) before after h = elim (Option-cases (split_at ch s)) [
  | inl e ↦ ground (arith, ==_iff c ch)
  | inr (p, e) ↦ ground (arith, split_at_lem ch s p.0 p.1)
]

one-Eats : (ty : TokenType) (cur : Cursor) (c : ℕ) (r : Text) → Eats c r (one ty cur c r)
one-Eats ty cur c r = (refl, omega arith)

-- So does a block, where it applies.
abbrev EatsMaybe : ℕ → Text → Option Round → Type 0
EatsMaybe c r none = Unit
EatsMaybe c r (some rd) = Eats c r rd

record Fits (c : ℕ) (r : Text) (o : Option Round) : Type 0 where
  fits : EatsMaybe c r o

module _ {c : ℕ} {r : Text} where
  if_Fits :
      (b : Bool) {x y : Option Round} → Fits c r x → Fits c r y → Fits c r (if b then x else y)
  if_Fits true p q = p
  if_Fits false p q = q

  none-Fits : Fits c r none
  none-Fits = record { fits = tt }

  return-Fits : (ty : TokenType) → Fits c r (some (return (token ty (c ∷ r) ∷ [])))
  return-Fits ty = record { fits = append-nil (c ∷ r) }

  one-Fits : (ty : TokenType) (cur : Cursor) → Fits c r (some (one ty cur c r))
  one-Fits ty cur = record { fits = (refl, omega arith) }

  -- One token that stands in front of what is left.
  chunk-Fits :
      (ty : TokenType) (text : Text) (cur : Cursor)
      → text ++ cur.rest ≡ c ∷ r
      → 0 < length text
      → Fits c r (some (go_on (token ty text ∷ []) cur))
  chunk-Fits ty text cur e h = record {
    fits = (
      ap (λ t. t ++ cur.rest) (append-nil text) ∙ e,
      omega (arith, ap length e, length-append text cur.rest),
    );
  }

cel_block-Fits : (cur : Cursor) (c : ℕ) (r : Text) → Fits c r (cel_block cur c r)
unfolding cel_block
cel_block-Fits cur c [] = none-Fits
cel_block-Fits cur c (d ∷ r) =
    if_Fits (c == b'$' && d == b'{') (go (split_at b'}' r) (split_at_lem b'}' r)) none-Fits
  where
    go :
        (o : Option (Text × Text))
        → ((before after : Text) → o ≡ some (before, after) → r ≡ before ++ b'}' ∷ after)
        → Fits c (d ∷ r) (some (cel_round cur (c ∷ d ∷ []) r o))
    go none e = return-Fits plain
    go (some (inside, after)) e =
        chunk-Fits cel_expression _ _
          (ap (λ t. c ∷ d ∷ t) (append_assoc inside (b'}' ∷ []) after ∙ sym (e inside after refl)))
          (omega arith)

comment_block-Fits : (cur : Cursor) (c : ℕ) (r : Text) → Fits c r (comment_block cur c r)
unfolding comment_block
comment_block-Fits cur c r =
    if_Fits (c == b'#' && (is_empty cur.past || behind cur.past 32 9)) (return-Fits comment)
      none-Fits

key_block-Fits : (cur : Cursor) (c : ℕ) (r : Text) → Fits c r (key_block cur c r)
unfolding key_block
key_block-Fits cur c r =
    if_Fits (not cur.in_value_position && is_key_position cur.past c r)
      (go (split_at b':' (c ∷ r)) (split_at_lem b':' (c ∷ r))) none-Fits
  where
    go :
        (o : Option (Text × Text))
        → ((before after : Text) → o ≡ some (before, after) → c ∷ r ≡ before ++ b':' ∷ after)
        → Fits c r (key_round cur o)
    go none e = none-Fits
    go (some (word, after)) e =
        if_Fits (is_valid_key_word word)
          (chunk-Fits (if contains word kro_keywords then kro_keyword else yaml_key)
            (word ++ b':' ∷ [])
            (record cur {
              past = (advance cur (word ++ b':' ∷ []) after).past;
              rest = after;
              in_value_position = true;
            })
            (append_assoc word (b':' ∷ []) after ∙ sym (e word after refl))
            (omega (arith, length-append word (b':' ∷ []))))
          none-Fits

-- A word that is not empty stands in front of the line from its end on.
word-Fits :
    (ty : TokenType) (c : ℕ) (r : Text) (cur : Cursor)
    → is_empty (take_while is_key_char (c ∷ r)) ≡ false
    → cur.rest ≡ drop_while is_key_char (c ∷ r)
    → Fits c r (some (go_on (token ty (take_while is_key_char (c ∷ r)) ∷ []) cur))
word-Fits ty c r cur n e =
    chunk-Fits ty (take_while is_key_char (c ∷ r)) cur
      (rw e (take_while-append-drop_while is_key_char (c ∷ r)))
      (pos_of_not_empty (take_while is_key_char (c ∷ r)) n)
  where
    pos_of_not_empty : (s : Text) → is_empty s ≡ false → 0 < length s
    pos_of_not_empty [] h = cc
    pos_of_not_empty (x ∷ s) h = omega arith

-- A branch under a test may use that the test holds.
dif-Fits :
    {c : ℕ} {r : Text} (b : Bool) {x y : Option Round}
    → (b ≡ true → Fits c r x)
    → (b ≡ false → Fits c r y)
    → Fits c r (if b then x else y)
dif-Fits true p q = p refl
dif-Fits false p q = q refl

value_block-Fits : (cur : Cursor) (c : ℕ) (r : Text) → Fits c r (value_block cur c r)
unfolding value_block extract_word
value_block-Fits cur c r =
    if_Fits (cur.in_value_position && not cur.is_schema_value)
      (if_Fits (is_blank c) (one-Fits plain cur) (
        dif-Fits
          (not (is_empty (take_while is_key_char (c ∷ r)))
            && contains (take_while is_key_char (c ∷ r)) schema_types)
          (λ h. if_Fits (behind cur.past b'"' b'\'') (one-Fits plain cur) (
            word-Fits schema_type c r
              (record cur {
                past = (advance cur (take_while is_key_char (c ∷ r)) []).past;
                rest = drop_while is_key_char (c ∷ r);
                is_schema_value = true;
              })
              (ground arith) refl))
          (λ _. none-Fits)))
      none-Fits

constraint-Fits :
    (cur : Cursor) (c : ℕ) (r : Text)
    → Fits c r (
        some (
          go_on
            (token plain (c ∷ []) ∷ token schema_value (take_while is_constraint_char r) ∷ [])
            (advance cur (c ∷ take_while is_constraint_char r) (drop_while is_constraint_char r))))
constraint-Fits cur c r =
    let whole = take_while-append-drop_while is_constraint_char r in
    let v = take_while is_constraint_char r in
    let d = drop_while is_constraint_char r in
    record {
      fits = (
        ap (λ t. c ∷ (t ++ d)) (append-nil v) ∙ ap (λ t. c ∷ t) whole,
        omega (arith, ap length whole, length-append v d),
      );
    }

schema_block-Fits : (cur : Cursor) (c : ℕ) (r : Text) → Fits c r (schema_block cur c r)
unfolding schema_block extract_word
schema_block-Fits cur c r =
    if_Fits cur.is_schema_value
      (if_Fits (is_blank c) (one-Fits plain cur) (
        if_Fits (c == b'|') (one-Fits schema_pipe cur) (
          if_Fits (c == b'=') (constraint-Fits cur c r) (
            dif-Fits (is_empty (take_while is_key_char (c ∷ r))) (λ _. none-Fits)
              (λ h.
                if_Fits (contains (take_while is_key_char (c ∷ r)) schema_keywords)
                  (word-Fits schema_keyword c r _ h refl)
                  (if_Fits (contains (take_while is_key_char (c ∷ r)) schema_types)
                    (word-Fits schema_type c r _ h refl) (word-Fits plain c r _ h refl)))))))
      none-Fits

record FitsRound (c : ℕ) (r : Text) (rd : Round) : Type 0 where
  fits : Eats c r rd

try :
    {c : ℕ} {r : Text} {o : Option Round} {later : Round}
    → Fits c r o
    → FitsRound c r later
    → FitsRound c r (or_try o later)
try {o = none} f e = e
try {o = some rd} f e = record { fits = f.fits }

round_eats : (cur : Cursor) (c : ℕ) (r : Text) → FitsRound c r (round cur c r)
unfolding round
round_eats cur c r = try (cel_block-Fits cur c r) (
    try (comment_block-Fits cur c r) (
      try (key_block-Fits cur c r) (
        try (value_block-Fits cur c r)
          (try (schema_block-Fits cur c r) (record { fits = one-Eats plain cur c r })))))

-- The loop ends, and shows the line from the cursor on behind the tokens that were there.
abbrev Shows : Option (List Token) → Text → Type 0
Shows result text = (out : List Token) × (result ≡ some out) × (text_of out ≡ text)

scan_lossless :
    (fuel : ℕ) (cur : Cursor) (tokens : List Token)
    → length cur.rest ≤ fuel
    → Shows (scan fuel cur tokens) (text_of tokens ++ cur.rest)
unfolding scan
scan_lossless zero cur tokens h = elim (List-cases cur.rest) [
  | inl e ↦ (tokens, rw (e, scan), rw e (sym (append-nil (text_of tokens))))
  | inr (c, r, e) ↦ absurd (omega (arith, ap length e))
]
scan_lossless (suc fuel) cur tokens h = elim (List-cases cur.rest) [
  | inl e ↦ (tokens, rw (e, scan), rw e (sym (append-nil (text_of tokens))))
  | inr (c, r, e) ↦
      rw (e, scan)
        (go c r (round cur c r) (round_eats cur c r).fits (λ cur' ts k.
          scan_lossless fuel cur' (push_tokens tokens ts) (omega (arith, ap length e))))
]
  where
    go :
        (c : ℕ) (r : Text) (rd : Round)
        → Eats c r rd
        → ((cur' : Cursor) (ts : List Token)
            → length cur'.rest ≤ length r
            → Shows
                (scan fuel cur' (push_tokens tokens ts))
                (text_of (push_tokens tokens ts) ++ cur'.rest))
        → Shows
            (elim rd [
              | return ts ↦ some (push_tokens tokens ts)
              | go_on ts cur' ↦ scan fuel cur' (push_tokens tokens ts)
            ])
            (text_of tokens ++ c ∷ r)
    go c r (return ts) e ih = (
      push_tokens tokens ts,
      refl,
      text_of-push_tokens tokens ts ∙ ap (λ t. text_of tokens ++ t) e,
    )
    go c r (go_on ts cur') e ih =
        let (out, ends, shown) = ih cur' ts e.1 in
        (
          out,
          ends,
          shown ∙ simp (text_of-push_tokens, append_assoc) (ap (λ t. text_of tokens ++ t) e.0),
        )

tokenize_line_lossless :
    (line : Text) (tokens : List Token) → Shows (tokenize_line line tokens) (text_of tokens ++ line)
unfolding tokenize_line
tokenize_line_lossless line tokens = elim (Bool-cases (starts_comment (drop_while is_space line))) [
  | inl e ↦ (
    push_token (push_token tokens plain (take_while is_space line)) comment
        (drop_while is_space line),
    rw e,
    simp (text_of-push_token, append_assoc)
        (ap (λ t. text_of tokens ++ t) (take_while-append-drop_while is_space line)),
  )
  | inr e ↦ rw e (
      scan_lossless (length line)
        (record { past = []; rest = line; in_value_position = false; is_schema_value = false })
        tokens (omega arith))
]

-- The lines behind the first, each after its newline.
abbrev behind_first : List Text → Text
behind_first [] = []
behind_first (l ∷ ls) = 10 ∷ l ++ behind_first ls

join_with-behind_first : (l : Text) (ls : List Text) → join_with 10 (l ∷ ls) ≡ l ++ behind_first ls
unfolding join_with
join_with-behind_first l [] = sym (append-nil l)
join_with-behind_first l (m ∷ ls) = ap (λ t. l ++ 10 ∷ t) (join_with-behind_first m ls)

tokenize_lines_lossless :
    (ls : List Text) (tokens : List Token)
    → Shows (tokenize_lines ls tokens) (text_of tokens ++ behind_first ls)
unfolding tokenize_lines
tokenize_lines_lossless [] tokens = (tokens, refl, sym (append-nil (text_of tokens)))
tokenize_lines_lossless (l ∷ ls) tokens =
    let (out, e, shown) = tokenize_line_lossless l (push_token tokens plain (10 ∷ [])) in
    let (out', e', shown') = tokenize_lines_lossless ls out in
    (out', rw (e, tokenize_lines) e', shown' ∙ rw (shown, text_of-push_token) (simp append_assoc))

-- Tokenizing ends on every text, and the tokens one after another are the text, character by
-- character: highlighting never loses, adds or moves a character.
pub tokenize_lossless :
    (yaml : Text) → (tokens : List Token) × (tokenize yaml ≡ some tokens) × (text_of tokens ≡ yaml)
unfolding tokenize
tokenize_lossless [] = ([], refl, refl)
tokenize_lossless (c ∷ yaml) =
    let (l, ls, e) = split_on-cons 10 (c ∷ yaml) in
    let (out, f, shown) = tokenize_line_lossless l [] in
    let (out', f', shown') = tokenize_lines_lossless ls out in
    (
      out',
      rw (e, tokenize_split) (rw f f'),
      shown'
          ∙ ap (λ t. t ++ behind_first ls) shown
          ∙ sym (join_with-behind_first l ls)
          ∙ ap (join_with 10) (sym e)
          ∙ join_with-split_on 10 (c ∷ yaml),
    )
