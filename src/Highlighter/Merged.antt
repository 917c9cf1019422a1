-- ===== src/Highlighter/Merged.antt =====
-- `pushToken` merges: no token is empty and no two neighbours have one type.
use kro_ui.Prelude.{
  ℕ, zero, suc, true, false, Option, none, some, List, [], ◌∷◌, ◌++◌, ◌≡◌, ◌≢◌, refl, ◌∙◌, length,
  Bool-cases, inl, inr, List-cases,
}
use kro_ui.Prelude.Text.{Text, split_on}
use kro_ui.Prelude.Chars.{take_while, drop_while, is_space}
use kro_ui.Highlighter.{
  TokenType, TokenType-discrete, plain, comment, Token, type_eq, append_token, push_token,
  push_tokens, Cursor, Round, go_on, return,
}
use kro_ui.Highlighter.Scan.{
  round, scan, starts_comment, tokenize_line, tokenize_lines, tokenize_split, tokenize,
}

ne_of_type_eq : (a b : TokenType) → type_eq a b ≡ false → a ≢ b
unfolding type_eq
ne_of_type_eq a b h e = go (TokenType-discrete a b) h
  where
    go : (d : Dec (a ≡ b)) → (elim d [ yes _ ↦ true | no _ ↦ false ]) ≡ false → ⊥
    go (yes p) k = cc
    go (no n) k = n e

-- Neighbours differ in type, and every token shows something.
abbrev pub IsMerged : List Token → Type 0
IsMerged [] = Unit
IsMerged (t ∷ []) = t.text ≢ []
IsMerged (t ∷ u ∷ ts) = (t.text ≢ []) × (t.type ≢ u.type) × IsMerged (u ∷ ts)

not_empty_append : (s x : Text) (c : ℕ) → s ++ c ∷ x ≢ []
not_empty_append [] x c e = cc
not_empty_append (d ∷ s) x c e = cc

-- The first token keeps its type.
append_token_head :
    (t : Token) (ts : List Token) (ty : TokenType) (x : Text)
    → (t' : Token) × (rest : List Token) × (append_token (t ∷ ts) ty x ≡ t' ∷ rest)
      × (t'.type ≡ t.type)
unfolding append_token
append_token_head t [] ty x = elim (Bool-cases (type_eq t.type ty)) [
  | inl e ↦ (record { type = t.type; text = t.text ++ x }, [], rw e, refl)
  | inr e ↦ (t, record { type = ty; text = x } ∷ [], rw e, refl)
]
append_token_head t (u ∷ ts) ty x = (t, append_token (u ∷ ts) ty x, refl, refl)

IsMerged-cons :
    (t u u' : Token) (ts rest : List Token)
    → IsMerged (t ∷ u ∷ ts)
    → u'.type ≡ u.type
    → IsMerged (u' ∷ rest)
    → IsMerged (t ∷ u' ∷ rest)
IsMerged-cons t u u' ts rest h e k = (h.0, λ p. h.1 (p ∙ e), k)

append_token-IsMerged :
    (ts : List Token) (ty : TokenType) (c : ℕ) (x : Text)
    → IsMerged ts
    → IsMerged (append_token ts ty (c ∷ x))
unfolding append_token
append_token-IsMerged [] ty c x h = λ e. cc
append_token-IsMerged (t ∷ []) ty c x h = elim (Bool-cases (type_eq t.type ty)) [
  | inl e ↦ rw e (not_empty_append t.text x c)
  | inr e ↦ rw e (h, ne_of_type_eq t.type ty e, λ p. cc)
]
append_token-IsMerged (t ∷ u ∷ ts) ty c x h =
    let (u', rest, e, same) = append_token_head u ts ty (c ∷ x) in
    rw e (IsMerged-cons t u u' ts rest h same (rw e at (append_token-IsMerged (u ∷ ts) ty c x h.2)))

push_token-IsMerged :
    (ts : List Token) (ty : TokenType) (x : Text) → IsMerged ts → IsMerged (push_token ts ty x)
unfolding push_token
push_token-IsMerged ts ty [] h = h
push_token-IsMerged ts ty (c ∷ x) h = append_token-IsMerged ts ty c x h

push_tokens-IsMerged : (ts us : List Token) → IsMerged ts → IsMerged (push_tokens ts us)
unfolding push_tokens
push_tokens-IsMerged ts [] h = h
push_tokens-IsMerged ts (u ∷ us) h =
    push_tokens-IsMerged (push_token ts u.type u.text) us (push_token-IsMerged ts u.type u.text h)

abbrev MergedResult : Option (List Token) → Type 0
MergedResult none = Unit
MergedResult (some ts) = IsMerged ts

scan-IsMerged :
    (fuel : ℕ) (cur : Cursor) (ts : List Token) → IsMerged ts → MergedResult (scan fuel cur ts)
unfolding scan
scan-IsMerged zero cur ts h = elim (List-cases cur.rest) [
  | inl e ↦ rw e h
  | inr (c, r, e) ↦ rw e tt
]
scan-IsMerged (suc fuel) cur ts h = elim (List-cases cur.rest) [
  | inl e ↦ rw e h
  | inr (c, r, e) ↦ rw e (
      go (round cur c r)
        (λ cur' us. scan-IsMerged fuel cur' (push_tokens ts us) (push_tokens-IsMerged ts us h)))
]
  where
    go :
        (rd : Round)
        → ((cur' : Cursor) (us : List Token) → MergedResult (scan fuel cur' (push_tokens ts us)))
        → MergedResult (elim rd [
          | return us ↦ some (push_tokens ts us)
          | go_on us cur' ↦ scan fuel cur' (push_tokens ts us)
        ])
    go (return us) ih = push_tokens-IsMerged ts us h
    go (go_on us cur') ih = ih cur' us

tokenize_line-IsMerged :
    (line : Text) (ts : List Token) → IsMerged ts → MergedResult (tokenize_line line ts)
unfolding tokenize_line
tokenize_line-IsMerged line ts h = elim (Bool-cases (starts_comment (drop_while is_space line))) [
  | inl e ↦ rw e (
      push_token-IsMerged (push_token ts plain (take_while is_space line)) comment
        (drop_while is_space line) (push_token-IsMerged ts plain (take_while is_space line) h))
  | inr e ↦ rw e (
      scan-IsMerged (length line)
        (record { past = []; rest = line; in_value_position = false; is_schema_value = false }) ts
        h)
]

tokenize_lines-IsMerged :
    (ls : List Text) (ts : List Token) → IsMerged ts → MergedResult (tokenize_lines ls ts)
unfolding tokenize_lines
tokenize_lines-IsMerged [] ts h = h
tokenize_lines-IsMerged (l ∷ ls) ts h =
    go (tokenize_line l (push_token ts plain (10 ∷ [])))
      (tokenize_line-IsMerged l _ (push_token-IsMerged ts plain (10 ∷ []) h))
      (tokenize_lines-IsMerged ls)
  where
    go :
        (o : Option (List Token))
        → MergedResult o
        → ((us : List Token) → IsMerged us → MergedResult (tokenize_lines ls us))
        → MergedResult (elim o [ none ↦ none | some us ↦ tokenize_lines ls us ])
    go none m ih = tt
    go (some us) m ih = ih us m

tokenize_split-IsMerged : (ls : List Text) → MergedResult (tokenize_split ls)
unfolding tokenize_split
tokenize_split-IsMerged [] = tt
tokenize_split-IsMerged (l ∷ ls) = go (tokenize_line l []) (tokenize_line-IsMerged l [] tt)
  where
    go :
        (o : Option (List Token))
        → MergedResult o
        → MergedResult (elim o [ none ↦ none | some us ↦ tokenize_lines ls us ])
    go none m = tt
    go (some us) m = tokenize_lines-IsMerged ls us m

tokenize-MergedResult : (yaml : Text) → MergedResult (tokenize yaml)
unfolding tokenize
tokenize-MergedResult [] = tt
tokenize-MergedResult (c ∷ yaml) = tokenize_split-IsMerged (split_on 10 (c ∷ yaml))

-- Whatever the text, the tokens that come back are maximal: none is empty, and no two neighbours
-- have the same type.
pub tokenize-IsMerged :
    (yaml : Text) (tokens : List Token) → tokenize yaml ≡ some tokens → IsMerged tokens
tokenize-IsMerged yaml tokens e = rw e at (tokenize-MergedResult yaml)
