-- ===== src/Collapse/Groups.antt =====
-- The groups of the candidates by their key.
use kro_ui.Prelude.{
  Bool, true, false, some, List, [], ◌∷◌, ◌++◌, ◌≡◌, refl, ◌∙◌, subst, sym, arith, keep, All,
  All-append, or_else, append_assoc, append-nil, if◌then◌else◌,
}
use kro_ui.Prelude.Text.{Text, text_eq, text_eq_iff}
use kro_ui.Prelude.Sets.{distinct}
use kro_ui.Prelude.Maps.{find_key, put, keys_of, find_key-put, distinct-put}
use kro_ui.Collapse.{Candidate, group_key, Groups, group_candidates}

-- The candidates with the key.
abbrev pub members_of : Text → List Candidate → List Candidate
members_of q cs = keep (λ c. text_eq (group_key c) q) cs

pub find_key-group_candidates :
    (q : Text) (cs : List Candidate) (m : Groups)
    → or_else (find_key q (group_candidates cs m)) [] ≡ or_else (find_key q m) [] ++ members_of q cs
unfolding group_candidates
find_key-group_candidates q [] m = sym (append-nil (or_else (find_key q m) []))
find_key-group_candidates q (c ∷ cs) m =
    let k = group_key c in
    let before = or_else (find_key k m) [] in
    find_key-group_candidates q cs (put k (before ++ c ∷ []) m)
    ∙ ground (
      arith,
      find_key-put k (before ++ c ∷ []) m q,
      text_eq_iff k q,
      append_assoc before (c ∷ []) (members_of q cs),
    )

pub distinct-group_candidates :
    (cs : List Candidate) (m : Groups)
    → distinct (keys_of m) ≡ true
    → distinct (keys_of (group_candidates cs m)) ≡ true
unfolding group_candidates
distinct-group_candidates [] m h = h
distinct-group_candidates (c ∷ cs) m h =
    distinct-group_candidates cs
      (put (group_key c) (or_else (find_key (group_key c) m) [] ++ c ∷ []) m)
      (distinct-put (group_key c) (or_else (find_key (group_key c) m) [] ++ c ∷ []) m h)

-- Every member has the key of its group.
abbrev pub AreKeyed : Groups → Type 0
AreKeyed [] = Unit
AreKeyed ((k, ms) ∷ m) = All (λ c. group_key c ≡ k) ms × AreKeyed m

found_keyed :
    (q : Text) (m : Groups) → AreKeyed m → All (λ c. group_key c ≡ q) (or_else (find_key q m) [])
unfolding find_key
found_keyed q [] h = tt
found_keyed q ((k, ms) ∷ m) (a, h) = go (text_eq k q) refl (found_keyed q m h)
  where
    go :
        (b : Bool)
        → text_eq k q ≡ b
        → All (λ c. group_key c ≡ q) (or_else (find_key q m) [])
        → All (λ c. group_key c ≡ q) (or_else (if b then some ms else find_key q m) [])
    go true e later = subst (λ r. All (λ c. group_key c ≡ r) ms) ((text_eq_iff k q).0 e) a
    go false e later = later

put-AreKeyed :
    (k : Text) (v : List Candidate) (m : Groups)
    → All (λ c. group_key c ≡ k) v
    → AreKeyed m
    → AreKeyed (put k v m)
unfolding put
put-AreKeyed k v [] a h = (a, tt)
put-AreKeyed k v ((j, ms) ∷ m) a (b, h) = go (text_eq j k) refl (put-AreKeyed k v m a h)
  where
    go :
        (t : Bool)
        → text_eq j k ≡ t
        → AreKeyed (put k v m)
        → AreKeyed (if t then (j, v) ∷ m else (j, ms) ∷ put k v m)
    go true e later = (subst (λ r. All (λ c. group_key c ≡ r) v) (sym ((text_eq_iff j k).0 e)) a, h)
    go false e later = (b, later)

pub group_candidates-AreKeyed :
    (cs : List Candidate) (m : Groups) → AreKeyed m → AreKeyed (group_candidates cs m)
unfolding group_candidates
group_candidates-AreKeyed [] m h = h
group_candidates-AreKeyed (c ∷ cs) m h =
    let k = group_key c in
    let before = or_else (find_key k m) [] in
    group_candidates-AreKeyed cs (put k (before ++ c ∷ []) m) (
      put-AreKeyed k (before ++ c ∷ []) m
        (All-append (λ x. group_key x ≡ k) before (c ∷ []) (found_keyed k m h) (refl, tt)) h)
