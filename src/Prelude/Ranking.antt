-- ===== src/Prelude/Ranking.antt =====
-- The first entries of a map whose values are numbers, the largest first.
use Prim.Native.Nat.{ℕ, zero, suc, ◌≤◌}
use mathlib.Core.Path.{◌≡◌, refl, ◌∙◌, sym}
use mathlib.Core.Logic.{◌⊎◌, inl, inr}
use mathlib.Core.Bool.{true, false, ◌||◌}
use mathlib.Core.List.{List, [], ◌∷◌}
use mathlib.Core.Option.{some}
use native.Mathlib.Omega.{arith}
use kro_ui.Prelude.Tests.{if◌then◌else◌, Bool-cases}
use kro_ui.Prelude.Lists.{length, take, length-take, All}
use kro_ui.Prelude.Text.{Text, text_eq, text_eq_iff}
use kro_ui.Prelude.Sets.{contains, distinct}
use kro_ui.Prelude.Maps.{find_key, keys_of}
use kro_ui.Prelude.Sort.{insert_desc, sort_desc, IsDescending, sort_desc-IsDescending}

abbrev pub value : Text × ℕ → ℕ
value (k, v) = v

-- `Array.from(m.entries()).sort((a, b) => b[1] - a[1]).slice(0, n)`
unfoldable pub top_entries : ℕ → List (Text × ℕ) → List (Text × ℕ)
top_entries n m = take n (sort_desc value m)

contains-insert_desc :
    (q k : Text) (v : ℕ) (m : List (Text × ℕ))
    → contains q (keys_of (insert_desc value (k, v) m)) ≡ (text_eq q k || contains q (keys_of m))
unfolding insert_desc contains
contains-insert_desc q k v [] = refl
contains-insert_desc q k v ((j, w) ∷ m) = ground (arith, contains-insert_desc q k v m)

contains-sort_desc :
    (q : Text) (m : List (Text × ℕ))
    → contains q (keys_of (sort_desc value m)) ≡ contains q (keys_of m)
unfolding sort_desc contains
contains-sort_desc q [] = refl
contains-sort_desc q ((k, v) ∷ m) =
    ground (arith, contains-insert_desc q k v (sort_desc value m), contains-sort_desc q m)

find_key-insert_desc :
    (q k : Text) (v : ℕ) (m : List (Text × ℕ))
    → contains k (keys_of m) ≡ false
    → find_key q (insert_desc value (k, v) m) ≡ (if text_eq k q then some v else find_key q m)
unfolding insert_desc contains find_key
find_key-insert_desc q k v [] h = refl
find_key-insert_desc q k v ((j, w) ∷ m) h =
    ground (arith, find_key-insert_desc q k v m, text_eq_iff k q, text_eq_iff j q, text_eq_iff k j)

distinct-insert_desc :
    (k : Text) (v : ℕ) (m : List (Text × ℕ))
    → contains k (keys_of m) ≡ false
    → distinct (keys_of m) ≡ true
    → distinct (keys_of (insert_desc value (k, v) m)) ≡ true
unfolding insert_desc distinct contains
distinct-insert_desc k v [] h d = refl
distinct-insert_desc k v ((j, w) ∷ m) h d = ground (
  arith,
  distinct-insert_desc k v m,
  contains-insert_desc j k v m,
  text_eq_iff k j,
  text_eq_iff j k,
)

distinct-sort_desc :
    (m : List (Text × ℕ))
    → distinct (keys_of m) ≡ true
    → distinct (keys_of (sort_desc value m)) ≡ true
unfolding sort_desc distinct
distinct-sort_desc [] d = refl
distinct-sort_desc ((k, v) ∷ m) d =
    distinct-insert_desc k v (sort_desc value m) (contains-sort_desc k m ∙ ground arith)
      (distinct-sort_desc m (ground arith))

find_key-sort_desc :
    (q : Text) (m : List (Text × ℕ))
    → distinct (keys_of m) ≡ true
    → find_key q (sort_desc value m) ≡ find_key q m
unfolding sort_desc distinct find_key
find_key-sort_desc q [] d = refl
find_key-sort_desc q ((k, v) ∷ m) d = ground (
  arith,
  find_key-insert_desc q k v (sort_desc value m),
  contains-sort_desc k m,
  find_key-sort_desc q m,
)

contains-take :
    (q : Text) (n : ℕ) (m : List (Text × ℕ))
    → contains q (keys_of m) ≡ false
    → contains q (keys_of (take n m)) ≡ false
unfolding contains
contains-take q zero m h = refl
contains-take q (suc n) [] h = refl
contains-take q (suc n) ((k, v) ∷ m) h = ground (arith, contains-take q n m)

distinct-take :
    (n : ℕ) (m : List (Text × ℕ))
    → distinct (keys_of m) ≡ true
    → distinct (keys_of (take n m)) ≡ true
unfolding distinct
distinct-take zero m d = refl
distinct-take (suc n) [] d = refl
distinct-take (suc n) ((k, v) ∷ m) d = ground (arith, distinct-take n m, contains-take k n m)

find_key-take :
    (q : Text) (v n : ℕ) (m : List (Text × ℕ))
    → find_key q (take n m) ≡ some v
    → find_key q m ≡ some v
unfolding find_key
find_key-take q v zero m h = ground arith
find_key-take q v (suc n) [] h = h
find_key-take q v (suc n) ((k, w) ∷ m) h = ground (arith, find_key-take q v n m)

module _ (P : Text × ℕ → Type 0) where
  All-take : (n : ℕ) (m : List (Text × ℕ)) → All P m → All P (take n m)
  All-take zero m h = tt
  All-take (suc n) [] h = tt
  All-take (suc n) (e ∷ m) (p, h) = (p, All-take n m h)

IsDescending-take :
    (n : ℕ) (m : List (Text × ℕ)) → IsDescending value m → IsDescending value (take n m)
IsDescending-take zero m h = tt
IsDescending-take (suc n) [] h = tt
IsDescending-take (suc n) (e ∷ m) (p, h) =
    (All-take (λ f. value f ≤ value e) n m p, IsDescending-take n m h)

below :
    (q : Text) (v w : ℕ) (m : List (Text × ℕ))
    → All (λ e. value e ≤ w) m
    → find_key q m ≡ some v
    → v ≤ w
unfolding find_key
below q v w [] h f = ground arith
below q v w ((k, u) ∷ m) (p, h) f = ground (arith, below q v w m h, p)

-- An entry is among the first n, or these are n and none of them is smaller.
find_key_or_below :
    (q : Text) (v n : ℕ) (m : List (Text × ℕ))
    → IsDescending value m
    → find_key q m ≡ some v
    → (find_key q (take n m) ≡ some v)
      ⊎ ((length (take n m) ≡ n) × All (λ e. v ≤ value e) (take n m))
unfolding find_key
find_key_or_below q v zero m d f = inr (refl, tt)
find_key_or_below q v (suc n) [] d f = ground arith
find_key_or_below q v (suc n) ((k, w) ∷ m) (p, d) f =
    let rest = find_key_or_below q v n m d in
    elim (Bool-cases (text_eq k q)) [
      | inl e ↦ inl (ground (arith, e, f))
      | inr e ↦
          let g : find_key q m ≡ some v = ground (arith, e, f) in
          elim (rest g) [
            | inl h ↦ inl (ground (arith, e, h))
            | inr (l, a) ↦ inr (ground (arith, l), (below q v w m p g, a))
          ]
    ]

module _ (m : List (Text × ℕ)) (n : ℕ) (d : distinct (keys_of m) ≡ true) where
  pub top_entries_sound :
      (q : Text) (v : ℕ) → find_key q (top_entries n m) ≡ some v → find_key q m ≡ some v
  unfolding top_entries
  top_entries_sound q v f =
      sym (find_key-sort_desc q m d) ∙ find_key-take q v n (sort_desc value m) f

  pub top_entries_largest :
      (q : Text) (v : ℕ)
      → find_key q m ≡ some v
      → (find_key q (top_entries n m) ≡ some v)
        ⊎ ((length (top_entries n m) ≡ n) × All (λ e. v ≤ value e) (top_entries n m))
  unfolding top_entries
  top_entries_largest q v f =
      find_key_or_below q v n (sort_desc value m) (sort_desc-IsDescending value m)
        (find_key-sort_desc q m d ∙ f)

  pub distinct-top_entries : distinct (keys_of (top_entries n m)) ≡ true
  unfolding top_entries
  distinct-top_entries = distinct-take n (sort_desc value m) (distinct-sort_desc m d)

pub top_entries-IsDescending : (m : List (Text × ℕ)) (n : ℕ) → IsDescending value (top_entries n m)
unfolding top_entries
top_entries-IsDescending m n =
    IsDescending-take n (sort_desc value m) (sort_desc-IsDescending value m)

pub length-top_entries : (m : List (Text × ℕ)) (n : ℕ) → length (top_entries n m) ≤ n
unfolding top_entries
length-top_entries m n = let e = length-take n (sort_desc value m) in omega (arith, e)
