-- ===== src/Prelude/Maps.antt =====
-- `Map<string, V>`: the entries in the order of their insertion, each key once.
use mathlib.Core.Path.{◌≡◌, refl}
use mathlib.Core.Bool.{true, ◌||◌}
use mathlib.Core.List.{List, [], ◌∷◌}
use mathlib.Core.Option.{Option, none, some}
use native.Mathlib.Omega.{arith}
use kro_ui.Prelude.Tests.{if◌then◌else◌, is_some}
use kro_ui.Prelude.Text.{Text, text_eq, text_eq_iff}
use kro_ui.Prelude.Sets.{contains, distinct}

module _ {V : Type 0} where
  -- `map.get(k)`
  unfoldable pub find_key : Text → List (Text × V) → Option V
  find_key k [] = none
  find_key k ((j, v) ∷ m) = if text_eq j k then some v else find_key k m

  -- `map.set(k, v)`
  unfoldable pub put : Text → V → List (Text × V) → List (Text × V)
  put k v [] = (k, v) ∷ []
  put k v ((j, w) ∷ m) = let later = put k v m in if text_eq j k then (j, v) ∷ m else (j, w) ∷ later

  abbrev pub keys_of : List (Text × V) → List Text
  keys_of [] = []
  keys_of ((j, v) ∷ m) = j ∷ keys_of m

  pub find_key-put :
      (k : Text) (v : V) (m : List (Text × V)) (q : Text)
      → find_key q (put k v m) ≡ (if text_eq k q then some v else find_key q m)
  unfolding find_key put
  find_key-put k v [] q = refl
  find_key-put k v ((j, w) ∷ m) q =
      ground (arith, find_key-put k v m q, text_eq_iff j k, text_eq_iff j q, text_eq_iff k q)

  pub contains-keys_of :
      (q : Text) (m : List (Text × V)) → contains q (keys_of m) ≡ is_some (find_key q m)
  unfolding contains find_key
  contains-keys_of q [] = refl
  contains-keys_of q ((j, w) ∷ m) =
      ground (arith, contains-keys_of q m, text_eq_iff j q, text_eq_iff q j)

  contains-put :
      (k : Text) (v : V) (m : List (Text × V)) (q : Text)
      → contains q (keys_of (put k v m)) ≡ (text_eq q k || contains q (keys_of m))
  unfolding contains put
  contains-put k v [] q = refl
  contains-put k v ((j, w) ∷ m) q =
      ground (arith, contains-put k v m q, text_eq_iff j k, text_eq_iff q j, text_eq_iff q k)

  pub distinct-put :
      (k : Text) (v : V) (m : List (Text × V))
      → distinct (keys_of m) ≡ true
      → distinct (keys_of (put k v m)) ≡ true
  unfolding distinct put
  distinct-put k v [] h = unfold contains in refl
  distinct-put k v ((j, w) ∷ m) h =
      ground (arith, distinct-put k v m, contains-put k v m j, text_eq_iff j k)
