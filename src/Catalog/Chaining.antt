-- ===== src/Catalog/Chaining.antt =====
-- The steps of the chaining map.
use kro_ui.Prelude.{
  Bool, true, false, not, ◌&&◌, ◌||◌, Option, none, some, List, [], ◌∷◌, ◌++◌, ◌≡◌, refl, arith,
  any, if◌then◌else◌,
}
use kro_ui.Prelude.Text.{Text, is_empty, text_eq, text_eq_iff}
use kro_ui.Prelude.Sets.{contains, distinct, contains-append, contains_one, distinct-concat}
use kro_ui.Prelude.Maps.{find_key, put, find_key-put}
use kro_ui.Kube.{K8sObject}
use kro_ui.Catalog.{
  extract_template_kinds, extract_schema_kind, extract_name, kind_index, ChainingMap, users_of,
  add_link, link_kinds, link_all,
}

-- The RGD is_generator the kind and has a name.
abbrev pub is_generator : Text → K8sObject → Bool
is_generator k rgd =
    not (is_empty (extract_name rgd))
    && not (is_empty (extract_schema_kind rgd))
    && text_eq (extract_schema_kind rgd) k

abbrev pub or_own : Option Text → Option Text → Option Text
or_own none own = own
or_own (some name) own = some name

-- The name of the last RGD that is_generator the kind and has a name.
unfoldable pub generator : Text → List K8sObject → Option Text
generator k [] = none
generator k (rgd ∷ rgds) =
    or_own (generator k rgds) (if is_generator k rgd then some (extract_name rgd) else none)

pub find_key-kind_index :
    (k : Text) (rgds : List K8sObject) (index : List (Text × Text))
    → find_key k (kind_index rgds index) ≡ or_own (generator k rgds) (find_key k index)
unfolding kind_index generator
find_key-kind_index k [] index = refl
find_key-kind_index k (rgd ∷ rgds) index = ground (
  arith,
  find_key-kind_index k rgds index,
  find_key-kind_index k rgds (put (extract_schema_kind rgd) (extract_name rgd) index),
  find_key-put (extract_schema_kind rgd) (extract_name rgd) index k,
)

-- The generator of a kind is the RGD `r`, and not the referrer.
abbrev pub is_link : Option Text → Text → Text → Bool
is_link none r referrer = false
is_link (some x) r referrer = text_eq x r && not (is_empty x || text_eq x referrer)

contains-add_link :
    (u r referrer : Text) (o : Option Text) (m : ChainingMap)
    → contains u (users_of r (add_link referrer o m))
      ≡ (contains u (users_of r m) || (text_eq u referrer && is_link o r referrer))
contains-add_link u r referrer none m = ground arith
contains-add_link u r referrer (some x) m = ground (
  arith,
  find_key-put x (users_of x m ++ referrer ∷ []) m r,
  contains-append u (users_of x m) (referrer ∷ []),
  contains_one u referrer,
  text_eq_iff x r,
  text_eq_iff u referrer,
)

contains-link_kinds :
    (u r referrer : Text) (index : List (Text × Text)) (ks : List Text) (m : ChainingMap)
    → contains u (users_of r (link_kinds index referrer ks m)) ≡ (
        contains u (users_of r m)
        || (text_eq u referrer && any (λ k. is_link (find_key k index) r referrer) ks))
unfolding link_kinds
contains-link_kinds u r referrer index [] m = ground arith
contains-link_kinds u r referrer index (k ∷ ks) m = ground (
  arith,
  contains-link_kinds u r referrer index ks (add_link referrer (find_key k index) m),
  contains-add_link u r referrer (find_key k index) m,
)

-- The RGD named `u` has a resource of a kind whose generator is `r`.
abbrev pub refers : (Text → Option Text) → Text → Text → K8sObject → Bool
refers generator_of u r rgd =
    not (is_empty (extract_name rgd))
    && text_eq u (extract_name rgd)
    && any (λ k. is_link (generator_of k) r (extract_name rgd)) (extract_template_kinds rgd)

pub contains-link_all :
    (u r : Text) (index : List (Text × Text)) (rgds : List K8sObject) (m : ChainingMap)
    → contains u (users_of r (link_all index rgds m))
      ≡ (contains u (users_of r m) || any (refers (λ k. find_key k index) u r) rgds)
unfolding link_all
contains-link_all u r index [] m = ground arith
contains-link_all u r index (rgd ∷ rgds) m =
    let ks = extract_template_kinds rgd in
    ground (
      arith,
      contains-link_all u r index rgds m,
      contains-link_all u r index rgds (link_kinds index (extract_name rgd) ks m),
      contains-link_kinds u r (extract_name rgd) index ks m,
    )

-- Nobody is listed twice as a user of an RGD.
abbrev pub IsDistinct : ChainingMap → Type 0
IsDistinct m = (r : Text) → distinct (users_of r m) ≡ true

add_link-IsDistinct :
    (referrer : Text) (o : Option Text) (m : ChainingMap)
    → IsDistinct m
    → IsDistinct (add_link referrer o m)
add_link-IsDistinct referrer none m h r = h r
add_link-IsDistinct referrer (some x) m h r = ground (
  arith,
  h r,
  h x,
  find_key-put x (users_of x m ++ referrer ∷ []) m r,
  distinct-concat referrer (users_of x m),
)

link_kinds-IsDistinct :
    (index : List (Text × Text)) (referrer : Text) (ks : List Text) (m : ChainingMap)
    → IsDistinct m
    → IsDistinct (link_kinds index referrer ks m)
unfolding link_kinds
link_kinds-IsDistinct index referrer [] m h = h
link_kinds-IsDistinct index referrer (k ∷ ks) m h =
    link_kinds-IsDistinct index referrer ks (add_link referrer (find_key k index) m)
      (add_link-IsDistinct referrer (find_key k index) m h)

pub link_all-IsDistinct :
    (index : List (Text × Text)) (rgds : List K8sObject) (m : ChainingMap)
    → IsDistinct m
    → IsDistinct (link_all index rgds m)
unfolding link_all
link_all-IsDistinct index [] m h = h
link_all-IsDistinct index (rgd ∷ rgds) m h =
    elim (is_empty (extract_name rgd))
      as (λ b. IsDistinct (
        link_all index rgds
          (if b then m else link_kinds index (extract_name rgd) (extract_template_kinds rgd) m))) [
            | true ↦ link_all-IsDistinct index rgds m h
            | false ↦
                link_all-IsDistinct index rgds
                  (link_kinds index (extract_name rgd) (extract_template_kinds rgd) m)
                  (link_kinds-IsDistinct index (extract_name rgd) (extract_template_kinds rgd) m h)
          ]
