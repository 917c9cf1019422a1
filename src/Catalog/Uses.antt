-- ===== src/Catalog/Uses.antt =====
-- Which RGDs the chaining map lists as the users of an RGD.
use kro_ui.Prelude.{Bool, true, Option, none, some, List, [], ◌≡◌, refl, ap, ◌∙◌, any}
use kro_ui.Prelude.Text.{Text}
use kro_ui.Prelude.Sets.{contains, distinct}
use kro_ui.Prelude.Maps.{find_key}
use kro_ui.Kube.{K8sObject}
use kro_ui.Catalog.{kind_index, users_of, build_chaining_map}
use kro_ui.Catalog.Chaining.{
  or_own, generator, find_key-kind_index, refers, contains-link_all, link_all-IsDistinct,
}

-- The specification: some RGD named `u` has a resource of a kind that the RGD `r`, not `u` itself, is
-- the last of the list to generate.
abbrev pub is_user : List K8sObject → Text → Text → Bool
is_user rgds u r = any (refers (λ k. generator k rgds) u r) rgds

or_own-none : (o : Option Text) → or_own o none ≡ o
or_own-none none = refl
or_own-none (some x) = refl

index-generator :
    (rgds : List K8sObject) (k : Text) → find_key k (kind_index rgds []) ≡ generator k rgds
index-generator rgds k =
    find_key-kind_index k rgds [] ∙ unfold find_key in or_own-none (generator k rgds)

-- The chaining map lists under each RGD exactly the names of the RGDs that have a resource of a kind
-- that it is the last to generate, other than itself, each name once.
pub build_chaining_map-is_user :
    (rgds : List K8sObject) (u r : Text)
    → (contains u (users_of r (build_chaining_map rgds)) ≡ is_user rgds u r)
      × (distinct (users_of r (build_chaining_map rgds)) ≡ true)
unfolding build_chaining_map find_key contains distinct
build_chaining_map-is_user rgds u r = (
  contains-link_all u r (kind_index rgds []) rgds []
      ∙ ap (λ f. any (refers f u r) rgds) (λ i k. index-generator rgds k i),
  link_all-IsDistinct (kind_index rgds []) rgds [] (λ q. refl) r,
)
