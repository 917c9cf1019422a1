-- ===== src/Catalog/Tests.antt =====
-- The theorem on the chaining map at two concrete RGDs.
use kro_ui.Prelude.{true, List, [], ◌∷◌, ◌≡◌}
use kro_ui.Prelude.Text.{Text, codes}
use kro_ui.Prelude.Sets.{contains, distinct}
use kro_ui.Json.{Json, str, obj, arr, nil, cons, end, field}
use kro_ui.Kube.{K8sObject}
use kro_ui.Catalog.{users_of, build_chaining_map}
use kro_ui.Catalog.Uses.{is_user, build_chaining_map-is_user}

abbrev with_kind : Text → Json
with_kind kind = obj (field (codes "kind") (str kind) end)

-- An RGD with a name, the kind that it generates and the kind of its one resource.
abbrev rgd : Text → Text → Text → K8sObject
rgd name kind used = field (codes "metadata") (obj (field (codes "name") (str name) end)) (
    field (codes "spec")
      (obj (
        field (codes "schema") (with_kind kind) (
          field (codes "resources")
            (arr (cons (obj (field (codes "template") (with_kind used) end)) nil)) end)))
      end)

abbrev rgds : List K8sObject
rgds =
    rgd (codes "full-stack-app") (codes "App") (codes "Database")
    ∷ rgd (codes "database") (codes "Database") (codes "StatefulSet")
    ∷ []

build_chaining_map-is_user_example :
    (contains (codes "full-stack-app") (users_of (codes "database") (build_chaining_map rgds))
      ≡ is_user rgds (codes "full-stack-app") (codes "database"))
    × (distinct (users_of (codes "database") (build_chaining_map rgds)) ≡ true)
build_chaining_map-is_user_example =
    build_chaining_map-is_user rgds (codes "full-stack-app") (codes "database")
