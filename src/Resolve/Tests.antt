-- ===== src/Resolve/Tests.antt =====
-- The theorem on the lookup of children at a concrete node.
use kro_ui.Prelude.{some, List, [], ◌∷◌}
use kro_ui.Prelude.Text.{Text, codes}
use kro_ui.Json.{str, obj, end, field}
use kro_ui.Kube.{K8sObject}
use kro_ui.Resolve.Matches.{Resolution, resolve_child_resource_info_lem}

abbrev labelled : Text → Text → K8sObject
labelled id kind = field (codes "kind") (str kind) (
    field (codes "metadata")
      (obj (field (codes "labels") (obj (field (codes "kro.run/node-id") (str id) end)) end)) end)

abbrev children : List K8sObject
children =
    labelled (codes "web") (codes "EndpointSlice") ∷ labelled (codes "web") (codes "Service") ∷ []

resolve_child_resource_info_lem_example :
    Resolution (λ s. s) (codes "web") (codes "prod") children (some (codes "Service"))
resolve_child_resource_info_lem_example =
    resolve_child_resource_info_lem (λ s. s) (codes "web") (codes "prod") children
      (some (codes "Service"))
