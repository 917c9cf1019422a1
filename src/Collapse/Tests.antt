-- ===== src/Collapse/Tests.antt =====
-- The theorem on collapsible groups at a concrete spec.
use kro_ui.Prelude.Text.{Text, codes}
use kro_ui.Json.{Json, str, obj, arr, nil, cons, end, field}

-- A ConfigMap of the API version v1.
abbrev config_map : Text → Json
config_map id = obj (
    field (codes "id") (str id) (
      field (codes "template")
        (obj (
          field (codes "apiVersion") (str (codes "v1"))
            (field (codes "kind") (str (codes "ConfigMap")) end)))
        end))

abbrev spec : Json
spec = obj (
    field (codes "resources")
      (arr (cons (config_map (codes "a")) (cons (config_map (codes "b")) nil))) end)
