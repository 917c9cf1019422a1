-- ===== src/Collapse/Exact.antt =====
-- Which groups detectCollapseGroups returns.
use kro_ui.Prelude.{Bool, ◌++◌}
use kro_ui.Prelude.Text.{Text, codes, text_eq}
use kro_ui.Json.{Json}
use kro_ui.Collapse.{CollapseGroup, Groups}

-- The key of a returned group.
abbrev pub key_of_group : CollapseGroup → Text
key_of_group g = g.api_version ++ codes "/" ++ g.kind

abbrev pub has_key : Text → CollapseGroup → Bool
has_key q g = text_eq (key_of_group g) q
