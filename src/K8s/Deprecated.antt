-- ===== src/K8s/Deprecated.antt =====
-- internal/k8s/deprecated.go
use mathlib.Core.List.{List, [], ◌∷◌}
use cdn_origin_controller.Prelude.{String, Option, none, some, string_eq}
use cdn_origin_controller.GoMap.{lookup}
use cdn_origin_controller.K8s.Objects.{Ingress}
use cdn_origin_controller.K8s.Ingress.{cf_viewer_fn_annotation}

abbrev deprecations : Option String → List String
deprecations none = []
deprecations (some value) = cf_viewer_fn_annotation ∷ []

unfoldable pub used_deprecated_fields : Ingress → List String
used_deprecated_fields ing = deprecations (lookup cf_viewer_fn_annotation ing.annotations)
