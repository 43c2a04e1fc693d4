-- ===== src/Api/IngressRef.antt =====
-- api/v1alpha1/ingress_ref.go: references to Ingresses, as `namespace/name`.
pub mod Laws
use mathlib.Core.List.{List, [], ◌∷◌}
use cdn_origin_controller.Prelude.{String, ◌<>◌}
use cdn_origin_controller.GoError.{Result, ok, err, panic, ◌>>=◌}
use cdn_origin_controller.GoString.{split}
use cdn_origin_controller.K8s.Objects.{NamespacedName}

-- `type IngressRef string`
abbrev pub IngressRef : Type 0
IngressRef = String

unfoldable pub new_ingress_ref : (namespace name : String) → IngressRef
new_ingress_ref namespace name = namespace <> ("/" <> name)

abbrev pub part_0 : List String → Result String
part_0 [] = panic "index out of range"
part_0 (p ∷ ps) = ok p

abbrev pub part_1 : List String → Result String
part_1 [] = panic "index out of range"
part_1 (p ∷ []) = panic "index out of range"
part_1 (p ∷ q ∷ ps) = ok q

unfoldable pub get_namespace : IngressRef → Result String
get_namespace i = part_0 (split i b'/')

unfoldable pub get_name : IngressRef → Result String
get_name i = part_1 (split i b'/')

unfoldable pub to_namespaced_name : IngressRef → Result NamespacedName
to_namespaced_name i = do
  namespace ← part_0 (split i b'/')
  name ← part_1 (split i b'/')
  ok (record { namespace = namespace; name = name })
