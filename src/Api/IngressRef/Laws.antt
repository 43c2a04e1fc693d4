-- ===== src/Api/IngressRef/Laws.antt =====
-- A reference gives back the namespace and the name that it was made from.
use Prim.Native.Char.{Char}
use mathlib.Core.List.{[], ◌∷◌}
use text.Mathlib.TextLemmas.{nil-append, cons-append}
use cdn_origin_controller.Prelude.{String, ◌<>◌, ◌≡◌, ap, ◌∙◌}
use cdn_origin_controller.GoError.{ok}
use cdn_origin_controller.GoString.{split}
use cdn_origin_controller.GoString.Laws.{Lacks, split-append, split_of_Lacks}
use cdn_origin_controller.Api.IngressRef.{new_ingress_ref, to_namespaced_name}

abbrev slash : Char
slash = "/"

split-ref :
    (namespace name : String)
    → Lacks b'/' namespace
    → Lacks b'/' name
    → split (namespace <> ("/" <> name)) b'/' ≡ namespace ∷ name ∷ []
split-ref namespace name h k =
    ap (λ t. split (namespace <> t) b'/')
      (cons-append slash String.[] name ∙ ap (λ t. String.◌∷◌ slash t) (nil-append name))
    ∙ split-append namespace slash name h
    ∙ ap (λ l. namespace ∷ l) (split_of_Lacks name b'/' k)

-- Kubernetes names hold no slash; of such a namespace and name the reference keeps both.
pub to_namespaced_name-new_ingress_ref :
    (namespace name : String)
    → Lacks b'/' namespace
    → Lacks b'/' name
    → to_namespaced_name (new_ingress_ref namespace name)
      ≡ ok (record { namespace = namespace; name = name })
unfolding to_namespaced_name new_ingress_ref
to_namespaced_name-new_ingress_ref namespace name h k = rw (split-ref namespace name h k)
