-- ===== src/Api/CdnStatus/Refs.antt =====
-- The Ingresses that the status refers to.
use cdn_origin_controller.Prelude.{Bool, ◌==◌, string_eq}
use cdn_origin_controller.K8s.Objects.{NamespacedName}
use cdn_origin_controller.Api.IngressRef.{new_ingress_ref}
use cdn_origin_controller.Api.CdnStatus.{CdnStatus}

-- Two names that make one reference.
abbrev pub same_ref : NamespacedName → NamespacedName → Bool
same_ref a b = new_ingress_ref a.namespace a.name == new_ingress_ref b.namespace b.name
