-- ===== src/Tests/Status.antt =====
-- A status with one Ingress and one DNS record, and what is done to it.
use mathlib.Core.List.{[], ◌∷◌}
use cdn_origin_controller.Prelude.{◌≡◌, true, some, string_eq, arith}
use cdn_origin_controller.GoError.{ok}
use cdn_origin_controller.GoString.Laws.{Lacks}
use cdn_origin_controller.K8s.Objects.{NamespacedName}
use cdn_origin_controller.Api.IngressRef.{new_ingress_ref, to_namespaced_name}
use cdn_origin_controller.Api.IngressRef.Laws.{to_namespaced_name-new_ingress_ref}
use cdn_origin_controller.Api.CdnStatus.{CdnStatus}

abbrev shop : NamespacedName
shop = record { namespace = "team"; name = "shop" }

abbrev blog : NamespacedName
blog = record { namespace = "team"; name = "blog" }

abbrev pub status : CdnStatus
status = record {
  name = "group";
  resource_version = "1";
  id = "E1";
  arn = "arn:1";
  ingresses = ("team/shop", "Synced") ∷ [];
  aliases = [];
  address = "d1.cloudfront.net";
  dns = some (record { records = "a.com." ∷ []; synced = true });
}

team-Lacks : Lacks b'/' "team"
team-Lacks = ground arith

shop-Lacks : Lacks b'/' "shop"
shop-Lacks = ground arith

to_namespaced_name-new_ingress_ref_example :
    to_namespaced_name (new_ingress_ref "team" "shop")
    ≡ ok (record { namespace = "team"; name = "shop" })
to_namespaced_name-new_ingress_ref_example =
    to_namespaced_name-new_ingress_ref "team" "shop" team-Lacks shop-Lacks
