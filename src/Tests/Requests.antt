-- ===== src/Tests/Requests.antt =====
-- A request for the Ingress of the cluster.
use cdn_origin_controller.Prelude.{◌⊎◌, string_eq}
use cdn_origin_controller.K8s.Objects.{NamespacedName}
use cdn_origin_controller.Controllers.Ignored.{IsPassedOn, IsLeft, reconcile_request-cases}
use cdn_origin_controller.Tests.Cluster.{service, world}

abbrev name : NamespacedName
name = record { namespace = "team"; name = "shop" }

reconcile_request-cases_example : IsPassedOn service name world ⊎ IsLeft service name world
reconcile_request-cases_example = reconcile_request-cases service name world
