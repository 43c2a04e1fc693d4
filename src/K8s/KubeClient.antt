-- ===== src/K8s/KubeClient.antt =====
-- The calls of the Kubernetes API server that the controller makes, with the kinds of objects it
-- makes them for. The cluster's state is a parameter; a call that only reads leaves it alone. An
-- update gives back the object as the server returns it.
use mathlib.Core.List.{List}
use cdn_origin_controller.Prelude.{String, Option}
use cdn_origin_controller.GoError.{GoError, Result}
use cdn_origin_controller.K8s.Objects.{Ingress, NamespacedName, CdnClass}
use cdn_origin_controller.Api.CdnStatus.{CdnStatus}

pub record KubeClient : Type 1 where
  pub State : Type 0
  pub get_ingress : State → NamespacedName → Result Ingress
  pub list_ingresses : State → Result (List Ingress)
  pub update_ingress : Ingress → State → Result Ingress × State
  pub get_class : State → String → Result CdnClass
  pub get_status : State → String → Result CdnStatus
  pub create_status : CdnStatus → State → Result CdnStatus × State
  pub update_status : CdnStatus → State → Option GoError × State
  pub delete_status : CdnStatus → State → Option GoError × State
