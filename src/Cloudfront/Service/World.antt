-- ===== src/Cloudfront/Service/World.antt =====
-- What the service works on: its clients, which are parameters, and the state of everything that
-- they reach, with the events that were recorded.
use Prim.Native.Nat.{ℕ}
use mathlib.Core.List.{List, ◌∷◌}
use cdn_origin_controller.Prelude.{String}
use cdn_origin_controller.GoError.{GoError}
use cdn_origin_controller.Config.{Config}
use cdn_origin_controller.Certificate.{AcmClient}
use cdn_origin_controller.Route53.Repository.{Route53Client}
use cdn_origin_controller.K8s.Objects.{NamespacedName}
use cdn_origin_controller.K8s.Ingress.{Yaml}
use cdn_origin_controller.K8s.Shared.{StringSets}
use cdn_origin_controller.K8s.UserOrigin.{OriginDecoder}
use cdn_origin_controller.K8s.Finalizers.{FinalizerUtil}
use cdn_origin_controller.K8s.KubeClient.{KubeClient}
use cdn_origin_controller.Api.IngressRef.{IngressRef}
use cdn_origin_controller.Cloudfront.Client.{CloudfrontClient}

-- `Service`, with the fields of its repositories. `caller_ref` is the time at AWS, as a text; `polls`
-- is how often the repository asks for a distribution's status before it gives up.
pub record Service : Type 1 where
  pub kube : KubeClient
  pub dns : Route53Client
  pub aws : CloudfrontClient
  pub acm : AcmClient
  pub sets : StringSets
  pub yaml : Yaml
  pub decoder : OriginDecoder
  pub finalizers : FinalizerUtil
  pub md5 : String → String
  pub caller_ref : aws.State → String
  pub polls : ℕ
  pub config : Config

-- The events that the recorder is given, without their texts.
pub data Event : Type 0 where
  deprecated_fields : NamespacedName → List String → Event
  ingress_failed : NamespacedName → List GoError → Event
  ingress_succeeded : NamespacedName → Event
  status_failed : (status : String) → IngressRef → List GoError → Event
  status_succeeded : (status : String) → IngressRef → Event

module _ (x : Service) where
  pub record World : Type 0 where
    pub kube : x.kube.State
    pub dns : x.dns.State
    pub aws : x.aws.State
    pub events : List Event

module _ {x : Service} where
  abbrev with_kube : {A : Type 0} → World x → A × x.kube.State → A × World x
  with_kube w (a, s) = (a, record w { kube = s })

  abbrev pub on_kube : {A : Type 0} → (x.kube.State → A × x.kube.State) → World x → A × World x
  on_kube m w = with_kube w (m w.kube)

  abbrev with_dns : {A : Type 0} → World x → A × x.dns.State → A × World x
  with_dns w (a, s) = (a, record w { dns = s })

  abbrev pub on_dns : {A : Type 0} → (x.dns.State → A × x.dns.State) → World x → A × World x
  on_dns m w = with_dns w (m w.dns)

  abbrev with_aws : {A : Type 0} → World x → A × x.aws.State → A × World x
  with_aws w (a, s) = (a, record w { aws = s })

  abbrev pub on_aws : {A : Type 0} → (x.aws.State → A × x.aws.State) → World x → A × World x
  on_aws m w = with_aws w (m w.aws)

  abbrev pub recorded : Event → World x → World x
  recorded e w = record w { events = e ∷ w.events }
