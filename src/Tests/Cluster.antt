-- ===== src/Tests/Cluster.antt =====
-- A service with a cluster of one Ingress, of the group "shop".
use mathlib.Core.List.{List, [], ◌∷◌}
use cdn_origin_controller.Prelude.{◌∙◌, not, ℕ, suc, none, some, ◌==◌, string_eq, arith, true}
use cdn_origin_controller.GoError.{Result, not_found, ok, err}
use cdn_origin_controller.Strhelper.{contains, filter, append_missing}
use cdn_origin_controller.Strhelper.Laws.{contains-filter, contains-append_missing}
use cdn_origin_controller.Config.{Config}
use cdn_origin_controller.K8s.Objects.{Ingress, CdnClass}
use cdn_origin_controller.K8s.Helpers.{cdn_group_annotation}
use cdn_origin_controller.K8s.Finalizers.{FinalizerUtil, IsFinalizerLawful}
use cdn_origin_controller.K8s.KubeClient.{KubeClient}
use cdn_origin_controller.Cloudfront.Service.World.{Service, World}
use cdn_origin_controller.Tests.Certificates.{account}
use cdn_origin_controller.Tests.Deletions.{aws}
use cdn_origin_controller.Tests.Distributions.{config}
use cdn_origin_controller.Tests.DnsRecords.{zone}
use cdn_origin_controller.Tests.StringSet.{distinct_lists}

abbrev pub class : CdnClass
class = record { hosted_zone_id = "Z1"; create_alias = true; txt_owner_value = "team" }

abbrev pub shop : Ingress
shop = record {
  namespace = "team";
  name = "shop";
  annotations = (cdn_group_annotation, "shop") ∷ [];
  finalizers = [];
  deletion_timestamp = none;
  rules = some ((record { path = "/api"; path_type = "Prefix" }) ∷ []) ∷ [];
  load_balancer = "lb.example.com" ∷ [];
}

-- The state counts the writes.
abbrev pub cluster : Result (List Ingress) → KubeClient
cluster listed = record {
  State = ℕ;
  get_ingress = λ s name. ok shop;
  list_ingresses = λ s. listed;
  update_ingress = λ ing s. (ok ing, suc s);
  get_class = λ s name. ok class;
  get_status = λ s name. err (not_found name);
  create_status = λ status s. (ok (record status { resource_version = "1" }), suc s);
  update_status = λ status s. (none, suc s);
  delete_status = λ status s. (none, suc s);
}

abbrev pub slices : FinalizerUtil
slices = record {
  add_finalizer = λ fs f. append_missing fs (f ∷ []);
  remove_finalizer = λ fs f. filter fs (λ g. not (g == f));
}

pub slices-IsFinalizerLawful : IsFinalizerLawful slices
unfolding contains
slices-IsFinalizerLawful = record {
  contains-add_finalizer = λ fs f. contains-append_missing fs (f ∷ []) f ∙ ground arith;
  contains-remove_finalizer = λ fs f. contains-filter fs (λ g. not (g == f)) f ∙ ground arith;
  add_finalizer-others = λ fs f g ne. contains-append_missing fs (f ∷ []) g ∙ ground arith;
  remove_finalizer-others = λ fs f g ne. contains-filter fs (λ h. not (h == f)) g ∙ ground arith;
}

abbrev pub service_of : Result (List Ingress) → Config → Service
service_of listed cfg = record {
  kube = cluster listed;
  dns = zone;
  aws = aws;
  acm = account;
  sets = distinct_lists;
  yaml = record { tags = λ s. ok []; function_associations = λ s. ok none };
  decoder = record { origins = λ s. ok []; defaults = λ o. ok o };
  finalizers = slices;
  md5 = λ s. s;
  caller_ref = λ s. "now";
  polls = 3;
  config = cfg;
}

abbrev pub service : Service
service = service_of (ok (shop ∷ [])) config

abbrev pub world : World service
world = record { kube = 0; dns = 0; aws = 0; events = [] }
