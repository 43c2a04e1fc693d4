-- ===== src/K8s/UserOrigin.antt =====
-- internal/k8s/user_origin.go, validation.go and ingress_fetcher_v1.go: origins that an annotation
-- adds to an Ingress, and the list of the Ingresses of a class. The YAML library, with the
-- defaults it sets, and the API server's list are parameters.
use mathlib.Core.List.{List, [], ◌∷◌, ◌++◌}
use cdn_origin_controller.Prelude.{
  String, Bool, true, false, not, ◌&&◌, Option, none, some, ◌==◌, string_eq, if◌then◌else◌, ℤ,
}
use cdn_origin_controller.GoError.{Result, ok, ◌>>=◌, ◌>>◌, annotated}
use cdn_origin_controller.GoMap.{GoMap, lookup}
use cdn_origin_controller.GoString.{nonempty}
use cdn_origin_controller.Strhelper.{contains}
use cdn_origin_controller.K8s.FunctionAssociations.{
  FunctionAssociations, no_associations, validate, is_empty, new_fa_from_viewer_function_arn,
  fail_if,
}
use cdn_origin_controller.K8s.Objects.{Ingress, HttpPath, CdnClass}
use cdn_origin_controller.K8s.Ingress.{
  Yaml, IngressPath, CdnIngress, function_associations, viewer_fn_arn, group_annotation_value,
  rule_paths, new_cdn_ingress_from_v1, cf_user_origin_access_public, cf_user_origin_access_bucket,
}

abbrev pub cf_user_origins_annotation : String
cf_user_origins_annotation = "cdn-origin-controller.gympass.com/cf.user-origins"

pub record CustomOriginBehavior : Type 0 where
  pub path : String
  pub function_associations : FunctionAssociations

pub record UserOrigin : Type 0 where
  pub host : String
  pub headers : GoMap String String
  pub response_timeout : ℤ
  pub paths : List String
  pub behaviors : List CustomOriginBehavior
  pub viewer_function_arn : String
  pub request_policy : String
  pub cache_policy : String
  pub response_policy : String
  pub web_acl_arn : String
  pub origin_access : String

abbrev path_associations : String → FunctionAssociations
path_associations arn =
    if nonempty arn then new_fa_from_viewer_function_arn arn else no_associations

-- The loop over the deprecated paths; a path of a user origin has no type.
unfoldable pub deprecated_paths : String → List String → List IngressPath
deprecated_paths arn [] = []
deprecated_paths arn (p ∷ ps) =
    record { path_pattern = p; path_type = ""; function_associations = path_associations arn }
    ∷ deprecated_paths arn ps

unfoldable pub behavior_paths : List CustomOriginBehavior → List IngressPath
behavior_paths [] = []
behavior_paths (b ∷ bs) =
    record {
      path_pattern = b.path;
      path_type = "";
      function_associations = b.function_associations;
    }
    ∷ behavior_paths bs

unfoldable pub user_origin_paths : UserOrigin → List IngressPath
unfolding deprecated_paths behavior_paths
user_origin_paths o = deprecated_paths o.viewer_function_arn o.paths ++ behavior_paths o.behaviors

unfoldable pub validate_behaviors : UserOrigin → List CustomOriginBehavior → Result (Unit {0})
validate_behaviors o [] = ok tt
validate_behaviors o (b ∷ bs) = do
  annotated "validating behavior function associations" (validate b.function_associations)
  fail_if (contains o.paths b.path) "same path informed in paths (deprecated) and behaviors"
  fail_if (not (is_empty b.function_associations) && nonempty o.viewer_function_arn)
      "function associations declared in behaviors, but viewerFunctionArn is present (deprecated)"
  validate_behaviors o bs

abbrev is_nil {ℓ} : {A : Type ℓ} → List A → Bool
is_nil [] = true
is_nil (x ∷ xs) = false

unfoldable pub validate_user_origin : UserOrigin → Result (Unit {0})
validate_user_origin o = do
  validate_behaviors o o.behaviors
  fail_if (not (nonempty o.host)) "the origin must have a host"
  fail_if (is_nil o.paths && is_nil o.behaviors)
      "the origin must have at least one path or behavior"
  fail_if
      (not (o.origin_access == cf_user_origin_access_public)
        && not (o.origin_access == cf_user_origin_access_bucket))
      "the origin must specify a valid originAccess"

-- `yaml.Unmarshal` of a list of origins, and `defaults.Set` on each of them.
pub record OriginDecoder : Type 0 where
  pub origins : String → Result (List UserOrigin)
  pub defaults : UserOrigin → Result UserOrigin

-- `ingressPaths`
unfoldable pub paths_in : List HttpPath → List String
paths_in [] = []
paths_in (p ∷ ps) = p.path ∷ paths_in ps

unfoldable pub ingress_paths : Ingress → List String
unfolding paths_in rule_paths
ingress_paths ing = paths_in (rule_paths ing.rules)

-- The loop of `ValidateIngressFunctionAssociations`.
unfoldable pub validate_associations :
    List String → GoMap String FunctionAssociations → Result (Unit {0})
validate_associations paths [] = ok tt
validate_associations paths ((fa_path, fa) ∷ fas) = do
  annotated "invalid function association" (validate fa)
  fail_if (not (contains paths fa_path))
      "function associations references a path that is not part of the Ingress' paths"
  validate_associations paths fas

unfoldable pub validate_if_present :
    Ingress → Option (GoMap String FunctionAssociations) → Result (Unit {0})
validate_if_present ing none = ok tt
validate_if_present ing (some fas) = do
  fail_if (nonempty (viewer_fn_arn ing))
      "can't use the viewer function and function associations at the same time"
  validate_associations (ingress_paths ing) fas

unfoldable pub validate_ingress_function_associations : Yaml → Ingress → Result (Unit {0})
validate_ingress_function_associations yaml ing = do
  fas ← annotated "parsing function associations" (function_associations yaml ing)
  validate_if_present ing fas

module _ (d : OriginDecoder) where
  -- The loop over the decoded origins.
  unfoldable pub checked_origins : List UserOrigin → Result (List UserOrigin)
  checked_origins [] = ok []
  checked_origins (o ∷ os) = do
    o' ← d.defaults o
    _ ← annotated "validating user origin" (validate_user_origin o')
    rest ← checked_origins os
    ok (o' ∷ rest)

  unfoldable pub user_origins_from_yaml : String → Result (List UserOrigin)
  unfolding checked_origins
  user_origins_from_yaml text = do origins ← d.origins text; checked_origins origins

  -- The zero values of the fields that are not set.
  unfoldable pub user_origin_ingress : Ingress → UserOrigin → CdnIngress
  unfolding user_origin_paths
  user_origin_ingress ing o = record {
    namespaced_name = record { namespace = ing.namespace; name = ing.name };
    origin_host = o.host;
    group = group_annotation_value ing;
    unmerged_paths = user_origin_paths o;
    origin_req_policy = o.request_policy;
    origin_headers = o.headers;
    cache_policy = o.cache_policy;
    response_policy = o.response_policy;
    origin_resp_timeout = o.response_timeout;
    alternate_domain_names = [];
    unmerged_web_acl_arn = o.web_acl_arn;
    is_being_removed = false;
    origin_access = o.origin_access;
    class = record { hosted_zone_id = ""; create_alias = false; txt_owner_value = "" };
    tags = [];
  }

  unfoldable pub user_origin_ingresses : Ingress → List UserOrigin → List CdnIngress
  unfolding user_origin_ingress
  user_origin_ingresses ing [] = []
  user_origin_ingresses ing (o ∷ os) = user_origin_ingress ing o ∷ user_origin_ingresses ing os

  unfoldable pub cdn_ingresses_for_user_origins : Ingress → Result (List CdnIngress)
  unfolding user_origins_from_yaml user_origin_ingresses
  cdn_ingresses_for_user_origins ing = elim (lookup cf_user_origins_annotation ing.annotations) [
    | none ↦ ok []
    | some text ↦ do
      os ← annotated "parsing user origins data" (user_origins_from_yaml text)
      ok (user_origin_ingresses ing os)
  ]

  -- The origins of an Ingress that the predicate accepts, and nothing of any other.
  abbrev if_accepted : Bool → Ingress → CdnIngress → Result (List CdnIngress)
  if_accepted false k8s_ing ing = ok []
  if_accepted true k8s_ing ing = do more ← cdn_ingresses_for_user_origins k8s_ing; ok (ing ∷ more)

  -- `ingFetcherV1.FetchBy`, from the list that the API server returned.
  unfoldable pub fetch_from :
      Yaml → CdnClass → (CdnIngress → Bool) → List Ingress → Result (List CdnIngress)
  fetch_from yaml class predicate [] = ok []
  fetch_from yaml class predicate (k8s_ing ∷ items) = do
    ing ← new_cdn_ingress_from_v1 yaml k8s_ing class
    found ← if_accepted (predicate ing) k8s_ing ing
    rest ← fetch_from yaml class predicate items
    ok (found ++ rest)

  unfoldable pub fetch_by :
      Yaml → Result (List Ingress) → CdnClass → (CdnIngress → Bool) → Result (List CdnIngress)
  fetch_by yaml listed class predicate = do
    items ← annotated "listing Ingresses" listed
    fetch_from yaml class predicate items
