-- ===== src/Tests/Ingresses.antt =====
-- Two Ingresses of one group that share a path.
use mathlib.Core.List.{List, [], ◌∷◌}
use mathlib.Core.Bool.{false≢true}
use text.Mathlib.TextEquality.{eq_iff}
use cdn_origin_controller.Prelude.{
  String, ◌≡◌, ◌≢◌, ◌↔◌, refl, true, false, some, All, string_eq, inl, inr, pos,
}
use cdn_origin_controller.GoError.{ok}
use cdn_origin_controller.K8s.FunctionAssociations.{
  FunctionAssociations, ViewerFunction, ViewerRequestFunction, no_associations, merge, validate,
}
use cdn_origin_controller.K8s.FunctionAssociations.Merging.{IsMerged, merge_iff}
use cdn_origin_controller.K8s.FunctionAssociations.Validity.{IsValid, validate_iff, merge-not-valid}
use cdn_origin_controller.K8s.Ingress.{CdnIngress}
use cdn_origin_controller.K8s.Shared.{
  SharedIngressParams, new_shared_ingress_params, merged_web_acl,
}
use cdn_origin_controller.K8s.Shared.Acl.{Accepts, merged_web_acl-All, merged_web_acl-total}
use cdn_origin_controller.K8s.Shared.Params.{Shares, new_shared_ingress_params-All}
use cdn_origin_controller.Tests.StringSet.{distinct_lists, distinct_lists-IsLawful}

abbrev edge_request : ViewerRequestFunction
edge_request = record {
  viewer_function = record { arn = "arn:edge"; function_type = "edge" };
  include_body = true;
}

abbrev cloudfront_response : ViewerFunction
cloudfront_response = record { arn = "arn:cf"; function_type = "cloudfront" }

abbrev pub with_request : FunctionAssociations
with_request = record no_associations { viewer_request = some edge_request }

abbrev with_response : FunctionAssociations
with_response = record no_associations { viewer_response = some cloudfront_response }

abbrev with_both : FunctionAssociations
with_both = record with_request { viewer_response = some cloudfront_response }

merged : merge with_request with_response ≡ ok with_both
unfolding merge string_eq cdn_origin_controller.K8s.FunctionAssociations.merge_slots
    cdn_origin_controller.K8s.FunctionAssociations.merge_viewer_request
    cdn_origin_controller.K8s.FunctionAssociations.deep_copy
    cdn_origin_controller.K8s.FunctionAssociations.merge_viewer_response
    cdn_origin_controller.K8s.FunctionAssociations.merge_origin_request
    cdn_origin_controller.K8s.FunctionAssociations.merge_origin_response
merged = refl

merge_iff_example :
    (merge with_request with_response ≡ ok with_both)
    ↔ IsMerged with_request with_response with_both
merge_iff_example = merge_iff with_request with_response with_both

validate_iff_example : (validate with_request ≡ ok tt) ↔ IsValid with_request
validate_iff_example = validate_iff with_request

edge-ne-cloudfront : edge_request.function_type ≢ cloudfront_response.function_type
edge-ne-cloudfront e = false≢true ((eq_iff "edge" "cloudfront").1 e)

merge-not-valid_example :
    (c : FunctionAssociations) × (merge with_request with_response ≡ ok c) × (validate c ≢ ok tt)
merge-not-valid_example =
    merge-not-valid with_request with_response refl refl refl edge-ne-cloudfront

abbrev pub ingress : FunctionAssociations → String → CdnIngress
ingress fa acl = record {
  namespaced_name = record { namespace = "team"; name = "shop" };
  origin_host = "lb.example.com";
  group = "shop";
  unmerged_paths =
      (record { path_pattern = "/api"; path_type = "Prefix"; function_associations = fa }) ∷ [];
  origin_req_policy = "";
  origin_headers = [];
  cache_policy = "";
  response_policy = "";
  origin_resp_timeout = pos 30;
  alternate_domain_names = [];
  unmerged_web_acl_arn = acl;
  is_being_removed = false;
  origin_access = "Public";
  class = record { hosted_zone_id = "Z1"; create_alias = true; txt_owner_value = "team" };
  tags = [];
}

abbrev pub ingresses : List CdnIngress
ingresses = ingress with_request "acl" ∷ ingress with_response "" ∷ []

abbrev pub params : SharedIngressParams
params = record {
  web_acl_arn = "acl";
  paths =
      (
        "lb.example.com",
        (record { path_pattern = "/api"; path_type = "Prefix"; function_associations = with_both })
            ∷ [],
      )
      ∷ [];
}

shared : new_shared_ingress_params distinct_lists ingresses ≡ ok params
unfolding new_shared_ingress_params string_eq merged_web_acl
    cdn_origin_controller.K8s.Shared.pop_single cdn_origin_controller.K8s.Shared.web_acl_arns
    cdn_origin_controller.Strhelper.contains cdn_origin_controller.K8s.Shared.merged_paths
    cdn_origin_controller.K8s.Shared.merged_paths_from
    cdn_origin_controller.K8s.Shared.merge_ingress_paths cdn_origin_controller.K8s.Shared.merge_path
    cdn_origin_controller.GoMap.lookup cdn_origin_controller.GoMap.insert
    cdn_origin_controller.K8s.Shared.path_key_eq merge
    cdn_origin_controller.K8s.FunctionAssociations.merge_slots
    cdn_origin_controller.K8s.FunctionAssociations.merge_viewer_request
    cdn_origin_controller.K8s.FunctionAssociations.deep_copy
    cdn_origin_controller.K8s.FunctionAssociations.merge_viewer_response
    cdn_origin_controller.K8s.FunctionAssociations.merge_origin_request
    cdn_origin_controller.K8s.FunctionAssociations.merge_origin_response
    cdn_origin_controller.K8s.Shared.map_of_origin_host_to_path
    cdn_origin_controller.K8s.Shared.paths_of
shared = refl

new_shared_ingress_params-All_example : All (Shares params) ingresses
new_shared_ingress_params-All_example =
    new_shared_ingress_params-All distinct_lists ingresses shared

acl_found : merged_web_acl distinct_lists ingresses ≡ ok "acl"
unfolding merged_web_acl string_eq cdn_origin_controller.K8s.Shared.pop_single
    cdn_origin_controller.K8s.Shared.web_acl_arns cdn_origin_controller.Strhelper.contains
acl_found = refl

merged_web_acl-All_example : All (Accepts "acl") ingresses
merged_web_acl-All_example =
    merged_web_acl-All distinct_lists distinct_lists-IsLawful ingresses acl_found

merged_web_acl-total_example :
    (found : String) × (merged_web_acl distinct_lists ingresses ≡ ok found)
merged_web_acl-total_example =
    merged_web_acl-total distinct_lists distinct_lists-IsLawful ingresses "acl"
      (inr refl, (inl refl, tt))
