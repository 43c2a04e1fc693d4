-- ===== src/Cloudfront/Service/Paths.antt =====
-- internal/cloudfront/service_helpers.go: from the paths of an Ingress to an origin's behaviors.
pub mod Behaviors
use mathlib.Core.List.{List, [], ◌∷◌}
use cdn_origin_controller.Prelude.{String, ◌<>◌, Bool, ◌==◌, string_eq, if◌then◌else◌}
use cdn_origin_controller.GoString.{trim_suffix}
use cdn_origin_controller.Config.{Config}
use cdn_origin_controller.K8s.Ingress.{IngressPath, CdnIngress}
use cdn_origin_controller.K8s.Shared.{SharedIngressParams, paths_from_origin}
use cdn_origin_controller.Cloudfront.Function.{Function, new_functions}
use cdn_origin_controller.Cloudfront.Origin.{
  Origin, OriginBuilder, new_origin_builder, with_behavior, with_request_policy, with_cache_policy,
  with_response_policy, with_response_timeout, with_origin_headers, build_origin,
}

abbrev pub prefix_path_type : String
prefix_path_type = "Prefix"

unfoldable pub build_patterns_for_prefix : String → List String
build_patterns_for_prefix path =
    if path == "/" then "/*" ∷ [] else trim_suffix path "/" ∷ (trim_suffix path "/" <> "/*") ∷ []

unfoldable pub path_patterns_for_path : IngressPath → List String
unfolding build_patterns_for_prefix
path_patterns_for_path p =
    if p.path_type == prefix_path_type
    then build_patterns_for_prefix p.path_pattern
    else p.path_pattern ∷ []

-- The inner loop of `newOrigin`.
unfoldable pub with_patterns : List Function → List String → OriginBuilder → OriginBuilder
with_patterns functions [] b = b
with_patterns functions (pp ∷ pps) b = with_patterns functions pps (with_behavior pp functions b)

unfoldable pub with_paths : List IngressPath → OriginBuilder → OriginBuilder
unfolding with_patterns path_patterns_for_path
with_paths [] b = b
with_paths (p ∷ ps) b =
    with_paths ps
      (with_patterns (new_functions p.function_associations) (path_patterns_for_path p) b)

unfoldable pub base_builder : CdnIngress → Config → OriginBuilder
base_builder ing cfg = with_origin_headers ing.origin_headers (
    with_response_policy ing.response_policy (
      with_cache_policy ing.cache_policy (
        with_request_policy ing.origin_req_policy (
          with_response_timeout ing.origin_resp_timeout
            (new_origin_builder ing.group ing.origin_host ing.origin_access cfg)))))

unfoldable pub new_origin :
    (md5 : String → String) → CdnIngress → Config → SharedIngressParams → Origin
unfolding with_paths base_builder
new_origin md5 ing cfg shared =
    build_origin md5 (with_paths (paths_from_origin shared ing.origin_host) (base_builder ing cfg))
