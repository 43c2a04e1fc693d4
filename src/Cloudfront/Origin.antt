-- ===== src/Cloudfront/Origin.antt =====
-- internal/cloudfront/origin.go: origins with their behaviors, and their builder.
use mathlib.Core.List.{List, [], ◌∷◌, ◌++◌}
use cdn_origin_controller.Prelude.{
  String, Bool, ◌&&◌, Option, none, some, ◌==◌, string_eq, if◌then◌else◌, ℤ, pos, int_eq,
  is_positive,
}
use cdn_origin_controller.GoMap.{GoMap, lookup, insert}
use cdn_origin_controller.GoString.{nonempty, replace_all}
use cdn_origin_controller.Config.{Config}
use cdn_origin_controller.K8s.Ingress.{cf_user_origin_access_bucket}
use cdn_origin_controller.Cloudfront.Oac.{Oac, oac_eq, no_oac, new_oac}
use cdn_origin_controller.Cloudfront.Function.{Function}

abbrev pub template_origin_headers_host : String
template_origin_headers_host = "{{origin.host}}"

pub record OriginHeaders : Type 0 where
  pub origin_host : String
  pub headers : GoMap String String

unfoldable pub render_headers : String → GoMap String String → GoMap String String
render_headers origin_host [] = []
render_headers origin_host ((k, v) ∷ m) =
    (k, replace_all v template_origin_headers_host origin_host) ∷ render_headers origin_host m

pub record Behavior : Type 0 where
  pub path_pattern : String
  pub request_policy : String
  pub cache_policy : String
  pub response_policy : String
  pub origin_host : String
  pub function_associations : List Function

pub record Origin : Type 0 where
  pub host : String
  pub behaviors : List Behavior
  pub response_timeout : ℤ
  pub access : String
  pub oac : Oac
  pub headers : OriginHeaders

unfoldable pub has_equal_parameters : Origin → Origin → Bool
has_equal_parameters o o2 =
    o.host == o2.host
    && (o.response_timeout == o2.response_timeout && (o.access == o2.access && o.oac == o2.oac))

-- `Origin.Headers`
unfoldable pub origin_headers : Origin → GoMap String String
unfolding render_headers
origin_headers o = render_headers o.headers.origin_host o.headers.headers

unfoldable pub is_bucket_based : Origin → Bool
is_bucket_based o = o.access == cf_user_origin_access_bucket

pub record OriginBuilder : Type 0 where
  pub host : String
  pub headers : GoMap String String
  pub request_policy : String
  pub distribution_name : String
  pub cache_policy : String
  pub response_policy : String
  pub resp_timeout : ℤ
  pub access_type : String
  pub behaviors : GoMap String (List Function)

unfoldable pub default_request_policy_for_type : String → Config → String
default_request_policy_for_type access_type cfg =
    if access_type == cf_user_origin_access_bucket
    then cfg.cloudfront_default_bucket_origin_access_request_policy_id
    else cfg.cloudfront_default_public_origin_access_request_policy_id

unfoldable pub new_origin_builder :
    (distribution_name host access_type : String) → Config → OriginBuilder
unfolding default_request_policy_for_type
new_origin_builder distribution_name host access_type cfg = record {
  host = host;
  headers = [];
  request_policy = default_request_policy_for_type access_type cfg;
  distribution_name = distribution_name;
  cache_policy = cfg.cloudfront_default_caching_policy_id;
  response_policy = "";
  resp_timeout = pos 30;
  access_type = access_type;
  behaviors = [];
}

abbrev appended : Option (List Function) → List Function → List Function
appended none functions = functions
appended (some existing) functions = existing ++ functions

-- Functions of a pattern that is there are appended to those it has.
unfoldable pub with_behavior : String → List Function → OriginBuilder → OriginBuilder
with_behavior path_pattern functions b = record b {
  behaviors =
      insert path_pattern (appended (lookup path_pattern b.behaviors) functions) b.behaviors;
}

unfoldable pub with_request_policy : String → OriginBuilder → OriginBuilder
with_request_policy policy b = record b {
  request_policy = if nonempty policy then policy else b.request_policy;
}

unfoldable pub with_cache_policy : String → OriginBuilder → OriginBuilder
with_cache_policy policy b = record b {
  cache_policy = if nonempty policy then policy else b.cache_policy;
}

unfoldable pub with_response_policy : String → OriginBuilder → OriginBuilder
with_response_policy policy b = record b {
  response_policy = if nonempty policy then policy else b.response_policy;
}

unfoldable pub with_response_timeout : ℤ → OriginBuilder → OriginBuilder
with_response_timeout rp_timeout b = record b {
  resp_timeout = if is_positive rp_timeout then rp_timeout else b.resp_timeout;
}

unfoldable pub with_origin_headers : GoMap String String → OriginBuilder → OriginBuilder
with_origin_headers headers b = record b { headers = headers }

unfoldable pub behaviors_of : String → GoMap String (List Function) → List Behavior
behaviors_of host [] = []
behaviors_of host ((p, functions) ∷ m) =
    record {
      path_pattern = p;
      request_policy = "";
      cache_policy = "";
      response_policy = "";
      origin_host = host;
      function_associations = functions;
    }
    ∷ behaviors_of host m

-- `for i := range origin.Behaviors { set(origin.Behaviors[i]) }`
unfoldable pub for_each_behavior : (Behavior → Behavior) → List Behavior → List Behavior
for_each_behavior set [] = []
for_each_behavior set (b ∷ bs) = set b ∷ for_each_behavior set bs

unfoldable pub add_behaviors : OriginBuilder → Origin → Origin
add_behaviors b origin = record origin {
  behaviors = origin.behaviors ++ behaviors_of b.host b.behaviors;
}

unfoldable pub add_request_policy_to_behaviors : OriginBuilder → Origin → Origin
add_request_policy_to_behaviors b origin = record origin {
  behaviors =
      for_each_behavior (λ x. record x { request_policy = b.request_policy }) origin.behaviors;
}

unfoldable pub add_cache_policy_behaviors : OriginBuilder → Origin → Origin
add_cache_policy_behaviors b origin = record origin {
  behaviors = for_each_behavior (λ x. record x { cache_policy = b.cache_policy }) origin.behaviors;
}

unfoldable pub add_response_policy_to_behaviors : OriginBuilder → Origin → Origin
add_response_policy_to_behaviors b origin = record origin {
  behaviors =
      for_each_behavior (λ x. record x { response_policy = b.response_policy }) origin.behaviors;
}

module _ (md5 : String → String) where
  unfoldable pub add_origin_access_configuration : OriginBuilder → Origin → Origin
  add_origin_access_configuration b origin =
      if origin.access == cf_user_origin_access_bucket
      then record origin { oac = new_oac md5 b.distribution_name b.host }
      else origin

  -- `OriginBuilder.Build`
  unfoldable pub build_origin : OriginBuilder → Origin
  unfolding add_behaviors behaviors_of for_each_behavior add_request_policy_to_behaviors
      add_cache_policy_behaviors add_response_policy_to_behaviors add_origin_access_configuration
  build_origin b =
      let origin : Origin = record {
        host = b.host;
        behaviors = [];
        response_timeout = b.resp_timeout;
        access = "";
        oac = no_oac;
        headers = record { origin_host = b.host; headers = b.headers };
      } in
      let built = add_response_policy_to_behaviors b (
        add_request_policy_to_behaviors b
          (add_cache_policy_behaviors b (add_behaviors b origin))) in
      add_origin_access_configuration b (record built { access = b.access_type })
