-- ===== src/Tests/Distributions.antt =====
-- A distribution with one custom origin.
use mathlib.Core.List.{[], ◌∷◌, Perm}
use mathlib.Core.Option.{or_else}
use cdn_origin_controller.Prelude.{
  String, ◌≡◌, refl, true, false, none, string_eq, pos, length, ◌+◌, if◌then◌else◌,
}
use cdn_origin_controller.GoError.{ok, err, new}
use cdn_origin_controller.GoMap.{lookup}
use cdn_origin_controller.Config.{Config}
use cdn_origin_controller.Cloudfront.Oac.{no_oac}
use cdn_origin_controller.Cloudfront.Function.{
  EventType, request_edge_function, response_cloudfront_function,
}
use cdn_origin_controller.Cloudfront.Origin.{Behavior, Origin}
use cdn_origin_controller.Cloudfront.Sort.Sorting.{Ordered}
use cdn_origin_controller.Cloudfront.Sort.Specificity.{IsMoreSpecific}
use cdn_origin_controller.Cloudfront.Distribution.{
  Distribution, DistributionBuilder, assemble, build, generate_tags, default_tags,
  ownership_tag_key, group_tag_key, all_behaviors, sorted_custom_behaviors,
}
use cdn_origin_controller.Cloudfront.Distribution.Origins.{IsWellFormed, clashes, build-eq}
use cdn_origin_controller.Cloudfront.Distribution.Tags.{lookup-generate_tags}
use cdn_origin_controller.Cloudfront.Distribution.Behaviors.{sorted_custom_behaviors-Ordered}
use cdn_origin_controller.Cloudfront.AwsModels.{new_cache_behavior}
use cdn_origin_controller.Cloudfront.AwsModels.Functions.{new_cache_behavior-quantities}
use cdn_origin_controller.Tests.PathPatterns.{exact, any, exact-ascii, any-ascii}

abbrev pub config : Config
config = record {
  log_level = "info";
  dev_mode = false;
  deletion_enabled = true;
  default_origin_domain = "default.example.com";
  cloudfront_price_class = "PriceClass_All";
  cloudfront_security_policy = "";
  cloudfront_enable_logging = false;
  cloudfront_s3_bucket_log = "";
  cloudfront_s3_bucket_log_prefix = "";
  cloudfront_enable_ipv6 = true;
  cloudfront_description_template = "{{group}}";
  cloudfront_custom_tags = [];
  cloudfront_default_caching_policy_id = "cache";
  cloudfront_default_cache_request_policy_id = "request";
  cloudfront_default_public_origin_access_request_policy_id = "public";
  cloudfront_default_bucket_origin_access_request_policy_id = "bucket";
  is_create_blocked = false;
  create_allow_list = [];
}

abbrev behavior : String → Behavior
behavior path = record {
  path_pattern = path;
  request_policy = "request";
  cache_policy = "cache";
  response_policy = "";
  origin_host = "lb.example.com";
  function_associations =
      request_edge_function "arn:edge" EventType.viewer_request true
      ∷ response_cloudfront_function "arn:cf" EventType.viewer_response
      ∷ [];
}

abbrev pub origin : Origin
origin = record {
  host = "lb.example.com";
  behaviors = behavior any ∷ behavior exact ∷ [];
  response_timeout = pos 30;
  access = "Public";
  oac = no_oac;
  headers = record { origin_host = "lb.example.com"; headers = [] };
}

abbrev pub builder : DistributionBuilder
builder = record {
  id = "";
  address = "";
  alternate_domains = "a.com" ∷ [];
  arn = "";
  custom_origins = [];
  default_origin_domain = "default.example.com";
  description = "shop";
  ipv6_enabled = true;
  group = "shop";
  logging = record { enabled = false; bucket_address = ""; prefix = "" };
  price_class = "PriceClass_All";
  tags = ("team", "web") ∷ [];
  tls = record { enabled = false; cert_arn = ""; security_policy_id = "" };
  web_acl_id = "";
  cfg = config;
}

abbrev pub distribution : Distribution
distribution = record (assemble (λ s. s) builder) { custom_origins = origin ∷ [] }

no_origins-IsWellFormed : IsWellFormed builder.custom_origins
no_origins-IsWellFormed = record { keyed = tt; nodup = tt }

one_origin-IsWellFormed : IsWellFormed (("lb.example.com", origin) ∷ [])
unfolding lookup
one_origin-IsWellFormed = record { keyed = (refl, tt); nodup = (refl, tt) }

abbrev built_from : DistributionBuilder
built_from = record builder { custom_origins = ("lb.example.com", origin) ∷ [] }

build-eq_example : build (λ s. s) built_from ≡ (
    if clashes
      (assemble (λ s. s) built_from).default_origin
      (lookup (assemble (λ s. s) built_from).default_origin.host built_from.custom_origins)
    then err (new "same host specified twice with different parameters for origin configuration")
    else ok (assemble (λ s. s) built_from))
build-eq_example = build-eq (λ s. s) built_from one_origin-IsWellFormed

lookup-generate_tags_example :
    lookup "team" (generate_tags builder)
    ≡ or_else (lookup "team" builder.tags) (lookup "team" (default_tags builder))
unfolding lookup
lookup-generate_tags_example = lookup-generate_tags builder "team" (refl, tt)

no_owner : lookup ownership_tag_key builder.tags ≡ none
unfolding lookup string_eq
no_owner = refl

no_group : lookup group_tag_key builder.tags ≡ none
unfolding lookup string_eq
no_group = refl

sorted_custom_behaviors-Ordered_example :
    Perm (sorted_custom_behaviors distribution) (all_behaviors distribution.custom_origins)
    × Ordered
        (λ b c. IsMoreSpecific b.path_pattern c.path_pattern)
        (sorted_custom_behaviors distribution)
unfolding all_behaviors
sorted_custom_behaviors-Ordered_example =
    sorted_custom_behaviors-Ordered distribution (any-ascii, (exact-ascii, tt))

new_cache_behavior-quantities_example :
    (length (new_cache_behavior (behavior any)).function_associations.items
      ≡ (new_cache_behavior (behavior any)).function_associations.quantity)
    × (length (new_cache_behavior (behavior any)).lambda_function_associations.items
        ≡ (new_cache_behavior (behavior any)).lambda_function_associations.quantity)
    × ((new_cache_behavior (behavior any)).function_associations.quantity
          + (new_cache_behavior (behavior any)).lambda_function_associations.quantity
        ≡ length (behavior any).function_associations)
new_cache_behavior-quantities_example = new_cache_behavior-quantities (behavior any)
