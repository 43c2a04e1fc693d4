-- ===== src/Cloudfront/AwsModels.antt =====
-- internal/cloudfront/aws_models.go: what is sent to AWS for a distribution. A list and its
-- `Quantity` are two fields, as in the SDK.
pub mod Functions
use Prim.Native.Nat.{ℕ}
use mathlib.Core.List.{List, [], ◌∷◌, ◌++◌}
use cdn_origin_controller.Prelude.{
  String, Bool, true, false, not, ◌&&◌, Option, none, some, ◌==◌, string_eq, if◌then◌else◌, length,
  ℤ,
}
use cdn_origin_controller.GoMap.{GoMap}
use cdn_origin_controller.GoString.{nonempty}
use cdn_origin_controller.Config.{Config}
use cdn_origin_controller.K8s.FunctionAssociations.{function_type_cloudfront, function_type_edge}
use cdn_origin_controller.K8s.Ingress.{cf_user_origin_access_public}
use cdn_origin_controller.Cloudfront.Oac.{Oac}
use cdn_origin_controller.Cloudfront.Function.{
  Function, EventType, function_arn, function_event_type, type_of_function, function_include_body,
}
use cdn_origin_controller.Cloudfront.Origin.{Origin, Behavior, origin_headers}
use cdn_origin_controller.Cloudfront.Distribution.{Distribution, sorted_custom_behaviors}

-- The SDK's `Items` and `Quantity`.
pub record Items {ℓ} (A : Type ℓ) : Type ℓ where
  pub items : List A
  pub quantity : ℕ

abbrev pub counted {ℓ} : {A : Type ℓ} → List A → Items A
counted items = record { items = items; quantity = length items }

pub record FunctionAssociation : Type 0 where
  pub event_type : EventType
  pub function_arn : String

pub record LambdaFunctionAssociation : Type 0 where
  pub event_type : EventType
  pub lambda_function_arn : String
  pub include_body : Option Bool

pub record CacheBehavior : Type 0 where
  pub allowed_methods : Items String
  pub cached_methods : Items String
  pub cache_policy_id : String
  pub compress : Bool
  pub field_level_encryption_id : String
  pub function_associations : Items FunctionAssociation
  pub lambda_function_associations : Items LambdaFunctionAssociation
  pub origin_request_policy_id : Option String
  pub path_pattern : String
  pub response_headers_policy_id : Option String
  pub smooth_streaming : Bool
  pub target_origin_id : String
  pub viewer_protocol_policy : String

pub record CustomOriginConfig : Type 0 where
  pub http_port : ℕ
  pub https_port : ℕ
  pub origin_keepalive_timeout : ℕ
  pub origin_protocol_policy : String
  pub origin_read_timeout : ℤ
  pub origin_ssl_protocols : Items String

-- The SDK's `Origin`. An S3 origin's access identity stands for its `S3OriginConfig`.
pub record AwsOrigin : Type 0 where
  pub custom_headers : Items (String × String)
  pub custom_origin_config : Option CustomOriginConfig
  pub domain_name : String
  pub id : String
  pub origin_access_control_id : Option String
  pub origin_path : String
  pub s3_origin_config : Option String

pub record AwsLogging : Type 0 where
  pub enabled : Bool
  pub bucket : String
  pub prefix : String
  pub include_cookies : Bool

pub record ViewerCertificate : Type 0 where
  pub acm_certificate_arn : String
  pub minimum_protocol_version : String
  pub ssl_support_method : String

-- The SDK's `DistributionConfig`. Error responses and restrictions are only handed on, and stand
-- as opaque texts; the default behavior is a cache behavior without a pattern.
pub record DistributionConfig : Type 0 where
  pub aliases : Items String
  pub cache_behaviors : Items CacheBehavior
  pub caller_reference : Option String
  pub comment : String
  pub custom_error_responses : Option String
  pub default_cache_behavior : CacheBehavior
  pub origins : Option (Items AwsOrigin)
  pub default_root_object : Option String
  pub enabled : Bool
  pub http_version : String
  pub is_ipv6_enabled : Bool
  pub logging : AwsLogging
  pub price_class : String
  pub restrictions : Option String
  pub viewer_certificate : Option ViewerCertificate
  pub web_acl_id : String

abbrev allowed_methods : List String
allowed_methods = "GET" ∷ "HEAD" ∷ "OPTIONS" ∷ "PUT" ∷ "POST" ∷ "PATCH" ∷ "DELETE" ∷ []

abbrev cached_methods : List String
cached_methods = "GET" ∷ "HEAD" ∷ []

abbrev redirect_to_https : String
redirect_to_https = "redirect-to-https"

unfoldable pub new_aws_function_association : List Function → List FunctionAssociation
new_aws_function_association [] = []
new_aws_function_association (fn ∷ fns) =
    record { event_type = function_event_type fn; function_arn = function_arn fn }
    ∷ new_aws_function_association fns

unfoldable pub new_aws_lambda_function_association : List Function → List LambdaFunctionAssociation
new_aws_lambda_function_association [] = []
new_aws_lambda_function_association (fn ∷ fns) =
    record {
      event_type = function_event_type fn;
      lambda_function_arn = function_arn fn;
      include_body = function_include_body fn;
    }
    ∷ new_aws_lambda_function_association fns

-- The functions of one type, in their order: one case of the loop of `newCacheBehavior`.
unfoldable pub functions_of_type : String → List Function → List Function
functions_of_type type [] = []
functions_of_type type (fn ∷ fns) =
    let rest = functions_of_type type fns in if type_of_function fn == type then fn ∷ rest else rest

unfoldable pub base_cache_behavior : Behavior → CacheBehavior
base_cache_behavior b = record {
  allowed_methods = counted allowed_methods;
  cached_methods = counted cached_methods;
  cache_policy_id = b.cache_policy;
  compress = true;
  field_level_encryption_id = "";
  function_associations = counted [];
  lambda_function_associations = counted [];
  origin_request_policy_id = if b.request_policy == "None" then none else some b.request_policy;
  path_pattern = b.path_pattern;
  response_headers_policy_id =
      if nonempty b.response_policy && not (b.response_policy == "None")
      then some b.response_policy
      else none;
  smooth_streaming = false;
  target_origin_id = b.origin_host;
  viewer_protocol_policy = redirect_to_https;
}

unfoldable pub new_cache_behavior : Behavior → CacheBehavior
unfolding base_cache_behavior
new_cache_behavior b =
    let cf_functions = functions_of_type function_type_cloudfront b.function_associations in
    let edge_functions = functions_of_type function_type_edge b.function_associations in
    record (base_cache_behavior b) {
      function_associations = record {
        items = new_aws_function_association cf_functions;
        quantity = length cf_functions;
      };
      lambda_function_associations = record {
        items = new_aws_lambda_function_association edge_functions;
        quantity = length edge_functions;
      };
    }

unfoldable pub new_cache_behaviors : List Behavior → List CacheBehavior
new_cache_behaviors [] = []
new_cache_behaviors (b ∷ bs) = new_cache_behavior b ∷ new_cache_behaviors bs

abbrev ssl_protocols : List String
ssl_protocols = "SSLv3" ∷ "TLSv1" ∷ "TLSv1.1" ∷ "TLSv1.2" ∷ []

unfoldable pub new_custom_headers : Origin → Items (String × String)
new_custom_headers o = counted (origin_headers o)

unfoldable pub new_aws_origin : Origin → AwsOrigin
unfolding new_custom_headers
new_aws_origin o =
    let public = o.access == cf_user_origin_access_public in
    record {
      custom_headers = new_custom_headers o;
      custom_origin_config =
          if public
          then some (record {
            http_port = 80;
            https_port = 443;
            origin_keepalive_timeout = 5;
            origin_protocol_policy = "match-viewer";
            origin_read_timeout = o.response_timeout;
            origin_ssl_protocols = counted ssl_protocols;
          })
          else none;
      domain_name = o.host;
      id = o.host;
      origin_access_control_id = if public then none else some o.oac.id;
      origin_path = "";
      s3_origin_config = if public then none else some "";
    }

unfoldable pub new_aws_origins : List Origin → List AwsOrigin
new_aws_origins [] = []
new_aws_origins (o ∷ os) = new_aws_origin o ∷ new_aws_origins os

unfoldable pub default_cache_behavior : Distribution → Config → CacheBehavior
default_cache_behavior d cfg = record {
  allowed_methods = counted allowed_methods;
  cached_methods = counted cached_methods;
  cache_policy_id = cfg.cloudfront_default_caching_policy_id;
  compress = true;
  field_level_encryption_id = "";
  function_associations = counted [];
  lambda_function_associations = counted [];
  origin_request_policy_id = some cfg.cloudfront_default_cache_request_policy_id;
  path_pattern = "";
  response_headers_policy_id = none;
  smooth_streaming = false;
  target_origin_id = d.default_origin.host;
  viewer_protocol_policy = redirect_to_https;
}

-- `newAWSDistributionConfig`; `caller_ref` is what the call of `callerRef` returns.
unfoldable pub new_aws_distribution_config :
    Distribution → (caller_ref : String) → Config → DistributionConfig
unfolding new_aws_origins new_cache_behaviors default_cache_behavior
new_aws_distribution_config d caller_ref cfg = record {
  aliases = counted d.alternate_domains;
  cache_behaviors = counted (new_cache_behaviors (sorted_custom_behaviors d));
  caller_reference = some caller_ref;
  comment = d.description;
  custom_error_responses = none;
  default_cache_behavior = default_cache_behavior d cfg;
  origins = some (counted (new_aws_origin d.default_origin ∷ new_aws_origins d.custom_origins));
  default_root_object = none;
  enabled = true;
  http_version = "http2";
  is_ipv6_enabled = d.ipv6_enabled;
  logging =
      if d.logging.enabled
      then record {
        enabled = true;
        bucket = d.logging.bucket_address;
        prefix = d.logging.prefix;
        include_cookies = false;
      }
      else record { enabled = false; bucket = ""; prefix = ""; include_cookies = false };
  price_class = d.price_class;
  restrictions = none;
  viewer_certificate =
      if d.tls.enabled
      then some (record {
        acm_certificate_arn = d.tls.cert_arn;
        minimum_protocol_version = d.tls.security_policy_id;
        ssl_support_method = "sni-only";
      })
      else none;
  web_acl_id = d.web_acl_id;
}
