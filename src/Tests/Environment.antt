-- ===== src/Tests/Environment.antt =====
-- An environment that sets nothing.
use mathlib.Core.List.{[]}
use cdn_origin_controller.Prelude.{
  String, ◌≡◌, refl, ap, Bool, true, false, Option, none, some, ◌==◌, string_eq,
}
use cdn_origin_controller.GoError.{ok}
use cdn_origin_controller.GoMap.{lookup}
use cdn_origin_controller.Config.{Config, Viper, parse}
use cdn_origin_controller.Config.Defaults.{
  Setting, text, flag, init_defaults, IsViper, parse_of_defaults,
}

abbrev as_string : Option Setting → String
as_string none = ""
as_string (some (text t)) = t
as_string (some (flag true)) = "true"
as_string (some (flag false)) = "false"

abbrev as_bool : Option Setting → Bool
as_bool none = false
as_bool (some (text t)) = t == "true"
as_bool (some (flag b)) = b

abbrev nothing : String → Option String
nothing key = none

abbrev viper : Viper
viper = record {
  get_string = λ key. as_string (lookup key init_defaults);
  get_bool = λ key. as_bool (lookup key init_defaults);
}

viper-IsViper : IsViper nothing viper
unfolding string_eq
viper-IsViper = record {
  get_string-default = λ key value unset e. ap as_string e;
  get_string-missing = λ key unset e. ap as_string e;
  get_bool-true = λ key unset e. ap as_bool e;
  get_bool-false = λ key unset e. ap as_bool e;
  get_bool-flag = λ key b unset e. ap as_bool e;
}

abbrev parsed : Config
parsed = record {
  log_level = "info";
  dev_mode = false;
  deletion_enabled = false;
  default_origin_domain = "";
  cloudfront_price_class = "PriceClass_All";
  cloudfront_security_policy = "";
  cloudfront_enable_logging = false;
  cloudfront_s3_bucket_log = "";
  cloudfront_s3_bucket_log_prefix = "";
  cloudfront_enable_ipv6 = true;
  cloudfront_description_template = "Serve contents for {{group}} group.";
  cloudfront_custom_tags = [];
  cloudfront_default_caching_policy_id = "4135ea2d-6df8-44a3-9df3-4b5a84be39ad";
  cloudfront_default_cache_request_policy_id = "216adef6-5c7f-47e4-b989-5492eafa07d3";
  cloudfront_default_public_origin_access_request_policy_id =
      "216adef6-5c7f-47e4-b989-5492eafa07d3";
  cloudfront_default_bucket_origin_access_request_policy_id =
      "88a5eaf4-2fd4-4709-b370-b4c650ea3fcf";
  is_create_blocked = false;
  create_allow_list = [];
}

parses : parse viper ≡ ok parsed
unfolding parse string_eq lookup init_defaults cdn_origin_controller.Config.parse_namespaced_names
    cdn_origin_controller.Config.parse_list cdn_origin_controller.Config.extract_tags
    cdn_origin_controller.Config.remove_trailing_slash cdn_origin_controller.GoString.has_suffix
parses = refl

parse_of_defaults_example :
    (nothing "enable_deletion" ≡ none → parsed.deletion_enabled ≡ false)
    × (nothing "block_creation" ≡ none → parsed.is_create_blocked ≡ false)
parse_of_defaults_example = parse_of_defaults nothing viper parsed viper-IsViper parses
