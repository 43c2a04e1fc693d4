-- ===== src/Config.antt =====
-- internal/config/config.go. The values that viper reads from the environment are a parameter.
pub mod Defaults
use mathlib.Core.List.{List, [], ◌∷◌}
use cdn_origin_controller.Prelude.{
  String, Bool, true, false, not, ◌||◌, ◌==◌, string_eq, Eq, if◌then◌else◌,
}
use cdn_origin_controller.GoError.{new, Result, ok, err, panic, ◌>>=◌, annotated}
use cdn_origin_controller.GoMap.{GoMap, insert}
use cdn_origin_controller.GoString.{nonempty, split, has_suffix, trim_suffix}
use cdn_origin_controller.K8s.Objects.{Ingress, NamespacedName}

pub record Config : Type 0 where
  pub log_level : String
  pub dev_mode : Bool
  pub deletion_enabled : Bool
  pub default_origin_domain : String
  pub cloudfront_price_class : String
  pub cloudfront_security_policy : String
  pub cloudfront_enable_logging : Bool
  pub cloudfront_s3_bucket_log : String
  pub cloudfront_s3_bucket_log_prefix : String
  pub cloudfront_enable_ipv6 : Bool
  pub cloudfront_description_template : String
  pub cloudfront_custom_tags : GoMap String String
  pub cloudfront_default_caching_policy_id : String
  pub cloudfront_default_cache_request_policy_id : String
  pub cloudfront_default_public_origin_access_request_policy_id : String
  pub cloudfront_default_bucket_origin_access_request_policy_id : String
  pub is_create_blocked : Bool
  pub create_allow_list : List NamespacedName

unfoldable pub tls_is_enabled : Config → Bool
tls_is_enabled c = nonempty c.cloudfront_security_policy

namespaced_name_discrete : Discrete NamespacedName
namespaced_name_discrete = hlevel string_eq.dec

instance unfoldable pub namespaced_name_eq : Eq NamespacedName
unfolding namespaced_name_discrete
namespaced_name_eq = record { dec = namespaced_name_discrete }

-- The loop of `IsCreationAllowed`.
unfoldable pub allows : List NamespacedName → NamespacedName → Bool
allows [] name = false
allows (candidate ∷ names) name = candidate == name || allows names name

unfoldable pub is_creation_allowed : Config → Ingress → Bool
unfolding allows
is_creation_allowed c ing =
    if not c.is_create_blocked
    then true
    else allows c.create_allow_list (record { namespace = ing.namespace; name = ing.name })

unfoldable pub remove_trailing_slash : String → String
remove_trailing_slash s = if has_suffix s "/" then trim_suffix s "/" else s

unfoldable pub name_of_parts : List String → Result NamespacedName
name_of_parts [] = err (new "namespaced name is not in namespace/name format")
name_of_parts (ns ∷ []) = err (new "namespaced name is not in namespace/name format")
name_of_parts (ns ∷ name ∷ []) =
    if ns == "" || name == ""
    then err (new "namespaced name is not in namespace/name format")
    else ok (record { namespace = ns; name = name })
name_of_parts (ns ∷ name ∷ x ∷ xs) = err (new "namespaced name is not in namespace/name format")

unfoldable pub ns_name : String → Result NamespacedName
unfolding name_of_parts
ns_name name = name_of_parts (split name b'/')

unfoldable pub parse_namespaced_names : List String → Result (List NamespacedName)
parse_namespaced_names [] = ok []
parse_namespaced_names (n ∷ names) = do
  name ← annotated "parsing namespaced name" (ns_name n)
  rest ← parse_namespaced_names names
  ok (name ∷ rest)

unfoldable pub parse_list : String → List String
parse_list l = if nonempty l then split l b',' else []

-- `m[tag[0]] = tag[1]`: a pair with no `=` is an index out of range.
unfoldable pub insert_tag : GoMap String String → List String → Result (GoMap String String)
insert_tag m [] = panic "index out of range"
insert_tag m (k ∷ []) = panic "index out of range"
insert_tag m (k ∷ v ∷ rest) = ok (insert k v m)

unfoldable pub extract_pairs : GoMap String String → List String → Result (GoMap String String)
unfolding insert_tag
extract_pairs m [] = ok m
extract_pairs m (pair ∷ pairs) = do m' ← insert_tag m (split pair b'='); extract_pairs m' pairs

unfoldable pub extract_tags : String → Result (GoMap String String)
unfolding extract_pairs
extract_tags custom_tags =
    if nonempty custom_tags then extract_pairs [] (split custom_tags b',') else ok []

-- What viper returns for each key.
pub record Viper : Type 0 where
  pub get_string : String → String
  pub get_bool : String → Bool

unfoldable pub parse : Viper → Result Config
parse viper = do
  allow_list ←
      annotated "invalid block_creation_allow_list"
        (parse_namespaced_names (parse_list (viper.get_string "block_creation_allow_list")))
  tags ← extract_tags (viper.get_string "cf_custom_tags")
  ok (record {
    log_level = if viper.get_bool "dev_mode" then "debug" else viper.get_string "log_level";
    dev_mode = viper.get_bool "dev_mode";
    deletion_enabled = viper.get_bool "enable_deletion";
    default_origin_domain = viper.get_string "cf_default_origin_domain";
    cloudfront_price_class = viper.get_string "cf_price_class";
    cloudfront_security_policy = viper.get_string "cf_security_policy";
    cloudfront_enable_logging = viper.get_bool "cf_enable_logging";
    cloudfront_s3_bucket_log = viper.get_string "cf_s3_bucket_log";
    cloudfront_s3_bucket_log_prefix =
        remove_trailing_slash (viper.get_string "cf_s3_bucket_log_prefix");
    cloudfront_enable_ipv6 = viper.get_bool "cf_enable_ipv6";
    cloudfront_description_template = viper.get_string "cf_description_template";
    cloudfront_custom_tags = tags;
    cloudfront_default_caching_policy_id = viper.get_string "cf_default_caching_policy_id";
    cloudfront_default_cache_request_policy_id =
        viper.get_string "cf_default_cache_request_policy_id";
    cloudfront_default_public_origin_access_request_policy_id =
        viper.get_string "cf_default_public_origin_access_request_policy_id";
    cloudfront_default_bucket_origin_access_request_policy_id =
        viper.get_string "cf_default_bucket_origin_access_request_policy_id";
    is_create_blocked = viper.get_bool "block_creation";
    create_allow_list = allow_list;
  })
