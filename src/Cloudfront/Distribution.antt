-- ===== src/Cloudfront/Distribution.antt =====
-- internal/cloudfront/distribution.go: a distribution, and its builder. A loop over a map goes in
-- the order of the association list.
pub mod Builder
pub mod Origins
pub mod Tags
pub mod Behaviors
use mathlib.Core.List.{List, [], ◌∷◌, ◌++◌}
use cdn_origin_controller.Prelude.{
  String, Bool, true, false, not, ◌&&◌, ◌||◌, Option, none, some, ◌==◌, string_eq, if◌then◌else◌,
}
use cdn_origin_controller.GoError.{new, Result, ok, err, panic, ◌>>=◌, ◌>>◌}
use cdn_origin_controller.GoMap.{GoMap, lookup, insert, values}
use cdn_origin_controller.GoString.{nonempty, split, replace_all}
use cdn_origin_controller.Strhelper.{append_missing, merge_map_string, insert_all}
use cdn_origin_controller.Config.{Config}
use cdn_origin_controller.K8s.Ingress.{cf_user_origin_access_public}
use cdn_origin_controller.Cloudfront.Oac.{Oac}
use cdn_origin_controller.Cloudfront.Origin.{
  Origin, Behavior, has_equal_parameters, is_bucket_based, new_origin_builder, build_origin,
}
use cdn_origin_controller.Cloudfront.Sort.{sort, is_in_most_specific_order}

pub record TlsConfig : Type 0 where
  pub enabled : Bool
  pub cert_arn : String
  pub security_policy_id : String

pub record LoggingConfig : Type 0 where
  pub enabled : Bool
  pub bucket_address : String
  pub prefix : String

pub record Distribution : Type 0 where
  pub id : String
  pub arn : String
  pub address : String
  pub alternate_domains : List String
  pub custom_origins : List Origin
  pub default_origin : Origin
  pub description : String
  pub group : String
  pub ipv6_enabled : Bool
  pub logging : LoggingConfig
  pub price_class : String
  pub tags : GoMap String String
  pub tls : TlsConfig
  pub web_acl_id : String

-- `byMostSpecificPath.Less`
unfoldable pub less_by_path : Behavior → Behavior → Bool
less_by_path b c = is_in_most_specific_order b.path_pattern c.path_pattern

unfoldable pub all_behaviors : List Origin → List Behavior
all_behaviors [] = []
all_behaviors (o ∷ os) = o.behaviors ++ all_behaviors os

unfoldable pub sorted_custom_behaviors : Distribution → List Behavior
unfolding all_behaviors
sorted_custom_behaviors d = sort less_by_path (all_behaviors d.custom_origins)

unfoldable pub exists : Distribution → Bool
exists d = nonempty d.id

abbrev is_nil {ℓ} : {A : Type ℓ} → List A → Bool
is_nil [] = true
is_nil (x ∷ xs) = false

-- `Distribution.IsEmpty`
unfoldable pub is_empty : Distribution → Bool
is_empty d = is_nil d.custom_origins

unfoldable pub bucket_oacs : List Origin → List Oac
bucket_oacs [] = []
bucket_oacs (o ∷ os) = let rest = bucket_oacs os in if is_bucket_based o then o.oac ∷ rest else rest

unfoldable pub oacs : Distribution → List Oac
unfolding bucket_oacs
oacs d = bucket_oacs d.custom_origins

unfoldable pub any_host : List Origin → String → Bool
any_host [] origin_host = false
any_host (o ∷ os) origin_host = o.host == origin_host || any_host os origin_host

unfoldable pub has_origin : Distribution → String → Bool
unfolding any_host
has_origin d origin_host = any_host d.custom_origins origin_host

pub record DistributionBuilder : Type 0 where
  pub id : String
  pub address : String
  pub alternate_domains : List String
  pub arn : String
  pub custom_origins : GoMap String Origin
  pub default_origin_domain : String
  pub description : String
  pub ipv6_enabled : Bool
  pub group : String
  pub logging : LoggingConfig
  pub price_class : String
  pub tags : GoMap String String
  pub tls : TlsConfig
  pub web_acl_id : String
  pub cfg : Config

unfoldable pub render_description : (template group : String) → String
render_description template group = replace_all template "{{group}}" group

unfoldable pub new_distribution_builder : String → Config → DistributionBuilder
unfolding render_description
new_distribution_builder group cfg = record {
  id = "";
  address = "";
  alternate_domains = [];
  arn = "";
  custom_origins = [];
  default_origin_domain = cfg.default_origin_domain;
  description = render_description cfg.cloudfront_description_template group;
  ipv6_enabled = false;
  group = group;
  logging = record { enabled = false; bucket_address = ""; prefix = "" };
  price_class = cfg.cloudfront_price_class;
  tags = [];
  tls = record { enabled = false; cert_arn = ""; security_policy_id = "" };
  web_acl_id = "";
  cfg = cfg;
}

unfoldable pub with_origin : Origin → DistributionBuilder → DistributionBuilder
with_origin o b = record b { custom_origins = insert o.host o b.custom_origins }

unfoldable pub with_logging :
    (bucket_address prefix : String) → DistributionBuilder → DistributionBuilder
with_logging bucket_address prefix b = record b {
  logging = record { enabled = true; bucket_address = bucket_address; prefix = prefix };
}

unfoldable pub append_tags : GoMap String String → DistributionBuilder → DistributionBuilder
append_tags tags b = record b { tags = merge_map_string b.tags tags }

unfoldable pub with_tls :
    (cert_arn security_policy_id : String) → DistributionBuilder → DistributionBuilder
with_tls cert_arn security_policy_id b = record b {
  tls = record { enabled = true; cert_arn = cert_arn; security_policy_id = security_policy_id };
}

unfoldable pub with_ipv6 : DistributionBuilder → DistributionBuilder
with_ipv6 b = record b { ipv6_enabled = true }

unfoldable pub with_alternate_domains : List String → DistributionBuilder → DistributionBuilder
unfolding append_missing
with_alternate_domains domains b = record b {
  alternate_domains = append_missing b.alternate_domains domains;
}

unfoldable pub with_web_acl : String → DistributionBuilder → DistributionBuilder
with_web_acl id b = record b { web_acl_id = id }

-- `strings.Split(arn, "/")[1]`
unfoldable pub second_part : List String → Result String
second_part [] = panic "index out of range"
second_part (p ∷ []) = panic "index out of range"
second_part (p ∷ q ∷ ps) = ok q

unfoldable pub extract_id : String → Result String
unfolding second_part
extract_id arn = second_part (split arn b'/')

unfoldable pub with_arn : String → DistributionBuilder → Result DistributionBuilder
unfolding extract_id
with_arn arn b = do id ← extract_id arn; ok (record b { id = id; arn = arn })

abbrev pub ownership_tag_key : String
ownership_tag_key = "cdn-origin-controller.gympass.com/owned"

abbrev pub ownership_tag_value : String
ownership_tag_value = "true"

abbrev pub group_tag_key : String
group_tag_key = "cdn-origin-controller.gympass.com/cdn.group"

unfoldable pub default_tags : DistributionBuilder → GoMap String String
default_tags b = insert group_tag_key b.group (insert ownership_tag_key ownership_tag_value [])

-- The tags of the builder go over the default ones.
unfoldable pub generate_tags : DistributionBuilder → GoMap String String
generate_tags b = insert_all (default_tags b) b.tags

unfoldable pub origin_slice : DistributionBuilder → List Origin
origin_slice b = values b.custom_origins

-- `existing, ok := m[o.Host]; ok && !existing.HasEqualParameters(o)`
abbrev pub conflicts : Option Origin → Origin → Bool
conflicts none o = false
conflicts (some existing) o = not (has_equal_parameters existing o)

-- The loop of `validate`.
unfoldable pub validate_from : GoMap String Origin → List Origin → Result (Unit {0})
validate_from existing [] = ok tt
validate_from existing (o ∷ os) =
    let rest = validate_from (insert o.host o existing) os in
    if conflicts (lookup o.host existing) o
    then err (new "same host specified twice with different parameters for origin configuration")
    else rest

unfoldable pub validate : Distribution → Result (Unit {0})
unfolding validate_from
validate d = validate_from [] (d.default_origin ∷ d.custom_origins)

-- An origin whose host is there adds its behaviors to those of the one that is there.
abbrev pub merged_with : Option Origin → Origin → Origin
merged_with none o = o
merged_with (some existing) o = record existing { behaviors = existing.behaviors ++ o.behaviors }

-- The loop of `mergedOriginMap`; an origin in the map has its key for a host.
unfoldable pub merge_from : GoMap String Origin → List Origin → GoMap String Origin
merge_from existing [] = existing
merge_from existing (o ∷ os) =
    merge_from (insert o.host (merged_with (lookup o.host existing) o) existing) os

unfoldable pub merge_custom_origins : Distribution → Distribution
unfolding merge_from
merge_custom_origins d = record d { custom_origins = values (merge_from [] d.custom_origins) }

module _ (md5 : String → String) where
  unfoldable pub assemble : DistributionBuilder → Distribution
  assemble b = record {
    id = b.id;
    arn = b.arn;
    address = b.address;
    alternate_domains = b.alternate_domains;
    custom_origins = origin_slice b;
    default_origin =
        build_origin md5
          (new_origin_builder "dist" b.default_origin_domain cf_user_origin_access_public b.cfg);
    description = b.description;
    group = b.group;
    ipv6_enabled = b.ipv6_enabled;
    logging = b.logging;
    price_class = b.price_class;
    tags = generate_tags b;
    tls = b.tls;
    web_acl_id = b.web_acl_id;
  }

  -- `DistributionBuilder.Build`
  unfoldable pub build : DistributionBuilder → Result Distribution
  build b = do validate (assemble b); ok (merge_custom_origins (assemble b))
