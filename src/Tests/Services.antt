-- ===== src/Tests/Services.antt =====
-- A distribution whose domain has changed, and the origin of an Ingress.
use mathlib.Core.List.{[], ◌∷◌}
use cdn_origin_controller.Prelude.{
  String, ◌≡◌, refl, Bool, true, false, some, none, string_eq, All, ℕ, suc, zero,
}
use cdn_origin_controller.GoError.{ok}
use cdn_origin_controller.Strhelper.{contains}
use cdn_origin_controller.Config.{Config}
use cdn_origin_controller.K8s.Objects.{CdnClass}
use cdn_origin_controller.K8s.Shared.{paths_from_origin}
use cdn_origin_controller.Route53.Alias.{normalize_domain, normalize_domains}
use cdn_origin_controller.Route53.Repository.{upsert_aliases}
use cdn_origin_controller.Api.CdnStatus.{CdnStatus}
use cdn_origin_controller.Api.CdnStatus.Dns.{dns_records}
use cdn_origin_controller.Cloudfront.Distribution.{Distribution}
use cdn_origin_controller.Cloudfront.Service.AliasSync.{aliases_to_upsert, sync_aliases}
use cdn_origin_controller.Cloudfront.Service.AliasSync.Records.{AreNormal, contains-sync_aliases}
use cdn_origin_controller.Cloudfront.Service.AliasSync.Disabled.{sync_aliases-deletion_disabled}
use cdn_origin_controller.Cloudfront.Service.Paths.{new_origin}
use cdn_origin_controller.Cloudfront.Service.Paths.Behaviors.{
  patterns_of, any_path, contains-patterns_of-new_origin, behavior_policies, policies_of,
  new_origin-All,
}
use cdn_origin_controller.Tests.DnsRecords.{zone, site}
use cdn_origin_controller.Tests.Distributions.{config, distribution}
use cdn_origin_controller.Tests.Ingresses.{ingress, params, with_request}
use cdn_origin_controller.Tests.Status.{status}

abbrev class : CdnClass
class = record { hosted_zone_id = "Z1"; create_alias = true; txt_owner_value = "team" }

abbrev renamed : Distribution
renamed = record distribution { alternate_domains = "new.example.com" ∷ []; ipv6_enabled = false }

abbrev old_status : CdnStatus
old_status = record status { dns = some (record { records = site ∷ []; synced = true }) }

abbrev new_status : CdnStatus
new_status = record status {
  dns = some (record { records = "new.example.com." ∷ []; synced = true });
}

old_status-AreNormal : AreNormal (dns_records old_status)
unfolding normalize_domain string_eq
old_status-AreNormal = (refl, tt)

synced : sync_aliases zone config old_status renamed class 0 ≡ (ok [], (new_status, suc (suc zero)))
unfolding sync_aliases string_eq contains aliases_to_upsert normalize_domains upsert_aliases
    cdn_origin_controller.Route53.Repository.existing_record_sets
    cdn_origin_controller.Route53.Repository.resource_record_sets_by_entry
    cdn_origin_controller.Route53.Records.validate_record_sets
    cdn_origin_controller.Route53.Records.validate_policies
    cdn_origin_controller.Route53.Records.filter_record_sets
    cdn_origin_controller.Route53.Records.validate_txt
    cdn_origin_controller.Route53.Records.contains_ownership_record
    cdn_origin_controller.Route53.Records.is_ownership_record
    cdn_origin_controller.GoString.contains cdn_origin_controller.Prelude.nat_eq
    cdn_origin_controller.Route53.Records.validate_ownership
    cdn_origin_controller.Route53.Records.is_owned_by_this_class
    cdn_origin_controller.Route53.Records.is_owned_by_different_class
    cdn_origin_controller.Route53.Repository.required_txt
    cdn_origin_controller.Route53.Repository.delete_target
    cdn_origin_controller.Cloudfront.Service.AliasSync.aliases_to_delete
    cdn_origin_controller.Cloudfront.Service.AliasSync.domains_to_delete
    cdn_origin_controller.Route53.Alias.new_aliases
    cdn_origin_controller.Route53.Repository.delete_aliases
    cdn_origin_controller.Route53.Alias.domains
    cdn_origin_controller.Api.CdnStatus.upsert_dns_records
    cdn_origin_controller.Api.CdnStatus.remove_dns_records cdn_origin_controller.Strhelper.filter
    cdn_origin_controller.Route53.Records.unmanaged cdn_origin_controller.Route53.Records.any_record
synced = refl

contains-sync_aliases_example :
    contains (dns_records new_status) "new.example.com."
    ≡ contains (normalize_domains ("new.example.com" ∷ [])) "new.example.com."
contains-sync_aliases_example =
    contains-sync_aliases zone config old_status renamed class 0 "new.example.com." refl
      old_status-AreNormal synced

abbrev keeping : Config
keeping = record config { deletion_enabled = false }

listed : contains (dns_records old_status) site ≡ true
unfolding contains string_eq
listed = refl

sync_aliases-deletion_disabled_example :
    ((sync_aliases zone keeping old_status renamed class 0).1.1
      ≡ (upsert_aliases zone (aliases_to_upsert renamed class) 0).1)
    × (contains (dns_records (sync_aliases zone keeping old_status renamed class 0).1.0) site
        ≡ true)
sync_aliases-deletion_disabled_example =
    sync_aliases-deletion_disabled zone keeping old_status renamed class 0 site refl listed

contains-patterns_of-new_origin_example :
    contains
      (patterns_of (new_origin (λ s. s) (ingress with_request "acl") config params).behaviors)
      "/api/*"
    ≡ any_path (paths_from_origin params "lb.example.com") "/api/*"
contains-patterns_of-new_origin_example =
    contains-patterns_of-new_origin (λ s. s) (ingress with_request "acl") config params "/api/*"

new_origin-All_example :
    All
      (λ x. behavior_policies x ≡ policies_of (ingress with_request "acl") config)
      (new_origin (λ s. s) (ingress with_request "acl") config params).behaviors
new_origin-All_example = new_origin-All (λ s. s) (ingress with_request "acl") config params
