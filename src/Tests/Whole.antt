-- ===== src/Tests/Whole.antt =====
-- A reconciliation of a group without errors: its distribution is created, with the domain that an
-- Ingress asks for.
use mathlib.Core.List.{List, [], ◌∷◌}
use cdn_origin_controller.Prelude.{String, ◌≡◌, refl, true, false, some, string_eq}
use cdn_origin_controller.GoError.{ok}
use cdn_origin_controller.K8s.Objects.{Ingress}
use cdn_origin_controller.K8s.Helpers.{cdn_group_annotation}
use cdn_origin_controller.K8s.Ingress.{CdnIngress, cf_alternate_domain_names_annotation}
use cdn_origin_controller.Cloudfront.Distribution.{Distribution}
use cdn_origin_controller.Cloudfront.Service.World.{Service, World}
use cdn_origin_controller.Cloudfront.Service.Fetching.{desired_state}
use cdn_origin_controller.Cloudfront.Service.Reconcile.{reconcile_group}
use cdn_origin_controller.Cloudfront.Service.Success.Allowed.{MayGoOn, reconcile_group-MayGoOn}
use cdn_origin_controller.Tests.Cluster.{shop, service_of}
use cdn_origin_controller.Tests.Distributions.{config}
use cdn_origin_controller.Tests.Ingresses.{ingress, with_request}

abbrev named : Ingress
named = record shop {
  annotations =
      (cdn_group_annotation, "shop")
      ∷ (cf_alternate_domain_names_annotation, "new.example.com")
      ∷ [];
}

abbrev service : Service
service = service_of (ok (named ∷ [])) (record config { cloudfront_enable_ipv6 = false })

abbrev world : World service
world = record { kube = 0; dns = 0; aws = 0; events = [] }

abbrev parsed : CdnIngress
parsed = ingress with_request "acl"

no_errors : (reconcile_group service named parsed world).0 ≡ ok []
unfolding reconcile_group string_eq desired_state cdn_origin_controller.K8s.UserOrigin.fetch_by
    cdn_origin_controller.K8s.UserOrigin.fetch_from
    cdn_origin_controller.K8s.Ingress.new_cdn_ingress_from_v1 cdn_origin_controller.GoMap.lookup
    cdn_origin_controller.K8s.Objects.annotation
    cdn_origin_controller.Cloudfront.Service.Desired.is_part_of_desired_state
    cdn_origin_controller.K8s.Helpers.is_being_removed_from_desired_state
    cdn_origin_controller.K8s.Helpers.has_group_annotation
    cdn_origin_controller.K8s.UserOrigin.cdn_ingresses_for_user_origins
    cdn_origin_controller.K8s.Shared.new_shared_ingress_params
    cdn_origin_controller.K8s.Shared.merged_web_acl cdn_origin_controller.K8s.Shared.pop_single
    cdn_origin_controller.K8s.Shared.web_acl_arns cdn_origin_controller.K8s.Shared.merged_paths
    cdn_origin_controller.K8s.Shared.merged_paths_from
    cdn_origin_controller.K8s.Shared.merge_ingress_paths cdn_origin_controller.K8s.Shared.merge_path
    cdn_origin_controller.Cloudfront.DistRepository.arn_by_group
    cdn_origin_controller.Cloudfront.Service.Desired.new_distribution
    cdn_origin_controller.Config.tls_is_enabled cdn_origin_controller.Cloudfront.Distribution.build
    cdn_origin_controller.Cloudfront.Distribution.validate
    cdn_origin_controller.Cloudfront.Distribution.assemble
    cdn_origin_controller.Cloudfront.Distribution.origin_slice cdn_origin_controller.GoMap.values
    cdn_origin_controller.Cloudfront.Distribution.with_ipv6
    cdn_origin_controller.Cloudfront.Distribution.append_tags
    cdn_origin_controller.Cloudfront.Distribution.with_alternate_domains
    cdn_origin_controller.Cloudfront.Distribution.with_origin cdn_origin_controller.GoMap.insert
    cdn_origin_controller.Cloudfront.Distribution.new_distribution_builder
    cdn_origin_controller.Cloudfront.Origin.build_origin
    cdn_origin_controller.Cloudfront.Origin.new_origin_builder
    cdn_origin_controller.Cloudfront.Service.Paths.new_origin
    cdn_origin_controller.Cloudfront.Origin.with_response_policy
    cdn_origin_controller.Cloudfront.Origin.with_cache_policy
    cdn_origin_controller.Cloudfront.Origin.with_request_policy
    cdn_origin_controller.Cloudfront.Origin.with_response_timeout
    cdn_origin_controller.K8s.Shared.paths_from_origin
    cdn_origin_controller.K8s.Shared.map_of_origin_host_to_path
    cdn_origin_controller.Cloudfront.Origin.with_behavior
    cdn_origin_controller.Cloudfront.Origin.with_origin_headers
    cdn_origin_controller.Cloudfront.Service.Reconcile.sync_group
    cdn_origin_controller.Cloudfront.Distribution.is_empty
    cdn_origin_controller.Cloudfront.Distribution.exists
    cdn_origin_controller.Cloudfront.DistRepository.sync
    cdn_origin_controller.Cloudfront.DistRepository.sync_oacs
    cdn_origin_controller.Cloudfront.DistRepository.diff_desired_and_observed_oacs
    cdn_origin_controller.Cloudfront.Distribution.oacs
    cdn_origin_controller.Cloudfront.Origin.is_bucket_based
    cdn_origin_controller.Cloudfront.DistRepository.keep_observed
    cdn_origin_controller.Cloudfront.AwsModels.new_aws_distribution_config
    cdn_origin_controller.Cloudfront.DistRepository.run_post_update_operations
    cdn_origin_controller.Cloudfront.DistRepository.delete_oacs
    cdn_origin_controller.Cloudfront.DistRepository.has_oac
    cdn_origin_controller.Cloudfront.AwsModels.new_aws_origin
    cdn_origin_controller.Cloudfront.Service.AliasSync.sync_aliases
    cdn_origin_controller.Route53.Repository.upsert_aliases
    cdn_origin_controller.Cloudfront.Service.AliasSync.aliases_to_upsert
    cdn_origin_controller.Route53.Alias.new_aliases
    cdn_origin_controller.Route53.Repository.existing_record_sets
    cdn_origin_controller.Route53.Repository.resource_record_sets_by_entry
    cdn_origin_controller.Route53.Records.validate_record_sets
    cdn_origin_controller.Route53.Records.validate_policies
    cdn_origin_controller.Route53.Records.filter_record_sets
    cdn_origin_controller.Route53.Records.validate_txt
    cdn_origin_controller.Route53.Records.unmanaged cdn_origin_controller.Route53.Records.any_record
    cdn_origin_controller.Route53.Repository.delete_aliases
    cdn_origin_controller.Cloudfront.Service.AliasSync.aliases_to_delete
    cdn_origin_controller.Cloudfront.Service.AliasSync.domains_to_delete
    cdn_origin_controller.Api.CdnStatus.set_aliases cdn_origin_controller.Api.CdnStatus.set_info
    cdn_origin_controller.Api.CdnStatus.set_ingress_ref cdn_origin_controller.Strhelper.contains
    cdn_origin_controller.Route53.Alias.normalize_domains
    cdn_origin_controller.Route53.Records.contains_ownership_record
    cdn_origin_controller.Route53.Records.is_ownership_record
    cdn_origin_controller.GoString.contains cdn_origin_controller.Prelude.nat_eq
    cdn_origin_controller.Route53.Records.validate_ownership
    cdn_origin_controller.Route53.Records.is_owned_by_this_class
    cdn_origin_controller.Route53.Records.is_owned_by_different_class
    cdn_origin_controller.K8s.Finalizers.add_finalizer
    cdn_origin_controller.Api.CdnStatus.remove_dns_records
    cdn_origin_controller.Api.CdnStatus.upsert_dns_records
    cdn_origin_controller.Route53.Alias.domains
    cdn_origin_controller.Route53.Repository.delete_target
    cdn_origin_controller.Api.CdnStatus.status_exists
    cdn_origin_controller.Cloudfront.Service.Upkeep.without_ref
    cdn_origin_controller.Route53.Repository.required_txt
    cdn_origin_controller.Cloudfront.Distribution.merge_custom_origins
    cdn_origin_controller.Config.is_creation_allowed
    cdn_origin_controller.Cloudfront.DistRepository.create cdn_origin_controller.GoString.split
no_errors = refl

reconcile_group-MayGoOn_example :
    (ings : List CdnIngress) × (desired : Distribution) × ((desired_state service parsed world).0
      ≡ ok (ings, desired))
    × MayGoOn service.config desired named
reconcile_group-MayGoOn_example = reconcile_group-MayGoOn service named parsed world [] no_errors
