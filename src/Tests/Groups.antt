-- ===== src/Tests/Groups.antt =====
-- The distribution of a group with two Ingresses.
use cdn_origin_controller.Prelude.{String, ◌≡◌, refl, string_eq}
use cdn_origin_controller.GoError.{ok}
use cdn_origin_controller.Strhelper.{contains}
use cdn_origin_controller.Strhelper.Laws.{Nodup}
use cdn_origin_controller.Cloudfront.Distribution.{
  Distribution, new_distribution_builder, with_web_acl, assemble, merge_custom_origins,
}
use cdn_origin_controller.Cloudfront.Service.Desired.{
  alternate_domains_of, with_ingresses, with_config, new_distribution,
}
use cdn_origin_controller.Cloudfront.Service.Desired.Domains.{new_distribution-domains}
use cdn_origin_controller.Tests.Certificates.{account}
use cdn_origin_controller.Tests.Deletions.{aws}
use cdn_origin_controller.Tests.Distributions.{config}
use cdn_origin_controller.Tests.Ingresses.{ingresses, params}

abbrev md5 : String → String
md5 s = s

abbrev desired : Distribution
unfolding merge_custom_origins
desired = merge_custom_origins (
    assemble md5 (
      with_web_acl "acl" (
        with_config config "shop"
          (with_ingresses md5 config params ingresses (new_distribution_builder "shop" config)))))

computed : new_distribution md5 account aws config ingresses "shop" params "" 0 ≡ ok desired
unfolding new_distribution string_eq cdn_origin_controller.Cloudfront.Service.Desired.with_cert
    cdn_origin_controller.Cloudfront.Service.Desired.with_shared_acl
    cdn_origin_controller.Cloudfront.Service.Desired.with_existing_arn
    cdn_origin_controller.Cloudfront.Distribution.build
    cdn_origin_controller.Cloudfront.Distribution.validate
    cdn_origin_controller.Cloudfront.Distribution.validate_from cdn_origin_controller.GoMap.lookup
    cdn_origin_controller.GoMap.insert cdn_origin_controller.GoMap.values with_ingresses with_config
    cdn_origin_controller.Cloudfront.Distribution.origin_slice
    cdn_origin_controller.Config.tls_is_enabled assemble new_distribution_builder with_web_acl
    cdn_origin_controller.Cloudfront.Distribution.with_ipv6
    cdn_origin_controller.Cloudfront.Distribution.append_tags
    cdn_origin_controller.Cloudfront.Distribution.with_alternate_domains
    cdn_origin_controller.Cloudfront.Distribution.with_origin
    cdn_origin_controller.Cloudfront.Service.Paths.new_origin
    cdn_origin_controller.Cloudfront.Origin.build_origin
    cdn_origin_controller.K8s.Shared.paths_from_origin
    cdn_origin_controller.Cloudfront.Origin.with_behavior
    cdn_origin_controller.Cloudfront.Origin.with_origin_headers
    cdn_origin_controller.Cloudfront.Origin.with_response_policy
    cdn_origin_controller.Cloudfront.Origin.with_cache_policy
    cdn_origin_controller.Cloudfront.Origin.with_request_policy
    cdn_origin_controller.Cloudfront.Origin.with_response_timeout
    cdn_origin_controller.Cloudfront.Origin.new_origin_builder desired merge_custom_origins
computed = refl

new_distribution-domains_example :
    Nodup desired.alternate_domains
    × ((x : String)
        → contains desired.alternate_domains x ≡ contains (alternate_domains_of ingresses) x)
new_distribution-domains_example =
    new_distribution-domains md5 account aws config ingresses "shop" params "" 0 computed
