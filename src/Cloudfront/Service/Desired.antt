-- ===== src/Cloudfront/Service/Desired.antt =====
-- internal/cloudfront/service.go: the distribution that the Ingresses of a group ask for.
pub mod Domains
use mathlib.Core.List.{List, [], ◌∷◌, ◌++◌}
use cdn_origin_controller.Prelude.{
  String, ◌<>◌, Bool, true, false, not, ◌&&◌, ◌||◌, Option, none, some, ◌==◌, string_eq,
  if◌then◌else◌,
}
use cdn_origin_controller.GoError.{GoError, new, Result, ok, err, panic, ◌>>=◌, annotated}
use cdn_origin_controller.GoString.{nonempty}
use cdn_origin_controller.Config.{Config, tls_is_enabled, is_creation_allowed}
use cdn_origin_controller.Certificate.{Certificate, AcmClient, discover_by_host}
use cdn_origin_controller.K8s.Helpers.{is_set}
use cdn_origin_controller.K8s.Objects.{Ingress}
use cdn_origin_controller.K8s.Ingress.{CdnIngress}
use cdn_origin_controller.K8s.Shared.{SharedIngressParams}
use cdn_origin_controller.Cloudfront.Distribution.{
  Distribution, exists, is_empty, DistributionBuilder, new_distribution_builder, with_origin,
  with_logging, append_tags, with_tls, with_ipv6, with_alternate_domains, with_web_acl, extract_id,
  with_arn, build,
}
use cdn_origin_controller.Cloudfront.AwsModels.{DistributionConfig}
use cdn_origin_controller.Cloudfront.Client.{ConfigOutput, CloudfrontClient}
use cdn_origin_controller.Cloudfront.Service.Paths.{new_origin}

unfoldable pub is_part_of_desired_state : (reconciling : CdnIngress) → CdnIngress → Bool
is_part_of_desired_state reconciling ing =
    not ing.is_being_removed && (ing.group == reconciling.group && nonempty ing.origin_host)

-- Blocked is only the creation of a distribution: one that does not exist, is needed, and not
-- because of an Ingress that is being deleted.
unfoldable pub validate_creation : Config → Distribution → Ingress → Result (Unit {0})
validate_creation cfg desired ing =
    if exists desired || (is_empty desired || is_set ing.deletion_timestamp)
    then ok tt
    else if not (is_creation_allowed cfg ing)
    then err (new "creation of new CloudFront distributions is blocked")
    else ok tt

-- The loop of `discoverCert`.
unfoldable pub alternate_domains_of : List CdnIngress → List String
alternate_domains_of [] = []
alternate_domains_of (ing ∷ ings) = ing.alternate_domain_names ++ alternate_domains_of ings

unfoldable pub discover_cert : AcmClient → List CdnIngress → Result Certificate
unfolding alternate_domains_of
discover_cert acm ings =
    annotated "discovering a certificate for the domains"
      (discover_by_host acm (alternate_domains_of ings))

unfoldable pub s3_prefix : Config → String → String
s3_prefix cfg group =
    if nonempty cfg.cloudfront_s3_bucket_log_prefix
    then cfg.cloudfront_s3_bucket_log_prefix <> ("/" <> group)
    else group

-- `len(m) > 0`
abbrev any_entry {ℓ} : {A : Type ℓ} → List A → Bool
any_entry [] = false
any_entry (x ∷ xs) = true

-- The settings of the configuration that come after the Ingresses.
unfoldable pub with_config : Config → String → DistributionBuilder → DistributionBuilder
unfolding s3_prefix
with_config cfg group b =
    let b6 = if cfg.cloudfront_enable_ipv6 then with_ipv6 b else b in
    let logged =
      if cfg.cloudfront_enable_logging && nonempty cfg.cloudfront_s3_bucket_log
      then with_logging cfg.cloudfront_s3_bucket_log (s3_prefix cfg group) b6
      else b6 in
    if any_entry cfg.cloudfront_custom_tags
    then append_tags cfg.cloudfront_custom_tags logged
    else logged

unfoldable pub with_discovered_cert :
    AcmClient → Config → List CdnIngress → DistributionBuilder → Result DistributionBuilder
unfolding discover_cert
with_discovered_cert acm cfg ings b = do
  cert ← annotated "discovering TLS cert" (discover_cert acm ings)
  ok (with_tls cert.arn cfg.cloudfront_security_policy b)

unfoldable pub with_cert :
    AcmClient → Config → List CdnIngress → DistributionBuilder → Result DistributionBuilder
unfolding with_discovered_cert
with_cert acm cfg ings b = if tls_is_enabled cfg then with_discovered_cert acm cfg ings b else ok b

module _ (c : CloudfrontClient) where
  -- A nil `WebACLId` is "".
  unfoldable pub keep_current_web_acl_config :
      String → c.State → DistributionBuilder → Result DistributionBuilder
  keep_current_web_acl_config dist_arn s b = do
    id ← extract_id dist_arn
    output ← annotated "getting distribution config by ID" (c.get_distribution_config s id)
    ok (
        if nonempty output.distribution_config.web_acl_id
        then with_web_acl output.distribution_config.web_acl_id b
        else b)

  unfoldable pub with_shared_acl :
      SharedIngressParams → String → c.State → DistributionBuilder → Result DistributionBuilder
  unfolding keep_current_web_acl_config
  with_shared_acl shared dist_arn s b =
      if nonempty shared.web_acl_arn
      then ok (with_web_acl shared.web_acl_arn b)
      else if nonempty dist_arn
      then annotated "setting webacl config" (keep_current_web_acl_config dist_arn s b)
      else ok b

unfoldable pub with_existing_arn : String → DistributionBuilder → Result DistributionBuilder
with_existing_arn dist_arn b = if nonempty dist_arn then with_arn dist_arn b else ok b

module _ (md5 : String → String) where
  -- The loop of `newDistribution`.
  unfoldable pub with_ingresses :
      Config → SharedIngressParams → List CdnIngress → DistributionBuilder → DistributionBuilder
  with_ingresses cfg shared [] b = b
  with_ingresses cfg shared (ing ∷ ings) b = with_ingresses cfg shared ings (
      append_tags ing.tags (
        with_alternate_domains ing.alternate_domain_names
          (with_origin (new_origin md5 ing cfg shared) b)))

  module _ (acm : AcmClient) (c : CloudfrontClient) where
    unfoldable pub new_distribution :
        Config
        → List CdnIngress
        → (group : String) → SharedIngressParams
        → (dist_arn : String) → c.State
        → Result Distribution
    unfolding with_cert with_ingresses with_config with_shared_acl with_existing_arn
    new_distribution cfg ings group shared dist_arn s = do
      secured ← with_cert acm cfg ings (new_distribution_builder group cfg)
      guarded ←
          with_shared_acl c shared dist_arn s
            (with_config cfg group (with_ingresses cfg shared ings secured))
      existing ← with_existing_arn dist_arn guarded
      build md5 existing
