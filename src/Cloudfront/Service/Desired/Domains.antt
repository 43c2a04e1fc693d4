-- ===== src/Cloudfront/Service/Desired/Domains.antt =====
-- The alternate domains of the desired distribution.
use mathlib.Core.List.{List, [], ◌∷◌}
use mathlib.Core.Path.{subst}
use cdn_origin_controller.Prelude.{
  String, ◌≡◌, refl, sym, ap, ◌∙◌, Bool, true, false, ◌||◌, string_eq, arith, Bool-cases, inl, inr,
  if◌then◌else◌,
}
use cdn_origin_controller.GoError.{ok, >>=-eq-ok, annotated, annotated-eq-ok, ok-injective}
use cdn_origin_controller.GoString.{nonempty}
use cdn_origin_controller.Strhelper.{contains}
use cdn_origin_controller.Strhelper.Laws.{Nodup, contains-append}
use cdn_origin_controller.Config.{Config, tls_is_enabled}
use cdn_origin_controller.Certificate.{AcmClient}
use cdn_origin_controller.K8s.Ingress.{CdnIngress}
use cdn_origin_controller.K8s.Shared.{SharedIngressParams}
use cdn_origin_controller.Cloudfront.Distribution.{
  Distribution, DistributionBuilder, new_distribution_builder, with_origin, with_logging,
  append_tags, with_tls, with_ipv6, with_web_acl, extract_id, with_arn, validate, assemble,
  merge_custom_origins, build,
}
use cdn_origin_controller.Cloudfront.Distribution.Builder.{with_alternate_domains-union}
use cdn_origin_controller.Cloudfront.Client.{CloudfrontClient}
use cdn_origin_controller.Cloudfront.Service.Paths.{new_origin}
use cdn_origin_controller.Cloudfront.Service.Desired.{
  alternate_domains_of, discover_cert, with_discovered_cert, with_cert, with_config, with_ingresses,
  keep_current_web_acl_config, with_shared_acl, with_existing_arn, new_distribution,
}

-- The second builder has the alternate domains of the first.
abbrev SameDomains : DistributionBuilder → DistributionBuilder → Type 0
SameDomains b b' = b'.alternate_domains ≡ b.alternate_domains

with_cert-SameDomains :
    (acm : AcmClient) (cfg : Config) (ings : List CdnIngress) (b : DistributionBuilder)
    {b' : DistributionBuilder}
    → with_cert acm cfg ings b ≡ ok b'
    → SameDomains b b'
unfolding with_cert with_discovered_cert with_tls
with_cert-SameDomains acm cfg ings b h = elim (Bool-cases (tls_is_enabled cfg)) [
  | inl enabled ↦
      let (cert, _, e) = >>=-eq-ok (annotated _ (discover_cert acm ings)) _ (rw enabled at h) in
      subst (SameDomains b) (ok-injective e) refl
  | inr disabled ↦ subst (SameDomains b) (ok-injective (rw disabled at h)) refl
]

with_config-SameDomains :
    (cfg : Config) (group : String) (b : DistributionBuilder)
    → SameDomains b (with_config cfg group b)
unfolding with_config with_ipv6 with_logging append_tags
with_config-SameDomains cfg group b = ground arith

with_existing_arn-SameDomains :
    (arn : String) (b : DistributionBuilder) {b' : DistributionBuilder}
    → with_existing_arn arn b ≡ ok b'
    → SameDomains b b'
unfolding with_existing_arn with_arn
with_existing_arn-SameDomains arn b h = elim (Bool-cases (nonempty arn)) [
  | inl given ↦
      let (id, _, e) = >>=-eq-ok (extract_id arn) _ (rw given at h) in
      subst (SameDomains b) (ok-injective e) refl
  | inr absent ↦ subst (SameDomains b) (ok-injective (rw absent at h)) refl
]

keep_current-SameDomains :
    (c : CloudfrontClient) (arn : String) (s : c.State) (b : DistributionBuilder)
    {b' : DistributionBuilder}
    → keep_current_web_acl_config c arn s b ≡ ok b'
    → SameDomains b b'
unfolding keep_current_web_acl_config with_web_acl
keep_current-SameDomains c arn s b h =
    let (id, _, h1) = >>=-eq-ok (extract_id arn) _ h in
    let (output, _, e) = >>=-eq-ok (annotated _ (c.get_distribution_config s id)) _ h1 in
    subst (SameDomains b) (ok-injective e)
      (either (nonempty output.distribution_config.web_acl_id) _)
  where
    either : (x : Bool) (id : String) → SameDomains b (if x then with_web_acl id b else b)
    either true id = refl
    either false id = refl

with_shared_acl-SameDomains :
    (c : CloudfrontClient) (shared : SharedIngressParams) (arn : String) (s : c.State)
    (b : DistributionBuilder) {b' : DistributionBuilder}
    → with_shared_acl c shared arn s b ≡ ok b'
    → SameDomains b b'
unfolding with_shared_acl with_web_acl
with_shared_acl-SameDomains c shared arn s b h = elim (Bool-cases (nonempty shared.web_acl_arn)) [
  | inl given ↦ subst (SameDomains b) (ok-injective (rw given at h)) refl
  | inr none_given ↦ elim (Bool-cases (nonempty arn)) [
    | inl there ↦
        keep_current-SameDomains c arn s b (annotated-eq-ok _ _ (rw (none_given, there) at h))
    | inr new_one ↦ subst (SameDomains b) (ok-injective (rw (none_given, new_one) at h)) refl
  ]
]

module _ (md5 : String → String) where
  build-domains :
      (b : DistributionBuilder) {d : Distribution}
      → build md5 b ≡ ok d
      → d.alternate_domains ≡ b.alternate_domains
  unfolding build merge_custom_origins assemble
  build-domains b h =
      let (_, _, e) = >>=-eq-ok (validate (assemble md5 b)) _ h in
      sym (ap (λ t. t.alternate_domains) (ok-injective e))

  -- Adding the Ingresses keeps the domains distinct, and adds theirs.
  with_ingresses-domains :
      (cfg : Config) (shared : SharedIngressParams) (ings : List CdnIngress)
      (b : DistributionBuilder)
      → Nodup b.alternate_domains
      → Nodup (with_ingresses md5 cfg shared ings b).alternate_domains
        × ((d : String)
            → contains (with_ingresses md5 cfg shared ings b).alternate_domains d
              ≡ (contains b.alternate_domains d || contains (alternate_domains_of ings) d))
  unfolding with_ingresses alternate_domains_of append_tags with_origin contains
  with_ingresses-domains cfg shared [] b h = (h, λ d. ground arith)
  with_ingresses-domains cfg shared (ing ∷ ings) b h =
      let added =
        with_alternate_domains-union ing.alternate_domain_names
          (with_origin (new_origin md5 ing cfg shared) b) h in
      let rest = with_ingresses-domains cfg shared ings _ added.0 in
      (
        rest.0,
        λ d.
            rest.1 d
            ∙ ground (
              arith,
              added.1 d,
              contains-append ing.alternate_domain_names (alternate_domains_of ings) d,
            ),
      )

  -- If the desired distribution can be computed, its alternate domains have no duplicates and are
  -- exactly those of the Ingresses.
  pub new_distribution-domains :
      (acm : AcmClient) (c : CloudfrontClient) (cfg : Config) (ings : List CdnIngress)
      (group : String) (shared : SharedIngressParams) (arn : String) (s : c.State)
      {d : Distribution}
      → new_distribution md5 acm c cfg ings group shared arn s ≡ ok d
      → Nodup d.alternate_domains
        × ((x : String) → contains d.alternate_domains x ≡ contains (alternate_domains_of ings) x)
  unfolding new_distribution new_distribution_builder contains
  new_distribution-domains acm c cfg ings group shared arn s h =
      let first = new_distribution_builder group cfg in
      let (secured, hs, h1) = >>=-eq-ok (with_cert acm cfg ings first) _ h in
      let all = with_ingresses md5 cfg shared ings secured in
      let (guarded, hg, h2) =
        >>=-eq-ok (with_shared_acl c shared arn s (with_config cfg group all)) _ h1 in
      let (existing, he, h3) = >>=-eq-ok (with_existing_arn arn guarded) _ h2 in
      let start = with_cert-SameDomains acm cfg ings first hs in
      let added = with_ingresses-domains cfg shared ings secured (subst Nodup (sym start) tt) in
      let same =
        build-domains existing h3
        ∙ with_existing_arn-SameDomains arn guarded he
        ∙ with_shared_acl-SameDomains c shared arn s (with_config cfg group all) hg
        ∙ with_config-SameDomains cfg group all in
      (
        subst Nodup (sym same) added.0,
        λ x.
            ap (λ l. contains l x) same
            ∙ added.1 x
            ∙ ap (λ l. contains l x || contains (alternate_domains_of ings) x) start,
      )
