-- ===== src/Cloudfront/Service/Success/Domains.antt =====
-- The domains of a distribution that was brought up to date.
use mathlib.Core.List.{[]}
use cdn_origin_controller.Prelude.{
  ◌≡◌, sym, ap, ◌∙◌, Bool, true, false, ◌⊎◌, inl, inr, if◌then◌else◌,
}
use cdn_origin_controller.GoError.{GoError, ok, ok-injective}
use cdn_origin_controller.Exec.{attempt, pure}
use cdn_origin_controller.Exec.Inversion.{>>=-ok, attempt-ok, annotated-ok}
use cdn_origin_controller.K8s.Objects.{Ingress}
use cdn_origin_controller.Api.CdnStatus.{CdnStatus}
use cdn_origin_controller.Cloudfront.Distribution.{Distribution, exists, is_empty}
use cdn_origin_controller.Cloudfront.DistRepository.{create}
use cdn_origin_controller.Cloudfront.DistRepository.Synced.{sync-domains, create-domains}
use cdn_origin_controller.Cloudfront.Service.World.{Service, World, on_aws}
use cdn_origin_controller.Cloudfront.Service.Upkeep.{
  Progress, after_dist, sync_now, update_distribution, create_distribution, delete_distribution,
  sync_empty, upsert_distribution, sync_dist,
}

module _ (x : Service) where
  -- The distribution has the domains of the desired one.
  abbrev HasDomainsOf : Distribution → Distribution → Type 0
  HasDomainsOf desired dist = dist.alternate_domains ≡ desired.alternate_domains

  sync_now-domains :
      (desired dist : Distribution) (s : x.aws.State)
      → (sync_now x desired s).0 ≡ ok dist
      → HasDomainsOf desired dist
  unfolding sync_now
  sync_now-domains desired dist s h = sync-domains x.aws x.config (x.caller_ref s) desired dist s h

  update_distribution-domains :
      (desired dist : Distribution) (w : World x)
      → (update_distribution x desired w).0 ≡ ok dist
      → HasDomainsOf desired dist
  unfolding update_distribution
  update_distribution-domains desired dist w h =
      sync_now-domains desired dist w.aws
        (annotated-ok "updating Distribution" (on_aws {x = x} (sync_now x desired)) w h)

  create_distribution-domains :
      (desired dist : Distribution) (w : World x)
      → (create_distribution x desired w).0 ≡ ok dist
      → HasDomainsOf desired dist
  unfolding create_distribution
  create_distribution-domains desired dist w h =
      create-domains x.aws x.config (sync_now x) (x.caller_ref w.aws) desired dist w.aws
        sync_now-domains
        (annotated-ok "creating Distribution"
          (on_aws {x = x} (λ s. create x.aws x.config (sync_now x) (x.caller_ref s) desired s)) w h)

  made-domains :
      (b : Bool) (desired dist : Distribution) (w : World x)
      → ((if b then update_distribution x desired else create_distribution x desired) w).0 ≡ ok dist
      → HasDomainsOf desired dist
  made-domains true = update_distribution-domains
  made-domains false = create_distribution-domains

  after_dist-domains :
      (desired : Distribution) (status : CdnStatus) (ing : Ingress) (w : World x)
      (r : Distribution ⊎ GoError)
      → (attempt
          (if exists desired then update_distribution x desired else create_distribution x desired)
          w).0
        ≡ ok r
      → (after_dist status ing r).errors ≡ []
      → HasDomainsOf desired (after_dist status ing r).dist
  unfolding after_dist
  after_dist-domains desired status ing w (inl dist) h none =
      made-domains (exists desired) desired dist w (
        attempt-ok
          (if exists desired then update_distribution x desired else create_distribution x desired)
          w h)
  after_dist-domains desired status ing w (inr e) h none = cc

  upsert_distribution-domains :
      (desired : Distribution) (status : CdnStatus) (ing : Ingress) (w : World x) (p : Progress)
      → (upsert_distribution x desired status ing w).0 ≡ ok p
      → p.errors ≡ []
      → HasDomainsOf desired p.dist
  unfolding upsert_distribution
  upsert_distribution-domains desired status ing w p h none =
      let (r, tried, e) =
        >>=-ok
          (attempt (
            if exists desired
            then update_distribution x desired
            else create_distribution x desired))
          (λ r. pure (after_dist status ing r)) w h in
      let same = ok-injective e in
      ap (λ q. q.dist.alternate_domains) (sym same)
      ∙ after_dist-domains desired status ing w r tried (ap (λ q. q.errors) same ∙ none)

  sync_empty-domains :
      (desired : Distribution) (status : CdnStatus) (w : World x) (p : Progress)
      → (sync_empty x desired status w).0 ≡ ok p
      → HasDomainsOf desired p.dist
  unfolding sync_empty
  sync_empty-domains desired status w p h =
      let (r, tried, e) = >>=-ok (attempt (delete_distribution x desired)) _ w h in
      ap (λ q. q.dist.alternate_domains) (sym (ok-injective e))

  by_need :
      (b : Bool) (desired : Distribution) (status : CdnStatus) (ing : Ingress) (w : World x)
      (p : Progress)
      → ((if b then sync_empty x desired status else upsert_distribution x desired status ing) w).0
        ≡ ok p
      → p.errors ≡ []
      → HasDomainsOf desired p.dist
  by_need true desired status ing w p h none = sync_empty-domains desired status w p h
  by_need false desired status ing w p h none =
      upsert_distribution-domains desired status ing w p h none

  pub sync_dist-domains :
      (desired : Distribution) (status : CdnStatus) (ing : Ingress) (w : World x) (p : Progress)
      → (sync_dist x desired status ing w).0 ≡ ok p
      → p.errors ≡ []
      → p.dist.alternate_domains ≡ desired.alternate_domains
  unfolding sync_dist
  sync_dist-domains desired status ing w p h none =
      by_need (is_empty desired) desired status ing w p h none
