-- ===== src/Cloudfront/Service/Success/Records.antt =====
-- The DNS records in the status that a reconciliation without errors writes.
use mathlib.Core.Path.{subst}
use mathlib.Core.List.{List, []}
use cdn_origin_controller.Prelude.{
  String, ◌≡◌, refl, sym, ap, ◌∙◌, Bool, true, false, ◌⊎◌, inl, inr, if◌then◌else◌, arith,
}
use cdn_origin_controller.GoError.{GoError, ok, ok-injective}
use cdn_origin_controller.Exec.{attempt, pure}
use cdn_origin_controller.Exec.Inversion.{>>=-ok}
use cdn_origin_controller.Strhelper.{contains}
use cdn_origin_controller.K8s.Objects.{Ingress, CdnClass}
use cdn_origin_controller.Route53.Alias.{normalize_domains}
use cdn_origin_controller.Api.CdnStatus.{
  CdnStatus, set_ingress_ref, remove_ingress_ref, set_info, set_aliases,
}
use cdn_origin_controller.Api.CdnStatus.Dns.{records_of, dns_records}
use cdn_origin_controller.Cloudfront.Distribution.{Distribution, exists, is_empty}
use cdn_origin_controller.Cloudfront.Service.World.{Service, World}
use cdn_origin_controller.Cloudfront.Service.AliasSync.Records.{AreNormal, contains-sync_aliases}
use cdn_origin_controller.Cloudfront.Service.Upkeep.{
  Progress, after_dist, without_ref, update_distribution, create_distribution, delete_distribution,
  sync_empty, upsert_distribution, sync_dist,
}
use cdn_origin_controller.Cloudfront.Service.Reconcile.{sync_group}
use cdn_origin_controller.Cloudfront.Service.Success.{sync_group-IsComplete}
use cdn_origin_controller.Cloudfront.Service.Success.Stored.{IsStored, delete_or_upsert-IsStored}
use cdn_origin_controller.Cloudfront.Service.Success.Domains.{sync_dist-domains}

after_dist-dns :
    (status : CdnStatus) (ing : Ingress) (r : Distribution ⊎ GoError)
    → (after_dist status ing r).status.dns ≡ status.dns
unfolding after_dist set_ingress_ref set_info set_aliases
after_dist-dns status ing (inl dist) = refl
after_dist-dns status ing (inr e) = refl

without_ref-dns :
    (errors : List GoError) (ing : Ingress) (status : CdnStatus)
    → (without_ref errors ing status).dns ≡ status.dns
unfolding without_ref remove_ingress_ref
without_ref-dns errors ing status = ground arith

module _ (x : Service) where
  sync_empty-dns :
      (desired : Distribution) (status : CdnStatus) (w : World x) (p : Progress)
      → (sync_empty x desired status w).0 ≡ ok p
      → p.status.dns ≡ status.dns
  unfolding sync_empty
  sync_empty-dns desired status w p h =
      let (r, tried, e) = >>=-ok (attempt (delete_distribution x desired)) _ w h in
      ap (λ q. q.status.dns) (sym (ok-injective e))

  upsert_distribution-dns :
      (desired : Distribution) (status : CdnStatus) (ing : Ingress) (w : World x) (p : Progress)
      → (upsert_distribution x desired status ing w).0 ≡ ok p
      → p.status.dns ≡ status.dns
  unfolding upsert_distribution
  upsert_distribution-dns desired status ing w p h =
      let (r, tried, e) =
        >>=-ok
          (attempt (
            if exists desired
            then update_distribution x desired
            else create_distribution x desired))
          (λ r. pure (after_dist status ing r)) w h in
      ap (λ q. q.status.dns) (sym (ok-injective e)) ∙ after_dist-dns status ing r

  sync_dist-dns :
      (desired : Distribution) (status : CdnStatus) (ing : Ingress) (w : World x) (p : Progress)
      → (sync_dist x desired status ing w).0 ≡ ok p
      → p.status.dns ≡ status.dns
  unfolding sync_dist
  sync_dist-dns desired status ing w p h = by_need (is_empty desired) refl h
    where
      by_need :
          (b : Bool)
          → is_empty desired ≡ b
          → ((if b then sync_empty x desired status else upsert_distribution x desired status ing)
              w).0
            ≡ ok p
          → p.status.dns ≡ status.dns
      by_need true e h = sync_empty-dns desired status w p h
      by_need false e h = upsert_distribution-dns desired status ing w p h

  -- A status that lists exactly the domains was written, or deleted where the group needs no
  -- distribution, and this left the cluster as it is.
  pub record IsRecorded (desired : Distribution) (now : x.kube.State) : Type 0 where
    pub final : CdnStatus
    pub before : x.kube.State
    pub stored : IsStored x desired final before now
    pub exact :
        (r : String)
        → contains (dns_records final) r ≡ contains (normalize_domains desired.alternate_domains) r

  -- If deletion is enabled, the class asks for aliases and the records that the status lists are
  -- normalised, then a reconciliation without errors ends with writing, or deleting where the group
  -- needs no distribution, a status that lists exactly the domains of the desired distribution,
  -- normalised, which leaves the cluster as it is in the end.
  pub sync_group-records :
      (ing : Ingress) (class : CdnClass) (desired : Distribution) (status : CdnStatus) (w : World x)
      → x.config.deletion_enabled ≡ true
      → class.create_alias ≡ true
      → AreNormal (dns_records status)
      → (sync_group x ing class desired status w).0 ≡ ok []
      → IsRecorded desired (sync_group x ing class desired status w).1.kube
  sync_group-records ing class desired status w enabled on normal h =
      let c = sync_group-IsComplete x ing class desired status w on h in
      let same = sync_dist-dns desired status ing w c.made c.made_ok in
      let domains = sync_dist-domains x desired status ing w c.made c.made_ok c.made_errors in
      record {
        final = without_ref [] c.updated c.synced.status;
        before = c.before.kube;
        stored =
            subst (IsStored x desired (without_ref [] c.updated c.synced.status) c.before.kube)
              c.written.1
              (delete_or_upsert-IsStored x desired (without_ref [] c.updated c.synced.status)
                c.before c.written.0);
        exact = λ r.
            ap (λ d. contains (records_of d) r) (without_ref-dns [] c.updated c.synced.status)
            ∙ contains-sync_aliases x.dns x.config c.made.status c.made.dist class
                (sync_dist x desired status ing w).1.dns r enabled
                (subst (λ d. AreNormal (records_of d)) (sym same) normal) c.synced_ok
            ∙ ap (λ ds. contains (normalize_domains ds) r) domains;
      }
