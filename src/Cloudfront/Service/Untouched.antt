-- ===== src/Cloudfront/Service/Untouched.antt =====
-- What a reconciliation leaves alone where the configuration or the class says so.
use mathlib.Core.List.{List, [], ◌∷◌, ◌++◌}
use cdn_origin_controller.Prelude.{Bool-cases, inl, inr, ◌≡◌, refl, ap, ◌∙◌, true, false}
use cdn_origin_controller.GoError.{GoError}
use cdn_origin_controller.Exec.{◌>>=◌}
use cdn_origin_controller.Exec.Keeps.{Keeps, Keeps-continue, Keeps->>=}
use cdn_origin_controller.K8s.Objects.{Ingress, CdnClass}
use cdn_origin_controller.Api.CdnStatus.{CdnStatus}
use cdn_origin_controller.Cloudfront.Distribution.{Distribution, exists, is_empty}
use cdn_origin_controller.Cloudfront.Service.World.{Service, World}
use cdn_origin_controller.Cloudfront.Service.Upkeep.{
  Progress, delete_distribution, sync_empty, sync_dist, sync_class_aliases, update_finalizer,
  write_status, without_ref,
}
use cdn_origin_controller.Cloudfront.Service.Reconcile.{handle_result, report, sync_group}
use cdn_origin_controller.Cloudfront.Service.Effects.{
  sync_class_aliases-OnlyDns, update_finalizer-OnlyKube, write_status-OnlyKube, sync_dist-OnlyAws,
}

module _ (x : Service) where
  abbrev dns_and_aws : World x → x.dns.State × x.aws.State
  dns_and_aws w = (w.dns, w.aws)

  handle_result-Keeps :
      (ing : Ingress) (status : CdnStatus) (errors : List GoError)
      → Keeps dns_and_aws (handle_result x ing status errors)
  unfolding handle_result
  handle_result-Keeps ing status [] w = refl
  handle_result-Keeps ing status (e ∷ es) w = refl

  report-Keeps :
      (desired : Distribution) (p : Progress) (t : Ingress × List GoError)
      → Keeps dns_and_aws (report x desired p t)
  unfolding report
  report-Keeps desired p (ing, errors) =
      Keeps->>= dns_and_aws
        (write_status x (p.errors ++ errors) desired
          (without_ref (p.errors ++ errors) ing p.status))
        _
        (λ w.
          ap (λ t. (t.0, t.1.0))
            (write_status-OnlyKube x (p.errors ++ errors) desired
              (without_ref (p.errors ++ errors) ing p.status) w))
        (handle_result-Keeps ing (without_ref (p.errors ++ errors) ing p.status))

  -- The steps from the update of the Ingress on.
  closing-Keeps :
      (ing : Ingress) (desired : Distribution) (p : Progress)
      → Keeps dns_and_aws (update_finalizer x p.errors ing >>= report x desired p)
  closing-Keeps ing desired p =
      Keeps->>= dns_and_aws (update_finalizer x p.errors ing) (report x desired p)
        (λ w. ap (λ t. (t.0, t.1.0)) (update_finalizer-OnlyKube x p.errors ing w))
        (report-Keeps desired p)

  sync_group-aws :
      (ing : Ingress) (class : CdnClass) (desired : Distribution) (status : CdnStatus) (w : World x)
      → (sync_group x ing class desired status w).1.aws ≡ (sync_dist x desired status ing w).1.aws
  unfolding sync_group
  sync_group-aws ing class desired status w =
      Keeps-continue (λ v. v.aws) (sync_dist x desired status ing w).0 _
        (λ made.
          Keeps->>= (λ v. v.aws) (sync_class_aliases x class made) _
            (λ v. ap (λ t. t.1.0) (sync_class_aliases-OnlyDns x class made v))
            (λ synced v. ap (λ t. t.1) (closing-Keeps ing desired synced v)))
        (sync_dist x desired status ing w).1

  sync_dist-deletion_disabled :
      (ing : Ingress) (desired : Distribution) (status : CdnStatus) (w : World x)
      → is_empty desired ≡ true
      → x.config.deletion_enabled ≡ false
      → (sync_dist x desired status ing w).1.aws ≡ w.aws
  unfolding sync_dist sync_empty delete_distribution
  sync_dist-deletion_disabled ing desired status w empty off = elim (Bool-cases (exists desired)) [
    | inl there ↦ rw (empty, off, there) refl
    | inr absent ↦ rw (empty, off, absent) refl
  ]

  -- If deletion is disabled, the reconciliation of a group that needs no distribution any more
  -- changes nothing at AWS.
  pub sync_group-deletion_disabled :
      (ing : Ingress) (class : CdnClass) (desired : Distribution) (status : CdnStatus) (w : World x)
      → is_empty desired ≡ true
      → x.config.deletion_enabled ≡ false
      → (sync_group x ing class desired status w).1.aws ≡ w.aws
  sync_group-deletion_disabled ing class desired status w empty off =
      sync_group-aws ing class desired status w
      ∙ sync_dist-deletion_disabled ing desired status w empty off

  no_aliases-Keeps :
      (class : CdnClass) (p : Progress)
      → class.create_alias ≡ false
      → Keeps (λ v. v.dns) (sync_class_aliases x class p)
  unfolding sync_class_aliases
  no_aliases-Keeps class p off w = rw off refl

  -- If the class asks for no aliases, a reconciliation leaves the hosted zone as it was.
  pub sync_group-no_alias :
      (ing : Ingress) (class : CdnClass) (desired : Distribution) (status : CdnStatus) (w : World x)
      → class.create_alias ≡ false
      → (sync_group x ing class desired status w).1.dns ≡ w.dns
  unfolding sync_group
  sync_group-no_alias ing class desired status w off =
      Keeps->>= (λ v. v.dns) (sync_dist x desired status ing) _
        (λ v. ap (λ t. t.1.0) (sync_dist-OnlyAws x desired status ing v))
        (λ made.
          Keeps->>= (λ v. v.dns) (sync_class_aliases x class made) _
            (no_aliases-Keeps class made off)
            (λ synced v. ap (λ t. t.0) (closing-Keeps ing desired synced v)))
        w
