-- ===== src/Cloudfront/Service/Effects.antt =====
-- What the steps of a reconciliation leave alone: the cluster, the hosted zone, or AWS.
use mathlib.Core.List.{List}
use cdn_origin_controller.Prelude.{◌≡◌, refl, String, Bool, if◌then◌else◌}
use cdn_origin_controller.GoError.{GoError}
use cdn_origin_controller.Exec.{Exec, attempt, annotated, lift, reads}
use cdn_origin_controller.Exec.Keeps.{Keeps, Keeps-if, Keeps->>=, Keeps-attempt, Keeps-annotated}
use cdn_origin_controller.K8s.Objects.{Ingress, CdnClass}
use cdn_origin_controller.K8s.Ingress.{CdnIngress}
use cdn_origin_controller.K8s.Shared.{SharedIngressParams, new_shared_ingress_params}
use cdn_origin_controller.Api.CdnStatus.{CdnStatus}
use cdn_origin_controller.Cloudfront.Distribution.{Distribution, exists, is_empty}
use cdn_origin_controller.Cloudfront.DistRepository.{arn_by_group}
use cdn_origin_controller.Cloudfront.Service.Desired.{new_distribution}
use cdn_origin_controller.Cloudfront.Service.World.{Event, Service, World, on_aws}
use cdn_origin_controller.Cloudfront.Service.Fetching.{
  desired_ingresses, existing_dist_arn, desired_state, fetch_or_generate_cdn_status,
}
use cdn_origin_controller.Cloudfront.Service.Upkeep.{
  Progress, update_distribution, create_distribution, upsert_distribution, delete_distribution,
  sync_empty, sync_dist, sync_class_aliases, should_have_finalizer, reconcile_finalizer,
  update_finalizer, create_missing, upsert_cdn_status, delete_cdn_status, delete_or_upsert,
  write_status,
}

module _ (x : Service) where
  abbrev pub outside_kube : World x → x.dns.State × (x.aws.State × List Event)
  outside_kube w = (w.dns, (w.aws, w.events))

  abbrev pub outside_dns : World x → x.kube.State × (x.aws.State × List Event)
  outside_dns w = (w.kube, (w.aws, w.events))

  abbrev pub outside_aws : World x → x.kube.State × (x.dns.State × List Event)
  outside_aws w = (w.kube, (w.dns, w.events))

  -- Only the part it is named for may change, and no event is recorded.
  abbrev pub OnlyKube : {A : Type 0} → Exec (World x) A → Type 0
  OnlyKube m = Keeps outside_kube m

  abbrev pub OnlyDns : {A : Type 0} → Exec (World x) A → Type 0
  OnlyDns m = Keeps outside_dns m

  abbrev pub OnlyAws : {A : Type 0} → Exec (World x) A → Type 0
  OnlyAws m = Keeps outside_aws m

  desired_ingresses-OnlyAws : (ing : CdnIngress) → OnlyAws (desired_ingresses x ing)
  unfolding desired_ingresses
  desired_ingresses-OnlyAws ing = Keeps-annotated _ _ _ (λ w. refl)

  existing_dist_arn-OnlyAws : (group : String) → OnlyAws (existing_dist_arn x group)
  unfolding existing_dist_arn
  existing_dist_arn-OnlyAws group =
      Keeps->>= _ (attempt (on_aws (arn_by_group x.aws x.config group))) _
        (Keeps-attempt _ (on_aws (arn_by_group x.aws x.config group)) (λ w. refl)) (λ arn w. refl)

  pub desired_state-OnlyAws : (ing : CdnIngress) → OnlyAws (desired_state x ing)
  unfolding desired_state
  desired_state-OnlyAws ing =
      Keeps->>= _ (desired_ingresses x ing) _ (desired_ingresses-OnlyAws ing) (λ ings.
        Keeps->>= _
          (annotated "shared ingress params" (lift (new_shared_ingress_params x.sets ings))) _
          (Keeps-annotated _ _ _ (λ w. refl))
          (λ shared.
            Keeps->>= _ (existing_dist_arn x ing.group) _ (existing_dist_arn-OnlyAws ing.group)
              (λ arn.
                Keeps->>= _ (building ings shared arn) _ (Keeps-annotated _ _ _ (λ w. refl))
                  (λ dist w. refl))))
    where
      building : List CdnIngress → SharedIngressParams → String → Exec (World x) Distribution
      building ings shared arn =
          annotated "building desired distribution" (
            reads
              (λ w. new_distribution x.md5 x.acm x.aws x.config ings ing.group shared arn w.aws))

  pub fetch_or_generate-keeps :
      (ings : List CdnIngress) (dist : Distribution) (w : World x)
      → (fetch_or_generate_cdn_status x ings dist w).1 ≡ w
  unfolding fetch_or_generate_cdn_status
  fetch_or_generate-keeps ings dist w = refl

  update_distribution-OnlyAws : (dist : Distribution) → OnlyAws (update_distribution x dist)
  unfolding update_distribution
  update_distribution-OnlyAws dist = Keeps-annotated _ _ _ (λ w. refl)

  create_distribution-OnlyAws : (dist : Distribution) → OnlyAws (create_distribution x dist)
  unfolding create_distribution
  create_distribution-OnlyAws dist = Keeps-annotated _ _ _ (λ w. refl)

  pub sync_dist-OnlyAws :
      (dist : Distribution) (status : CdnStatus) (ing : Ingress)
      → OnlyAws (sync_dist x dist status ing)
  unfolding sync_dist sync_empty upsert_distribution delete_distribution
  sync_dist-OnlyAws dist status ing =
      Keeps-if _ (is_empty dist) _ _
        (Keeps->>= _ (attempt (delete_distribution x dist)) _
          (Keeps-attempt _ _ (Keeps-if _ _ _ _ (λ w. refl) (λ w. refl))) (λ r w. refl))
        (Keeps->>= _
          (attempt (if exists dist then update_distribution x dist else create_distribution x dist))
          _
          (Keeps-attempt _ _ (
            Keeps-if _ (exists dist) _ _ (update_distribution-OnlyAws dist)
              (create_distribution-OnlyAws dist)))
          (λ r w. refl))

  pub sync_class_aliases-OnlyDns :
      (class : CdnClass) (p : Progress) → OnlyDns (sync_class_aliases x class p)
  unfolding sync_class_aliases
  sync_class_aliases-OnlyDns class p = Keeps-if _ class.create_alias _ _ (λ w. refl) (λ w. refl)

  reconcile_finalizer-OnlyKube :
      (ing : Ingress) (should : Bool) → OnlyKube (reconcile_finalizer x ing should)
  unfolding reconcile_finalizer
  reconcile_finalizer-OnlyKube ing should w = refl

  pub update_finalizer-OnlyKube :
      (errors : List GoError) (ing : Ingress) → OnlyKube (update_finalizer x errors ing)
  unfolding update_finalizer
  update_finalizer-OnlyKube errors ing =
      Keeps->>= _ (attempt (reconcile_finalizer x ing (should_have_finalizer errors ing))) _
        (Keeps-attempt _ _ (reconcile_finalizer-OnlyKube ing (should_have_finalizer errors ing)))
        (λ r w. refl)

  upsert_cdn_status-OnlyKube : (status : CdnStatus) → OnlyKube (upsert_cdn_status x status)
  unfolding upsert_cdn_status create_missing
  upsert_cdn_status-OnlyKube status =
      Keeps->>= _ (create_missing x status) _ (Keeps-if _ _ _ _ (λ w. refl) (λ w. refl))
        (λ r w. refl)

  pub write_status-OnlyKube :
      (errors : List GoError) (dist : Distribution) (status : CdnStatus)
      → OnlyKube (write_status x errors dist status)
  unfolding write_status delete_or_upsert delete_cdn_status
  write_status-OnlyKube errors dist status =
      Keeps->>= _ (attempt (delete_or_upsert x _ status)) _
        (Keeps-attempt _ _ (Keeps-if _ _ _ _ (λ w. refl) (upsert_cdn_status-OnlyKube status)))
        (λ r w. refl)
