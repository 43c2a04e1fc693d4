-- ===== src/Cloudfront/Service/Reconcile.antt =====
-- internal/cloudfront/service.go: `Reconcile`, which brings the distribution of an Ingress's group,
-- its DNS records, the Ingress's finalizer and the CDNStatus up to date.
use mathlib.Core.List.{List, [], ◌∷◌, ◌++◌}
use cdn_origin_controller.Prelude.{false, not, ◌&&◌, String, if◌then◌else◌}
use cdn_origin_controller.GoError.{GoError, Result, ok, err, panic}
use cdn_origin_controller.Exec.{Exec, ◌>>=◌, ◌>>◌, pure, lift, annotated}
use cdn_origin_controller.K8s.Objects.{Ingress, CdnClass}
use cdn_origin_controller.K8s.Helpers.{has_finalizer, has_group_annotation}
use cdn_origin_controller.K8s.Deprecated.{used_deprecated_fields}
use cdn_origin_controller.K8s.Ingress.{CdnIngress, new_cdn_ingress_from_v1}
use cdn_origin_controller.K8s.UserOrigin.{validate_ingress_function_associations}
use cdn_origin_controller.Api.IngressRef.{new_ingress_ref}
use cdn_origin_controller.Api.CdnStatus.{CdnStatus}
use cdn_origin_controller.Cloudfront.Distribution.{Distribution}
use cdn_origin_controller.Cloudfront.Service.World.{
  Service, World, recorded, deprecated_fields, ingress_failed, ingress_succeeded, status_failed,
  status_succeeded,
}
use cdn_origin_controller.Cloudfront.Service.Desired.{validate_creation}
use cdn_origin_controller.Cloudfront.Service.Fetching.{desired_state, fetch_or_generate_cdn_status}
use cdn_origin_controller.Cloudfront.Service.Upkeep.{
  Progress, name_of, without_ref, sync_dist, sync_class_aliases, reconcile_finalizer,
  update_finalizer, write_status,
}

module _ {x : Service} where
  abbrev pub failed : {A : Type 0} → Ingress → Result A × World x → Result A × World x
  failed ing (ok a, w) = (ok a, w)
  failed ing (err e, w) = (err e, recorded (ingress_failed (name_of ing) (e ∷ [])) w)
  failed ing (panic m, w) = (panic m, w)

  -- `if err != nil { return s.handleFailure(err, ing) }`
  abbrev pub or_failed : {A : Type 0} → Ingress → Exec (World x) A → Exec (World x) A
  or_failed ing m w = failed ing (m w)

module _ (x : Service) where
  abbrev warned : Ingress → List String → World x → World x
  warned ing [] w = w
  warned ing (f ∷ fs) w = recorded (deprecated_fields (name_of ing) (f ∷ fs)) w

  unfoldable pub validate_ingress : Ingress → Exec (World x) (Unit {0})
  validate_ingress ing w =
      (validate_ingress_function_associations x.yaml ing, warned ing (used_deprecated_fields ing) w)

  -- The result of a reconciliation is its list of errors, none where it succeeds.
  unfoldable pub handle_result :
      Ingress → CdnStatus → List GoError → World x → Result (List GoError) × World x
  handle_result ing status [] w = (
    ok [],
    recorded (status_succeeded status.name (new_ingress_ref ing.namespace ing.name))
        (recorded (ingress_succeeded (name_of ing)) w),
  )
  handle_result ing status (e ∷ es) w = (
    ok (e ∷ es),
    recorded (status_failed status.name (new_ingress_ref ing.namespace ing.name) (e ∷ es))
        (recorded (ingress_failed (name_of ing) (e ∷ es)) w),
  )

  -- What follows the update of the Ingress.
  unfoldable pub report :
      Distribution → Progress → Ingress × List GoError → Exec (World x) (List GoError)
  unfolding handle_result write_status
  report desired p (ing, errors) = do
    all_errors ←
        write_status x (p.errors ++ errors) desired (without_ref (p.errors ++ errors) ing p.status)
    handle_result ing (without_ref (p.errors ++ errors) ing p.status) all_errors

  -- What follows the checks.
  unfoldable pub sync_group :
      Ingress → CdnClass → Distribution → CdnStatus → Exec (World x) (List GoError)
  unfolding report sync_dist sync_class_aliases update_finalizer
  sync_group ing class desired status = do
    made ← sync_dist x desired status ing
    synced ← sync_class_aliases x class made
    updated ← update_finalizer x synced.errors ing
    report desired synced updated

  unfoldable pub reconcile_group : Ingress → CdnIngress → Exec (World x) (List GoError)
  unfolding sync_group desired_state validate_creation fetch_or_generate_cdn_status
  reconcile_group ing reconciling = do
    state ← or_failed ing (annotated "computing desired state" (desired_state x reconciling))
    or_failed ing (lift (validate_creation x.config state.1 ing))
    status ←
        or_failed ing
          (annotated "validating creation" (fetch_or_generate_cdn_status x state.0 state.1))
    sync_group ing reconciling.class state.1 status

  unfoldable pub drop_finalizer : Ingress → Exec (World x) (List GoError)
  unfolding reconcile_finalizer
  drop_finalizer ing = do updated ← reconcile_finalizer x ing false; pure []

  -- What follows the parsing of the Ingress.
  unfoldable pub reconcile_parsed : Ingress → CdnIngress → Exec (World x) (List GoError)
  unfolding reconcile_group drop_finalizer
  reconcile_parsed ing reconciling =
      if has_finalizer ing && not (has_group_annotation ing)
      then drop_finalizer ing
      else reconcile_group ing reconciling

  -- `Reconcile`
  unfoldable pub reconcile : Ingress → CdnClass → Exec (World x) (List GoError)
  unfolding validate_ingress reconcile_parsed
  reconcile ing class = do
    or_failed ing (annotated "validating Ingress" (validate_ingress ing))
    reconciling ← or_failed ing (lift (new_cdn_ingress_from_v1 x.yaml ing class))
    reconcile_parsed ing reconciling
