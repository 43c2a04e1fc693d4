-- ===== src/Cloudfront/Service/Stops.antt =====
-- The steps that a reconciliation takes after its checks, and their errors.
use mathlib.Core.List.{List, [], ◌∷◌, ◌++◌}
use cdn_origin_controller.Prelude.{◌≢◌, refl, if◌then◌else◌}
use cdn_origin_controller.GoError.{GoError, Result, ok, err, panic}
use cdn_origin_controller.Exec.{attempt}
use cdn_origin_controller.Exec.Keeps.{NeverFails, NeverFails->>=, NeverFails-attempt, NeverFails-if}
use cdn_origin_controller.Config.{Config}
use cdn_origin_controller.Route53.Repository.{Route53Client, delete_aliases, upsert_aliases}
use cdn_origin_controller.Route53.Alias.{Aliases}
use cdn_origin_controller.K8s.Objects.{Ingress, CdnClass}
use cdn_origin_controller.Api.CdnStatus.{CdnStatus}
use cdn_origin_controller.Cloudfront.Distribution.{Distribution, exists, is_empty}
use cdn_origin_controller.Cloudfront.Service.AliasSync.{sync_aliases, after_upsert, after_delete}
use cdn_origin_controller.Cloudfront.Service.World.{Service, World}
use cdn_origin_controller.Cloudfront.Service.Upkeep.{
  Progress, with_synced, delete_distribution, upsert_distribution, sync_empty, sync_dist,
  sync_class_aliases, reconcile_finalizer, should_have_finalizer, update_finalizer,
  delete_or_upsert, write_status, without_ref,
}
use cdn_origin_controller.Cloudfront.Service.Reconcile.{handle_result, report, sync_group}
use cdn_origin_controller.Cloudfront.Service.Effects.{}

module _ (x : Service) where
  sync_dist-NeverFails :
      (dist : Distribution) (status : CdnStatus) (ing : Ingress)
      → NeverFails (sync_dist x dist status ing)
  unfolding sync_dist sync_empty upsert_distribution
  sync_dist-NeverFails dist status ing =
      NeverFails-if (is_empty dist) _ _
        (NeverFails->>= (attempt (delete_distribution x dist)) _ (NeverFails-attempt _)
          (λ r w e h. cc))
        (NeverFails->>= (attempt (if exists dist then _ else _)) _ (NeverFails-attempt _)
          (λ r w e h. cc))

  with_synced-NeverFails :
      (p : Progress) (t : Result (List GoError) × (CdnStatus × x.dns.State)) (e : GoError)
      → ((e' : GoError) → t.0 ≢ err e')
      → (with_synced x p t).0 ≢ err e
  with_synced-NeverFails p (ok errors, (status, s)) e never h = cc
  with_synced-NeverFails p (err e', (status, s)) e never h = absurd (never e' refl)
  with_synced-NeverFails p (panic m, (status, s)) e never h = cc

  update_finalizer-NeverFails :
      (errors : List GoError) (ing : Ingress) → NeverFails (update_finalizer x errors ing)
  unfolding update_finalizer
  update_finalizer-NeverFails errors ing =
      NeverFails->>= (attempt (reconcile_finalizer x ing (should_have_finalizer errors ing))) _
        (NeverFails-attempt _) (λ r w e h. cc)

  write_status-NeverFails :
      (errors : List GoError) (dist : Distribution) (status : CdnStatus)
      → NeverFails (write_status x errors dist status)
  unfolding write_status
  write_status-NeverFails errors dist status =
      NeverFails->>= (attempt (delete_or_upsert x _ status)) _ (NeverFails-attempt _)
        (λ r w e h. cc)

module _ (c : Route53Client) where
  after_delete-never :
      (deleting : Aliases) (errors : List GoError) (status : CdnStatus)
      (t : Result (Unit {0}) × c.State) (e : GoError)
      → (after_delete c deleting errors status t).0 ≢ err e
  unfolding after_delete
  after_delete-never deleting errors status (ok u, s) e h = cc
  after_delete-never deleting errors status (err f, s) e h = cc
  after_delete-never deleting errors status (panic m, s) e h = cc

  after_upsert-never :
      (upserting deleting : Aliases) (status : CdnStatus) (t : Result (Unit {0}) × c.State)
      (e : GoError)
      → (after_upsert c upserting deleting status t).0 ≢ err e
  unfolding after_upsert
  after_upsert-never upserting deleting status (ok u, s) e h =
      after_delete-never deleting [] _ (delete_aliases c deleting s) e h
  after_upsert-never upserting deleting status (err f, s) e h =
      after_delete-never deleting (f ∷ []) status (delete_aliases c deleting s) e h
  after_upsert-never upserting deleting status (panic m, s) e h = cc

  sync_aliases-never :
      (cfg : Config) (status : CdnStatus) (dist : Distribution) (class : CdnClass) (s : c.State)
      (e : GoError)
      → (sync_aliases c cfg status dist class s).0 ≢ err e
  unfolding sync_aliases
  sync_aliases-never cfg status dist class s e =
      after_upsert-never _ _ status (upsert_aliases c _ s) e

module _ (x : Service) where
  sync_class_aliases-NeverFails :
      (class : CdnClass) (p : Progress) → NeverFails (sync_class_aliases x class p)
  unfolding sync_class_aliases
  sync_class_aliases-NeverFails class p =
      NeverFails-if class.create_alias _ _
        (λ w e.
          with_synced-NeverFails x p (sync_aliases x.dns x.config p.status p.dist class w.dns) e
            (sync_aliases-never x.dns x.config p.status p.dist class w.dns))
        (λ w e h. cc)

  handle_result-NeverFails :
      (ing : Ingress) (status : CdnStatus) (errors : List GoError)
      → NeverFails (handle_result x ing status errors)
  unfolding handle_result
  handle_result-NeverFails ing status [] w e h = cc
  handle_result-NeverFails ing status (f ∷ fs) w e h = cc

  report-NeverFails :
      (dist : Distribution) (p : Progress) (t : Ingress × List GoError)
      → NeverFails (report x dist p t)
  unfolding report
  report-NeverFails dist p (ing, errors) =
      NeverFails->>=
        (write_status x (p.errors ++ errors) dist (without_ref (p.errors ++ errors) ing p.status)) _
        (write_status-NeverFails x _ dist (without_ref (p.errors ++ errors) ing p.status))
        (handle_result-NeverFails ing (without_ref (p.errors ++ errors) ing p.status))

  -- Once the checks are passed, a reconciliation never ends with a single error: unless it panics,
  -- its result is the list of its errors.
  pub sync_group-NeverFails :
      (ing : Ingress) (class : CdnClass) (desired : Distribution) (status : CdnStatus) (w : World x)
      (e : GoError)
      → (sync_group x ing class desired status w).0 ≢ err e
  unfolding sync_group
  sync_group-NeverFails ing class desired status =
      NeverFails->>= (sync_dist x desired status ing) _ (sync_dist-NeverFails x desired status ing)
        (λ made.
          NeverFails->>= (sync_class_aliases x class made) _
            (sync_class_aliases-NeverFails class made)
            (λ synced.
              NeverFails->>= (update_finalizer x synced.errors ing) _
                (update_finalizer-NeverFails x synced.errors ing)
                (report-NeverFails desired synced)))
