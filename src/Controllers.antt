-- ===== src/Controllers.antt =====
-- controllers/ingress_v1_controller.go: the reconciliation of a request, and `FetchByName` of
-- internal/k8s/cdn_class_fetcher.go.
pub mod Ignored
use mathlib.Core.List.{List, []}
use cdn_origin_controller.Prelude.{String, true, false, if◌then◌else◌, ◌⊎◌, inl, inr}
use cdn_origin_controller.GoError.{GoError, annotate, is_not_found, Result, ok, err, panic}
use cdn_origin_controller.Exec.{Exec, ◌>>=◌, pure, lift, reads, attempt, annotated}
use cdn_origin_controller.K8s.Objects.{Ingress, NamespacedName, CdnClass}
use cdn_origin_controller.K8s.Helpers.{cdn_class_annotation_value}
use cdn_origin_controller.Cloudfront.Service.World.{Service, World}
use cdn_origin_controller.Cloudfront.Service.Reconcile.{reconcile}

module _ (x : Service) where
  unfoldable pub fetch_by_name : String → Exec (World x) CdnClass
  fetch_by_name name = reads (λ w. x.kube.get_class w.kube name)

  -- What follows the fetch of the Ingress's class.
  unfoldable pub reconcile_fetched : Ingress → Exec (World x) (List GoError)
  unfolding fetch_by_name
  reconcile_fetched ing = do
    class ← annotated "could not find CDN class" (fetch_by_name (cdn_class_annotation_value ing))
    reconcile x ing class

  -- An Ingress that is not found is ignored.
  unfoldable pub reconcile_found : Ingress ⊎ GoError → Exec (World x) (List GoError)
  unfolding reconcile_fetched
  reconcile_found (inl ing) = reconcile_fetched ing
  reconcile_found (inr e) =
      if is_not_found e then pure [] else lift (err (annotate "could not fetch Ingress" e))

  -- `V1Reconciler.Reconcile`
  unfoldable pub reconcile_request : NamespacedName → Exec (World x) (List GoError)
  unfolding reconcile_found
  reconcile_request name = do
    found ← attempt (reads (λ w. x.kube.get_ingress w.kube name))
    reconcile_found found
