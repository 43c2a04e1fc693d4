-- ===== src/Cloudfront/Service/Checks.antt =====
-- The checks that a reconciliation makes before it changes anything.
use mathlib.Core.List.{List, [], ◌∷◌}
use cdn_origin_controller.Prelude.{◌≡◌, refl, ap, ◌∙◌}
use cdn_origin_controller.GoError.{GoError, Result, ok, err, panic}
use cdn_origin_controller.Exec.{Exec, ◌>>=◌, continue, annotated, lift}
use cdn_origin_controller.Exec.Keeps.{Keeps-annotated}
use cdn_origin_controller.K8s.Objects.{Ingress}
use cdn_origin_controller.K8s.Ingress.{CdnIngress}
use cdn_origin_controller.Cloudfront.Service.World.{Event, Service, World, ingress_failed}
use cdn_origin_controller.Cloudfront.Service.Desired.{validate_creation}
use cdn_origin_controller.Cloudfront.Service.Fetching.{desired_state, fetch_or_generate_cdn_status}
use cdn_origin_controller.Cloudfront.Service.Upkeep.{name_of}
use cdn_origin_controller.Cloudfront.Service.Reconcile.{or_failed, failed, reconcile_group}
use cdn_origin_controller.Cloudfront.Service.Effects.{
  OnlyAws, outside_aws, desired_state-OnlyAws, fetch_or_generate-keeps,
}
use cdn_origin_controller.Cloudfront.Service.Stops.{sync_group-NeverFails}

err-injective : {A : Type 0} {d e : GoError} → ◌≡◌ {A = Result A} (err d) (err e) → d ≡ e
err-injective h = cc

module _ (x : Service) where
  -- What is left outside AWS where an error stops the reconciliation: an event tells it.
  abbrev told :
      Ingress
      → GoError
      → x.kube.State × (x.dns.State × List Event)
      → x.kube.State × (x.dns.State × List Event)
  told ing e (kube, (dns, events)) = (kube, (dns, ingress_failed (name_of ing) (e ∷ []) ∷ events))

  -- An error leaves nothing behind but that event, and what AWS was asked.
  abbrev Stops : {A : Type 0} → Ingress → Exec (World x) A → Type 0
  Stops ing m =
      (w : World x) (e : GoError)
      → (m w).0 ≡ err e
      → outside_aws x (m w).1 ≡ told ing e (outside_aws x w)

  Stops-continue :
      {A B : Type 0} (ing : Ingress) (t : Result A × World x) (f : A → Exec (World x) B)
      (w : World x) (e : GoError)
      → outside_aws x t.1 ≡ outside_aws x w
      → ((a : A) → Stops ing (f a))
      → (continue (failed ing t).0 f (failed ing t).1).0 ≡ err e
      → outside_aws x (continue (failed ing t).0 f (failed ing t).1).1
        ≡ told ing e (outside_aws x w)
  Stops-continue ing (ok a, w') f w e kept stops h = stops a w' e h ∙ ap (told ing e) kept
  Stops-continue ing (err e', w') f w e kept stops h =
      ap (told ing e') kept ∙ ap (λ t. told ing t (outside_aws x w)) (err-injective h)
  Stops-continue ing (panic m, w') f w e kept stops h = cc

  Stops->>= :
      {A B : Type 0} (ing : Ingress) (m : Exec (World x) A) (f : A → Exec (World x) B)
      → OnlyAws x m
      → ((a : A) → Stops ing (f a))
      → Stops ing (or_failed ing m >>= f)
  Stops->>= ing m f kept stops w e = Stops-continue ing (m w) f w e (kept w) stops

  -- Where an error stops the reconciliation of an Ingress's group, the cluster and the hosted zone
  -- are as they were, and one event was recorded, which tells that error.
  pub reconcile_group-stops :
      (ing : Ingress) (reconciling : CdnIngress) (w : World x) (e : GoError)
      → (reconcile_group x ing reconciling w).0 ≡ err e
      → ((reconcile_group x ing reconciling w).1.kube ≡ w.kube)
        × ((reconcile_group x ing reconciling w).1.dns ≡ w.dns)
        × ((reconcile_group x ing reconciling w).1.events
            ≡ ingress_failed (name_of ing) (e ∷ []) ∷ w.events)
  unfolding reconcile_group
  reconcile_group-stops ing reconciling w e h =
      let p = whole w e h in (ap (λ t. t.0) p, ap (λ t. t.1.0) p, ap (λ t. t.1.1) p)
    where
      whole : Stops ing (reconcile_group x ing reconciling)
      whole =
          Stops->>= ing (annotated "computing desired state" (desired_state x reconciling)) _
            (Keeps-annotated _ _ _ (desired_state-OnlyAws x reconciling))
            (λ state.
              Stops->>= ing (lift (validate_creation x.config state.1 ing)) _ (λ w. refl)
                (λ valid.
                  Stops->>= ing
                    (annotated "validating creation"
                      (fetch_or_generate_cdn_status x state.0 state.1))
                    _
                    (Keeps-annotated _ _ _
                      (λ w. ap (outside_aws x) (fetch_or_generate-keeps x state.0 state.1 w)))
                    (λ status w e h. absurd (sync_group-NeverFails x ing _ state.1 status w e h))))
