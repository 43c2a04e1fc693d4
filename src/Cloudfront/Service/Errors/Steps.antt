-- ===== src/Cloudfront/Service/Errors/Steps.antt =====
-- The errors of the DNS records and of the update of the Ingress.
use mathlib.Core.List.{List, [], ◌++◌, map, append-nil}
use mathlib.Core.Bool.{true≢false}
use cdn_origin_controller.Prelude.{◌≡◌, refl, sym, ap, ◌∙◌, true, false, ◌⊎◌, inl, inr, Bool-cases}
use cdn_origin_controller.GoError.{GoError, annotate, Result, ok, err, panic, ok-injective}
use cdn_origin_controller.Exec.{Exec, attempt, pure}
use cdn_origin_controller.Exec.Inversion.{>>=-ok}
use cdn_origin_controller.K8s.Objects.{Ingress, CdnClass}
use cdn_origin_controller.Api.CdnStatus.{CdnStatus}
use cdn_origin_controller.Cloudfront.Service.AliasSync.{sync_aliases}
use cdn_origin_controller.Cloudfront.Service.World.{Service, World, on_dns}
use cdn_origin_controller.Cloudfront.Service.Upkeep.{
  Progress, errors_of, with_synced, sync_class_aliases, reconcile_finalizer, should_have_finalizer,
  with_finalizer, update_finalizer, sent_or_updated,
}
use cdn_origin_controller.Cloudfront.Service.Success.{if_true}
use cdn_origin_controller.Cloudfront.Service.Errors.{Holds, attempt-Holds}

module _ (x : Service) where
  -- The errors of the DNS records, none where the class does not ask for them.
  abbrev pub AliasErrors : CdnClass → Progress → World x → List GoError → Type 0
  AliasErrors class p w es =
      ((class.create_alias ≡ false) → es ≡ [])
      × ((class.create_alias ≡ true)
          → (sync_aliases x.dns x.config p.status p.dist class w.dns).0 ≡ ok es)

  with_synced-errors :
      (p q : Progress) (t : Result (List GoError) × (CdnStatus × x.dns.State))
      → (with_synced x p t).0 ≡ ok q
      → (es : List GoError) × (t.0 ≡ ok es) × (q.errors ≡ p.errors ++ es)
  with_synced-errors p q (ok errors, (status, s)) h =
      (errors, refl, ap (λ r. r.errors) (sym (ok-injective h)))
  with_synced-errors p q (err f, (status, s)) h = cc
  with_synced-errors p q (panic m, (status, s)) h = cc

  -- A step on the DNS records adds their errors to those before.
  pub sync_class_aliases-errors :
      (class : CdnClass) (p q : Progress) (w : World x)
      → (sync_class_aliases x class p w).0 ≡ ok q
      → (es : List GoError) × AliasErrors class p w es × (q.errors ≡ p.errors ++ es)
  unfolding sync_class_aliases
  sync_class_aliases-errors class p q w h = elim (Bool-cases class.create_alias) [
    | inl on ↦
        let (es, e, same) =
          with_synced-errors p q (sync_aliases x.dns x.config p.status p.dist class w.dns) (
            ap (λ (m : Exec (World x) Progress). (m w).0)
              (sym (
                if_true class.create_alias
                  (on_dns
                    (λ s. with_synced x p (sync_aliases x.dns x.config p.status p.dist class s)))
                  (pure p) on))
            ∙ h) in
        (es, (λ off. absurd (true≢false (sym on ∙ off)), λ _. e), same)
    | inr off ↦ (
      [],
      (λ _. refl, λ on. absurd (true≢false (sym on ∙ off))),
      ap (λ r. r.errors) (sym (ok-injective (rw off at h))) ∙ sym (append-nil p.errors),
    )
  ]

  sent_or_updated-errors :
      (sent : Ingress) (r : Ingress ⊎ GoError)
      → (sent_or_updated x sent r).1
        ≡ map (annotate "reconciling finalizer for ingress") (errors_of r)
  sent_or_updated-errors sent (inl ing) = refl
  sent_or_updated-errors sent (inr e) = refl

  -- The update of the Ingress adds its own error, annotated.
  pub update_finalizer-errors :
      (errors : List GoError) (ing : Ingress) (w : World x) (t : Ingress × List GoError)
      → (update_finalizer x errors ing w).0 ≡ ok t
      → (es : List GoError) × Holds
          (x.kube.update_ingress (with_finalizer x (should_have_finalizer errors ing) ing) w.kube).0
          es
        × (t.1 ≡ map (annotate "reconciling finalizer for ingress") es)
  unfolding update_finalizer reconcile_finalizer
  update_finalizer-errors errors ing w t h =
      let finalizing = reconcile_finalizer x ing (should_have_finalizer errors ing) in
      let (r, tried, e) = >>=-ok (attempt finalizing) _ w h in
      (
        errors_of r,
        attempt-Holds finalizing w r tried,
        ap (λ u. u.1) (sym (ok-injective e))
            ∙ sent_or_updated-errors (with_finalizer x (should_have_finalizer errors ing) ing) r,
      )
