-- ===== src/Cloudfront/Service/Errors.antt =====
-- The list of errors that a reconciliation ends with, against the errors of its calls.
pub mod Steps
pub mod Report
use mathlib.Core.List.{List, [], ◌∷◌, ◌++◌, map, append-nil}
use mathlib.Core.Path.{subst}
use mathlib.Core.Bool.{true≢false}
use cdn_origin_controller.Prelude.{
  String, ◌≡◌, ◌≢◌, refl, sym, ap, ap₂, ◌∙◌, Bool, true, false, not, ◌&&◌, ◌⊎◌, inl, inr,
  if◌then◌else◌, Bool-cases,
}
use cdn_origin_controller.GoError.{GoError, annotate, Result, ok, err, panic, ok-injective}
use cdn_origin_controller.Exec.{Exec, attempt, attempted, pure, ◌>>=◌}
use cdn_origin_controller.Exec.Inversion.{>>=-ok, >>=-eq}
use cdn_origin_controller.GoString.{nonempty, nonempty_iff}
use cdn_origin_controller.K8s.Objects.{Ingress, CdnClass}
use cdn_origin_controller.Api.CdnStatus.{CdnStatus}
use cdn_origin_controller.Cloudfront.Origin.{Origin}
use cdn_origin_controller.Cloudfront.Distribution.{Distribution, exists, is_empty}
use cdn_origin_controller.Cloudfront.Service.AliasSync.{sync_aliases}
use cdn_origin_controller.Cloudfront.Service.World.{Service, World, on_dns}
use cdn_origin_controller.Cloudfront.Service.Upkeep.{
  Progress, any_error, errors_of, without_ref, with_synced, delete_distribution,
  update_distribution, create_distribution, upsert_distribution, sync_empty, sync_dist, after_dist,
  sync_class_aliases, reconcile_finalizer, should_have_finalizer, with_finalizer, update_finalizer,
  sent_or_updated, delete_or_upsert, write_status,
}
use cdn_origin_controller.Cloudfront.Service.Reconcile.{handle_result, report, sync_group}
use cdn_origin_controller.Cloudfront.Service.Success.{if_true}
use cdn_origin_controller.Cloudfront.Service.Stops.{sync_group-NeverFails}

-- The list holds the error of a call that failed, and nothing after one that did not.
abbrev pub Holds : {A : Type 0} → Result A → List GoError → Type 0
Holds {A} r es = ((a : A) × (r ≡ ok a) × (es ≡ [])) ⊎ ((e : GoError) × (r ≡ err e) × (es ≡ e ∷ []))

attempted-Holds :
    {S A : Type 0} (t : Result A × S) (r : A ⊎ GoError)
    → (attempted t).0 ≡ ok r
    → Holds t.0 (errors_of r)
attempted-Holds (ok a, s) r h = inl (a, refl, ap errors_of (sym (ok-injective h)))
attempted-Holds (err e, s) r h = inr (e, refl, ap errors_of (sym (ok-injective h)))
attempted-Holds (panic m, s) r h = cc

-- The same of a call whose error is kept as a value.
pub attempt-Holds :
    {S A : Type 0} (m : Exec S A) (s : S) (r : A ⊎ GoError)
    → (attempt m s).0 ≡ ok r
    → Holds (m s).0 (errors_of r)
attempt-Holds m s r h = attempted-Holds (m s) r h

if_false : {A : Type 0} (b : Bool) (m n : A) → b ≡ false → (if b then m else n) ≡ n
if_false true m n h = absurd (true≢false h)
if_false false m n h = refl

pub is_empty_of : (d : Distribution) → d.custom_origins ≡ [] → is_empty d ≡ true
unfolding is_empty
is_empty_of d h = rw h refl

is_empty_not : (d : Distribution) → d.custom_origins ≢ [] → is_empty d ≡ false
unfolding is_empty
is_empty_not d h = by_origins d.custom_origins refl
  where
    by_origins : (os : List Origin) → d.custom_origins ≡ os → is_empty d ≡ false
    by_origins [] e = absurd (h e)
    by_origins (o ∷ os) e = rw e refl

exists_of : (d : Distribution) → d.id ≢ "" → exists d ≡ true
unfolding exists
exists_of d h = (nonempty_iff d.id).1 h

exists_not : (d : Distribution) → d.id ≡ "" → exists d ≡ false
unfolding exists
exists_not d h = ap nonempty h

module _ (x : Service) where
  -- The call on the distribution: it is deleted where no origin is left, and else updated where AWS
  -- knows it and created where it does not.
  pub record IsDistReport (desired : Distribution) (w : World x) (es : List GoError) : Type 0 where
    pub deleted : desired.custom_origins ≡ [] → Holds (delete_distribution x desired w).0 es
    pub updated :
        desired.custom_origins ≢ [] → desired.id ≢ "" → Holds (update_distribution x desired w).0 es
    pub created :
        desired.custom_origins ≢ [] → desired.id ≡ "" → Holds (create_distribution x desired w).0 es

  sync_empty-Holds :
      (desired : Distribution) (status : CdnStatus) (w : World x) (p : Progress)
      → (sync_empty x desired status w).0 ≡ ok p
      → Holds (delete_distribution x desired w).0 p.errors
  unfolding sync_empty
  sync_empty-Holds desired status w p h =
      let (r, tried, e) = >>=-ok (attempt (delete_distribution x desired)) _ w h in
      subst (Holds (delete_distribution x desired w).0) (ap (λ q. q.errors) (ok-injective e))
        (attempt-Holds (delete_distribution x desired) w r tried)

  after_dist-errors :
      (status : CdnStatus) (ing : Ingress) (r : Distribution ⊎ GoError)
      → (after_dist status ing r).errors ≡ errors_of r
  unfolding after_dist
  after_dist-errors status ing (inl dist) = refl
  after_dist-errors status ing (inr e) = refl

  upsert_distribution-Holds :
      (desired : Distribution) (status : CdnStatus) (ing : Ingress) (w : World x) (p : Progress)
      (upsert : Exec (World x) Distribution)
      → (if exists desired then update_distribution x desired else create_distribution x desired)
        ≡ upsert
      → (upsert_distribution x desired status ing w).0 ≡ ok p
      → Holds (upsert w).0 p.errors
  unfolding upsert_distribution
  upsert_distribution-Holds desired status ing w p upsert same h =
      let chosen =
        if exists desired then update_distribution x desired else create_distribution x desired in
      let (r, tried, e) = >>=-ok (attempt chosen) (λ r. pure (after_dist status ing r)) w h in
      subst (λ m. Holds (m w).0 p.errors) same
        (subst (Holds (chosen w).0)
          (sym (after_dist-errors status ing r) ∙ ap (λ q. q.errors) (ok-injective e))
          (attempt-Holds chosen w r tried))

  -- The errors of the step that brings the distribution up to date.
  pub sync_dist-IsDistReport :
      (desired : Distribution) (status : CdnStatus) (ing : Ingress) (w : World x) (p : Progress)
      → (sync_dist x desired status ing w).0 ≡ ok p
      → IsDistReport desired w p.errors
  unfolding sync_dist
  sync_dist-IsDistReport desired status ing w p h = record {
    deleted = λ none_left. sync_empty-Holds desired status w p (
        ap (λ (m : Exec (World x) Progress). (m w).0)
          (sym (if_true (is_empty desired) _ _ (is_empty_of desired none_left)))
        ∙ h);
    updated = λ some_left known.
        upsert_distribution-Holds desired status ing w p (update_distribution x desired)
          (if_true (exists desired) _ _ (exists_of desired known)) (upserted some_left);
    created = λ some_left unknown.
        upsert_distribution-Holds desired status ing w p (create_distribution x desired)
          (if_false (exists desired) _ _ (exists_not desired unknown)) (upserted some_left);
  }
    where
      upserted : desired.custom_origins ≢ [] → (upsert_distribution x desired status ing w).0 ≡ ok p
      upserted some_left =
          ap (λ (m : Exec (World x) Progress). (m w).0)
            (sym (if_false (is_empty desired) _ _ (is_empty_not desired some_left)))
          ∙ h
