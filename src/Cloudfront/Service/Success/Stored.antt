-- ===== src/Cloudfront/Service/Success/Stored.antt =====
-- The status as a reconciliation stores it in the cluster, or deletes it.
use mathlib.Core.List.{List, [], ◌∷◌}
use cdn_origin_controller.Prelude.{
  String, ◌≡◌, ◌≢◌, Option, none, some, Bool-cases, refl, sym, ◌∙◌, true, false, ◌⊎◌, inl, inr,
}
use cdn_origin_controller.GoError.{GoError, is_not_found, Result, ok, err, panic}
use cdn_origin_controller.GoString.{nonempty, nonempty_iff}
use cdn_origin_controller.Exec.{call}
use cdn_origin_controller.Api.CdnStatus.{CdnStatus, status_exists}
use cdn_origin_controller.Cloudfront.Origin.{Origin}
use cdn_origin_controller.Cloudfront.Distribution.{Distribution, is_empty}
use cdn_origin_controller.Cloudfront.Service.World.{Service, World, on_kube}
use cdn_origin_controller.Cloudfront.Service.Upkeep.{
  delete_or_upsert, unless_not_found, delete_cdn_status, create_missing, upsert_cdn_status,
}

pub err-ne-ok : {A : Type 0} {a : A} (e : GoError) → ◌≢◌ {A = Result A} (err e) (ok a)
err-ne-ok e h = cc

panic-ne-ok : {A : Type 0} {a : A} (m : String) → ◌≢◌ {A = Result A} (panic m) (ok a)
panic-ne-ok m h = cc

cons-not-nil : {A : Type 0} {os : List A} {p : A} {ps : List A} → os ≡ p ∷ ps → os ≢ []
cons-not-nil e h = cc

empty_of : {s : String} → nonempty s ≡ false → s ≡ ""
empty_of {s = String.[]} h = refl
empty_of {s = String.◌∷◌ c s} h = cc

module _ (x : Service) where
  -- The server has deleted the status, or did not know it.
  abbrev IsRemoved : CdnStatus → x.kube.State → x.kube.State → Type 0
  IsRemoved status s now =
      ((x.kube.delete_status status s).1 ≡ now)
      × (((x.kube.delete_status status s).0 ≡ none)
          ⊎ ((e : GoError) × ((x.kube.delete_status status s).0 ≡ some e)
              × (is_not_found e ≡ true)))

  -- The server has taken the status as an update, after it created it where it had not before.
  abbrev IsUpserted : CdnStatus → x.kube.State → x.kube.State → Type 0
  IsUpserted status s now =
      ((status.resource_version ≢ "") × (x.kube.update_status status s ≡ (none, now)))
      ⊎ ((status.resource_version ≡ "")
          × ((created : CdnStatus) × ((x.kube.create_status status s).0 ≡ ok created)
              × (x.kube.update_status created (x.kube.create_status status s).1 ≡ (none, now))))

  -- A group that needs no distribution has its status deleted, any other has it written.
  abbrev pub IsStored : Distribution → CdnStatus → x.kube.State → x.kube.State → Type 0
  IsStored desired status s now =
      ((desired.custom_origins ≡ []) × IsRemoved status s now)
      ⊎ ((desired.custom_origins ≢ []) × IsUpserted status s now)

  delete_cdn_status-IsRemoved :
      (status : CdnStatus) (w : World x)
      → (delete_cdn_status x status w).0 ≡ ok tt
      → IsRemoved status w.kube (delete_cdn_status x status w).1.kube
  unfolding delete_cdn_status unless_not_found
  delete_cdn_status-IsRemoved status w h = go (x.kube.delete_status status w.kube) refl
    where
      go :
          (t : Option GoError × x.kube.State)
          → x.kube.delete_status status w.kube ≡ t
          → IsRemoved status w.kube (delete_cdn_status x status w).1.kube
      go (none, s) e = rw (e, delete_cdn_status) (refl, inl refl)
      go (some f, s) e = elim (Bool-cases (is_not_found f)) [
        | inl missing ↦ rw (e, missing) (refl, inr (f, refl, missing))
        | inr other ↦ absurd (err-ne-ok f (sym (rw (e, other, delete_cdn_status) refl) ∙ h))
      ]

  updated-ok :
      (t : Option GoError × x.kube.State) (w : World x)
      → (on_kube (call (λ s. t)) w).0 ≡ ok tt
      → t ≡ (none, (on_kube (call (λ s. t)) w).1.kube)
  updated-ok (none, s) w h = refl
  updated-ok (some e, s) w h = cc

  upsert_cdn_status-IsUpserted :
      (status : CdnStatus) (w : World x)
      → (upsert_cdn_status x status w).0 ≡ ok tt
      → IsUpserted status w.kube (upsert_cdn_status x status w).1.kube
  unfolding upsert_cdn_status create_missing status_exists
  upsert_cdn_status-IsUpserted status w h = elim (Bool-cases (nonempty status.resource_version)) [
    | inl there ↦ rw there (
        inl (
          (nonempty_iff status.resource_version).0 there,
          updated-ok (x.kube.update_status status w.kube) w (rw there at h),
        ))
    | inr missing ↦
        inr (empty_of missing, by_creation (x.kube.create_status status w.kube) refl missing)
  ]
    where
      by_creation :
          (t : Result CdnStatus × x.kube.State)
          → x.kube.create_status status w.kube ≡ t
          → nonempty status.resource_version ≡ false
          → (created : CdnStatus) × ((x.kube.create_status status w.kube).0 ≡ ok created)
            × (x.kube.update_status created (x.kube.create_status status w.kube).1
                ≡ (none, (upsert_cdn_status x status w).1.kube))
      by_creation (ok created, s) e missing =
          rw (missing, e)
            (
              created,
              refl,
              updated-ok (x.kube.update_status created s) (record w { kube = s })
                  (rw (missing, e) at h),
            )
      by_creation (err f, s) e missing = absurd (err-ne-ok f (rw (missing, e) at h))
      by_creation (panic m, s) e missing = absurd (panic-ne-ok m (rw (missing, e) at h))

  -- What the reconciliation does where it had no error so far.
  pub delete_or_upsert-IsStored :
      (desired : Distribution) (status : CdnStatus) (w : World x)
      → (delete_or_upsert x (is_empty desired) status w).0 ≡ ok tt
      → IsStored desired status w.kube (delete_or_upsert x (is_empty desired) status w).1.kube
  unfolding delete_or_upsert is_empty
  delete_or_upsert-IsStored desired status w h = by_origins desired.custom_origins refl
    where
      by_origins :
          (os : List Origin)
          → desired.custom_origins ≡ os
          → IsStored desired status w.kube (delete_or_upsert x (is_empty desired) status w).1.kube
      by_origins [] e = rw e (inl (refl, delete_cdn_status-IsRemoved status w (rw e at h)))
      by_origins (o ∷ os) e =
          rw e (inr (cons-not-nil refl, upsert_cdn_status-IsUpserted status w (rw e at h)))
