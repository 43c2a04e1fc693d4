-- ===== src/Cloudfront/Service/Success/Allowed.antt =====
-- What a reconciliation that passes its checks may rely on.
use mathlib.Core.List.{List, [], ◌∷◌, Mem, mem-cons_self, mem-cons_of_mem}
use mathlib.Core.Path.{subst}
use cdn_origin_controller.Prelude.{
  ℕ, ◌≡◌, ◌≢◌, refl, sym, true, false, ◌⊎◌, inl, inr, Option, none, some, ◌==◌, ==→≡, Bool-cases,
}
use cdn_origin_controller.GoError.{GoError, ok}
use cdn_origin_controller.GoString.{nonempty, nonempty_iff}
use cdn_origin_controller.Exec.{lift}
use cdn_origin_controller.Exec.Inversion.{>>=-ok}
use cdn_origin_controller.Config.{Config, namespaced_name_eq, allows, is_creation_allowed}
use cdn_origin_controller.K8s.Objects.{Ingress, NamespacedName}
use cdn_origin_controller.K8s.Ingress.{CdnIngress}
use cdn_origin_controller.Cloudfront.Origin.{Origin}
use cdn_origin_controller.Cloudfront.Distribution.{Distribution, exists, is_empty}
use cdn_origin_controller.Cloudfront.Service.World.{Service, World}
use cdn_origin_controller.Cloudfront.Service.Desired.{validate_creation}
use cdn_origin_controller.Cloudfront.Service.Fetching.{desired_state}
use cdn_origin_controller.Cloudfront.Service.Reconcile.{reconcile_group}
use cdn_origin_controller.Cloudfront.Service.Success.Stored.{err-ne-ok}
use cdn_origin_controller.Cloudfront.Service.Success.Group.{
  or_failed-ok, computing, computing-ok, validating,
}

allows-Mem :
    (names : List NamespacedName) (n : NamespacedName) → allows names n ≡ true → Mem n names
unfolding allows
allows-Mem [] n h = cc
allows-Mem (m ∷ ms) n h = elim (Bool-cases (m == n)) [
  | inl same ↦ subst (λ k. Mem n (k ∷ ms)) (sym (==→≡ m n same)) mem-cons_self
  | inr other ↦ mem-cons_of_mem m (allows-Mem ms n (rw other at h))
]

-- The distribution is there, or not needed, or the Ingress is being deleted, or creation is not
-- blocked, or the Ingress is listed as one for which creation is allowed.
abbrev pub MayGoOn : Config → Distribution → Ingress → Type 0
MayGoOn cfg desired ing =
    (desired.id ≢ "")
    ⊎ ((desired.custom_origins ≡ [])
        ⊎ ((ing.deletion_timestamp ≢ none)
            ⊎ ((cfg.is_create_blocked ≡ false)
                ⊎ Mem (record { namespace = ing.namespace; name = ing.name })
                    cfg.create_allow_list)))

is_creation_allowed-cases :
    (cfg : Config) (ing : Ingress)
    → is_creation_allowed cfg ing ≡ true
    → (cfg.is_create_blocked ≡ false)
      ⊎ Mem (record { namespace = ing.namespace; name = ing.name }) cfg.create_allow_list
unfolding is_creation_allowed
is_creation_allowed-cases cfg ing h = elim (Bool-cases cfg.is_create_blocked) [
  | inl blocked ↦ inr (allows-Mem cfg.create_allow_list _ (rw blocked at h))
  | inr free ↦ inl free
]

validate_creation-MayGoOn :
    (cfg : Config) (desired : Distribution) (ing : Ingress)
    → validate_creation cfg desired ing ≡ ok tt
    → MayGoOn cfg desired ing
unfolding validate_creation exists is_empty is_creation_allowed
validate_creation-MayGoOn cfg desired ing h = elim (Bool-cases (nonempty desired.id)) [
  | inl there ↦ inl ((nonempty_iff desired.id).0 there)
  | inr absent ↦ inr (by_origins desired.custom_origins refl ing.deletion_timestamp refl absent)
]
  where
    by_origins :
        (os : List Origin)
        → desired.custom_origins ≡ os
        → (t : Option ℕ) → ing.deletion_timestamp ≡ t
        → nonempty desired.id ≡ false
        → (desired.custom_origins ≡ [])
          ⊎ ((ing.deletion_timestamp ≢ none)
              ⊎ ((cfg.is_create_blocked ≡ false)
                  ⊎ Mem
                      (record { namespace = ing.namespace; name = ing.name })
                      cfg.create_allow_list))
    by_origins [] e t f absent = inl e
    by_origins (o ∷ os) e (some t) f absent = inr (inl (λ g. cc))
    by_origins (o ∷ os) e none f absent = inr (
        inr (
          is_creation_allowed-cases cfg ing (elim (Bool-cases (is_creation_allowed cfg ing)) [
            | inl free ↦ free
            | inr shut ↦ absurd (err-ne-ok _ (rw (absent, e, f, shut) at h))
          ])))

module _ (x : Service) where
  -- A reconciliation of a group goes on past its checks only if the distribution that it computed is
  -- known at AWS, or has no custom origins, or the Ingress is being deleted, or creation is not
  -- blocked, or the Ingress is in the list of those for which creation is allowed.
  pub reconcile_group-MayGoOn :
      (ing : Ingress) (reconciling : CdnIngress) (w : World x) (errors : List GoError)
      → (reconcile_group x ing reconciling w).0 ≡ ok errors
      → (ings : List CdnIngress) × (desired : Distribution) × ((desired_state x reconciling w).0
          ≡ ok (ings, desired))
        × MayGoOn x.config desired ing
  unfolding reconcile_group
  reconcile_group-MayGoOn ing reconciling w errors h =
      let (state, computed, h1) = >>=-ok (computing x ing reconciling) _ w h in
      let w1 = (computing x ing reconciling w).1 in
      let (_, valid, h2) = >>=-ok (validating x ing state) _ w1 h1 in
      (
        state.0,
        state.1,
        computing-ok x ing reconciling w state computed,
        validate_creation-MayGoOn x.config state.1 ing
            (or_failed-ok x ing (lift (validate_creation x.config state.1 ing)) w1 valid),
      )
