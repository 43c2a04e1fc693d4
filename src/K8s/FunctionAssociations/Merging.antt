-- ===== src/K8s/FunctionAssociations/Merging.antt =====
-- Merging is the union of the slots where they agree, so its order does not matter.
use mathlib.Core.Path.{subst}
use cdn_origin_controller.Prelude.{
  ◌≡◌, refl, ◌⊎◌, inl, inr, ◌↔◌, Option, none, some, arith, string_eq,
}
use cdn_origin_controller.GoError.{ok, >>=-eq-ok, ok-injective}
use cdn_origin_controller.K8s.FunctionAssociations.{
  ViewerRequestFunction, ViewerFunction, OriginFunction, OriginRequestFunction,
  FunctionAssociations, deep_copy, merge_viewer_request, merge_viewer_response,
  merge_origin_request, merge_origin_response, merge_slots, merge,
}

-- `z` is the union of two slots that agree.
abbrev pub IsUnion {ℓ} : {A : Type ℓ} → Option A → Option A → Option A → Type ℓ
IsUnion x y z = ((y ≡ none) × (x ≡ z)) ⊎ (((x ≡ none) × (y ≡ z)) ⊎ ((x ≡ z) × (y ≡ z)))

-- `c` is the union of the associations, slot by slot.
pub record IsMerged (a b c : FunctionAssociations) : Type 0 where
  pub viewer_request : IsUnion a.viewer_request b.viewer_request c.viewer_request
  pub viewer_response : IsUnion a.viewer_response b.viewer_response c.viewer_response
  pub origin_request : IsUnion a.origin_request b.origin_request c.origin_request
  pub origin_response : IsUnion a.origin_response b.origin_response c.origin_response

pub deep_copy-eq : (fa : FunctionAssociations) → deep_copy fa ≡ fa
unfolding deep_copy
deep_copy-eq fa = ground arith

merge_viewer_request_iff :
    (x y z : Option ViewerRequestFunction) → (merge_viewer_request x y ≡ ok z) ↔ IsUnion x y z
unfolding merge_viewer_request
merge_viewer_request_iff (some f) (some g) z = (λ h. inr (inr (ground arith)), λ u. ground arith)
merge_viewer_request_iff (some f) none z = (λ h. inl (ground arith), λ u. ground arith)
merge_viewer_request_iff none y z = (λ h. inr (inl (ground arith)), λ u. ground arith)

merge_viewer_response_iff :
    (x y z : Option ViewerFunction) → (merge_viewer_response x y ≡ ok z) ↔ IsUnion x y z
unfolding merge_viewer_response
merge_viewer_response_iff (some f) (some g) z = (λ h. inr (inr (ground arith)), λ u. ground arith)
merge_viewer_response_iff (some f) none z = (λ h. inl (ground arith), λ u. ground arith)
merge_viewer_response_iff none y z = (λ h. inr (inl (ground arith)), λ u. ground arith)

merge_origin_request_iff :
    (x y z : Option OriginRequestFunction) → (merge_origin_request x y ≡ ok z) ↔ IsUnion x y z
unfolding merge_origin_request
merge_origin_request_iff (some f) (some g) z = (λ h. inr (inr (ground arith)), λ u. ground arith)
merge_origin_request_iff (some f) none z = (λ h. inl (ground arith), λ u. ground arith)
merge_origin_request_iff none y z = (λ h. inr (inl (ground arith)), λ u. ground arith)

merge_origin_response_iff :
    (x y z : Option OriginFunction) → (merge_origin_response x y ≡ ok z) ↔ IsUnion x y z
unfolding merge_origin_response
merge_origin_response_iff (some f) (some g) z = (λ h. inr (inr (ground arith)), λ u. ground arith)
merge_origin_response_iff (some f) none z = (λ h. inl (ground arith), λ u. ground arith)
merge_origin_response_iff none y z = (λ h. inr (inl (ground arith)), λ u. ground arith)

IsUnion-comm {ℓ} : {A : Type ℓ} {x y z : Option A} → IsUnion x y z → IsUnion y x z
IsUnion-comm (inl h) = inr (inl h)
IsUnion-comm (inr (inl h)) = inl h
IsUnion-comm (inr (inr (p, q))) = inr (inr (q, p))

pub IsUnion-some_left {ℓ} :
    {A : Type ℓ} {x y z : Option A} {a : A} → IsUnion x y z → x ≡ some a → z ≡ some a
IsUnion-some_left (inl (p, q)) e = cc
IsUnion-some_left (inr (inl (p, q))) e = cc
IsUnion-some_left (inr (inr (p, q))) e = cc

pub IsUnion-some_right {ℓ} :
    {A : Type ℓ} {x y z : Option A} {a : A} → IsUnion x y z → y ≡ some a → z ≡ some a
IsUnion-some_right u e = IsUnion-some_left (IsUnion-comm u) e

merge_slots-IsMerged : (a b c : FunctionAssociations) → merge_slots a b ≡ ok c → IsMerged a b c
unfolding merge_slots
merge_slots-IsMerged a b c h =
    let (_, p, h1) = >>=-eq-ok (merge_viewer_request a.viewer_request b.viewer_request) _ h in
    let (_, q, h2) = >>=-eq-ok (merge_viewer_response a.viewer_response b.viewer_response) _ h1 in
    let (_, r, h3) = >>=-eq-ok (merge_origin_request a.origin_request b.origin_request) _ h2 in
    let (_, s, h4) = >>=-eq-ok (merge_origin_response a.origin_response b.origin_response) _ h3 in
    subst (λ t. IsMerged a b t) (ok-injective h4)
      (record {
        viewer_request = (merge_viewer_request_iff _ _ _).0 p;
        viewer_response = (merge_viewer_response_iff _ _ _).0 q;
        origin_request = (merge_origin_request_iff _ _ _).0 r;
        origin_response = (merge_origin_response_iff _ _ _).0 s;
      })

merge_slots_of_IsMerged : (a b c : FunctionAssociations) → IsMerged a b c → merge_slots a b ≡ ok c
unfolding merge_slots
merge_slots_of_IsMerged a b c m = rw (
  (merge_viewer_request_iff _ _ _).1 m.viewer_request,
  (merge_viewer_response_iff _ _ _).1 m.viewer_response,
  (merge_origin_request_iff _ _ _).1 m.origin_request,
  (merge_origin_response_iff _ _ _).1 m.origin_response,
)

-- Merging succeeds exactly where the slots that both fill agree, and gives their union.
pub merge_iff : (a b c : FunctionAssociations) → (merge a b ≡ ok c) ↔ IsMerged a b c
unfolding merge
merge_iff a b c =
    rw (deep_copy-eq a, deep_copy-eq b) (merge_slots-IsMerged a b c, merge_slots_of_IsMerged a b c)

-- Associations merged with themselves stay as they are.
pub merge_self : (a : FunctionAssociations) → merge a a ≡ ok a
merge_self a = (merge_iff a a a).1 (record {
  viewer_request = inr (inr (refl, refl));
  viewer_response = inr (inr (refl, refl));
  origin_request = inr (inr (refl, refl));
  origin_response = inr (inr (refl, refl));
})

-- The order of a merge does not matter: if it succeeds, so does the other order, alike.
pub merge_comm : (a b c : FunctionAssociations) → merge a b ≡ ok c → merge b a ≡ ok c
merge_comm a b c h =
    let m = (merge_iff a b c).0 h in
    (merge_iff b a c).1 (record {
      viewer_request = IsUnion-comm m.viewer_request;
      viewer_response = IsUnion-comm m.viewer_response;
      origin_request = IsUnion-comm m.origin_request;
      origin_response = IsUnion-comm m.origin_response;
    })
