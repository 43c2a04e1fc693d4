-- ===== src/K8s/FunctionAssociations/Validity.antt =====
-- What validation accepts, and that merging does not keep it.
use mathlib.Core.Path.{subst}
use cdn_origin_controller.Prelude.{
  String, ◌≡◌, refl, ap, inl, inr, ◌⊎◌, ◌↔◌, ◌≢◌, Bool, true, false, not, Option, none, some, arith,
  string_eq,
}
use cdn_origin_controller.GoError.{ok, >>=-eq-ok, annotated, annotated-eq-ok}
use cdn_origin_controller.GoString.{nonempty_iff}
use cdn_origin_controller.K8s.FunctionAssociations.{
  ViewerRequestFunction, ViewerFunction, OriginFunction, OriginRequestFunction,
  FunctionAssociations, no_associations, function_type_edge, function_type_cloudfront, fail_if,
  validate_viewer_function, validate_viewer_request, validate_viewer_response,
  validate_origin_function, validate_origin_request, validate_origin_response, is_compatible_with,
  validate, merge,
}
use cdn_origin_controller.K8s.FunctionAssociations.Merging.{merge_iff}

-- The function has an ARN, and a known type.
abbrev pub IsViewerValid : ViewerFunction → Type 0
IsViewerValid f =
    (f.arn ≢ "")
    × ((f.function_type ≡ function_type_edge) ⊎ (f.function_type ≡ function_type_cloudfront))

-- A viewer request function of CloudFront cannot include the body.
abbrev pub IsRequestValid : Option ViewerRequestFunction → Type 0
IsRequestValid none = Unit
IsRequestValid (some f) =
    IsViewerValid f.viewer_function
    × ((f.function_type ≡ function_type_cloudfront) → f.include_body ≡ false)

abbrev pub IsResponseValid : Option ViewerFunction → Type 0
IsResponseValid none = Unit
IsResponseValid (some f) = IsViewerValid f

abbrev pub IsOriginRequestValid : Option OriginRequestFunction → Type 0
IsOriginRequestValid none = Unit
IsOriginRequestValid (some f) = f.arn ≢ ""

abbrev pub IsOriginResponseValid : Option OriginFunction → Type 0
IsOriginResponseValid none = Unit
IsOriginResponseValid (some f) = f.arn ≢ ""

-- The two viewer functions have one type.
abbrev pub IsCompatible : Option ViewerRequestFunction → Option ViewerFunction → Type 0
IsCompatible none y = Unit
IsCompatible (some f) none = Unit
IsCompatible (some f) (some g) = f.function_type ≡ g.function_type

pub record IsValid (fa : FunctionAssociations) : Type 0 where
  pub viewer_request : IsRequestValid fa.viewer_request
  pub viewer_response : IsResponseValid fa.viewer_response
  pub origin_request : IsOriginRequestValid fa.origin_request
  pub origin_response : IsOriginResponseValid fa.origin_response
  pub compatible : IsCompatible fa.viewer_request fa.viewer_response

viewer_function_iff : (f : ViewerFunction) → (validate_viewer_function f ≡ ok tt) ↔ IsViewerValid f
unfolding validate_viewer_function
viewer_function_iff f =
    (λ h. ground (arith, nonempty_iff f.arn), λ v. ground (arith, nonempty_iff f.arn))

viewer_request_iff :
    (x : Option ViewerRequestFunction) → (validate_viewer_request x ≡ ok tt) ↔ IsRequestValid x
unfolding validate_viewer_request
viewer_request_iff none = (λ h. tt, λ v. refl)
viewer_request_iff (some f) = (
  λ h.
      let (_, p, q) = >>=-eq-ok (validate_viewer_function f.viewer_function) _ h in
      ((viewer_function_iff f.viewer_function).0 p, λ e. ground arith),
  λ v. rw ((viewer_function_iff f.viewer_function).1 v.0) (ground arith),
)

viewer_response_iff :
    (x : Option ViewerFunction) → (validate_viewer_response x ≡ ok tt) ↔ IsResponseValid x
unfolding validate_viewer_response
viewer_response_iff none = (λ h. tt, λ v. refl)
viewer_response_iff (some f) = viewer_function_iff f

origin_request_iff :
    (x : Option OriginRequestFunction)
    → (validate_origin_request x ≡ ok tt) ↔ IsOriginRequestValid x
unfolding validate_origin_request validate_origin_function
origin_request_iff none = (λ h. tt, λ v. refl)
origin_request_iff (some f) =
    (λ h. ground (arith, nonempty_iff f.arn), λ v. ground (arith, nonempty_iff f.arn))

origin_response_iff :
    (x : Option OriginFunction) → (validate_origin_response x ≡ ok tt) ↔ IsOriginResponseValid x
unfolding validate_origin_response validate_origin_function
origin_response_iff none = (λ h. tt, λ v. refl)
origin_response_iff (some f) =
    (λ h. ground (arith, nonempty_iff f.arn), λ v. ground (arith, nonempty_iff f.arn))

IsCompatible-iff :
    (x : Option ViewerRequestFunction) (y : Option ViewerFunction)
    → (is_compatible_with x y ≡ true) ↔ IsCompatible x y
unfolding is_compatible_with
IsCompatible-iff none y = (λ h. tt, λ v. refl)
IsCompatible-iff (some f) none = (λ h. tt, λ v. refl)
IsCompatible-iff (some f) (some g) = (λ h. ground arith, λ v. ground arith)

fail_if-eq-ok : (b : Bool) (text : String) → fail_if (not b) text ≡ ok tt → b ≡ true
fail_if-eq-ok true text h = refl
fail_if-eq-ok false text h = cc

-- The check accepts exactly the associations that are valid: every function has an ARN and a
-- known type, CloudFront functions do not include the body, and the viewer functions are of one
-- type.
pub validate_iff : (fa : FunctionAssociations) → (validate fa ≡ ok tt) ↔ IsValid fa
unfolding validate
validate_iff fa = (
  λ h.
      let (_, p, h1) = >>=-eq-ok (annotated _ (validate_viewer_request fa.viewer_request)) _ h in
      let (_, q, h2) = >>=-eq-ok (annotated _ (validate_viewer_response fa.viewer_response)) _ h1 in
      let (_, r, h3) = >>=-eq-ok (annotated _ (validate_origin_request fa.origin_request)) _ h2 in
      let (_, s, h4) = >>=-eq-ok (annotated _ (validate_origin_response fa.origin_response)) _ h3 in
      record {
        viewer_request = (viewer_request_iff _).0 (annotated-eq-ok _ _ p);
        viewer_response = (viewer_response_iff _).0 (annotated-eq-ok _ _ q);
        origin_request = (origin_request_iff _).0 (annotated-eq-ok _ _ r);
        origin_response = (origin_response_iff _).0 (annotated-eq-ok _ _ s);
        compatible = (IsCompatible-iff _ _).0 (fail_if-eq-ok _ _ h4);
      },
  λ v. rw (
    (viewer_request_iff _).1 v.viewer_request,
    (viewer_response_iff _).1 v.viewer_response,
    (origin_request_iff _).1 v.origin_request,
    (origin_response_iff _).1 v.origin_response,
    (IsCompatible-iff _ _).1 v.compatible,
  ),
)

-- Where one side has only a viewer request function beside its origin functions, and the other only a
-- viewer response function of another type, the merge succeeds, and what comes out is not valid.
pub merge-not-valid :
    (a b : FunctionAssociations) {f : ViewerRequestFunction} {g : ViewerFunction}
    → a.viewer_request ≡ some f
    → a.viewer_response ≡ none
    → b ≡ record no_associations { viewer_response = some g }
    → f.function_type ≢ g.function_type
    → (c : FunctionAssociations) × (merge a b ≡ ok c) × (validate c ≢ ok tt)
merge-not-valid a b {f} {g} p q only differ = (
  record a { viewer_response = some g },
  (merge_iff a b _).1 (record {
    viewer_request = inl (ap (λ t. t.viewer_request) only, refl);
    viewer_response = inr (inl (q, ap (λ t. t.viewer_response) only));
    origin_request = inl (ap (λ t. t.origin_request) only, refl);
    origin_response = inl (ap (λ t. t.origin_response) only, refl);
  }),
  λ v. differ (
      subst (λ o. IsCompatible o (some g)) p
        ((validate_iff (record a { viewer_response = some g })).0 v).compatible),
)
