-- ===== src/K8s/FunctionAssociations.antt =====
-- internal/k8s/function_association.go: the edge functions of a path, one slot for each event.
pub mod Merging
pub mod Validity
use mathlib.Core.Option
use cdn_origin_controller.Prelude.{
  String, Bool, true, false, not, ◌&&◌, ◌||◌, Option, none, some, ◌==◌, string_eq, if◌then◌else◌,
}
use cdn_origin_controller.GoError.{GoError, new, Result, ok, err, panic, ◌>>=◌, ◌>>◌, annotated}
use cdn_origin_controller.GoString.{nonempty}

-- `FunctionType`
abbrev pub function_type_edge : String
function_type_edge = "edge"

abbrev pub function_type_cloudfront : String
function_type_cloudfront = "cloudfront"

pub record ViewerFunction : Type 0 where
  pub arn : String
  pub function_type : String

pub record ViewerRequestFunction : Type 0 where
  pub viewer_function : ViewerFunction
  pub open viewer_function use *
  pub include_body : Bool

pub record OriginFunction : Type 0 where
  pub arn : String

pub record OriginRequestFunction : Type 0 where
  pub origin_function : OriginFunction
  pub open origin_function use *
  pub include_body : Bool

pub record FunctionAssociations : Type 0 where
  pub viewer_request : Option ViewerRequestFunction
  pub viewer_response : Option ViewerFunction
  pub origin_request : Option OriginRequestFunction
  pub origin_response : Option OriginFunction

abbrev pub no_associations : FunctionAssociations
no_associations = record {
  viewer_request = none;
  viewer_response = none;
  origin_request = none;
  origin_response = none;
}

-- `if cond { return err }` before what follows.
abbrev pub fail_if : Bool → String → Result (Unit {0})
fail_if true text = err (new text)
fail_if false text = ok tt

-- `(f *ViewerFunction) validate()` at a pointer that is not nil.
unfoldable pub validate_viewer_function : ViewerFunction → Result (Unit {0})
validate_viewer_function f = do
  fail_if (not (nonempty f.arn)) "function arn must be informed"
  fail_if
      (not (f.function_type == function_type_edge)
        && not (f.function_type == function_type_cloudfront))
      "invalid function type"

unfoldable pub validate_viewer_response : Option ViewerFunction → Result (Unit {0})
unfolding validate_viewer_function
validate_viewer_response none = ok tt
validate_viewer_response (some f) = validate_viewer_function f

unfoldable pub validate_viewer_request : Option ViewerRequestFunction → Result (Unit {0})
unfolding validate_viewer_function
validate_viewer_request none = ok tt
validate_viewer_request (some f) = do
  validate_viewer_function f.viewer_function
  fail_if (f.function_type == function_type_cloudfront && f.include_body)
      "includeBody is only supported for functionType edge"

unfoldable pub validate_origin_function : OriginFunction → Result (Unit {0})
validate_origin_function f = fail_if (not (nonempty f.arn)) "function arn must be informed"

unfoldable pub validate_origin_response : Option OriginFunction → Result (Unit {0})
unfolding validate_origin_function
validate_origin_response none = ok tt
validate_origin_response (some f) = validate_origin_function f

unfoldable pub validate_origin_request : Option OriginRequestFunction → Result (Unit {0})
unfolding validate_origin_function
validate_origin_request none = ok tt
validate_origin_request (some f) = validate_origin_function f.origin_function

unfoldable pub is_compatible_with : Option ViewerRequestFunction → Option ViewerFunction → Bool
is_compatible_with none response = true
is_compatible_with (some f) none = true
is_compatible_with (some f) (some response) = f.function_type == response.function_type

unfoldable pub validate : FunctionAssociations → Result (Unit {0})
validate fa = do
  annotated "invalid viewerRequest" (validate_viewer_request fa.viewer_request)
  annotated "invalid viewerResponse" (validate_viewer_response fa.viewer_response)
  annotated "invalid originRequest" (validate_origin_request fa.origin_request)
  annotated "invalid originResponse" (validate_origin_response fa.origin_response)
  fail_if (not (is_compatible_with fa.viewer_request fa.viewer_response))
      "different function types informed for viewerResponse and viewerRequest"

-- The copies of the four pointers' targets.
unfoldable pub deep_copy : FunctionAssociations → FunctionAssociations
deep_copy fa = record {
  viewer_request =
      Option.map
        (λ f. record {
          viewer_function = record { arn = f.arn; function_type = f.function_type };
          include_body = f.include_body;
        })
        fa.viewer_request;
  viewer_response =
      Option.map (λ f. record { arn = f.arn; function_type = f.function_type }) fa.viewer_response;
  origin_request =
      Option.map
        (λ f. record { origin_function = record { arn = f.arn }; include_body = f.include_body })
        fa.origin_request;
  origin_response = Option.map (λ f. record { arn = f.arn }) fa.origin_response;
}

-- `==` on booleans
abbrev pub same_flag : Bool → Bool → Bool
same_flag true b = b
same_flag false b = not b

-- Each slot of `Merge`: two functions must agree, and one alone is kept.
unfoldable pub merge_viewer_request :
    Option ViewerRequestFunction
    → Option ViewerRequestFunction
    → Result (Option ViewerRequestFunction)
merge_viewer_request (some f) (some g) = do
  fail_if (not (f.arn == g.arn)) "viewer request function informed twice with different ARNs"
  fail_if (not (f.function_type == g.function_type))
      "viewer request function informed twice with different function types"
  fail_if (not (same_flag f.include_body g.include_body))
      "viewer request function informed twice with different body inclusion configuration"
  ok (some f)
merge_viewer_request (some f) none = ok (some f)
merge_viewer_request none g = ok g

unfoldable pub merge_viewer_response :
    Option ViewerFunction → Option ViewerFunction → Result (Option ViewerFunction)
merge_viewer_response (some f) (some g) = do
  fail_if (not (f.arn == g.arn)) "viewer response function informed twice with different ARNs"
  fail_if (not (f.function_type == g.function_type))
      "viewer response function informed twice with different function types"
  ok (some f)
merge_viewer_response (some f) none = ok (some f)
merge_viewer_response none g = ok g

unfoldable pub merge_origin_request :
    Option OriginRequestFunction
    → Option OriginRequestFunction
    → Result (Option OriginRequestFunction)
merge_origin_request (some f) (some g) = do
  fail_if (not (f.arn == g.arn)) "origin request function informed twice with different ARNs"
  fail_if (not (same_flag f.include_body g.include_body))
      "origin request function informed twice with different body inclusion configuration"
  ok (some f)
merge_origin_request (some f) none = ok (some f)
merge_origin_request none g = ok g

unfoldable pub merge_origin_response :
    Option OriginFunction → Option OriginFunction → Result (Option OriginFunction)
merge_origin_response (some f) (some g) = do
  fail_if (not (f.arn == g.arn)) "origin response function informed twice with different ARNs"
  ok (some f)
merge_origin_response (some f) none = ok (some f)
merge_origin_response none g = ok g

unfoldable pub merge_slots :
    FunctionAssociations → FunctionAssociations → Result FunctionAssociations
merge_slots fa other = do
  viewer_request ← merge_viewer_request fa.viewer_request other.viewer_request
  viewer_response ← merge_viewer_response fa.viewer_response other.viewer_response
  origin_request ← merge_origin_request fa.origin_request other.origin_request
  origin_response ← merge_origin_response fa.origin_response other.origin_response
  ok (record {
    viewer_request = viewer_request;
    viewer_response = viewer_response;
    origin_request = origin_request;
    origin_response = origin_response;
  })

-- Either side is copied first.
unfoldable pub merge : FunctionAssociations → FunctionAssociations → Result FunctionAssociations
merge fa other = merge_slots (deep_copy fa) (deep_copy other)

abbrev is_nil {ℓ} : {A : Type ℓ} → Option A → Bool
is_nil none = true
is_nil (some a) = false

unfoldable pub is_empty : FunctionAssociations → Bool
is_empty fa =
    is_nil fa.viewer_request
    && (is_nil fa.viewer_response && (is_nil fa.origin_request && is_nil fa.origin_response))

unfoldable pub new_fa_from_viewer_function_arn : String → FunctionAssociations
new_fa_from_viewer_function_arn arn = record no_associations {
  viewer_request = some (record {
    viewer_function = record { arn = arn; function_type = function_type_cloudfront };
    include_body = false;
  });
}
