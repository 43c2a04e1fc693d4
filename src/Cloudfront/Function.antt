-- ===== src/Cloudfront/Function.antt =====
-- internal/cloudfront/function.go: the functions of a behavior, from an Ingress's associations.
use mathlib.Core.List.{List, [], ◌∷◌, ◌++◌}
use cdn_origin_controller.Prelude.{String, Bool, Option, none, some, ◌==◌, string_eq, if◌then◌else◌}
use cdn_origin_controller.K8s.FunctionAssociations.{
  ViewerFunction, ViewerRequestFunction, OriginFunction, OriginRequestFunction,
  FunctionAssociations, function_type_edge, function_type_cloudfront,
}

-- The SDK's event types.
pub data EventType : Type 0 where
  viewer_request viewer_response origin_request origin_response : EventType

-- The implementations of the interface `Function`; the second is a `BodyIncluderFunction` too.
pub data Function : Type 0 where
  request_cloudfront_function : String → EventType → Function
  request_edge_function : String → EventType → (include_body : Bool) → Function
  response_cloudfront_function : String → EventType → Function
  response_edge_function : String → EventType → Function

unfoldable pub function_arn : Function → String
function_arn (request_cloudfront_function arn event) = arn
function_arn (request_edge_function arn event include_body) = arn
function_arn (response_cloudfront_function arn event) = arn
function_arn (response_edge_function arn event) = arn

unfoldable pub function_event_type : Function → EventType
function_event_type (request_cloudfront_function arn event) = event
function_event_type (request_edge_function arn event include_body) = event
function_event_type (response_cloudfront_function arn event) = event
function_event_type (response_edge_function arn event) = event

-- `Type()`
unfoldable pub type_of_function : Function → String
type_of_function (request_cloudfront_function arn event) = function_type_cloudfront
type_of_function (request_edge_function arn event include_body) = function_type_edge
type_of_function (response_cloudfront_function arn event) = function_type_cloudfront
type_of_function (response_edge_function arn event) = function_type_edge

-- `fn.(BodyIncluderFunction)` and its `IncludeBody()`.
unfoldable pub function_include_body : Function → Option Bool
function_include_body (request_cloudfront_function arn event) = none
function_include_body (request_edge_function arn event include_body) = some include_body
function_include_body (response_cloudfront_function arn event) = none
function_include_body (response_edge_function arn event) = none

unfoldable pub new_viewer_request_fn : ViewerRequestFunction → Function
new_viewer_request_fn f =
    if f.function_type == function_type_edge
    then request_edge_function f.arn viewer_request f.include_body
    else request_cloudfront_function f.arn viewer_request

unfoldable pub new_viewer_response_fn : ViewerFunction → Function
new_viewer_response_fn f =
    if f.function_type == function_type_edge
    then response_edge_function f.arn viewer_response
    else response_cloudfront_function f.arn viewer_response

unfoldable pub new_origin_request_fn : OriginRequestFunction → Function
new_origin_request_fn f = request_edge_function f.arn origin_request f.include_body

unfoldable pub new_origin_response_fn : OriginFunction → Function
new_origin_response_fn f = response_edge_function f.arn origin_response

-- `if p != nil { functions = append(functions, make(p)) }`
abbrev pub made {ℓ} : {A : Type ℓ} → (A → Function) → Option A → List Function
made make none = []
made make (some f) = make f ∷ []

unfoldable pub new_functions : FunctionAssociations → List Function
unfolding new_viewer_request_fn new_viewer_response_fn new_origin_request_fn new_origin_response_fn
new_functions fa =
    made new_viewer_request_fn fa.viewer_request
    ++ (made new_viewer_response_fn fa.viewer_response
        ++ (made new_origin_request_fn fa.origin_request
            ++ made new_origin_response_fn fa.origin_response))
