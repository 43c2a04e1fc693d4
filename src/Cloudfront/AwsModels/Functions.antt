-- ===== src/Cloudfront/AwsModels/Functions.antt =====
-- Every function of a behavior is sent to AWS, as one of the two kinds, and none is counted wrong.
use Prim.Native.Nat.{◌+◌}
use mathlib.Core.Bool.{false≢true}
use text.Mathlib.TextEquality.{eq_iff}
use mathlib.Core.List.{List, [], ◌∷◌}
use cdn_origin_controller.Prelude.{◌≡◌, refl, ap, string_eq, length, arith, suc, ◌≢◌}
use cdn_origin_controller.K8s.FunctionAssociations.{function_type_cloudfront, function_type_edge}
use cdn_origin_controller.Cloudfront.Function.{
  Function, type_of_function, request_cloudfront_function, request_edge_function,
  response_cloudfront_function, response_edge_function,
}
use cdn_origin_controller.Cloudfront.Origin.{Behavior}
use cdn_origin_controller.Cloudfront.AwsModels.{
  new_aws_function_association, new_aws_lambda_function_association, functions_of_type,
  new_cache_behavior,
}

length-function_association :
    (fns : List Function) → length (new_aws_function_association fns) ≡ length fns
unfolding new_aws_function_association
length-function_association [] = refl
length-function_association (fn ∷ fns) = ap suc (length-function_association fns)

length-lambda_function_association :
    (fns : List Function) → length (new_aws_lambda_function_association fns) ≡ length fns
unfolding new_aws_lambda_function_association
length-lambda_function_association [] = refl
length-lambda_function_association (fn ∷ fns) = ap suc (length-lambda_function_association fns)

edge-ne-cloudfront : function_type_edge ≢ function_type_cloudfront
edge-ne-cloudfront e = false≢true ((eq_iff function_type_edge function_type_cloudfront).1 e)

length-functions_of_type :
    (fns : List Function)
    → length (functions_of_type function_type_cloudfront fns)
        + length (functions_of_type function_type_edge fns)
      ≡ length fns
unfolding functions_of_type type_of_function
length-functions_of_type [] = refl
length-functions_of_type (request_cloudfront_function arn event ∷ fns) =
    ground (arith, length-functions_of_type fns, edge-ne-cloudfront)
length-functions_of_type (request_edge_function arn event include_body ∷ fns) =
    ground (arith, length-functions_of_type fns, edge-ne-cloudfront)
length-functions_of_type (response_cloudfront_function arn event ∷ fns) =
    ground (arith, length-functions_of_type fns, edge-ne-cloudfront)
length-functions_of_type (response_edge_function arn event ∷ fns) =
    ground (arith, length-functions_of_type fns, edge-ne-cloudfront)

-- The two lists of functions of a cache behavior have the lengths that are sent with them, and
-- together they have as many functions as the behavior.
pub new_cache_behavior-quantities :
    (b : Behavior)
    → (length (new_cache_behavior b).function_associations.items
        ≡ (new_cache_behavior b).function_associations.quantity)
      × (length (new_cache_behavior b).lambda_function_associations.items
          ≡ (new_cache_behavior b).lambda_function_associations.quantity)
      × ((new_cache_behavior b).function_associations.quantity
            + (new_cache_behavior b).lambda_function_associations.quantity
          ≡ length b.function_associations)
unfolding new_cache_behavior
new_cache_behavior-quantities b = (
  length-function_association _,
  length-lambda_function_association _,
  length-functions_of_type b.function_associations,
)
