-- ===== src/K8s/Ingress.antt =====
-- internal/k8s/ingress.go: from a Kubernetes Ingress to a `CDNIngress`. The YAML library is a
-- parameter: a decoder of the tags annotation and one of the function associations annotation.
use Prim.Native.Nat.{ℕ, zero, suc, ◌+◌, ◌*◌, ◌-◌, ◌^◌, compare, Ordering}
use Prim.Native.Char.{Char, code}
use mathlib.Core.List.{List, [], ◌∷◌, ◌++◌}
use cdn_origin_controller.Prelude.{
  String, Bool, true, false, ◌&&◌, ◌||◌, Option, none, some, ◌==◌, string_eq, nat_eq, if◌then◌else◌,
  ℤ, pos, negsuc,
}
use cdn_origin_controller.GoError.{new, Result, ok, err, panic, ◌>>=◌, annotated}
use cdn_origin_controller.GoMap.{GoMap, lookup, insert}
use cdn_origin_controller.GoString.{nonempty, split}
use cdn_origin_controller.Strhelper.{append_missing}
use cdn_origin_controller.K8s.FunctionAssociations.{
  FunctionAssociations, no_associations, validate, new_fa_from_viewer_function_arn,
}
use cdn_origin_controller.K8s.Objects.{Ingress, HttpPath, NamespacedName, CdnClass, annotation}
use cdn_origin_controller.K8s.Helpers.{cdn_group_annotation, is_being_removed_from_desired_state}

abbrev pub cf_viewer_fn_annotation : String
cf_viewer_fn_annotation = "cdn-origin-controller.gympass.com/cf.viewer-function-arn"

abbrev pub cf_orig_req_policy_annotation : String
cf_orig_req_policy_annotation = "cdn-origin-controller.gympass.com/cf.origin-request-policy"

abbrev pub cf_cache_policy_annotation : String
cf_cache_policy_annotation = "cdn-origin-controller.gympass.com/cf.cache-policy"

abbrev pub cf_response_policy_annotation : String
cf_response_policy_annotation = "cdn-origin-controller.gympass.com/cf.response-policy"

abbrev pub cf_orig_resp_timeout_annotation : String
cf_orig_resp_timeout_annotation = "cdn-origin-controller.gympass.com/cf.origin-response-timeout"

abbrev pub cf_alternate_domain_names_annotation : String
cf_alternate_domain_names_annotation = "cdn-origin-controller.gympass.com/cf.alternate-domain-names"

abbrev pub cf_web_acl_arn_annotation : String
cf_web_acl_arn_annotation = "cdn-origin-controller.gympass.com/cf.web-acl-arn"

abbrev pub cf_tags_annotation : String
cf_tags_annotation = "cdn-origin-controller.gympass.com/cf.tags"

abbrev pub cf_orig_headers_annotation : String
cf_orig_headers_annotation = "cdn-origin-controller.gympass.com/cf.origin-headers"

abbrev pub cf_function_associations_annotation : String
cf_function_associations_annotation = "cdn-origin-controller.gympass.com/cf.function-associations"

abbrev pub cf_user_origin_access_public : String
cf_user_origin_access_public = "Public"

abbrev pub cf_user_origin_access_bucket : String
cf_user_origin_access_bucket = "Bucket"

-- `Path`
pub record IngressPath : Type 0 where
  pub path_pattern : String
  pub path_type : String
  pub function_associations : FunctionAssociations

pub record CdnIngress : Type 0 where
  pub namespaced_name : NamespacedName
  pub origin_host : String
  pub group : String
  pub unmerged_paths : List IngressPath
  pub origin_req_policy : String
  pub origin_headers : GoMap String String
  pub cache_policy : String
  pub response_policy : String
  pub origin_resp_timeout : ℤ
  pub alternate_domain_names : List String
  pub unmerged_web_acl_arn : String
  pub is_being_removed : Bool
  pub origin_access : String
  pub class : CdnClass
  pub tags : GoMap String String

-- The decoders of the YAML library, as the program calls them; a nil map is `none`.
pub record Yaml : Type 0 where
  pub tags : String → Result (GoMap String String)
  pub function_associations : String → Result (Option (GoMap String FunctionAssociations))

unfoldable pub alternate_domain_names : Ingress → List String
unfolding append_missing
alternate_domain_names ing =
    let value = annotation ing cf_alternate_domain_names_annotation in
    if nonempty value then append_missing [] (split value b',') else []

-- One `key=value` of the header annotation.
unfoldable pub parse_header : List String → Result (String × String)
parse_header [] = err (new "informed origin header does not follow 'key=value' format")
parse_header (k ∷ []) = err (new "informed origin header does not follow 'key=value' format")
parse_header (k ∷ v ∷ []) =
    if k == "" || v == ""
    then err (new "informed origin header does not follow 'key=value' format")
    else ok (k, v)
parse_header (k ∷ v ∷ x ∷ xs) =
    err (new "informed origin header does not follow 'key=value' format")

unfoldable pub parse_headers : GoMap String String → List String → Result (GoMap String String)
unfolding parse_header
parse_headers headers [] = ok headers
parse_headers headers (kv ∷ kvs) = do
  header ← parse_header (split kv b'=')
  parse_headers (insert header.0 header.1 headers) kvs

unfoldable pub parse_origin_headers : String → Result (GoMap String String)
unfolding parse_headers
parse_origin_headers raw = if nonempty raw then parse_headers [] (split raw b',') else ok []

-- The text names the annotation of the viewer function, as the source does.
unfoldable pub headers_v1 : Ingress → Result (GoMap String String)
unfolding parse_origin_headers
headers_v1 ing = elim (lookup cf_orig_headers_annotation ing.annotations) [
  | none ↦ ok []
  | some value ↦
      annotated "parsing origin headers from annotation viewer-function-arn"
        (parse_origin_headers value)
]

-- `strconv.ParseInt(val, 10, 64)` with its error dropped: 0 for a text that is no decimal number,
-- and the nearest bound for one out of range.
abbrev digit : Char → Option ℕ
digit c = elim (compare (code c) b'0') [
  | Ordering.lt ↦ none
  | _ ↦ elim (compare (code c) b'9') [ Ordering.gt ↦ none | _ ↦ some (code c - b'0') ]
]

digits_from : ℕ → String → Option ℕ
digits_from acc String.[] = some acc
digits_from acc (String.◌∷◌ c s) = elim (digit c) [
  | none ↦ none
  | some d ↦ digits_from (acc * 10 + d) s
]

unsigned : String → Option ℕ
unsigned String.[] = none
unsigned (String.◌∷◌ c s) = digits_from 0 (String.◌∷◌ c s)

abbrev at_most : ℕ → ℕ → ℕ
at_most bound n = elim (compare n bound) [ Ordering.gt ↦ bound | _ ↦ n ]

abbrev positive : Option ℕ → ℤ
positive none = pos 0
positive (some n) = pos (at_most (2 ^ 63 - 1) n)

abbrev negative : Option ℕ → ℤ
negative none = pos 0
negative (some zero) = pos 0
negative (some (suc n)) = negsuc (at_most (2 ^ 63 - 1) n)

unfoldable pub parse_int : String → ℤ
unfolding unsigned digits_from nat_eq
parse_int String.[] = pos 0
parse_int (String.◌∷◌ c s) =
    if code c == b'-'
    then negative (unsigned s)
    else if code c == b'+'
    then positive (unsigned s)
    else positive (unsigned (String.◌∷◌ c s))

unfoldable pub origin_resp_timeout : Ingress → ℤ
unfolding parse_int
origin_resp_timeout ing = parse_int (annotation ing cf_orig_resp_timeout_annotation)

unfoldable pub viewer_fn_arn : Ingress → String
viewer_fn_arn ing = annotation ing cf_viewer_fn_annotation

unfoldable pub origin_req_policy : Ingress → String
origin_req_policy ing = annotation ing cf_orig_req_policy_annotation

unfoldable pub cache_policy : Ingress → String
cache_policy ing = annotation ing cf_cache_policy_annotation

unfoldable pub response_policy : Ingress → String
response_policy ing = annotation ing cf_response_policy_annotation

unfoldable pub group_annotation_value : Ingress → String
group_annotation_value ing = annotation ing cdn_group_annotation

unfoldable pub web_acl_arn : Ingress → String
web_acl_arn ing = annotation ing cf_web_acl_arn_annotation

-- The paths of the rules that have an HTTP part, in their order.
unfoldable pub rule_paths : List (Option (List HttpPath)) → List HttpPath
rule_paths [] = []
rule_paths (none ∷ rules) = rule_paths rules
rule_paths (some paths ∷ rules) = paths ++ rule_paths rules

unfoldable pub paths_for_viewer_function : List HttpPath → String → List IngressPath
paths_for_viewer_function [] fn_arn = []
paths_for_viewer_function (p ∷ ps) fn_arn =
    record {
      path_pattern = p.path;
      path_type = p.path_type;
      function_associations = new_fa_from_viewer_function_arn fn_arn;
    }
    ∷ paths_for_viewer_function ps fn_arn

abbrev associations_or_none : Option FunctionAssociations → FunctionAssociations
associations_or_none none = no_associations
associations_or_none (some fa) = fa

-- The associations of a path, if they are valid; invalid ones are logged and left out.
abbrev if_valid : Result (Unit {0}) → FunctionAssociations → FunctionAssociations
if_valid (ok u) fa = fa
if_valid (err e) fa = no_associations
if_valid (panic m) fa = no_associations

unfoldable pub valid_associations : FunctionAssociations → FunctionAssociations
valid_associations fa = if_valid (validate fa) fa

unfoldable pub paths_for_function_associations :
    List HttpPath → GoMap String FunctionAssociations → List IngressPath
unfolding valid_associations
paths_for_function_associations [] fas = []
paths_for_function_associations (p ∷ ps) fas =
    record {
      path_pattern = p.path;
      path_type = p.path_type;
      function_associations = valid_associations (associations_or_none (lookup p.path fas));
    }
    ∷ paths_for_function_associations ps fas

abbrev any_entry {ℓ} : {V : Type ℓ} → GoMap String V → Bool
any_entry [] = false
any_entry (kv ∷ m) = true

module _ (yaml : Yaml) where
  unfoldable pub tags_annotation_value : Ingress → Result (GoMap String String)
  tags_annotation_value ing = elim (lookup cf_tags_annotation ing.annotations) [
    | none ↦ ok []
    | some tags ↦ annotated "invalid custom tags configuration" (yaml.tags tags)
  ]

  -- `none` is the nil map.
  unfoldable pub function_associations :
      Ingress → Result (Option (GoMap String FunctionAssociations))
  function_associations ing = elim (lookup cf_function_associations_annotation ing.annotations) [
    | none ↦ ok none
    | some text ↦ annotated "unmarshalling YAML" (yaml.function_associations text)
  ]

  abbrev map_or_empty :
      Option (GoMap String FunctionAssociations) → GoMap String FunctionAssociations
  map_or_empty none = []
  map_or_empty (some m) = m

  -- The choice between the deprecated annotation and the function associations.
  unfoldable pub choose_paths :
      Ingress → (viewer_fn : String) → GoMap String FunctionAssociations → Result (List IngressPath)
  unfolding rule_paths paths_for_viewer_function paths_for_function_associations
  choose_paths ing viewer_fn fas =
      if nonempty viewer_fn && any_entry fas
      then err (new "can't use the viewer function and function associations at the same time")
      else if nonempty viewer_fn
      then ok (paths_for_viewer_function (rule_paths ing.rules) viewer_fn)
      else ok (paths_for_function_associations (rule_paths ing.rules) fas)

  unfoldable pub paths_v1 : Ingress → Result (List IngressPath)
  unfolding choose_paths function_associations viewer_fn_arn
  paths_v1 ing = do
    fas ← annotated "parsing function associations from annotation" (function_associations ing)
    choose_paths ing (viewer_fn_arn ing) (map_or_empty fas)

  abbrev first_hostname : List String → String
  first_hostname [] = ""
  first_hostname (h ∷ hs) = h

  unfoldable pub new_cdn_ingress_from_v1 : Ingress → CdnClass → Result CdnIngress
  unfolding tags_annotation_value paths_v1 headers_v1 origin_req_policy cache_policy response_policy
      origin_resp_timeout alternate_domain_names web_acl_arn group_annotation_value
  new_cdn_ingress_from_v1 ing class = do
    tags ← tags_annotation_value ing
    paths ← paths_v1 ing
    headers ← headers_v1 ing
    ok (record {
      namespaced_name = record { namespace = ing.namespace; name = ing.name };
      origin_host = first_hostname ing.load_balancer;
      group = group_annotation_value ing;
      unmerged_paths = paths;
      origin_req_policy = origin_req_policy ing;
      origin_headers = headers;
      cache_policy = cache_policy ing;
      response_policy = response_policy ing;
      origin_resp_timeout = origin_resp_timeout ing;
      alternate_domain_names = alternate_domain_names ing;
      unmerged_web_acl_arn = web_acl_arn ing;
      is_being_removed = is_being_removed_from_desired_state ing;
      origin_access = cf_user_origin_access_public;
      class = class;
      tags = tags;
    })
