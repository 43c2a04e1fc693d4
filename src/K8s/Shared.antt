-- ===== src/K8s/Shared.antt =====
-- internal/k8s/ingress.go: the parameters that several Ingresses of a group share. The string sets
-- of the Kubernetes libraries are a parameter.
pub mod Acl
pub mod Params
pub mod Paths
use mathlib.Core.List.{List, [], ◌∷◌, ◌++◌}
use cdn_origin_controller.Prelude.{
  String, Bool, true, false, Option, none, some, ℕ, zero, suc, ◌==◌, string_eq, Eq, if◌then◌else◌,
  length, ◌≡◌, ◌⊎◌, ◌||◌,
}
use cdn_origin_controller.GoError.{new, Result, ok, err, panic, ◌>>=◌, annotated}
use cdn_origin_controller.GoMap.{GoMap, lookup, insert}
use cdn_origin_controller.GoString.{nonempty}
use cdn_origin_controller.Strhelper.{contains}
use cdn_origin_controller.Strhelper.Laws.{Nodup}
use cdn_origin_controller.K8s.FunctionAssociations.{FunctionAssociations, merge}
use cdn_origin_controller.K8s.Ingress.{IngressPath, CdnIngress}

-- `sets.String`, as far as the program uses it.
pub record StringSets : Type 1 where
  pub Set : Type 0
  pub new_string : Set
  pub insert : Set → String → Set
  pub list : Set → List String
  pub pop_any : Set → String

-- What the documentation of `sets.String` says: a set lists its members, once each, and popping
-- gives one of them, or "" if there is none.
pub record IsLawful (sets : StringSets) : Type 0 where
  pub list-new_string : sets.list sets.new_string ≡ []
  pub contains-insert :
      (s : sets.Set) (a b : String)
      → contains (sets.list (sets.insert s a)) b ≡ (a == b || contains (sets.list s) b)
  pub list-Nodup : (s : sets.Set) → Nodup (sets.list s)
  pub pop_any-nil : (s : sets.Set) → sets.list s ≡ [] → sets.pop_any s ≡ ""
  pub pop_any-mem :
      (s : sets.Set) → (sets.list s ≡ []) ⊎ (contains (sets.list s) (sets.pop_any s) ≡ true)

-- `Path` as a key, without its associations.
pub record PathKey : Type 0 where
  pub path_pattern : String
  pub path_type : String

path_key_discrete : Discrete PathKey
path_key_discrete = hlevel string_eq.dec

instance unfoldable pub path_key_eq : Eq PathKey
unfolding path_key_discrete
path_key_eq = record { dec = path_key_discrete }

abbrev pub PathsByOrigin : Type 0
PathsByOrigin = GoMap String (GoMap PathKey FunctionAssociations)

abbrev pub path_key : IngressPath → PathKey
path_key p = record { path_pattern = p.path_pattern; path_type = p.path_type }

-- One path of an Ingress, merged with the associations seen before at the same path.
unfoldable pub merge_path :
    GoMap PathKey FunctionAssociations → IngressPath → Result (GoMap PathKey FunctionAssociations)
merge_path m p = elim (lookup (path_key p) m) [
  | none ↦ ok (insert (path_key p) p.function_associations m)
  | some existing ↦ do
    merged ← annotated "conflicting function associations" (merge existing p.function_associations)
    ok (insert (path_key p) merged m)
]

unfoldable pub merge_ingress_paths :
    GoMap PathKey FunctionAssociations
    → List IngressPath
    → Result (GoMap PathKey FunctionAssociations)
merge_ingress_paths m [] = ok m
merge_ingress_paths m (p ∷ ps) = do m' ← merge_path m p; merge_ingress_paths m' ps

abbrev pub inner_or_empty :
    Option (GoMap PathKey FunctionAssociations) → GoMap PathKey FunctionAssociations
inner_or_empty none = []
inner_or_empty (some m) = m

unfoldable pub merged_paths_from : PathsByOrigin → List CdnIngress → Result PathsByOrigin
merged_paths_from acc [] = ok acc
merged_paths_from acc (ing ∷ ings) = do
  inner ← merge_ingress_paths (inner_or_empty (lookup ing.origin_host acc)) ing.unmerged_paths
  merged_paths_from (insert ing.origin_host inner acc) ings

unfoldable pub paths_of : GoMap PathKey FunctionAssociations → List IngressPath
paths_of [] = []
paths_of ((k, fa) ∷ m) =
    record { path_pattern = k.path_pattern; path_type = k.path_type; function_associations = fa }
    ∷ paths_of m

-- An origin without paths is left out, as appending nothing to a map's value does.
unfoldable pub map_of_origin_host_to_path : PathsByOrigin → GoMap String (List IngressPath)
unfolding paths_of
map_of_origin_host_to_path [] = []
map_of_origin_host_to_path ((host, []) ∷ m) = map_of_origin_host_to_path m
map_of_origin_host_to_path ((host, kv ∷ inner) ∷ m) =
    (host, paths_of (kv ∷ inner)) ∷ map_of_origin_host_to_path m

unfoldable pub merged_paths : List CdnIngress → Result (GoMap String (List IngressPath))
merged_paths ings = do merged ← merged_paths_from [] ings; ok (map_of_origin_host_to_path merged)

pub record SharedIngressParams : Type 0 where
  pub web_acl_arn : String
  pub paths : GoMap String (List IngressPath)

abbrev pub list_or_nil : Option (List IngressPath) → List IngressPath
list_or_nil none = []
list_or_nil (some ps) = ps

unfoldable pub paths_from_origin : SharedIngressParams → String → List IngressPath
paths_from_origin sp origin_host = list_or_nil (lookup origin_host sp.paths)

-- `len(set) > 1`
abbrev more_than_one : List String → Bool
more_than_one [] = false
more_than_one (x ∷ []) = false
more_than_one (x ∷ y ∷ ys) = true

module _ (sets : StringSets) where
  unfoldable pub web_acl_arns : sets.Set → List CdnIngress → sets.Set
  web_acl_arns acls [] = acls
  web_acl_arns acls (ing ∷ ings) =
      web_acl_arns
        (if nonempty ing.unmerged_web_acl_arn
          then sets.insert acls ing.unmerged_web_acl_arn
          else acls)
        ings

  unfoldable pub pop_single : sets.Set → Result String
  pop_single acls =
      if more_than_one (sets.list acls)
      then err (new "more than one ACL specified")
      else ok (sets.pop_any acls)

  unfoldable pub merged_web_acl : List CdnIngress → Result String
  merged_web_acl ings = pop_single (web_acl_arns sets.new_string ings)

  -- `fmt.Errorf("%w: %v", errSharedParamsConflicting…, err)` keeps the sentinel error.
  unfoldable pub new_shared_ingress_params : List CdnIngress → Result SharedIngressParams
  new_shared_ingress_params ings = do
    acl ← annotated "conflicting WAF WebACL ARNs" (merged_web_acl ings)
    paths ← annotated "conflicting path configuration" (merged_paths ings)
    ok (record { web_acl_arn = acl; paths = paths })
