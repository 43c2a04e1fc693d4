-- ===== src/K8s/Shared/Params.antt =====
-- The shared parameters hold each path of each Ingress, with all the functions it asks for.
use mathlib.Core.List.{List, [], ◌∷◌}
use mathlib.Core.Path.{subst}
use mathlib.Core.Option.{none-ne-some, some-injective}
use cdn_origin_controller.Prelude.{
  String, some, ◌≡◌, sym, ap, ◌∙◌, ◌⊎◌, inl, inr, arith, ◌==◌, string_eq, Option-cases, Bool-cases,
  All, ==→≡,
}
use cdn_origin_controller.GoError.{ok, >>=-eq-ok, annotated, annotated-eq-ok, ok-injective}
use cdn_origin_controller.GoMap.{lookup}
use cdn_origin_controller.K8s.FunctionAssociations.{FunctionAssociations}
use cdn_origin_controller.K8s.Ingress.{IngressPath, CdnIngress}
use cdn_origin_controller.K8s.Shared.{
  PathKey, path_key, path_key_eq, PathsByOrigin, inner_or_empty, list_or_nil, merged_paths_from,
  paths_of, map_of_origin_host_to_path, merged_paths, merged_web_acl, StringSets,
  SharedIngressParams, new_shared_ingress_params, paths_from_origin,
}
use cdn_origin_controller.K8s.Shared.Paths.{
  PathMap, IsCovered, Has, HasAll, Holds, merged_paths_from-All,
}

-- Some path of the list has the pattern and the type of `p`, and its functions.
abbrev pub HasPath : List IngressPath → IngressPath → Type 0
HasPath [] p = ⊥
HasPath (q ∷ qs) p =
    ((path_key q ≡ path_key p) × IsCovered p.function_associations q.function_associations)
    ⊎ HasPath qs p

Has-HasPath :
    (m : PathMap) (p : IngressPath)
    → Has m (path_key p) p.function_associations
    → HasPath (paths_of m) p
unfolding paths_of lookup
Has-HasPath [] p h = absurd (none-ne-some _ h.found)
Has-HasPath ((k, fa) ∷ m) p h = elim (Bool-cases (k == path_key p)) [
  | inl same ↦ inl (
    ==→≡ k (path_key p) same,
    subst (IsCovered p.function_associations) (sym (some-injective _ _ (rw same at h.found)))
        h.covered,
  )
  | inr other ↦ inr (
      Has-HasPath m p
        (record { merged = h.merged; found = rw other at h.found; covered = h.covered }))
]

lookup-map_of :
    (acc : PathsByOrigin) (host : String) (kv : PathKey × FunctionAssociations) (inner : PathMap)
    → lookup host acc ≡ some (kv ∷ inner)
    → lookup host (map_of_origin_host_to_path acc) ≡ some (paths_of (kv ∷ inner))
unfolding lookup map_of_origin_host_to_path
lookup-map_of [] host kv inner h = cc
lookup-map_of ((k, []) ∷ acc) host kv inner h = ground (arith, lookup-map_of acc host kv inner)
lookup-map_of ((k, kv' ∷ inner') ∷ acc) host kv inner h = elim (Bool-cases (k == host)) [
  | inl same ↦ rw same (ap some (ap paths_of (some-injective _ _ (rw same at h))))
  | inr other ↦ rw other (lookup-map_of acc host kv inner (rw other at h))
]

origin-HasPath :
    (acc : PathsByOrigin) (host : String) (p : IngressPath)
    → Has (inner_or_empty (lookup host acc)) (path_key p) p.function_associations
    → HasPath (list_or_nil (lookup host (map_of_origin_host_to_path acc))) p
unfolding lookup
origin-HasPath acc host p h = elim (Option-cases (lookup host acc)) [
  | inl absent ↦ absurd (none-ne-some _ (rw absent at h.found))
  | inr (inner, there) ↦ go inner there
]
  where
    go :
        (inner : PathMap)
        → lookup host acc ≡ some inner
        → HasPath (list_or_nil (lookup host (map_of_origin_host_to_path acc))) p
    go [] there = absurd (none-ne-some _ (rw there at h.found))
    go (kv ∷ inner) there =
        rw (lookup-map_of acc host kv inner there) (Has-HasPath (kv ∷ inner) p (rw there at h))

origin-All :
    (acc : PathsByOrigin) (host : String) (ps : List IngressPath)
    → HasAll (inner_or_empty (lookup host acc)) ps
    → All (HasPath (list_or_nil (lookup host (map_of_origin_host_to_path acc)))) ps
origin-All acc host [] h = tt
origin-All acc host (p ∷ ps) (here, h) = (origin-HasPath acc host p here, origin-All acc host ps h)

-- The paths of the Ingress are paths of its origin in the shared parameters.
abbrev pub Shares : SharedIngressParams → CdnIngress → Type 0
Shares sp ing = All (HasPath (paths_from_origin sp ing.origin_host)) ing.unmerged_paths

shared-All :
    (acc : PathsByOrigin) (acl : String) (ings : List CdnIngress)
    → All (Holds acc) ings
    → All (Shares (record { web_acl_arn = acl; paths = map_of_origin_host_to_path acc })) ings
unfolding paths_from_origin
shared-All acc acl [] h = tt
shared-All acc acl (ing ∷ ings) (here, h) =
    (origin-All acc ing.origin_host ing.unmerged_paths here, shared-All acc acl ings h)

-- If shared parameters are found then every path of every Ingress is among the paths of its
-- origin, with the same pattern and type and with all the functions that the Ingress asks for.
pub new_shared_ingress_params-All :
    (sets : StringSets) (ings : List CdnIngress) {sp : SharedIngressParams}
    → new_shared_ingress_params sets ings ≡ ok sp
    → All (Shares sp) ings
unfolding new_shared_ingress_params merged_paths
new_shared_ingress_params-All sets ings h =
    let (acl, _, rest) = >>=-eq-ok (annotated _ (merged_web_acl sets ings)) _ h in
    let (paths, merged, made) = >>=-eq-ok (annotated _ (merged_paths ings)) _ rest in
    let (acc, from, mapped) =
      >>=-eq-ok (merged_paths_from [] ings) _ (annotated-eq-ok _ _ merged) in
    let all = shared-All acc acl ings (merged_paths_from-All [] ings from) in
    subst (λ t. All (Shares t) ings)
      (ap (λ ps. record { web_acl_arn = acl; paths = ps }) (ok-injective mapped)
        ∙ ok-injective made)
      all
