-- ===== src/K8s/Shared/Paths.antt =====
-- Merging the paths of a group loses none of the functions that an Ingress asks for.
use mathlib.Core.List.{List, [], ◌∷◌}
use mathlib.Core.Path.{subst}
use mathlib.Core.Option.{none-ne-some, some-injective}
use cdn_origin_controller.Prelude.{
  String, Option, none, some, ◌≡◌, refl, sym, ◌∙◌, ◌⊎◌, inl, inr, arith, ◌==◌, string_eq,
  Option-cases, Bool-cases, All, ==→≡,
}
use cdn_origin_controller.GoError.{ok, >>=-eq-ok, annotated, annotated-eq-ok, ok-injective}
use cdn_origin_controller.GoMap.{GoMap, lookup, insert, lookup-insert, lookup-insert_self}
use cdn_origin_controller.K8s.FunctionAssociations.{FunctionAssociations, merge}
use cdn_origin_controller.K8s.FunctionAssociations.Merging.{merge_iff, IsUnion}
use cdn_origin_controller.K8s.Ingress.{IngressPath, CdnIngress}
use cdn_origin_controller.K8s.Shared.{
  PathKey, path_key, path_key_eq, PathsByOrigin, inner_or_empty, merge_path, merge_ingress_paths,
  merged_paths_from,
}

-- A slot that is filled is the same in the other one.
abbrev pub Within {ℓ} : {A : Type ℓ} → Option A → Option A → Type ℓ
Within x z = (x ≡ none) ⊎ (x ≡ z)

-- Every function of the first associations is in the second.
pub record IsCovered (a c : FunctionAssociations) : Type 0 where
  pub viewer_request : Within a.viewer_request c.viewer_request
  pub viewer_response : Within a.viewer_response c.viewer_response
  pub origin_request : Within a.origin_request c.origin_request
  pub origin_response : Within a.origin_response c.origin_response

Within-trans {ℓ} : {A : Type ℓ} {x y z : Option A} → Within x y → Within y z → Within x z
Within-trans (inl p) q = inl p
Within-trans (inr p) (inl q) = inl (p ∙ q)
Within-trans (inr p) (inr q) = inr (p ∙ q)

Within-left {ℓ} : {A : Type ℓ} {x y z : Option A} → IsUnion x y z → Within x z
Within-left (inl (p, q)) = inr q
Within-left (inr (inl (p, q))) = inl p
Within-left (inr (inr (p, q))) = inr p

Within-right {ℓ} : {A : Type ℓ} {x y z : Option A} → IsUnion x y z → Within y z
Within-right (inl (p, q)) = inl p
Within-right (inr (inl (p, q))) = inr q
Within-right (inr (inr (p, q))) = inr q

IsCovered-refl : (a : FunctionAssociations) → IsCovered a a
IsCovered-refl a = record {
  viewer_request = inr refl;
  viewer_response = inr refl;
  origin_request = inr refl;
  origin_response = inr refl;
}

IsCovered-trans : {a b c : FunctionAssociations} → IsCovered a b → IsCovered b c → IsCovered a c
IsCovered-trans p q = record {
  viewer_request = Within-trans p.viewer_request q.viewer_request;
  viewer_response = Within-trans p.viewer_response q.viewer_response;
  origin_request = Within-trans p.origin_request q.origin_request;
  origin_response = Within-trans p.origin_response q.origin_response;
}

merge-IsCovered : (a b c : FunctionAssociations) → merge a b ≡ ok c → IsCovered a c × IsCovered b c
merge-IsCovered a b c h =
    let m = (merge_iff a b c).0 h in
    (
      record {
        viewer_request = Within-left m.viewer_request;
        viewer_response = Within-left m.viewer_response;
        origin_request = Within-left m.origin_request;
        origin_response = Within-left m.origin_response;
      },
      record {
        viewer_request = Within-right m.viewer_request;
        viewer_response = Within-right m.viewer_response;
        origin_request = Within-right m.origin_request;
        origin_response = Within-right m.origin_response;
      },
    )

abbrev pub PathMap : Type 0
PathMap = GoMap PathKey FunctionAssociations

-- The map has the key, with associations that cover these.
pub record Has (m : PathMap) (k : PathKey) (fa : FunctionAssociations) : Type 0 where
  pub merged : FunctionAssociations
  pub found : lookup k m ≡ some merged
  pub covered : IsCovered fa merged

-- What a map has the other has too.
abbrev Extends : PathMap → PathMap → Type 0
Extends m m' = (k : PathKey) (fa : FunctionAssociations) → Has m k fa → Has m' k fa

-- Overwriting a key by associations that cover the old ones keeps what the map has.
insert-Extends :
    (m : PathMap) (k : PathKey) (new : FunctionAssociations)
    → ((old : FunctionAssociations) → lookup k m ≡ some old → IsCovered old new)
    → Extends m (insert k new m)
insert-Extends m k new h j fa has = elim (Bool-cases (k == j)) [
  | inl same ↦
      let e = ==→≡ k j same in
      record {
        merged = new;
        found = ground (arith, lookup-insert j k new m);
        covered = IsCovered-trans has.covered (h has.merged (rw e has.found));
      }
  | inr other ↦ record {
    merged = has.merged;
    found = lookup-insert j k new m ∙ rw other has.found;
    covered = has.covered;
  }
]

Has-insert :
    (m : PathMap) (k : PathKey) (fa new : FunctionAssociations)
    → IsCovered fa new
    → Has (insert k new m) k fa
Has-insert m k fa new c = record { merged = new; found = lookup-insert_self k new m; covered = c }

merge_path-Extends :
    (m : PathMap) (p : IngressPath) {m' : PathMap}
    → merge_path m p ≡ ok m'
    → Extends m m' × Has m' (path_key p) p.function_associations
unfolding merge_path
merge_path-Extends m p h = elim (Option-cases (lookup (path_key p) m)) [
  | inl absent ↦
      subst (λ t. Extends m t × Has t (path_key p) p.function_associations)
        (ok-injective (rw (absent, merge_path) at h))
        (
          insert-Extends m _ _ (λ old there. absurd (none-ne-some old (sym absent ∙ there))),
          Has-insert m _ _ _ (IsCovered-refl _),
        )
  | inr (old, there) ↦
      let (merged, mo, e) =
        >>=-eq-ok (annotated _ (merge old p.function_associations)) _
          (rw (there, merge_path) at h) in
      let (left, right) = merge-IsCovered old _ merged (annotated-eq-ok _ _ mo) in
      subst (λ t. Extends m t × Has t (path_key p) p.function_associations) (ok-injective e)
        (
          insert-Extends m _ _ (λ other there'.
              subst (λ o. IsCovered o merged) (some-injective old other (sym there ∙ there')) left),
          Has-insert m _ _ _ right,
        )
]

-- Each path of the list is in the map.
abbrev pub HasAll : PathMap → List IngressPath → Type 0
HasAll m ps = All (λ p. Has m (path_key p) p.function_associations) ps

HasAll-Extends :
    {m m' : PathMap} (ps : List IngressPath) → Extends m m' → HasAll m ps → HasAll m' ps
HasAll-Extends [] e h = tt
HasAll-Extends (p ∷ ps) e (here, h) = (e _ _ here, HasAll-Extends ps e h)

merge_ingress_paths-Extends :
    (m : PathMap) (ps : List IngressPath) {m' : PathMap}
    → merge_ingress_paths m ps ≡ ok m'
    → Extends m m' × HasAll m' ps
unfolding merge_ingress_paths
merge_ingress_paths-Extends m [] h =
    subst (λ t. Extends m t × Unit) (ok-injective h) (λ k fa has. has, tt)
merge_ingress_paths-Extends m (p ∷ ps) h =
    let (m1, step, rest) = >>=-eq-ok (merge_path m p) _ h in
    let (before, here) = merge_path-Extends m p step in
    let (after, others) = merge_ingress_paths-Extends m1 ps rest in
    (λ k fa has. after k fa (before k fa has), (after _ _ here, others))

-- The paths of an Ingress are all in the map of its origin.
abbrev pub Holds : PathsByOrigin → CdnIngress → Type 0
Holds acc ing = HasAll (inner_or_empty (lookup ing.origin_host acc)) ing.unmerged_paths

insert-Holds :
    (acc : PathsByOrigin) (host : String) (inner : PathMap) (ing : CdnIngress)
    → Extends (inner_or_empty (lookup host acc)) inner
    → Holds acc ing
    → Holds (insert host inner acc) ing
insert-Holds acc host inner ing e h = elim (Bool-cases (host == ing.origin_host)) [
  | inl same ↦
      rw (lookup-insert ing.origin_host host inner acc, same)
        (HasAll-Extends ing.unmerged_paths e (
          subst (λ o. HasAll (inner_or_empty (lookup o acc)) ing.unmerged_paths)
            (sym (==→≡ host ing.origin_host same)) h))
  | inr other ↦ rw (lookup-insert ing.origin_host host inner acc, other) h
]

merged_paths_from-Holds :
    (acc : PathsByOrigin) (ings : List CdnIngress) (old : CdnIngress) {result : PathsByOrigin}
    → merged_paths_from acc ings ≡ ok result
    → Holds acc old
    → Holds result old
unfolding merged_paths_from
merged_paths_from-Holds acc [] old h k = subst (λ t. Holds t old) (ok-injective h) k
merged_paths_from-Holds acc (ing ∷ ings) old h k =
    let (inner, step, rest) = >>=-eq-ok (merge_ingress_paths _ ing.unmerged_paths) _ h in
    let (e, _) = merge_ingress_paths-Extends _ ing.unmerged_paths step in
    merged_paths_from-Holds (insert ing.origin_host inner acc) ings old rest
      (insert-Holds acc _ inner old e k)

pub merged_paths_from-All :
    (acc : PathsByOrigin) (ings : List CdnIngress) {result : PathsByOrigin}
    → merged_paths_from acc ings ≡ ok result
    → All (Holds result) ings
unfolding merged_paths_from
merged_paths_from-All acc [] h = tt
merged_paths_from-All acc (ing ∷ ings) h =
    let (inner, step, rest) = >>=-eq-ok (merge_ingress_paths _ ing.unmerged_paths) _ h in
    let (_, others) = merge_ingress_paths-Extends _ ing.unmerged_paths step in
    (
      merged_paths_from-Holds (insert ing.origin_host inner acc) ings ing rest
          (rw lookup-insert_self others),
      merged_paths_from-All (insert ing.origin_host inner acc) ings rest,
    )
