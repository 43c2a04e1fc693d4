-- ===== src/Cloudfront/Distribution/Origins.antt =====
-- The custom origins of a builder have distinct hosts, so merging them changes nothing, and only
-- a custom origin with the default origin's host can make the result invalid.
use mathlib.Core.List.{[], ◌∷◌, ◌++◌, append_assoc, append-nil}
use mathlib.Core.Option.{some-ne-none}
use cdn_origin_controller.Prelude.{
  String, ◌≡◌, refl, sym, ap, ◌∙◌, ◌≢◌, Bool, false, not, ◌==◌, string_eq, if◌then◌else◌, arith,
  Bool-cases, Option, none, some, inl, inr, ==→≡, ==_false,
}
use cdn_origin_controller.GoError.{Result, new, ok, err}
use cdn_origin_controller.GoMap.{
  GoMap, lookup, insert, lookup-insert, NodupKeys, insert-NodupKeys, values,
}
use cdn_origin_controller.Cloudfront.Origin.{Origin, has_equal_parameters}
use cdn_origin_controller.Cloudfront.Distribution.{
  DistributionBuilder, validate_from, validate, merged_with, merge_from, merge_custom_origins,
  with_origin, origin_slice, assemble, build,
}

-- Each origin stands under its host.
abbrev pub IsKeyed : GoMap String Origin → Type 0
IsKeyed [] = Unit
IsKeyed ((k, o) ∷ m) = (o.host ≡ k) × IsKeyed m

pub record IsWellFormed (m : GoMap String Origin) : Type 0 where
  pub keyed : IsKeyed m
  pub nodup : NodupKeys m

insert-IsKeyed : (o : Origin) (m : GoMap String Origin) → IsKeyed m → IsKeyed (insert o.host o m)
unfolding insert
insert-IsKeyed o [] h = (refl, tt)
insert-IsKeyed o ((k, p) ∷ m) (here, h) = elim (Bool-cases (k == o.host)) [
  | inl same ↦ rw same (sym (==→≡ k o.host same), h)
  | inr other ↦ rw other (here, insert-IsKeyed o m h)
]

-- If the custom origins of a builder stand each under its host, and no host twice, then so they do
-- after an origin is added.
pub with_origin-IsWellFormed :
    (o : Origin) (b : DistributionBuilder)
    → IsWellFormed b.custom_origins
    → IsWellFormed (with_origin o b).custom_origins
unfolding with_origin
with_origin-IsWellFormed o b w = record {
  keyed = insert-IsKeyed o b.custom_origins w.keyed;
  nodup = insert-NodupKeys o.host o b.custom_origins w.nodup;
}

insert_of_absent :
    (k : String) (o : Origin) (m : GoMap String Origin)
    → lookup k m ≡ none
    → insert k o m ≡ m ++ (k, o) ∷ []
unfolding insert lookup
insert_of_absent k o [] h = refl
insert_of_absent k o ((j, p) ∷ m) h = ground (arith, insert_of_absent k o m)

lookup_ne : (k j : String) (m : GoMap String Origin) → lookup k m ≡ none → lookup j m ≢ none → k ≢ j
lookup_ne k j m h p e = p (rw (sym e) h)

-- No key of the second map is in the first.
abbrev Disjoint : GoMap String Origin → GoMap String Origin → Type 0
Disjoint acc m = (k : String) → lookup k m ≢ none → lookup k acc ≡ none

lookup-ne-none :
    (k j : String) (o : Origin) (m : GoMap String Origin)
    → lookup j m ≢ none
    → lookup j ((k, o) ∷ m) ≢ none
unfolding lookup
lookup-ne-none k j o m h = ground arith

lookup-head : (k : String) (o : Origin) (m : GoMap String Origin) → lookup k ((k, o) ∷ m) ≡ some o
unfolding lookup
lookup-head k o m = ground arith

tail-IsWellFormed :
    (k : String) (o : Origin) (m : GoMap String Origin) → IsWellFormed ((k, o) ∷ m) → IsWellFormed m
tail-IsWellFormed k o m w = record { keyed = w.keyed.1; nodup = w.nodup.1 }

-- The host of the first origin is the key of none of the others.
host-ne :
    (k j : String) (o : Origin) (m : GoMap String Origin)
    → IsWellFormed ((k, o) ∷ m)
    → lookup j m ≢ none
    → o.host ≢ j
host-ne k j o m w p e = lookup_ne k j m w.nodup.0 p (sym w.keyed.0 ∙ e)

Disjoint-insert :
    (k : String) (o : Origin) (acc m : GoMap String Origin)
    → IsWellFormed ((k, o) ∷ m)
    → Disjoint acc ((k, o) ∷ m)
    → Disjoint (insert o.host o acc) m
Disjoint-insert k o acc m w d j p =
    lookup-insert j o.host o acc
    ∙ rw (==_false o.host j (host-ne k j o m w p)) (d j (lookup-ne-none k j o m p))

host-absent :
    (k : String) (o : Origin) (acc m : GoMap String Origin)
    → IsWellFormed ((k, o) ∷ m)
    → Disjoint acc ((k, o) ∷ m)
    → lookup o.host acc ≡ none
host-absent k o acc m w d =
    ap (λ h. lookup h acc) w.keyed.0 ∙ d k (λ e. some-ne-none o (sym (lookup-head k o m) ∙ e))

merge_from-values :
    (acc m : GoMap String Origin)
    → IsWellFormed m
    → Disjoint acc m
    → merge_from acc (values m) ≡ acc ++ m
unfolding merge_from values
merge_from-values acc [] w d = sym (append-nil acc)
merge_from-values acc ((k, o) ∷ m) w d =
    let absent = host-absent k o acc m w d in
    ap (λ x. merge_from (insert o.host (merged_with x o) acc) (values m)) absent
    ∙ merge_from-values (insert o.host o acc) m (tail-IsWellFormed k o m w)
        (Disjoint-insert k o acc m w d)
    ∙ ap (λ a. a ++ m) (insert_of_absent o.host o acc absent)
    ∙ append_assoc acc ((o.host, o) ∷ []) m
    ∙ ap (λ h. acc ++ (h, o) ∷ m) w.keyed.0

-- The custom origin of the default origin's host has other parameters.
abbrev pub clashes : Origin → Option Origin → Bool
clashes default none = false
clashes default (some o) = not (has_equal_parameters default o)

abbrev clash_error : Result (Unit {0})
clash_error =
    err (new "same host specified twice with different parameters for origin configuration")

-- Of the origins that are still to come only the default one can be in the map.
abbrev OnlyDefault : Origin → GoMap String Origin → GoMap String Origin → Type 0
OnlyDefault default existing m =
    (k : String)
    → lookup k m ≢ none
    → lookup k existing ≡ (if default.host == k then some default else none)

OnlyDefault-insert :
    (default : Origin) (k : String) (o : Origin) (existing m : GoMap String Origin)
    → IsWellFormed ((k, o) ∷ m)
    → OnlyDefault default existing ((k, o) ∷ m)
    → OnlyDefault default (insert o.host o existing) m
OnlyDefault-insert default k o existing m w d j p =
    lookup-insert j o.host o existing
    ∙ rw (==_false o.host j (host-ne k j o m w p)) (d j (lookup-ne-none k j o m p))

validate_from-values :
    (default : Origin) (existing m : GoMap String Origin)
    → IsWellFormed m
    → OnlyDefault default existing m
    → validate_from existing (values m)
      ≡ (if clashes default (lookup default.host m) then clash_error else ok tt)
unfolding validate_from values lookup
validate_from-values default existing [] w d = refl
validate_from-values default existing ((k, o) ∷ m) w d =
    let found =
      ap (λ h. lookup h existing) w.keyed.0
      ∙ d k (λ e. some-ne-none o (sym (lookup-head k o m) ∙ e)) in
    let rest =
      validate_from-values default (insert o.host o existing) m (tail-IsWellFormed k o m w)
        (OnlyDefault-insert default k o existing m w d) in
    ground (arith, found, rest, w.nodup.0)

merge_custom_origins-assemble :
    (md5 : String → String) (b : DistributionBuilder)
    → IsWellFormed b.custom_origins
    → merge_custom_origins (assemble md5 b) ≡ assemble md5 b
unfolding merge_custom_origins assemble origin_slice lookup
merge_custom_origins-assemble md5 b w = rw (merge_from-values [] b.custom_origins w (λ k p. refl))

validate_from-default :
    (default : Origin) (m : GoMap String Origin)
    → IsWellFormed m
    → validate_from [] (default ∷ values m)
      ≡ (if clashes default (lookup default.host m) then clash_error else ok tt)
unfolding validate_from lookup
validate_from-default default m w =
    validate_from-values default (insert default.host default []) m w
      (λ k p. lookup-insert k default.host default [])

validate-assemble :
    (md5 : String → String) (b : DistributionBuilder)
    → IsWellFormed b.custom_origins
    → validate (assemble md5 b) ≡ (
        if clashes
          (assemble md5 b).default_origin
          (lookup (assemble md5 b).default_origin.host b.custom_origins)
        then clash_error
        else ok tt)
unfolding validate assemble origin_slice
validate-assemble md5 b w = validate_from-default (assemble md5 b).default_origin b.custom_origins w

-- If the custom origins of a builder stand each under its host, and no host twice, then building
-- fails exactly where a custom origin has the default origin's host with other
-- parameters; otherwise it gives the distribution that the builder describes.
pub build-eq :
    (md5 : String → String) (b : DistributionBuilder)
    → IsWellFormed b.custom_origins
    → build md5 b ≡ (
        if clashes
          (assemble md5 b).default_origin
          (lookup (assemble md5 b).default_origin.host b.custom_origins)
        then err
            (new "same host specified twice with different parameters for origin configuration")
        else ok (assemble md5 b))
unfolding build
build-eq md5 b w =
    rw (validate-assemble md5 b w, merge_custom_origins-assemble md5 b w) (ground arith)
