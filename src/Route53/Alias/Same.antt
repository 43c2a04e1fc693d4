-- ===== src/Route53/Alias/Same.antt =====
-- Lists of the same domains, normalised.
use mathlib.Core.Path.{subst}
use mathlib.Core.List.{List, [], ◌∷◌}
use cdn_origin_controller.Prelude.{
  String, ◌≡◌, refl, sym, ap, ◌∙◌, Bool, true, false, ◌==◌, ==→≡, ==_refl, string_eq, arith,
  Bool-cases, inl, inr,
}
use cdn_origin_controller.Strhelper.{contains}
use cdn_origin_controller.Route53.Alias.{normalize_domain, normalize_domains}

-- A domain of the list that is this one, normalised.
abbrev HasNormalized : List String → String → Type 0
HasNormalized ds r = (d : String) × (contains ds d ≡ true) × (normalize_domain d ≡ r)

find_normalized :
    (ds : List String) (r : String) → contains (normalize_domains ds) r ≡ true → HasNormalized ds r
unfolding normalize_domains contains
find_normalized [] r h = cc
find_normalized (d ∷ ds) r h = elim (Bool-cases (normalize_domain d == r)) [
  | inl same ↦ (d, ground arith, ==→≡ _ _ same)
  | inr other ↦
      let (e, there, is) = find_normalized ds r (ground (arith, h, other)) in
      (e, ground (arith, there), is)
]

contains_normalized :
    (ds : List String) (r : String) → HasNormalized ds r → contains (normalize_domains ds) r ≡ true
unfolding normalize_domains contains
contains_normalized [] r (d, there, is) = cc
contains_normalized (e ∷ ds) r (d, there, is) = elim (Bool-cases (e == d)) [
  | inl same ↦
      let hit =
        subst (λ t. (normalize_domain e == t) ≡ true) (ap normalize_domain (==→≡ e d same) ∙ is)
          (==_refl (normalize_domain e)) in
      ground (arith, hit)
  | inr other ↦
      let rest = contains_normalized ds r (d, ground (arith, there, other), is) in
      ground (arith, rest)
]

-- Lists of the same domains give lists of the same domains when they are normalised.
pub contains-normalize_domains :
    (ds es : List String) (r : String)
    → ((d : String) → contains ds d ≡ contains es d)
    → contains (normalize_domains ds) r ≡ contains (normalize_domains es) r
contains-normalize_domains ds es r same =
    both _ _
      (λ h.
        let (d, there, is) = find_normalized ds r h in
        contains_normalized es r (d, sym (same d) ∙ there, is))
      (λ h.
        let (d, there, is) = find_normalized es r h in
        contains_normalized ds r (d, same d ∙ there, is))
  where
    both : (a b : Bool) → (a ≡ true → b ≡ true) → (b ≡ true → a ≡ true) → a ≡ b
    both true b f g = sym (f refl)
    both false true f g = g refl
    both false false f g = refl
