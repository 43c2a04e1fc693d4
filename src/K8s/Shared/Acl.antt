-- ===== src/K8s/Shared/Acl.antt =====
-- The web ACL that the Ingresses of a group share.
use mathlib.Core.List.{List, [], ◌∷◌}
use mathlib.Core.Bool.{false≢true}
use cdn_origin_controller.Prelude.{
  String, Bool, true, false, ◌||◌, ◌&&◌, ◌==◌, string_eq, ◌≡◌, refl, sym, ◌∙◌, ◌⊎◌, inl, inr, arith,
  Bool-cases, All,
}
use cdn_origin_controller.GoError.{ok}
use cdn_origin_controller.GoString.{nonempty}
use cdn_origin_controller.Strhelper.{contains}
use cdn_origin_controller.Strhelper.Laws.{Nodup}
use cdn_origin_controller.K8s.Ingress.{CdnIngress}
use cdn_origin_controller.K8s.Shared.{
  StringSets, IsLawful, web_acl_arns, more_than_one, pop_single, merged_web_acl,
}

-- Some Ingress of the list asks for the ACL.
unfoldable asks : List CdnIngress → String → Bool
asks [] acl = false
asks (ing ∷ ings) acl =
    (nonempty ing.unmerged_web_acl_arn && ing.unmerged_web_acl_arn == acl) || asks ings acl

-- The Ingress asks for this ACL or for none.
abbrev pub Accepts : String → CdnIngress → Type 0
Accepts acl ing = (ing.unmerged_web_acl_arn ≡ "") ⊎ (ing.unmerged_web_acl_arn ≡ acl)

single-eq :
    (l : List String) (a b : String)
    → more_than_one l ≡ false
    → contains l a ≡ true
    → contains l b ≡ true
    → a ≡ b
unfolding contains
single-eq [] a b m h k = cc
single-eq (x ∷ []) a b m h k = ground arith
single-eq (x ∷ y ∷ l) a b m h k = cc

nonempty-eq : (s : String) → nonempty s ≡ false → s ≡ ""
nonempty-eq String.[] h = refl
nonempty-eq (String.◌∷◌ c s) h = cc

nonempty-empty : (s : String) → s ≡ "" → nonempty s ≡ false
nonempty-empty s e = rw e

module _ (sets : StringSets) (L : IsLawful sets) where
  contains-web_acl_arns :
      (ings : List CdnIngress) (s : sets.Set) (acl : String)
      → contains (sets.list (web_acl_arns sets s ings)) acl
        ≡ (asks ings acl || contains (sets.list s) acl)
  unfolding web_acl_arns asks
  contains-web_acl_arns [] s acl = refl
  contains-web_acl_arns (ing ∷ ings) s acl =
      contains-web_acl_arns ings _ acl
      ∙ ground (arith, L.contains-insert s ing.unmerged_web_acl_arn acl)

  asks-All :
      (ings : List CdnIngress) (acl : String)
      → ((b : String) → asks ings b ≡ true → b ≡ acl)
      → All (Accepts acl) ings
  unfolding asks
  asks-All [] acl h = tt
  asks-All (ing ∷ ings) acl h = (
    elim (Bool-cases (nonempty ing.unmerged_web_acl_arn)) [
      | inl given ↦ inr (h ing.unmerged_web_acl_arn (ground arith))
      | inr absent ↦ inl (nonempty-eq _ absent)
    ],
    asks-All ings acl (λ b k. h b (ground arith)),
  )

  -- The ACLs of the Ingresses, as a set.
  abbrev collected : List CdnIngress → sets.Set
  collected ings = web_acl_arns sets sets.new_string ings

  contains-collected :
      (ings : List CdnIngress) (acl : String)
      → contains (sets.list (collected ings)) acl ≡ asks ings acl
  unfolding contains
  contains-collected ings acl =
      contains-web_acl_arns ings sets.new_string acl ∙ rw L.list-new_string (ground arith)

  pop_single-eq :
      (s : sets.Set) {acl : String}
      → pop_single sets s ≡ ok acl
      → (more_than_one (sets.list s) ≡ false) × (sets.pop_any s ≡ acl)
  unfolding pop_single
  pop_single-eq s h = ground arith

  popped-eq :
      (s : sets.Set) (b : String)
      → more_than_one (sets.list s) ≡ false
      → contains (sets.list s) b ≡ true
      → b ≡ sets.pop_any s
  unfolding contains
  popped-eq s b m k = elim (L.pop_any-mem s) [
    | inl empty ↦ absurd (false≢true (rw empty at k))
    | inr popped ↦ single-eq (sets.list s) b _ m k popped
  ]

  -- For string sets that keep their documented laws: a shared ACL is found only if every Ingress asks for it or for none.
  pub merged_web_acl-All :
      (ings : List CdnIngress) {acl : String}
      → merged_web_acl sets ings ≡ ok acl
      → All (Accepts acl) ings
  unfolding merged_web_acl
  merged_web_acl-All ings h =
      let (m, e) = pop_single-eq (collected ings) h in
      asks-All ings _ λ b k. popped-eq _ b m (contains-collected ings b ∙ k) ∙ e

  All-asks :
      (ings : List CdnIngress) (acl b : String)
      → All (Accepts acl) ings
      → asks ings b ≡ true
      → b ≡ acl
  unfolding asks
  All-asks [] acl b h k = cc
  All-asks (ing ∷ ings) acl b (here, h) k =
      ground (arith, All-asks ings acl b h, nonempty-empty ing.unmerged_web_acl_arn)

  more_than_one-distinct :
      (l : List String) (acl : String)
      → Nodup l
      → ((b : String) → contains l b ≡ true → b ≡ acl)
      → more_than_one l ≡ false
  unfolding contains
  more_than_one-distinct [] acl n h = refl
  more_than_one-distinct (x ∷ []) acl n h = refl
  more_than_one-distinct (x ∷ y ∷ l) acl n h =
      ground (arith, h x (ground arith), h y (ground arith))

  -- For string sets that keep their documented laws: if the Ingresses ask for one ACL at most then a shared ACL is found.
  pub merged_web_acl-total :
      (ings : List CdnIngress) (acl : String)
      → All (Accepts acl) ings
      → (found : String) × (merged_web_acl sets ings ≡ ok found)
  unfolding merged_web_acl pop_single
  merged_web_acl-total ings acl h =
      let single =
        more_than_one-distinct (sets.list (collected ings)) acl (L.list-Nodup _)
          (λ b k. All-asks ings acl b h (sym (contains-collected ings b) ∙ k)) in
      (sets.pop_any (collected ings), rw single)
