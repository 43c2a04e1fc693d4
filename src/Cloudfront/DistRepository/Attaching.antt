-- ===== src/Cloudfront/DistRepository/Attaching.antt =====
-- Which OAC an origin of the configuration gets.
use mathlib.Core.List.{List, [], ◌∷◌, ◌++◌}
use cdn_origin_controller.Prelude.{
  ◌≡◌, ◌≢◌, refl, ap, ◌⊎◌, inl, inr, Option, none, some, ◌==◌, ==→≡, Bool-cases, if◌then◌else◌,
  string_eq, All, arith,
}
use cdn_origin_controller.Cloudfront.Oac.{Oac}
use cdn_origin_controller.Cloudfront.AwsModels.{AwsOrigin, DistributionConfig, Items}
use cdn_origin_controller.Cloudfront.DistRepository.{attach_oacs, attach_to_all, attach_to_config}

-- The OAC is the last of the list that names the origin.
pub record IsLastFor (o : AwsOrigin) (oacs : List Oac) (oac : Oac) : Type 0 where
  pub before : List Oac
  pub after : List Oac
  pub split : oacs ≡ before ++ oac ∷ after
  pub named : o.id ≡ oac.origin_name
  pub last : All (λ p. o.id ≢ p.origin_name) after

-- Only the OAC of the origin is set: to the last OAC that names the origin, if there is one.
pub record IsAttached (oacs : List Oac) (o o' : AwsOrigin) : Type 0 where
  pub rest : o' ≡ record o { origin_access_control_id = o'.origin_access_control_id }
  pub oac :
      ((oac : Oac) × IsLastFor o oacs oac × (o'.origin_access_control_id ≡ some oac.id))
      ⊎ (All (λ p. o.id ≢ p.origin_name) oacs
          × (o'.origin_access_control_id ≡ o.origin_access_control_id))

-- The origins are the same, in the same order, with their OACs.
abbrev pub AreAttached : List Oac → List AwsOrigin → List AwsOrigin → Type 0
AreAttached oacs [] [] = Unit
AreAttached oacs [] (o' ∷ os') = ⊥
AreAttached oacs (o ∷ os) [] = ⊥
AreAttached oacs (o ∷ os) (o' ∷ os') = IsAttached oacs o o' × AreAttached oacs os os'

abbrev pub AreItemsAttached :
    List Oac → Option (Items AwsOrigin) → Option (Items AwsOrigin) → Type 0
AreItemsAttached oacs none none = Unit
AreItemsAttached oacs none (some ys) = ⊥
AreItemsAttached oacs (some xs) none = ⊥
AreItemsAttached oacs (some xs) (some ys) =
    (ys.quantity ≡ xs.quantity) × AreAttached oacs xs.items ys.items

-- The origin after one OAC of the list.
abbrev with_one : Oac → AwsOrigin → AwsOrigin
with_one oac o = record o {
  origin_access_control_id =
      if o.id == oac.origin_name then some oac.id else o.origin_access_control_id;
}

IsAttached-first :
    (oac : Oac) (oacs : List Oac) (o o' : AwsOrigin)
    → IsAttached oacs (with_one oac o) o'
    → IsAttached (oac ∷ oacs) o o'
IsAttached-first oac oacs o o' a = record { rest = a.rest; oac = which a.oac }
  where
    which :
        ((p : Oac) × IsLastFor (with_one oac o) oacs p × (o'.origin_access_control_id ≡ some p.id))
          ⊎ (All (λ p. o.id ≢ p.origin_name) oacs
              × (o'.origin_access_control_id ≡ (with_one oac o).origin_access_control_id))
        → ((p : Oac) × IsLastFor o (oac ∷ oacs) p × (o'.origin_access_control_id ≡ some p.id))
          ⊎ (All (λ p. o.id ≢ p.origin_name) (oac ∷ oacs)
              × (o'.origin_access_control_id ≡ o.origin_access_control_id))
    which (inl (p, l, e)) = inl (
      p,
      record {
        before = oac ∷ l.before;
        after = l.after;
        split = ap (λ ps. oac ∷ ps) l.split;
        named = l.named;
        last = l.last;
      },
      e,
    )
    which (inr (others, e)) = elim (Bool-cases (o.id == oac.origin_name)) [
      | inl same ↦ inl (
        oac,
        record {
          before = [];
          after = oacs;
          split = refl;
          named = ==→≡ o.id oac.origin_name same;
          last = others;
        },
        rw same at e,
      )
      | inr differ ↦ inr ((λ same. ground (arith, same, differ), others), rw differ at e)
    ]

attach_oacs-IsAttached : (oacs : List Oac) (o : AwsOrigin) → IsAttached oacs o (attach_oacs oacs o)
unfolding attach_oacs
attach_oacs-IsAttached [] o = record { rest = refl; oac = inr (tt, refl) }
attach_oacs-IsAttached (oac ∷ oacs) o =
    IsAttached-first oac oacs o (attach_oacs oacs (with_one oac o))
      (attach_oacs-IsAttached oacs (with_one oac o))

attach_to_all-AreAttached :
    (oacs : List Oac) (os : List AwsOrigin) → AreAttached oacs os (attach_to_all oacs os)
unfolding attach_to_all
attach_to_all-AreAttached oacs [] = tt
attach_to_all-AreAttached oacs (o ∷ os) =
    (attach_oacs-IsAttached oacs o, attach_to_all-AreAttached oacs os)

-- The origins of the configuration get their OACs, and nothing else of it is changed.
pub attach_to_config-AreItemsAttached :
    (oacs : List Oac) (cfg : DistributionConfig)
    → AreItemsAttached oacs cfg.origins (attach_to_config oacs cfg).origins
      × (attach_to_config oacs cfg ≡ record cfg { origins = (attach_to_config oacs cfg).origins })
unfolding attach_to_config
attach_to_config-AreItemsAttached oacs cfg = by_origins cfg.origins refl
  where
    by_origins :
        (os : Option (Items AwsOrigin))
        → cfg.origins ≡ os
        → AreItemsAttached oacs cfg.origins (attach_to_config oacs cfg).origins
          × (attach_to_config oacs cfg
              ≡ record cfg { origins = (attach_to_config oacs cfg).origins })
    by_origins none e = rw e (tt, refl)
    by_origins (some items) e = rw e ((refl, attach_to_all-AreAttached oacs items.items), refl)
