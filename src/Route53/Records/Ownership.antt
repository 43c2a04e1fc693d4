-- ===== src/Route53/Records/Ownership.antt =====
-- What a successful validation says of the record sets.
use mathlib.Core.List.{List, [], ◌∷◌, ◌++◌}
use cdn_origin_controller.Prelude.{
  String, ◌≡◌, refl, ◌⊎◌, inl, inr, true, Option, none, some, arith, string_eq, All, Bool-cases,
}
use cdn_origin_controller.GoError.{ok, >>=-eq-ok}
use cdn_origin_controller.Strhelper.{contains}
use cdn_origin_controller.Route53.Records.{
  ResourceRecordSet, FilteredRecordSets, validate_policies, option_list, validate_routing_policies,
  contains_ownership_record, validate_ownership, unmanaged, any_record, validate_txt,
  validate_record_sets, is_owned_by_this_class, is_owned_by_different_class,
}

-- The record set has the simple routing policy.
pub record IsSimple (rs : ResourceRecordSet) : Type 0 where
  pub weight : rs.weight ≡ none
  pub geo_location : rs.geo_location ≡ none
  pub cidr_routing_config : rs.cidr_routing_config ≡ none

-- The TXT record is there, and one of its values is the class's ownership value.
abbrev pub Owns : String → Option ResourceRecordSet → Type 0
Owns own none = ⊥
Owns own (some txt) = contains txt.resource_records own ≡ true

-- The controller may change the records: it found no address record, or the ownership value.
abbrev pub IsOurs : String → FilteredRecordSets → Type 0
IsOurs own sets = (sets.address_records ≡ []) ⊎ Owns own sets.txt_record

validate_policies-All :
    (sets : List ResourceRecordSet) → validate_policies sets ≡ ok tt → All IsSimple sets
unfolding validate_policies
validate_policies-All [] h = tt
validate_policies-All (rs ∷ sets) h = ground (arith, validate_policies-All sets)

validate_ownership-contains :
    (own : String) (records : List String)
    → contains_ownership_record records ≡ true
    → validate_ownership own records ≡ ok tt
    → contains records own ≡ true
unfolding validate_ownership contains_ownership_record contains is_owned_by_this_class
    is_owned_by_different_class
validate_ownership-contains own [] h k = cc
validate_ownership-contains own (value ∷ records) h k =
    ground (arith, validate_ownership-contains own records)

unmanaged-eq-ok : (sets : List ResourceRecordSet) → unmanaged sets ≡ ok tt → sets ≡ []
unfolding unmanaged any_record
unmanaged-eq-ok [] h = refl
unmanaged-eq-ok (rs ∷ sets) h = cc

validate_txt-IsOurs :
    (own : String) (sets : FilteredRecordSets) (txt : Option ResourceRecordSet)
    → validate_txt own sets txt ≡ ok tt
    → (sets.address_records ≡ []) ⊎ Owns own txt
unfolding validate_txt
validate_txt-IsOurs own sets none h = inl (unmanaged-eq-ok _ h)
validate_txt-IsOurs own sets (some txt) h =
    elim (Bool-cases (contains_ownership_record txt.resource_records)) [
      | inl managed ↦ inr (validate_ownership-contains own _ managed (rw managed at h))
      | inr other ↦ inl (unmanaged-eq-ok _ (rw other at h))
    ]

-- If record sets are accepted then each has the simple routing policy, and either no address
-- record was found or the TXT record holds the ownership value of the class.
pub validate_record_sets-IsOurs :
    (own : String) (sets : FilteredRecordSets)
    → validate_record_sets own sets ≡ ok tt
    → IsOurs own sets × All IsSimple (sets.address_records ++ option_list sets.txt_record)
unfolding validate_record_sets
validate_record_sets-IsOurs own sets h =
    let (_, policies, txt) = >>=-eq-ok (validate_routing_policies sets) _ h in
    (validate_txt-IsOurs own sets _ txt, validate_policies-All _ policies)
