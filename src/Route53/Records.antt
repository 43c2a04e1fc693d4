-- ===== src/Route53/Records.antt =====
-- internal/route53/repository.go: the record sets of an entry, their validation, and the changes
-- that are requested for them. A pointer that may be nil is an `Option`.
pub mod Ownership
pub mod Txt
use Prim.Native.Nat.{ℕ}
use mathlib.Core.List.{List, [], ◌∷◌, ◌++◌}
use cdn_origin_controller.Prelude.{
  String, ◌<>◌, Bool, true, false, not, ◌&&◌, Option, none, some, ◌==◌, string_eq, if◌then◌else◌,
}
use cdn_origin_controller.GoError.{GoError, new, Result, ok, err, panic, ◌>>=◌, ◌>>◌}
use cdn_origin_controller.GoString
use cdn_origin_controller.Strhelper
use cdn_origin_controller.Route53.Alias.{Entry, Aliases, txt_owner_key}

abbrev pub cf_hosted_zone_id : String
cf_hosted_zone_id = "Z2FDTNDATAQYW2"

abbrev pub rr_type_txt : String
rr_type_txt = "TXT"

-- The fields of the SDK's `ResourceRecordSet` that the program reads or writes.
pub record AliasTarget : Type 0 where
  pub dns_name : String
  pub evaluate_target_health : Bool
  pub hosted_zone_id : String

pub record ResourceRecordSet : Type 0 where
  pub name : String
  pub kind : String
  pub alias_target : Option AliasTarget
  pub resource_records : List String
  pub ttl : Option ℕ
  pub weight : Option ℕ
  pub geo_location : Option String
  pub cidr_routing_config : Option String

pub record FilteredRecordSets : Type 0 where
  pub address_records : List ResourceRecordSet
  pub txt_record : Option ResourceRecordSet

-- One round of the loop of `filterRecordSets`.
unfoldable pub filter_step : Entry → FilteredRecordSets → ResourceRecordSet → FilteredRecordSets
filter_step entry filtered rs =
    if entry.name == rs.name
    then record {
      address_records =
          if Strhelper.contains entry.types rs.kind
          then filtered.address_records ++ (rs ∷ [])
          else filtered.address_records;
      txt_record = if rs.kind == rr_type_txt then some rs else filtered.txt_record;
    }
    else filtered

filter_from : Entry → FilteredRecordSets → List ResourceRecordSet → FilteredRecordSets
filter_from entry filtered [] = filtered
filter_from entry filtered (rs ∷ sets) = filter_from entry (filter_step entry filtered rs) sets

unfoldable pub filter_record_sets : Entry → List ResourceRecordSet → FilteredRecordSets
unfolding filter_step filter_from
filter_record_sets entry sets =
    filter_from entry (record { address_records = []; txt_record = none }) sets

-- `rs` is not nil here: `validateRoutingPolicies` passes a nil TXT record, which is accepted.
unfoldable pub validate_routing_policy : ResourceRecordSet → Result (Unit {0})
validate_routing_policy rs = elim rs.weight [
  | some w ↦ err (new "weighted routing policy. Routing policy should be simple")
  | none ↦ elim rs.geo_location [
    | some g ↦ err (new "geo-location routing policy. Routing policy should be simple")
    | none ↦ elim rs.cidr_routing_config [
      | some c ↦ err (new "ip-based routing policy. Routing policy should be simple")
      | none ↦ ok tt
    ]
  ]
]

abbrev option_list {ℓ} : {A : Type ℓ} → Option A → List A
option_list none = []
option_list (some a) = a ∷ []

unfoldable pub validate_policies : List ResourceRecordSet → Result (Unit {0})
unfolding validate_routing_policy
validate_policies [] = ok tt
validate_policies (rs ∷ sets) = do validate_routing_policy rs; validate_policies sets

unfoldable pub validate_routing_policies : FilteredRecordSets → Result (Unit {0})
validate_routing_policies sets =
    validate_policies (sets.address_records ++ option_list sets.txt_record)

unfoldable pub is_owned_by_this_class : String → String → Bool
is_owned_by_this_class own value = value == own

unfoldable pub is_ownership_record : String → Bool
is_ownership_record value = GoString.contains value txt_owner_key

unfoldable pub is_owned_by_different_class : String → String → Bool
is_owned_by_different_class own value =
    not (is_owned_by_this_class own value) && is_ownership_record value

unfoldable pub contains_ownership_record : List String → Bool
contains_ownership_record [] = false
contains_ownership_record (value ∷ records) =
    let rest = contains_ownership_record records in if is_ownership_record value then true else rest

-- The loop of `validateOwnership`, over the values of the TXT record.
unfoldable pub validate_ownership : String → List String → Result (Unit {0})
validate_ownership own [] = ok tt
validate_ownership own (value ∷ records) =
    let rest = validate_ownership own records in
    if is_owned_by_this_class own value
    then ok tt
    else if is_owned_by_different_class own value
    then err (new "TXT record is managed by another CDN class")
    else rest

unfoldable pub any_record : List ResourceRecordSet → Bool
any_record [] = false
any_record (rs ∷ sets) = true

-- The TXT record is nil, or holds no ownership value.
unfoldable pub unmanaged : List ResourceRecordSet → Result (Unit {0})
unmanaged addresses =
    if any_record addresses
    then err (new "address record (A or AAAA) exists but is not managed by the controller")
    else ok tt

unfoldable pub validate_txt :
    String → FilteredRecordSets → Option ResourceRecordSet → Result (Unit {0})
validate_txt own sets none = unmanaged sets.address_records
validate_txt own sets (some txt) =
    if contains_ownership_record txt.resource_records
    then validate_ownership own txt.resource_records
    else unmanaged sets.address_records

unfoldable pub validate_record_sets : String → FilteredRecordSets → Result (Unit {0})
unfolding validate_routing_policies
validate_record_sets own sets = do
  validate_routing_policies sets
  validate_txt own sets sets.txt_record

pub data Action : Type 0 where
  upsert delete : Action

pub record Change : Type 0 where
  pub action : Action
  pub resource_record_set : ResourceRecordSet

unfoldable pub new_alias_change : String → Action → (name kind : String) → Change
new_alias_change target action name kind = record {
  action = action;
  resource_record_set = record {
    name = name;
    kind = kind;
    alias_target = some (record {
      dns_name = target;
      evaluate_target_health = false;
      hosted_zone_id = cf_hosted_zone_id;
    });
    resource_records = [];
    ttl = none;
    weight = none;
    geo_location = none;
    cidr_routing_config = none;
  };
}

unfoldable pub alias_changes : String → Action → String → List String → List Change
alias_changes target action name [] = []
alias_changes target action name (kind ∷ kinds) =
    new_alias_change target action name kind ∷ alias_changes target action name kinds

unfoldable pub new_alias_changes : String → Action → Entry → List Change
unfolding alias_changes new_alias_change
new_alias_changes target action entry = alias_changes target action entry.name entry.types

unfoldable pub new_txt_change : Action → String → List String → Change
new_txt_change action name records = record {
  action = action;
  resource_record_set = record {
    name = name;
    kind = rr_type_txt;
    alias_target = none;
    resource_records = records;
    ttl = some 300;
    weight = none;
    geo_location = none;
    cidr_routing_config = none;
  };
}

-- The loop returns the records as they are where the value is found.
unfoldable pub ensure_txt_value : String → List String → List String
ensure_txt_value own records =
    if Strhelper.contains records own then records else records ++ (own ∷ [])

-- `append(originalRecords[:i], originalRecords[i+1:]...)` at the first own value.
unfoldable pub remove_ownership_record : String → List String → List String
remove_ownership_record own [] = []
remove_ownership_record own (value ∷ records) =
    let rest = remove_ownership_record own records in
    if is_owned_by_this_class own value then records else value ∷ rest

unfoldable pub new_txt_change_for_upsert : String → String → List String → Change
unfolding new_txt_change ensure_txt_value
new_txt_change_for_upsert own name existing =
    new_txt_change upsert name (ensure_txt_value own existing)

-- Where nothing else is left the whole TXT record goes, and the change repeats its values.
unfoldable pub txt_change_of_rest : String → List String → List String → Change
txt_change_of_rest name existing [] = new_txt_change delete name existing
txt_change_of_rest name existing (value ∷ records) = new_txt_change upsert name (value ∷ records)

unfoldable pub new_txt_change_for_delete : String → String → List String → Change
unfolding txt_change_of_rest new_txt_change remove_ownership_record is_owned_by_this_class
new_txt_change_for_delete own name existing =
    txt_change_of_rest name existing (remove_ownership_record own existing)
