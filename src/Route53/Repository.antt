-- ===== src/Route53/Repository.antt =====
-- internal/route53/repository.go: `Upsert` and `Delete` against the Route 53 API. The SDK is a
-- parameter: listing reads the hosted zone's state, and a change request may change it. A change
-- request is one atomic batch, so an error leaves the state that the client returns.
pub mod Safety
use mathlib.Core.List.{List, [], ◌∷◌, ◌++◌}
use cdn_origin_controller.Prelude.{String, Option, none, some}
use cdn_origin_controller.GoError.{GoError, new, annotate, Result, ok, err, panic, ◌>>=◌, annotated}
use cdn_origin_controller.Route53.Alias.{Entry, Aliases}
use cdn_origin_controller.Route53.Records.{
  ResourceRecordSet, FilteredRecordSets, filter_record_sets, validate_record_sets, Change, upsert,
  delete, new_alias_changes, new_txt_change_for_upsert, new_txt_change_for_delete,
}

abbrev pub number_of_supported_record_types : String
number_of_supported_record_types = "13"

pub record ListInput : Type 0 where
  pub hosted_zone_id : String
  pub start_record_name : String
  pub max_items : String
  pub start_record_type : Option String

pub record ChangeInput : Type 0 where
  pub hosted_zone_id : String
  pub comment : String
  pub changes : List Change

-- The calls of the SDK's Route 53 client.
pub record Route53Client : Type 1 where
  pub State : Type 0
  pub list_resource_record_sets : State → ListInput → Result (List ResourceRecordSet)
  pub change_resource_record_sets : State → ChangeInput → Option GoError × State

unfoldable pub first_set : List ResourceRecordSet → Option ResourceRecordSet
first_set [] = none
first_set (rs ∷ sets) = some rs

-- `if txtRS != nil { return append(sets, txtRS), nil }`
unfoldable pub append_txt :
    List ResourceRecordSet → Option ResourceRecordSet → List ResourceRecordSet
append_txt sets none = sets
append_txt sets (some txt) = sets ++ (txt ∷ [])

-- The values of the existing TXT record, if there is one.
unfoldable pub existing_txt : Option ResourceRecordSet → List String
existing_txt none = []
existing_txt (some txt) = txt.resource_records

-- The guard of `Delete` against a missing TXT record.
unfoldable pub required_txt : String → Option ResourceRecordSet → Result ResourceRecordSet
required_txt name none = err (new "ownership TXT record not found, can't delete address records")
required_txt name (some txt) = ok txt

-- `*recordSets.addressRecords[0].AliasTarget.DNSName`, where an address record that is no alias
-- is a nil dereference. Without an address record the target stays what it was.
unfoldable pub delete_target : String → List ResourceRecordSet → Result String
delete_target target [] = ok target
delete_target target (rs ∷ sets) = elim rs.alias_target [
  | none ↦ panic "nil pointer dereference"
  | some t ↦ ok t.dns_name
]

module _ (c : Route53Client) where
  unfoldable pub alias_resource_records_by_entry :
      String → Entry → c.State → Result (List ResourceRecordSet)
  alias_resource_records_by_entry zone entry s = c.list_resource_record_sets s (record {
    hosted_zone_id = zone;
    start_record_name = entry.name;
    max_items = number_of_supported_record_types;
    start_record_type = none;
  })

  unfoldable pub txt_resource_record_set_by_entry :
      String → Entry → c.State → Result (Option ResourceRecordSet)
  unfolding first_set
  txt_resource_record_set_by_entry zone entry s = do
    sets ← c.list_resource_record_sets s (record {
      hosted_zone_id = zone;
      start_record_name = entry.name;
      max_items = "1";
      start_record_type = some "TXT";
    })
    ok (first_set sets)

  unfoldable pub resource_record_sets_by_entry :
      String → Entry → c.State → Result (List ResourceRecordSet)
  unfolding alias_resource_records_by_entry txt_resource_record_set_by_entry append_txt
  resource_record_sets_by_entry zone entry s = do
    sets ← alias_resource_records_by_entry zone entry s
    txt ← txt_resource_record_set_by_entry zone entry s
    ok (append_txt sets txt)

  -- The record sets are returned only if they are valid.
  validated : String → FilteredRecordSets → Result FilteredRecordSets
  validated own sets = do
    _ ← annotated "validating records" (validate_record_sets own sets)
    ok sets

  unfoldable pub existing_record_sets :
      (own zone : String) → Entry → c.State → Result FilteredRecordSets
  unfolding validated
  existing_record_sets own zone e s = do
    all ← resource_record_sets_by_entry zone e s
    validated own (filter_record_sets e all)

  -- The loop of `Upsert`, which collects the changes of each entry in turn.
  unfoldable pub upsert_changes : Aliases → List Entry → c.State → Result (List Change)
  upsert_changes a [] s = ok []
  upsert_changes a (e ∷ es) s = do
    existing ←
        annotated "fetching existing DNS records"
          (existing_record_sets a.ownership_txt_value a.hosted_zone_id e s)
    rest ← upsert_changes a es s
    ok (
        new_alias_changes a.target upsert e
        ++ (new_txt_change_for_upsert a.ownership_txt_value e.name
              (existing_txt existing.txt_record)
            ∷ rest))

  -- The loop of `Delete`; the target that one entry finds is there for the entries after it.
  unfoldable pub delete_changes : Aliases → String → List Entry → c.State → Result (List Change)
  delete_changes a target [] s = ok []
  delete_changes a target (e ∷ es) s = do
    sets ← existing_record_sets a.ownership_txt_value a.hosted_zone_id e s
    txt ← required_txt e.name sets.txt_record
    found ← delete_target target sets.address_records
    rest ← delete_changes a found es s
    ok (
        new_alias_changes found delete e
        ++ (new_txt_change_for_delete a.ownership_txt_value e.name txt.resource_records ∷ rest))

  -- `return err`, as a result.
  abbrev returned : Option GoError × c.State → Result (Unit {0}) × c.State
  returned (none, s) = (ok tt, s)
  returned (some e, s) = (err e, s)

  unfoldable pub request_changes :
      (zone comment : String) → List Change → c.State → Result (Unit {0}) × c.State
  request_changes zone comment changes s = returned (
      c.change_resource_record_sets s
        (record { hosted_zone_id = zone; comment = comment; changes = changes }))

  -- The request, if the changes could be computed.
  unfoldable pub request :
      (zone comment : String) → Result (List Change) → c.State → Result (Unit {0}) × c.State
  unfolding request_changes
  request zone comment (ok changes) s = request_changes zone comment changes s
  request zone comment (err e) s = (err e, s)
  request zone comment (panic m) s = (panic m, s)

  unfoldable pub upsert_entries : Aliases → List Entry → c.State → Result (Unit {0}) × c.State
  unfolding request upsert_changes
  upsert_entries a [] s = (ok tt, s)
  upsert_entries a (e ∷ es) s =
      request a.hosted_zone_id
        "Upserting Alias for CloudFront distribution managed by cdn-origin-controller"
        (upsert_changes a (e ∷ es) s) s

  unfoldable pub upsert_aliases : Aliases → c.State → Result (Unit {0}) × c.State
  unfolding upsert_entries
  upsert_aliases a s = upsert_entries a a.entries s

  unfoldable pub delete_entries : Aliases → List Entry → c.State → Result (Unit {0}) × c.State
  unfolding request delete_changes
  delete_entries a [] s = (ok tt, s)
  delete_entries a (e ∷ es) s =
      request a.hosted_zone_id
        "Deleting Alias for CloudFront distribution managed by cdn-origin-controller"
        (delete_changes a a.target (e ∷ es) s) s

  unfoldable pub delete_aliases : Aliases → c.State → Result (Unit {0}) × c.State
  unfolding delete_entries
  delete_aliases a s = delete_entries a a.entries s
