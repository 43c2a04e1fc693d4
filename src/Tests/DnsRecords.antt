-- ===== src/Tests/DnsRecords.antt =====
-- A hosted zone with the records of one alias, and what is asked of it.
use mathlib.Core.List.{[], ◌∷◌}
use mathlib.Core.Bool.{false≢true}
use text.Mathlib.TextEquality.{eq_iff}
use cdn_origin_controller.Prelude.{
  String, ◌≡◌, ◌≢◌, refl, sym, ◌∙◌, ℕ, zero, suc, true, false, Option, none, some, All, string_eq,
  ◌==◌, ◌||◌, ◌⊎◌,
}
use cdn_origin_controller.GoError.{ok}
use cdn_origin_controller.Strhelper.{contains}
use cdn_origin_controller.Route53.Alias.{Aliases}
use cdn_origin_controller.Route53.Records.{
  AliasTarget, ResourceRecordSet, FilteredRecordSets, Change, upsert, delete, filter_record_sets,
  ensure_txt_value, remove_ownership_record, new_txt_change_for_upsert, new_txt_change_for_delete,
  validate_record_sets,
}
use cdn_origin_controller.Route53.Records.Txt.{
  change_values, remove-ensure, new_txt_change_for_delete-foreign,
}
use cdn_origin_controller.Route53.Repository.{
  Route53Client, ListInput, ChangeInput, upsert_aliases, delete_aliases,
}
use cdn_origin_controller.Route53.Repository.Safety.{
  IsChangeable, upsert_aliases_safe, delete_aliases_safe,
}

abbrev pub site : String
site = "www.example.com."

abbrev own : String
own = "\"cdn-origin-controller/owner=team\""

abbrev other_value : String
other_value = "\"v=spf1\""

abbrev address : ResourceRecordSet
address = record {
  name = site;
  kind = "A";
  alias_target = some (record {
    dns_name = "d1.cloudfront.net.";
    evaluate_target_health = false;
    hosted_zone_id = "Z2FDTNDATAQYW2";
  });
  resource_records = [];
  ttl = none;
  weight = none;
  geo_location = none;
  cidr_routing_config = none;
}

abbrev txt : ResourceRecordSet
txt = record address {
  kind = "TXT";
  alias_target = none;
  resource_records = other_value ∷ own ∷ [];
}

-- The zone counts the change requests that it grants.
abbrev pub zone : Route53Client
zone = record {
  State = ℕ;
  list_resource_record_sets =
      λ s i. ok (elim i.start_record_type [ none ↦ address ∷ [] | some t ↦ txt ∷ [] ]);
  change_resource_record_sets = λ s i. (none, suc s);
}

abbrev aliases : Aliases
aliases = record {
  target = "d1.cloudfront.net";
  hosted_zone_id = "Z1";
  ownership_txt_value = own;
  entries = (record { name = site; types = "A" ∷ [] }) ∷ [];
}

one-ne-zero : suc zero ≢ zero
one-ne-zero e = cc

upsert_granted : (upsert_aliases zone aliases 0).1 ≡ 1
unfolding upsert_aliases string_eq cdn_origin_controller.Route53.Repository.existing_record_sets
    cdn_origin_controller.Route53.Repository.resource_record_sets_by_entry validate_record_sets
    cdn_origin_controller.Route53.Records.validate_policies filter_record_sets contains
    cdn_origin_controller.Route53.Records.validate_txt
    cdn_origin_controller.Route53.Records.contains_ownership_record
    cdn_origin_controller.Route53.Records.is_ownership_record
    cdn_origin_controller.GoString.contains cdn_origin_controller.Prelude.nat_eq
    cdn_origin_controller.Route53.Records.validate_ownership
    cdn_origin_controller.Route53.Records.is_owned_by_this_class
    cdn_origin_controller.Route53.Records.is_owned_by_different_class
upsert_granted = refl

delete_granted : (delete_aliases zone aliases 0).1 ≡ 1
unfolding delete_aliases string_eq cdn_origin_controller.Route53.Repository.existing_record_sets
    cdn_origin_controller.Route53.Repository.resource_record_sets_by_entry validate_record_sets
    cdn_origin_controller.Route53.Records.validate_policies filter_record_sets contains
    cdn_origin_controller.Route53.Records.validate_txt
    cdn_origin_controller.Route53.Records.contains_ownership_record
    cdn_origin_controller.Route53.Records.is_ownership_record
    cdn_origin_controller.GoString.contains cdn_origin_controller.Prelude.nat_eq
    cdn_origin_controller.Route53.Records.validate_ownership
    cdn_origin_controller.Route53.Records.is_owned_by_this_class
    cdn_origin_controller.Route53.Records.is_owned_by_different_class
    cdn_origin_controller.Route53.Repository.required_txt
    cdn_origin_controller.Route53.Repository.delete_target
delete_granted = refl

upsert_aliases_safe_example : All (IsChangeable zone own "Z1" 0) aliases.entries
upsert_aliases_safe_example =
    upsert_aliases_safe zone aliases 0 (λ e. one-ne-zero (sym upsert_granted ∙ e))

delete_aliases_safe_example : All (IsChangeable zone own "Z1" 0) aliases.entries
delete_aliases_safe_example =
    delete_aliases_safe zone aliases 0 (λ e. one-ne-zero (sym delete_granted ∙ e))

abbrev found_sets : FilteredRecordSets
found_sets = record { address_records = address ∷ []; txt_record = some txt }

found-accepted : validate_record_sets own found_sets ≡ ok tt
unfolding validate_record_sets string_eq cdn_origin_controller.Route53.Records.validate_policies
    cdn_origin_controller.Route53.Records.validate_txt
    cdn_origin_controller.Route53.Records.contains_ownership_record
    cdn_origin_controller.Route53.Records.is_ownership_record
    cdn_origin_controller.GoString.contains cdn_origin_controller.Prelude.nat_eq
    cdn_origin_controller.Route53.Records.validate_ownership
    cdn_origin_controller.Route53.Records.is_owned_by_this_class
    cdn_origin_controller.Route53.Records.is_owned_by_different_class
found-accepted = refl

other-ne-own : other_value ≢ own
other-ne-own e = false≢true ((eq_iff other_value own).1 e)

other-listed : contains (other_value ∷ own ∷ []) other_value ≡ true
unfolding contains string_eq
other-listed = refl

new_txt_change_for_delete-foreign_example :
    ((new_txt_change_for_delete own site (other_value ∷ own ∷ [])).action ≡ upsert)
    × (contains
          (change_values (new_txt_change_for_delete own site (other_value ∷ own ∷ [])))
          other_value
        ≡ true)
new_txt_change_for_delete-foreign_example =
    new_txt_change_for_delete-foreign own site (other_value ∷ own ∷ []) other_value other-ne-own
      other-listed

own-deleted : (new_txt_change_for_delete own site (own ∷ [])).action ≡ delete
unfolding new_txt_change_for_delete string_eq
own-deleted = refl

own-absent : contains (other_value ∷ []) own ≡ false
unfolding contains string_eq
own-absent = refl

remove-ensure_example :
    remove_ownership_record own (ensure_txt_value own (other_value ∷ [])) ≡ other_value ∷ []
remove-ensure_example = remove-ensure own (other_value ∷ []) own-absent
