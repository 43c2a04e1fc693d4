-- ===== src/Route53/Records/Txt.antt =====
-- The values of the ownership TXT record: what an upsert adds and what a delete takes away.
use mathlib.Core.List.{List, [], ◌∷◌, ◌++◌}
use cdn_origin_controller.Prelude.{
  String, ◌≡◌, refl, ◌⊎◌, inl, ◌≢◌, true, false, ◌||◌, arith, ◌==◌, string_eq,
}
use cdn_origin_controller.Strhelper.{contains}
use cdn_origin_controller.Strhelper.Laws.{contains-append}
use cdn_origin_controller.Route53.Records.{
  Change, upsert, delete, ensure_txt_value, remove_ownership_record, new_txt_change,
  new_txt_change_for_upsert, new_txt_change_for_delete, txt_change_of_rest, is_owned_by_this_class,
}

-- The values of the record set of a change.
abbrev pub change_values : Change → List String
change_values c = c.resource_record_set.resource_records

remove_ownership_record-append :
    (own : String) (records : List String)
    → contains records own ≡ false
    → remove_ownership_record own (records ++ own ∷ []) ≡ records
unfolding contains remove_ownership_record is_owned_by_this_class
remove_ownership_record-append own [] h = ground arith
remove_ownership_record-append own (v ∷ records) h =
    ground (arith, remove_ownership_record-append own records)

-- If the ownership value was not there, taking it out again gives the values that were there before it was added.
pub remove-ensure :
    (own : String) (records : List String)
    → contains records own ≡ false
    → remove_ownership_record own (ensure_txt_value own records) ≡ records
unfolding ensure_txt_value
remove-ensure own records h = rw h (remove_ownership_record-append own records h)

-- An upsert's TXT values are those that were there and the ownership value.
pub contains-new_txt_change_for_upsert :
    (own name : String) (records : List String) (v : String)
    → contains (change_values (new_txt_change_for_upsert own name records)) v
      ≡ (own == v || contains records v)
unfolding new_txt_change_for_upsert contains
contains-new_txt_change_for_upsert own name records v =
    ground (arith, contains-append records (own ∷ []) v)

contains-remove_ownership_record :
    (own : String) (records : List String) (v : String)
    → v ≢ own
    → contains (remove_ownership_record own records) v ≡ contains records v
unfolding contains remove_ownership_record is_owned_by_this_class
contains-remove_ownership_record own [] v h = refl
contains-remove_ownership_record own (w ∷ records) v h =
    ground (arith, contains-remove_ownership_record own records v)

txt_change_of_rest-contains :
    (name : String) (existing rest : List String) (v : String)
    → contains rest v ≡ true
    → ((txt_change_of_rest name existing rest).action ≡ upsert)
      × (contains (change_values (txt_change_of_rest name existing rest)) v ≡ true)
unfolding txt_change_of_rest new_txt_change contains
txt_change_of_rest-contains name existing [] v h = cc
txt_change_of_rest-contains name existing (w ∷ rest) v h = (refl, h)

-- A TXT value of somebody else survives a delete: where there is one, the change is an upsert
-- whose values hold it.
pub new_txt_change_for_delete-foreign :
    (own name : String) (records : List String) (v : String)
    → v ≢ own
    → contains records v ≡ true
    → ((new_txt_change_for_delete own name records).action ≡ upsert)
      × (contains (change_values (new_txt_change_for_delete own name records)) v ≡ true)
unfolding new_txt_change_for_delete
new_txt_change_for_delete-foreign own name records v h k =
    txt_change_of_rest-contains name records _ v
      (ground (arith, contains-remove_ownership_record own records v))

txt_change_of_rest-delete :
    (name : String) (existing rest : List String)
    → (txt_change_of_rest name existing rest).action ≡ delete
    → (rest ≡ []) × (change_values (txt_change_of_rest name existing rest) ≡ existing)
unfolding txt_change_of_rest new_txt_change
txt_change_of_rest-delete name existing [] h = (refl, refl)
txt_change_of_rest-delete name existing (w ∷ rest) h = cc

remove_ownership_record-eq-nil :
    (own : String) (records : List String)
    → remove_ownership_record own records ≡ []
    → (records ≡ []) ⊎ (records ≡ own ∷ [])
unfolding remove_ownership_record is_owned_by_this_class
remove_ownership_record-eq-nil own [] h = inl refl
remove_ownership_record-eq-nil own (w ∷ records) h = ground arith

-- The TXT record is deleted only where it has no value but the ownership value, and the change
-- then repeats its values.
pub new_txt_change_for_delete-deletes :
    (own name : String) (records : List String)
    → (new_txt_change_for_delete own name records).action ≡ delete
    → ((records ≡ []) ⊎ (records ≡ own ∷ []))
      × (change_values (new_txt_change_for_delete own name records) ≡ records)
unfolding new_txt_change_for_delete
new_txt_change_for_delete-deletes own name records h =
    let (gone, same) = txt_change_of_rest-delete name records _ h in
    (remove_ownership_record-eq-nil own records gone, same)
