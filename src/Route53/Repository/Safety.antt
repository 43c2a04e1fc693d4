-- ===== src/Route53/Repository/Safety.antt =====
-- The hosted zone is changed only where every entry's records are the controller's.
use mathlib.Core.List.{List, [], ◌∷◌}
use cdn_origin_controller.Prelude.{String, ◌≡◌, refl, ◌≢◌, All}
use cdn_origin_controller.GoError.{Result, ok, err, panic, >>=-eq-ok, annotated, annotated-eq-ok}
use cdn_origin_controller.Route53.Alias.{Entry, Aliases}
use cdn_origin_controller.Route53.Records.{
  ResourceRecordSet, FilteredRecordSets, filter_record_sets, Change, validate_record_sets,
}
use cdn_origin_controller.Route53.Records.Ownership.{IsOurs, validate_record_sets-IsOurs}
use cdn_origin_controller.Route53.Repository.{
  Route53Client, existing_record_sets, validated, upsert_changes, delete_changes, upsert_aliases,
  delete_aliases, upsert_entries, delete_entries, request, resource_record_sets_by_entry,
  required_txt, delete_target,
}

module _ (c : Route53Client) where
  -- The records found for the entry may be changed by the owner of the value `own`.
  pub record IsChangeable (own zone : String) (s : c.State) (e : Entry) : Type 0 where
    pub listed : List ResourceRecordSet
    pub found : resource_record_sets_by_entry c zone e s ≡ ok listed
    pub ours : IsOurs own (filter_record_sets e listed)

  validated-eq-ok :
      (own : String) (sets : FilteredRecordSets) {sets' : FilteredRecordSets}
      → validated c own sets ≡ ok sets'
      → IsOurs own sets × (sets ≡ sets')
  unfolding validated
  validated-eq-ok own sets h =
      let (_, valid, same) = >>=-eq-ok (annotated _ (validate_record_sets own sets)) _ h in
      ((validate_record_sets-IsOurs own sets (annotated-eq-ok _ _ valid)).0, cc)

  existing-IsChangeable :
      (own zone : String) (e : Entry) (s : c.State) {sets : FilteredRecordSets}
      → existing_record_sets c own zone e s ≡ ok sets
      → IsChangeable own zone s e
  unfolding existing_record_sets
  existing-IsChangeable own zone e s h =
      let (all, listed, valid) = >>=-eq-ok (resource_record_sets_by_entry c zone e s) _ h in
      record { listed = all; found = listed; ours = (validated-eq-ok own _ valid).0 }

  upsert_changes-All :
      (a : Aliases) (es : List Entry) (s : c.State) {cs : List Change}
      → upsert_changes c a es s ≡ ok cs
      → All (IsChangeable a.ownership_txt_value a.hosted_zone_id s) es
  unfolding upsert_changes
  upsert_changes-All a [] s h = tt
  upsert_changes-All a (e ∷ es) s h =
      let (sets, found, k) = >>=-eq-ok (annotated _ (existing_record_sets c _ _ e s)) _ h in
      let (rest, more, _) = >>=-eq-ok (upsert_changes c a es s) _ k in
      (existing-IsChangeable _ _ e s (annotated-eq-ok _ _ found), upsert_changes-All a es s more)

  delete_changes-All :
      (a : Aliases) (target : String) (es : List Entry) (s : c.State) {cs : List Change}
      → delete_changes c a target es s ≡ ok cs
      → All (IsChangeable a.ownership_txt_value a.hosted_zone_id s) es
  unfolding delete_changes
  delete_changes-All a target [] s h = tt
  delete_changes-All a target (e ∷ es) s h =
      let (sets, found, k) = >>=-eq-ok (existing_record_sets c _ _ e s) _ h in
      let (txt, there, k2) = >>=-eq-ok (required_txt e.name sets.txt_record) _ k in
      let (t, _, k3) = >>=-eq-ok (delete_target target sets.address_records) _ k2 in
      let (rest, more, _) = >>=-eq-ok (delete_changes c a t es s) _ k3 in
      (existing-IsChangeable _ _ e s found, delete_changes-All a t es s more)

  request-ok :
      (zone comment : String) (cs : Result (List Change)) (s : c.State)
      → (request c zone comment cs s).1 ≢ s
      → (l : List Change) × (cs ≡ ok l)
  unfolding request
  request-ok zone comment (ok l) s h = (l, refl)
  request-ok zone comment (err e) s h = absurd (h refl)
  request-ok zone comment (panic m) s h = absurd (h refl)

  upsert_entries-All :
      (a : Aliases) (es : List Entry) (s : c.State)
      → (upsert_entries c a es s).1 ≢ s
      → All (IsChangeable a.ownership_txt_value a.hosted_zone_id s) es
  unfolding upsert_entries
  upsert_entries-All a [] s h = tt
  upsert_entries-All a (e ∷ es) s h =
      let (cs, computed) = request-ok _ _ _ s h in upsert_changes-All a (e ∷ es) s computed

  delete_entries-All :
      (a : Aliases) (es : List Entry) (s : c.State)
      → (delete_entries c a es s).1 ≢ s
      → All (IsChangeable a.ownership_txt_value a.hosted_zone_id s) es
  unfolding delete_entries
  delete_entries-All a [] s h = tt
  delete_entries-All a (e ∷ es) s h =
      let (cs, computed) = request-ok _ _ _ s h in delete_changes-All a _ (e ∷ es) s computed

  -- `Upsert` changes the hosted zone's state only if, for every entry, the listing succeeded and
  -- either no address record was found or its TXT record holds the class's ownership value.
  pub upsert_aliases_safe :
      (a : Aliases) (s : c.State)
      → (upsert_aliases c a s).1 ≢ s
      → All (IsChangeable a.ownership_txt_value a.hosted_zone_id s) a.entries
  unfolding upsert_aliases
  upsert_aliases_safe a s h = upsert_entries-All a a.entries s h

  -- `Delete` changes the hosted zone's state only if, for every entry, the listing succeeded and
  -- either no address record was found or its TXT record holds the class's ownership value.
  pub delete_aliases_safe :
      (a : Aliases) (s : c.State)
      → (delete_aliases c a s).1 ≢ s
      → All (IsChangeable a.ownership_txt_value a.hosted_zone_id s) a.entries
  unfolding delete_aliases
  delete_aliases_safe a s h = delete_entries-All a a.entries s h
