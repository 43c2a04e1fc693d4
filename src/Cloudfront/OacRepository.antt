-- ===== src/Cloudfront/OacRepository.antt =====
-- internal/cloudfront/oac_repository.go
pub mod Laws
use mathlib.Core.List.{List, [], ◌∷◌}
use cdn_origin_controller.Prelude.{
  String, Bool, true, false, not, ◌||◌, Option, none, some, ◌==◌, string_eq, if◌then◌else◌,
}
use cdn_origin_controller.GoError.{
  GoError, new, annotate, wrap, Result, ok, err, panic, annotated as annotated_result,
}
use cdn_origin_controller.GoError.Aws.{ignore_error_code}
use cdn_origin_controller.Exec.{Exec, ◌>>=◌, pure, lift, reads, annotated}
use cdn_origin_controller.Config.{Config}
use cdn_origin_controller.Cloudfront.Oac.{Oac, no_oac}
use cdn_origin_controller.Cloudfront.Client.{
  OacSummary, OacPages, failed, last, more, OacConfig, OriginAccessControl, CloudfrontClient,
}
use cdn_origin_controller.Cloudfront.OacLister.{list_origin_access_controls_pages}

unfoldable pub new_oac_config : Oac → OacConfig
new_oac_config desired = record {
  description = desired.description;
  name = desired.name;
  origin_type = "s3";
  signing_behavior = "always";
  signing_protocol = "sigv4";
}

unfoldable pub new_oac_from_origin_access_control_config : OriginAccessControl → String → Oac
new_oac_from_origin_access_control_config out origin_name = record {
  id = out.id;
  name = out.config.name;
  description = "";
  origin_name = origin_name;
  origin_access_control_origin_type = out.config.origin_type;
  signing_behavior = out.config.signing_behavior;
  signing_protocol = out.config.signing_protocol;
}

unfoldable pub new_oac_from_origin_access_control_summary : OacSummary → String → Oac
new_oac_from_origin_access_control_summary summary origin_name = record {
  id = summary.id;
  name = summary.name;
  description = "";
  origin_name = origin_name;
  origin_access_control_origin_type = summary.origin_type;
  signing_behavior = summary.signing_behavior;
  signing_protocol = summary.signing_protocol;
}

unfoldable pub is_same_oac : Oac → OacSummary → Bool
is_same_oac oac item = item.id == oac.id || item.name == oac.name

-- The loop of the callback over one page.
unfoldable pub find_item : Oac → List OacSummary → Option OacSummary
find_item oac [] = none
find_item oac (item ∷ items) =
    let rest = find_item oac items in if is_same_oac oac item then some item else rest

abbrev kept_and_goes_on : Option OacSummary → Bool → Option OacSummary → Option OacSummary × Bool
kept_and_goes_on found last_page none = (found, not last_page)
kept_and_goes_on found last_page (some item) = (some item, false)

-- The callback of `getOAC`, which stops the listing where it finds the item; what it keeps is the
-- item found.
unfoldable pub look_at_page :
    Oac → Option OacSummary → List OacSummary → (last_page : Bool) → Option OacSummary × Bool
unfolding find_item
look_at_page oac found items last_page = kept_and_goes_on found last_page (find_item oac items)

unfoldable pub find_in_pages : Oac → OacPages → Result (Option OacSummary)
unfolding look_at_page list_origin_access_controls_pages
find_in_pages oac pages =
    annotated_result "listing OACs"
      (list_origin_access_controls_pages (look_at_page oac) none pages)

unfoldable pub with_etag :
    Oac → OacSummary → Result (Option String) → Result (Option (Oac × Option String))
with_etag oac item (ok etag) =
    ok (some (new_oac_from_origin_access_control_summary item oac.origin_name, etag))
with_etag oac item (err e) = err e
with_etag oac item (panic m) = panic m

module _ (c : CloudfrontClient) where
  -- `getOAC`: the observed OAC and its eTag; `none` stands for `errNoSuchOAC`.
  unfoldable pub found_oac :
      Oac → Option OacSummary → c.State → Result (Option (Oac × Option String))
  found_oac oac none s = ok none
  found_oac oac (some item) s = with_etag oac item (c.get_oac_etag s item.id)

  unfoldable pub get_oac : Oac → Exec c.State (Option (Oac × Option String))
  unfolding found_oac with_etag find_in_pages find_item
  get_oac oac = do item ← reads (λ s. find_in_pages oac (c.list_oacs s)); reads (found_oac oac item)

  unfoldable pub create_oac : Oac → Exec c.State Oac
  create_oac desired = do
    out ← c.create_oac (new_oac_config desired)
    pure (new_oac_from_origin_access_control_config out desired.origin_name)

  unfoldable pub update_oac : Oac → Oac → Option String → Exec c.State Oac
  update_oac desired observed etag = do
    out ← c.update_oac observed.id etag (new_oac_config desired)
    pure (new_oac_from_origin_access_control_config out desired.origin_name)

  unfoldable pub sync_found : Oac → Option (Oac × Option String) → Exec c.State Oac
  unfolding create_oac update_oac
  sync_found desired none = create_oac desired
  sync_found desired (some (observed, etag)) = update_oac desired observed etag

  -- `OACRepository.Sync`
  unfoldable pub sync_oac : Oac → Exec c.State Oac
  unfolding get_oac sync_found
  sync_oac desired = do
    found ← annotated "fetching existing OAC" (get_oac desired)
    sync_found desired found

  abbrev ignored : Oac → Option GoError × c.State → Result Oac × c.State
  ignored oac (e, s) = elim (ignore_error_code e "NoSuchOriginAccessControl") [
    | none ↦ (ok oac, s)
    | some e' ↦ (err e', s)
  ]

  unfoldable pub delete_found : Option (Oac × Option String) → Exec c.State Oac
  delete_found none s = (ok no_oac, s)
  delete_found (some (existing, etag)) s = ignored existing (c.delete_oac existing.id etag s)

  -- `OACRepository.Delete`
  unfoldable pub delete_oac : Config → Oac → Exec c.State Oac
  unfolding get_oac delete_found
  delete_oac cfg to_be_deleted s =
      let run = (get_oac to_be_deleted >>= delete_found) s in
      if cfg.deletion_enabled then run else (ok no_oac, s)
