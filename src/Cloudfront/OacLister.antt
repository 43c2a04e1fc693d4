-- ===== src/Cloudfront/OacLister.antt =====
-- internal/cloudfront/oac_lister.go: listing OACs page by page.
use mathlib.Core.List.{List}
use cdn_origin_controller.Prelude.{Bool, true, false, if◌then◌else◌}
use cdn_origin_controller.GoError.{Result, ok, err}
use cdn_origin_controller.Cloudfront.Client.{OacSummary, OacPages, failed, last, more}

-- The loop of `ListOriginAccessControlsPagesWithContext`. The callback gets a page and whether it is
-- the last; what it keeps between its calls is passed on, and it returns whether to go on.
unfoldable pub list_origin_access_controls_pages :
    {A : Type 0} → (A → List OacSummary → (last_page : Bool) → A × Bool) → A → OacPages → Result A
list_origin_access_controls_pages fn kept (failed e) = err e
list_origin_access_controls_pages fn kept (last items) = ok (fn kept items true).0
list_origin_access_controls_pages fn kept (more items pages) =
    let rest = list_origin_access_controls_pages fn (fn kept items false).0 pages in
    if (fn kept items false).1 then rest else ok (fn kept items false).0
