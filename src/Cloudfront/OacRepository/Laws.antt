-- ===== src/Cloudfront/OacRepository/Laws.antt =====
-- How an OAC is looked for in the pages that AWS lists.
use mathlib.Core.List.{List, [], ◌∷◌, ◌++◌}
use cdn_origin_controller.Prelude.{
  ◌≡◌, refl, sym, ◌∙◌, ap, inl, inr, Option, none, some, string_eq, Bool-cases, Option-cases,
}
use cdn_origin_controller.GoError.{ok, annotated}
use cdn_origin_controller.Cloudfront.Oac.{Oac}
use cdn_origin_controller.Cloudfront.Client.{OacSummary, OacPages, failed, last, more}
use cdn_origin_controller.Cloudfront.OacRepository.{
  is_same_oac, find_item, look_at_page, find_in_pages,
}
use cdn_origin_controller.Cloudfront.OacLister.{list_origin_access_controls_pages}

-- The items of all pages.
unfoldable pub all_items : OacPages → List OacSummary
all_items (failed e) = []
all_items (last items) = items
all_items (more items pages) = items ++ all_items pages

-- Every page could be had.
abbrev pub IsComplete : OacPages → Type 0
IsComplete (failed e) = ⊥
IsComplete (last items) = Unit
IsComplete (more items pages) = IsComplete pages

-- The first of two.
abbrev or_later : Option OacSummary → Option OacSummary → Option OacSummary
or_later none later = later
or_later (some item) later = some item

find_item-append :
    (oac : Oac) (xs ys : List OacSummary)
    → find_item oac (xs ++ ys) ≡ or_later (find_item oac xs) (find_item oac ys)
unfolding find_item
find_item-append oac [] ys = refl
find_item-append oac (x ∷ xs) ys = elim (Bool-cases (is_same_oac oac x)) [
  | inl same ↦ rw same refl
  | inr other ↦ rw other (find_item-append oac xs ys)
]

listed-eq :
    (oac : Oac) (pages : OacPages)
    → IsComplete pages
    → list_origin_access_controls_pages (look_at_page oac) none pages
      ≡ ok (find_item oac (all_items pages))
unfolding list_origin_access_controls_pages look_at_page all_items
listed-eq oac (failed e) h = absurd h
listed-eq oac (last items) h = elim (Option-cases (find_item oac items)) [
  | inl absent ↦ rw absent refl
  | inr (item, found) ↦ rw found refl
]
listed-eq oac (more items pages) h = elim (Option-cases (find_item oac items)) [
  | inl absent ↦
      rw (absent, list_origin_access_controls_pages)
        (listed-eq oac pages h
          ∙ ap ok (sym (find_item-append oac items (all_items pages) ∙ rw absent refl)))
  | inr (item, found) ↦
      rw (found, list_origin_access_controls_pages)
        (ap ok (sym (find_item-append oac items (all_items pages) ∙ rw found refl)))
]

-- If every page can be had then the listing finds what a search of all items in their order finds,
-- on whichever page it is, and nothing where no item has the OAC's id or name.
pub find_in_pages-eq :
    (oac : Oac) (pages : OacPages)
    → IsComplete pages
    → find_in_pages oac pages ≡ ok (find_item oac (all_items pages))
unfolding find_in_pages
find_in_pages-eq oac pages h = ap (annotated "listing OACs") (listed-eq oac pages h)
