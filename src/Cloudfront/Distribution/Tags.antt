-- ===== src/Cloudfront/Distribution/Tags.antt =====
-- The tags by which the controller finds its distributions again.
use mathlib.Core.List.{[]}
use mathlib.Core.Bool.{false≢true}
use mathlib.Core.Option.{or_else}
use text.Mathlib.TextEquality.{eq_iff}
use cdn_origin_controller.Prelude.{String, ◌≡◌, ◌≢◌, string_eq, arith, none, some}
use cdn_origin_controller.GoMap.{lookup, insert, lookup-insert, lookup-insert_self, NodupKeys}
use cdn_origin_controller.Strhelper.Laws.{lookup-insert_all}
use cdn_origin_controller.Cloudfront.Distribution.{
  DistributionBuilder, generate_tags, default_tags, ownership_tag_key, ownership_tag_value,
  group_tag_key,
}

-- If no key of the builder's tags is there twice, a tag of the builder is in the tags as it is; a default tag is there unless the builder has the
-- key too.
pub lookup-generate_tags :
    (b : DistributionBuilder) (k : String)
    → NodupKeys b.tags
    → lookup k (generate_tags b) ≡ or_else (lookup k b.tags) (lookup k (default_tags b))
unfolding generate_tags
lookup-generate_tags b k h = lookup-insert_all (default_tags b) b.tags k h

group-ne-ownership : group_tag_key ≢ ownership_tag_key
group-ne-ownership e = false≢true ((eq_iff group_tag_key ownership_tag_key).1 e)

-- If no key of the builder's tags is there twice, and neither of the two keys is, the tags name the owner and the group, by which
-- the distribution is looked up.
pub generate_tags-owned :
    (b : DistributionBuilder)
    → NodupKeys b.tags
    → lookup ownership_tag_key b.tags ≡ none
    → lookup group_tag_key b.tags ≡ none
    → (lookup ownership_tag_key (generate_tags b) ≡ some ownership_tag_value)
      × (lookup group_tag_key (generate_tags b) ≡ some b.group)
unfolding or_else default_tags
generate_tags-owned b h own group = (
  rw (lookup-generate_tags b ownership_tag_key h, own)
      (ground (
        arith,
        group-ne-ownership,
        lookup-insert ownership_tag_key group_tag_key b.group
            (insert ownership_tag_key ownership_tag_value []),
        lookup-insert_self ownership_tag_key ownership_tag_value [],
      )),
  rw (lookup-generate_tags b group_tag_key h, group) (lookup-insert_self group_tag_key b.group _),
)
