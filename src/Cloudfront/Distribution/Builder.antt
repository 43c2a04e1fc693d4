-- ===== src/Cloudfront/Distribution/Builder.antt =====
-- The alternate domains that a builder collects.
use mathlib.Core.List.{List}
use cdn_origin_controller.Prelude.{String, ◌≡◌, ◌||◌}
use cdn_origin_controller.Strhelper.{contains}
use cdn_origin_controller.Strhelper.Laws.{Nodup, contains-append_missing, append_missing-Nodup}
use cdn_origin_controller.Cloudfront.Distribution.{DistributionBuilder, with_alternate_domains}

-- Adding alternate domains to a builder without duplicates keeps them free of duplicates, and the builder then has exactly the
-- domains it had and those that were added.
pub with_alternate_domains-union :
    (ds : List String) (b : DistributionBuilder)
    → Nodup b.alternate_domains
    → Nodup (with_alternate_domains ds b).alternate_domains
      × ((d : String)
          → contains (with_alternate_domains ds b).alternate_domains d
            ≡ (contains b.alternate_domains d || contains ds d))
unfolding with_alternate_domains
with_alternate_domains-union ds b h =
    (append_missing-Nodup b.alternate_domains ds h, contains-append_missing b.alternate_domains ds)
