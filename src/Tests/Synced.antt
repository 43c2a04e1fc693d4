-- ===== src/Tests/Synced.antt =====
-- A sync of a distribution whose domain has changed.
use mathlib.Core.List.{[], ◌∷◌}
use cdn_origin_controller.Prelude.{false}
use cdn_origin_controller.Cloudfront.Distribution.{Distribution}
use cdn_origin_controller.Tests.Distributions.{distribution}

abbrev renamed : Distribution
renamed = record distribution {
  id = "E1";
  arn = "arn:1";
  alternate_domains = "new.example.com" ∷ [];
  ipv6_enabled = false;
}

abbrev synced : Distribution
synced = record renamed { address = "d1.cloudfront.net" }
