-- ===== src/Cloudfront/Distribution/Behaviors.antt =====
-- The behaviors of a distribution, in the order in which CloudFront tries them.
use mathlib.Core.List.{Perm}
use cdn_origin_controller.Prelude.{◌≡◌, true, All}
use cdn_origin_controller.Cloudfront.Origin.{Behavior}
use cdn_origin_controller.Cloudfront.Sort.Order.{
  IsAsciiPattern, is_in_most_specific_order_total, is_in_most_specific_order_trans,
}
use cdn_origin_controller.Cloudfront.Sort.Sorting.{Ordered, sort-perm, sort-All, sort-Ordered}
use cdn_origin_controller.Cloudfront.Sort.Specificity.{
  IsMoreSpecific, is_in_most_specific_order-IsMoreSpecific, Ordered-map,
}
use cdn_origin_controller.Cloudfront.Distribution.{
  Distribution, less_by_path, all_behaviors, sorted_custom_behaviors,
}

abbrev pub HasAsciiPath : Behavior → Type 0
HasAsciiPath b = IsAsciiPattern b.path_pattern

-- If the path patterns are ASCII then the sorted behaviors are those of the custom origins, each
-- as often, and the pattern of each has more bytes than that of any that comes after it, or as many
-- and is the same, or has the earlier byte where they first differ, `*` being the last byte and `?`
-- the last but it.
pub sorted_custom_behaviors-Ordered :
    (d : Distribution)
    → All HasAsciiPath (all_behaviors d.custom_origins)
    → Perm (sorted_custom_behaviors d) (all_behaviors d.custom_origins)
      × Ordered (λ b c. IsMoreSpecific b.path_pattern c.path_pattern) (sorted_custom_behaviors d)
unfolding sorted_custom_behaviors less_by_path
sorted_custom_behaviors-Ordered d h = (
  sort-perm less_by_path (all_behaviors d.custom_origins),
  Ordered-map HasAsciiPath (λ b c. less_by_path b c ≡ true)
      (λ b c. IsMoreSpecific b.path_pattern c.path_pattern)
      (λ b c p r. is_in_most_specific_order-IsMoreSpecific b.path_pattern c.path_pattern p r)
      (sorted_custom_behaviors d) (sort-All less_by_path HasAsciiPath _ h)
      (sort-Ordered less_by_path HasAsciiPath
        (λ b c p q. is_in_most_specific_order_total b.path_pattern c.path_pattern p q)
        (λ a b c p q r.
          is_in_most_specific_order_trans a.path_pattern b.path_pattern c.path_pattern p q r)
        (all_behaviors d.custom_origins) h),
)
