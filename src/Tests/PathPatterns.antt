-- ===== src/Tests/PathPatterns.antt =====
-- Three path patterns.
use cdn_origin_controller.Prelude.{String, ◌≡◌, refl, true, string_eq, nat_eq, arith}
use cdn_origin_controller.Cloudfront.Sort.{bytes, is_in_most_specific_order}
use cdn_origin_controller.Cloudfront.Sort.Order.{IsAsciiPattern}

abbrev pub exact : String
exact = "/ab"

abbrev pub single : String
single = "/a?"

abbrev pub any : String
any = "/a*"

pub exact-ascii : IsAsciiPattern exact
unfolding bytes
exact-ascii = ground arith

pub single-ascii : IsAsciiPattern single
unfolding bytes
single-ascii = ground arith

pub any-ascii : IsAsciiPattern any
unfolding bytes
any-ascii = ground arith

exact_first : is_in_most_specific_order exact single ≡ true
unfolding is_in_most_specific_order nat_eq
exact_first = refl

any_last : is_in_most_specific_order single any ≡ true
unfolding is_in_most_specific_order nat_eq
any_last = refl
