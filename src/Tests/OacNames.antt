-- ===== src/Tests/OacNames.antt =====
-- The name of an OAC whose default name is too long.
use Prim.Native.String.{len}
use cdn_origin_controller.Prelude.{String, refl, ◌≤◌, arith, nat_eq}
use cdn_origin_controller.Cloudfront.Oac.{oac_name_char_limit, first_label, oac_name}
use cdn_origin_controller.Cloudfront.Oac.Names.{IsOneByte, len-oac_name}

abbrev digest : String → String
digest t = "d41d8cd9"

digest-IsOneByte : (t : String) → IsOneByte (digest t)
digest-IsOneByte t = (refl, (refl, (refl, (refl, (refl, (refl, (refl, (refl, tt))))))))

abbrev bucket : String
bucket = "a-bucket-with-a-name-of-many-words-that-does-not-fit-the-limit.s3.amazonaws.com"

short_label : len (first_label "shop.example.com") ≤ 54
unfolding first_label cdn_origin_controller.GoString.split nat_eq
short_label = omega arith

len-oac_name_example : len (oac_name digest "shop.example.com" bucket) ≤ oac_name_char_limit
len-oac_name_example = len-oac_name digest "shop.example.com" bucket digest-IsOneByte short_label
