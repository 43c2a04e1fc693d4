-- ===== src/Cloudfront/Oac/Names.antt =====
-- The length of the name of an origin access control, which AWS limits.
use Prim.Native.Nat.{ℕ, zero, suc}
use Prim.Native.Char.{len_utf8}
use Prim.Native.String.{[], ◌∷◌, len}
use Prim.Native.String.len
use text.Mathlib.TextPositions.{len-append}
use cdn_origin_controller.Prelude.{
  String, ◌<>◌, ◌≡◌, ap, ◌∙◌, ◌≤◌, ◌+◌, leb, arith, Bool-cases, inl, inr,
}
use cdn_origin_controller.Cloudfront.Oac.{
  oac_name_char_limit, first_label, take_chars, default_oac_name, generate_short_id, oac_name,
}

-- Each character takes one byte.
abbrev pub IsOneByte : String → Type 0
IsOneByte [] = Unit
IsOneByte (c ∷ s) = (len_utf8 c ≡ 1) × IsOneByte s

len-take_chars : (n : ℕ) (s : String) → IsOneByte s → len (take_chars n s) ≤ n
len-take_chars zero s h = omega (arith, len.nil)
len-take_chars (suc n) [] h = omega (arith, len.nil)
len-take_chars (suc n) (c ∷ s) (one, rest) =
    let short = len-take_chars n s rest in omega (arith, len.cons c (take_chars n s), one, short)

len-dashed : (s t : String) → len (s <> ("-" <> t)) ≡ len s + (1 + len t)
len-dashed s t = len-append s ("-" <> t) ∙ ap (λ k. len s + k) (len-append "-" t)

-- If MD5 gives a text of one byte for each character, then the name of an OAC keeps to the limit of
-- AWS where the first label of the distribution's name has 54 bytes at most.
pub len-oac_name :
    (md5 : String → String) (distribution_name s3_host : String)
    → ((t : String) → IsOneByte (md5 t))
    → len (first_label distribution_name) ≤ 54
    → len (oac_name md5 distribution_name s3_host) ≤ oac_name_char_limit
unfolding oac_name generate_short_id
len-oac_name md5 d h hex short =
    elim (Bool-cases (leb (len (default_oac_name d (first_label h))) oac_name_char_limit)) [
      | inl fits ↦ rw fits (ground (arith, fits))
      | inr long ↦
          let id = len-take_chars 8 (md5 (d <> ("-" <> first_label h))) (hex _) in
          rw long (
            omega (
              arith,
              len-dashed (first_label d) (generate_short_id md5 d (first_label h)),
              short,
              id,
            ))
    ]
