-- ===== src/Cloudfront/Oac.antt =====
-- internal/cloudfront/oac.go: origin access controls and their names. MD5, in hexadecimal, is a
-- parameter.
pub mod Names
use Prim.Native.Nat.{ℕ}
use Prim.Native.String.{[], ◌∷◌, len}
use cdn_origin_controller.Prelude.{String, ◌<>◌, List, string_eq, Eq, if◌then◌else◌, leb}
use cdn_origin_controller.GoString.{split}

abbrev pub oac_name_char_limit : ℕ
oac_name_char_limit = 63

pub record Oac : Type 0 where
  pub id : String
  pub name : String
  pub description : String
  pub origin_name : String
  pub origin_access_control_origin_type : String
  pub signing_behavior : String
  pub signing_protocol : String

oac_discrete : Discrete Oac
oac_discrete = hlevel string_eq.dec

instance unfoldable pub oac_eq : Eq Oac
unfolding oac_discrete
oac_eq = record { dec = oac_discrete }

-- The zero value of the struct.
abbrev pub no_oac : Oac
no_oac = record {
  id = "";
  name = "";
  description = "";
  origin_name = "";
  origin_access_control_origin_type = "";
  signing_behavior = "";
  signing_protocol = "";
}

-- `strings.Split(s, ".")[0]`; a split has a first part.
abbrev head_or_empty : List String → String
head_or_empty List.[] = ""
head_or_empty (List.◌∷◌ p ps) = p

unfoldable pub first_label : String → String
first_label s = head_or_empty (split s b'.')

abbrev pub take_chars : ℕ → String → String
take_chars ℕ.zero s = []
take_chars (ℕ.suc n) [] = []
take_chars (ℕ.suc n) (c ∷ s) = c ∷ take_chars n s

unfoldable pub oac_description : String → String
oac_description origin_name = "OAC for " <> (origin_name <> ", managed by cdn-origin-controller")

unfoldable pub default_oac_name : (distribution_name s3_name : String) → String
default_oac_name distribution_name s3_name = distribution_name <> ("-" <> s3_name)

module _ (md5 : String → String) where
  unfoldable pub generate_short_id : (distr_name domain_name : String) → String
  generate_short_id distr_name domain_name = take_chars 8 (md5 (distr_name <> ("-" <> domain_name)))

  unfoldable pub oac_name : (distribution_name s3_host : String) → String
  unfolding default_oac_name generate_short_id first_label
  oac_name distribution_name s3_host =
      let s3_name = first_label s3_host in
      if leb (len (default_oac_name distribution_name s3_name)) oac_name_char_limit
      then default_oac_name distribution_name s3_name
      else first_label distribution_name <> ("-" <> generate_short_id distribution_name s3_name)

  unfoldable pub new_oac : (distribution origin_name : String) → Oac
  unfolding oac_name oac_description
  new_oac distribution origin_name = record {
    id = "";
    name = oac_name distribution origin_name;
    description = oac_description origin_name;
    origin_name = origin_name;
    origin_access_control_origin_type = "s3";
    signing_behavior = "always";
    signing_protocol = "sigv4";
  }
