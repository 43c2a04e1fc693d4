-- ===== src/Route53/Alias.antt =====
-- internal/route53/alias.go
pub mod Laws
pub mod Same
use mathlib.Core.List.{List, [], ◌∷◌, ◌++◌}
use cdn_origin_controller.Prelude.{String, ◌<>◌, Bool, true, false, if◌then◌else◌}
use cdn_origin_controller.GoString.{has_suffix}

abbrev pub txt_owner_key : String
txt_owner_key = "cdn-origin-controller/owner"

pub record Entry : Type 0 where
  pub name : String
  pub types : List String

pub record Aliases : Type 0 where
  pub target : String
  pub hosted_zone_id : String
  pub ownership_txt_value : String
  pub entries : List Entry

unfoldable pub normalize_domain : String → String
unfolding has_suffix
normalize_domain domain = if has_suffix domain "." then domain else domain <> "."

unfoldable pub normalize_domains : List String → List String
normalize_domains [] = []
normalize_domains (d ∷ domains) = normalize_domain d ∷ normalize_domains domains

-- `RRTypeA` and, with IPv6, `RRTypeAaaa`
unfoldable pub alias_types : Bool → List String
alias_types ipv6_enabled = if ipv6_enabled then "A" ∷ "AAAA" ∷ [] else "A" ∷ []

-- The loop of `NewAliases`.
unfoldable pub new_entries : List String → List String → List Entry
new_entries types [] = []
new_entries types (domain ∷ domains) =
    record { name = normalize_domain domain; types = types } ∷ new_entries types domains

-- `fmt.Sprintf("\"%s=%s\"", txtOwnerKey, txtOwnerValue)`
unfoldable pub ownership_txt_value : String → String
ownership_txt_value txt_owner_value = "\"" <> (txt_owner_key <> ("=" <> (txt_owner_value <> "\"")))

unfoldable pub new_aliases :
    (target hosted_zone_id txt_owner_value : String) → List String → Bool → Aliases
unfolding normalize_domain alias_types new_entries ownership_txt_value
new_aliases target hosted_zone_id txt_owner_value domains ipv6_enabled = record {
  target = target;
  hosted_zone_id = hosted_zone_id;
  ownership_txt_value = ownership_txt_value txt_owner_value;
  entries = new_entries (alias_types ipv6_enabled) domains;
}

-- The loop of `Aliases.Domains`.
unfoldable pub entry_names : List Entry → List String
entry_names [] = []
entry_names (e ∷ es) = e.name ∷ entry_names es

unfoldable pub domains : Aliases → List String
unfolding entry_names
domains a = entry_names a.entries
