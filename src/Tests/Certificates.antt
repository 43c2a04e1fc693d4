-- ===== src/Tests/Certificates.antt =====
-- An account with two pages of certificates.
use mathlib.Core.List.{List, [], ◌∷◌}
use cdn_origin_controller.Prelude.{
  String, ◌<>◌, ◌≡◌, refl, Bool, true, false, All, string_eq, arith,
}
use cdn_origin_controller.GoError.{ok, annotated}
use cdn_origin_controller.GoString.{has_prefix}
use cdn_origin_controller.GoString.Laws.{Lacks}
use cdn_origin_controller.Certificate.{
  Certificate, AcmClient, last, more, filter_page, find_by_filter, discover_by_host, cert_matches,
  matching_domain_filter,
}
use cdn_origin_controller.Certificate.Discovery.{discover_by_host-All, find_by_filter-first_page}
use cdn_origin_controller.Certificate.Matching.{dot, cert_matches-subdomain}

abbrev wildcard : Certificate
wildcard = record { arn = "arn:1"; domain_name = "*.example.com"; alternative_names = [] }

abbrev pub account : AcmClient
account = record {
  pages = more ("arn:1" ∷ []) (last ("arn:2" ∷ []));
  describe_certificate = λ arn. ok (record wildcard { arn = arn });
}

abbrev hosts : List String
hosts = "a.example.com" ∷ "b.example.com" ∷ []

discovered : discover_by_host account hosts ≡ ok wildcard
unfolding discover_by_host string_eq matching_domain_filter cert_matches has_prefix
    cdn_origin_controller.Prelude.nat_eq cdn_origin_controller.GoString.replace_all
    cdn_origin_controller.GoString.join cdn_origin_controller.GoString.split
discovered = refl

discover_by_host-All_example : All (λ h. cert_matches h wildcard ≡ true) hosts
discover_by_host-All_example = discover_by_host-All account hosts discovered

find_by_filter-first_page_example :
    find_by_filter account (matching_domain_filter hosts)
    ≡ annotated "finding certificate"
        (filter_page account (matching_domain_filter hosts) [] ("arn:1" ∷ []))
find_by_filter-first_page_example =
    find_by_filter-first_page account (matching_domain_filter hosts) ("arn:1" ∷ [])
      (last ("arn:2" ∷ [])) refl

plain : has_prefix "example.com" "*." ≡ false
unfolding has_prefix cdn_origin_controller.Prelude.nat_eq
plain = refl

no_dot : Lacks b'.' "www"
no_dot = ground arith

cert_matches-subdomain_example :
    cert_matches
      ("www" <> (String.◌∷◌ dot "example.com"))
      (record { arn = "arn:1"; domain_name = "example.com"; alternative_names = [] })
    ≡ true
cert_matches-subdomain_example = cert_matches-subdomain "arn:1" "www" "example.com" no_dot plain
