-- ===== src/Certificate/Matching.antt =====
-- A certificate is taken to match each host one label below its domain, wildcard or not.
use Prim.Native.Char.{Char}
use mathlib.Core.List.{[]}
use cdn_origin_controller.Prelude.{String, ◌<>◌, ◌≡◌, true, false, string_eq, arith}
use cdn_origin_controller.GoString.{has_prefix}
use cdn_origin_controller.GoString.Laws.{Lacks, split-append, join-split}
use cdn_origin_controller.Certificate.{host_domain, bare_host, any_host_matches, cert_matches}

abbrev pub dot : Char
dot = "."

host_domain-label :
    (label domain : String)
    → Lacks b'.' label
    → host_domain (label <> (String.◌∷◌ dot domain)) ≡ domain
unfolding host_domain
host_domain-label label domain h = rw (split-append label dot domain h) (join-split domain)

-- A certificate for a domain without a wildcard, and for nothing else, matches every host one
-- label below that domain.
pub cert_matches-subdomain :
    (arn label domain : String)
    → Lacks b'.' label
    → has_prefix domain "*." ≡ false
    → cert_matches
        (label <> (String.◌∷◌ dot domain))
        (record { arn = arn; domain_name = domain; alternative_names = [] })
      ≡ true
unfolding cert_matches any_host_matches bare_host
cert_matches-subdomain arn label domain h plain = ground (arith, host_domain-label label domain h)
