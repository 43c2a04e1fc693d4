-- ===== src/Certificate.antt =====
-- internal/certificate: finding an ACM certificate for the domains of a distribution. The ACM
-- client is a parameter, which lists the certificates page by page and describes each.
pub mod Matching
pub mod Discovery
use mathlib.Core.List.{List, [], ◌∷◌, ◌++◌}
use cdn_origin_controller.Prelude.{
  String, Bool, true, false, ◌||◌, ◌&&◌, Option, none, some, ◌==◌, string_eq, if◌then◌else◌,
}
use cdn_origin_controller.GoError.{
  GoError, new, annotate, wrap, Result, ok, err, panic, ◌>>=◌, annotated,
}
use cdn_origin_controller.GoString.{split, join, has_prefix, replace_all}

-- `Certificate`, with its constructor `New` and its accessors.
pub record Certificate : Type 0 where
  pub arn : String
  pub domain_name : String
  pub alternative_names : List String

abbrev rest_of : List String → List String
rest_of [] = []
rest_of (p ∷ ps) = ps

-- `strings.Join(strings.Split(host, ".")[1:], ".")`
unfoldable pub host_domain : String → String
host_domain host = join (rest_of (split host b'.')) "."

-- `certHost` without its wildcard.
unfoldable pub bare_host : String → String
bare_host cert_host = if has_prefix cert_host "*." then replace_all cert_host "*." "" else cert_host

-- The loop of `certMatches`.
unfoldable pub any_host_matches : String → List String → Bool
unfolding host_domain bare_host
any_host_matches dist_host [] = false
any_host_matches dist_host (cert_host ∷ hosts) =
    dist_host == cert_host
    || (bare_host cert_host == host_domain dist_host || any_host_matches dist_host hosts)

unfoldable pub cert_matches : String → Certificate → Bool
unfolding any_host_matches
cert_matches dist_host c = any_host_matches dist_host (c.alternative_names ++ (c.domain_name ∷ []))

-- `matchingDomainFilter`
unfoldable pub matching_domain_filter : List String → Certificate → Bool
matching_domain_filter [] c = true
matching_domain_filter (host ∷ hosts) c = cert_matches host c && matching_domain_filter hosts c

-- The pages of certificate ARNs that the ACM client lists: an error where a page cannot be had,
-- the last page, or a page with more to come.
pub data Pages : Type 0 where
  failed : GoError → Pages
  last : List String → Pages
  more : List String → Pages → Pages

pub record AcmClient : Type 0 where
  pub pages : Pages
  pub describe_certificate : String → Result Certificate

-- What the callback returns at a page without an error. `ListCertificatesPages` goes on to the
-- next page if this is true.
unfoldable pub goes_on : (last_page : Bool) → Bool
goes_on last_page = last_page

module _ (c : AcmClient) (filter : Certificate → Bool) where
  -- The loop of the callback over one page. An error of a description ends it.
  unfoldable pub filter_page : List Certificate → List String → Result (List Certificate)
  filter_page certs [] = ok certs
  filter_page certs (arn ∷ arns) = do
    cert ← annotated "describing certificate" (c.describe_certificate arn)
    filter_page (if filter cert then certs ++ (cert ∷ []) else certs) arns

  unfoldable pub list_pages : List Certificate → Pages → Result (List Certificate)
  unfolding filter_page goes_on
  list_pages certs (failed e) = err e
  list_pages certs (last page) = filter_page certs page
  list_pages certs (more page pages) = do
    found ← filter_page certs page
    let rest = list_pages found pages
    if goes_on false then rest else ok found

  unfoldable pub find_by_filter : Result (List Certificate)
  unfolding list_pages
  find_by_filter = annotated "finding certificate" (list_pages [] c.pages)

abbrev first_cert : List Certificate → Result Certificate
first_cert [] = err (new "could not find any matching certificate")
first_cert (cert ∷ certs) = ok cert

-- `acmCertService.DiscoverByHost`
unfoldable pub discover_by_host : AcmClient → List String → Result Certificate
unfolding find_by_filter
discover_by_host c hosts = do
  certs ← annotated "discovery certificate" (find_by_filter c (matching_domain_filter hosts))
  first_cert certs
