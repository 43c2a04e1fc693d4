-- ===== src/Api/CdnStatus/Dns.antt =====
-- The DNS records that the status lists.
use mathlib.Core.List.{List, [], ◌∷◌}
use cdn_origin_controller.Prelude.{
  String, ◌≡◌, refl, ◌∙◌, not, ◌||◌, ◌&&◌, Option, none, some, ◌==◌, string_eq, arith,
}
use cdn_origin_controller.Strhelper.{contains, filter}
use cdn_origin_controller.Strhelper.Laws.{contains-append_missing, contains-filter}
use cdn_origin_controller.Api.CdnStatus.{
  CdnStatus, DnsStatus, upserted, upsert_dns_records, filter_out, kept, removed, remove_dns_records,
}

-- The records listed, none where there is no DNS status.
abbrev pub records_of : Option DnsStatus → List String
records_of none = []
records_of (some dns) = dns.records

abbrev pub dns_records : CdnStatus → List String
dns_records c = records_of c.dns

contains-upserted :
    (dns : Option DnsStatus) (rs : List String) (r : String)
    → contains (upserted dns rs).records r ≡ (contains (records_of dns) r || contains rs r)
unfolding contains
contains-upserted none rs r = refl
contains-upserted (some dns) rs r = contains-append_missing dns.records rs r

-- After an upsert exactly the old records and the given ones are listed.
pub contains-upsert_dns_records :
    (rs : List String) (c : CdnStatus) (r : String)
    → contains (dns_records (upsert_dns_records rs c)) r
      ≡ (contains (dns_records c) r || contains rs r)
unfolding upsert_dns_records contains
contains-upsert_dns_records [] c r = ground arith
contains-upsert_dns_records (x ∷ rs) c r = contains-upserted c.dns (x ∷ rs) r

contains-filter_out :
    (records its : List String) (r : String)
    → contains (filter_out records its) r ≡ (contains records r && not (contains its r))
unfolding filter_out contains
contains-filter_out records [] r = ground arith
contains-filter_out records (it ∷ its) r =
    contains-filter_out (filter records (λ i. not (i == it))) its r
    ∙ ground (arith, contains-filter records (λ i. not (i == it)) r)

contains-kept :
    (dns : DnsStatus) (rs : List String) (r : String)
    → contains (records_of (kept dns rs)) r ≡ contains rs r
contains-kept dns [] r = refl
contains-kept dns (x ∷ rs) r = refl

contains-removed :
    (dns : Option DnsStatus) (rs : List String) (r : String)
    → contains (records_of (removed dns rs)) r
      ≡ (contains (records_of dns) r && not (contains rs r))
unfolding contains
contains-removed none rs r = refl
contains-removed (some dns) rs r =
    contains-kept dns (filter_out dns.records rs) r ∙ contains-filter_out dns.records rs r

-- After a removal exactly the old records that were not given are listed.
pub contains-remove_dns_records :
    (rs : List String) (c : CdnStatus) (r : String)
    → contains (dns_records (remove_dns_records rs c)) r
      ≡ (contains (dns_records c) r && not (contains rs r))
unfolding remove_dns_records
contains-remove_dns_records rs c r = contains-removed c.dns rs r
