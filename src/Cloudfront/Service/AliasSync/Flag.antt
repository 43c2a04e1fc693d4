-- ===== src/Cloudfront/Service/AliasSync/Flag.antt =====
-- The flag of the status that tells whether the DNS records are in sync.
use mathlib.Core.List.{List, [], ◌∷◌, ◌++◌}
use cdn_origin_controller.Prelude.{String, ◌≡◌, refl, ap, ◌∙◌, Bool, false, Option, none, some}
use cdn_origin_controller.GoError.{GoError, Result, ok, err, panic}
use cdn_origin_controller.Config.{Config}
use cdn_origin_controller.K8s.Objects.{CdnClass}
use cdn_origin_controller.Route53.Alias.{Aliases, domains}
use cdn_origin_controller.Route53.Repository.{Route53Client, upsert_aliases, delete_aliases}
use cdn_origin_controller.Api.CdnStatus.{
  CdnStatus, DnsStatus, upserted, kept, removed, with_sync, filter_out, upsert_dns_records,
  remove_dns_records, set_dns_sync,
}
use cdn_origin_controller.Cloudfront.Distribution.{Distribution}
use cdn_origin_controller.Cloudfront.Service.AliasSync.{
  aliases_to_upsert, aliases_to_delete, with_errors, after_delete, after_upsert, sync_aliases,
}

-- The flag, false where there is no DNS status.
abbrev flag_of : Option DnsStatus → Bool
flag_of none = false
flag_of (some dns) = dns.synced

abbrev pub dns_synced : CdnStatus → Bool
dns_synced c = flag_of c.dns

-- There is a DNS status, and it says that the records are not in sync.
abbrev IsOutOfSync : CdnStatus → Type 0
IsOutOfSync c = (dns : DnsStatus) × (c.dns ≡ some dns) × (dns.synced ≡ false)

upsert_dns_records-IsOutOfSync :
    (rs : List String) (c : CdnStatus) → IsOutOfSync c → IsOutOfSync (upsert_dns_records rs c)
unfolding upsert_dns_records
upsert_dns_records-IsOutOfSync [] c h = h
upsert_dns_records-IsOutOfSync (r ∷ rs) c (dns, found, off) =
    (_, ap (λ d. some (upserted d (r ∷ rs))) found, off)

flag_of-kept :
    (dns : DnsStatus) (rs : List String) → dns.synced ≡ false → flag_of (kept dns rs) ≡ false
flag_of-kept dns [] off = refl
flag_of-kept dns (r ∷ rs) off = off

dns_synced-remove_dns_records :
    (rs : List String) (c : CdnStatus)
    → IsOutOfSync c
    → dns_synced (remove_dns_records rs c) ≡ false
unfolding remove_dns_records
dns_synced-remove_dns_records rs c (dns, found, off) =
    ap (λ d. flag_of (removed d rs)) found ∙ flag_of-kept dns (filter_out dns.records rs) off

dns_synced-IsOutOfSync : (c : CdnStatus) → IsOutOfSync c → dns_synced c ≡ false
dns_synced-IsOutOfSync c (dns, found, off) = ap flag_of found ∙ off

flag_of-with_errors :
    (errors : List GoError) (c : CdnStatus)
    → dns_synced c ≡ false
    → dns_synced (with_errors errors c) ≡ false
unfolding with_errors set_dns_sync
flag_of-with_errors [] c h = h
flag_of-with_errors (e ∷ es) c h = flag_of_false c.dns
  where
    flag_of_false : (d : Option DnsStatus) → flag_of (some (with_sync d false)) ≡ false
    flag_of_false none = refl
    flag_of_false (some dns) = refl

module _ (c : Route53Client) where
  dns_synced-after_delete :
      (deleting : Aliases) (errors : List GoError) (status : CdnStatus)
      (t : Result (Unit {0}) × c.State)
      → IsOutOfSync status
      → dns_synced (after_delete c deleting errors status t).1.0 ≡ false
  unfolding after_delete
  dns_synced-after_delete deleting errors status (ok u, s) h =
      flag_of-with_errors errors _ (dns_synced-remove_dns_records (domains deleting) status h)
  dns_synced-after_delete deleting errors status (err e, s) h =
      flag_of-with_errors (errors ++ e ∷ []) status (dns_synced-IsOutOfSync status h)
  dns_synced-after_delete deleting errors status (panic m, s) h = dns_synced-IsOutOfSync status h

  dns_synced-after_upsert :
      (upserting deleting : Aliases) (status : CdnStatus) (t : Result (Unit {0}) × c.State)
      → IsOutOfSync status
      → dns_synced (after_upsert c upserting deleting status t).1.0 ≡ false
  unfolding after_upsert
  dns_synced-after_upsert upserting deleting status (ok u, s) h =
      dns_synced-after_delete deleting [] _ (delete_aliases c deleting s)
        (upsert_dns_records-IsOutOfSync (domains upserting) status h)
  dns_synced-after_upsert upserting deleting status (err e, s) h =
      dns_synced-after_delete deleting (e ∷ []) status (delete_aliases c deleting s) h
  dns_synced-after_upsert upserting deleting status (panic m, s) h = dns_synced-IsOutOfSync status h

  -- If the DNS status says that the records are not in sync, it does not say that they are after a
  -- sync of them, also where that sync succeeds.
  pub dns_synced-sync_aliases :
      (cfg : Config) (status : CdnStatus) (dist : Distribution) (class : CdnClass) (s : c.State)
      (dns : DnsStatus)
      → status.dns ≡ some dns
      → dns.synced ≡ false
      → dns_synced (sync_aliases c cfg status dist class s).1.0 ≡ false
  unfolding sync_aliases
  dns_synced-sync_aliases cfg status dist class s dns found off =
      dns_synced-after_upsert (aliases_to_upsert dist class)
        (aliases_to_delete cfg dist status class) status
        (upsert_aliases c (aliases_to_upsert dist class) s) (dns, found, off)
