-- ===== src/Cloudfront/Service/AliasSync/Records.antt =====
-- The list of DNS records in the status after a sync.
use mathlib.Core.List.{List, [], ◌∷◌}
use cdn_origin_controller.Prelude.{
  String, ◌≡◌, refl, ap, ap₂, ◌∙◌, true, not, ◌&&◌, Option, none, some, string_eq, arith, All,
  Bool-cases, inl, inr,
}
use cdn_origin_controller.GoError.{GoError, Result, ok, err, panic}
use cdn_origin_controller.Strhelper.{contains}
use cdn_origin_controller.Config.{Config}
use cdn_origin_controller.K8s.Objects.{CdnClass}
use cdn_origin_controller.Route53.Alias.{Aliases, normalize_domain, normalize_domains, domains}
use cdn_origin_controller.Route53.Alias.Laws.{domains-new_aliases}
use cdn_origin_controller.Route53.Repository.{Route53Client, upsert_aliases, delete_aliases}
use cdn_origin_controller.Api.CdnStatus.{
  CdnStatus, DnsStatus, upsert_dns_records, remove_dns_records,
}
use cdn_origin_controller.Api.CdnStatus.Dns.{
  dns_records, contains-upsert_dns_records, contains-remove_dns_records,
}
use cdn_origin_controller.Cloudfront.Distribution.{Distribution}
use cdn_origin_controller.Cloudfront.Service.AliasSync.{
  get_deletions, domains_to_delete, aliases_to_upsert, aliases_to_delete, with_errors, after_delete,
  after_upsert, sync_aliases,
}

-- The domains are normalised, as those that a sync lists are.
abbrev pub AreNormal : List String → Type 0
AreNormal = All (λ d. normalize_domain d ≡ d)

contains-get_deletions :
    (desired current : List String) (r : String)
    → contains (get_deletions desired current) r ≡ (contains current r && not (contains desired r))
unfolding get_deletions contains
contains-get_deletions desired [] r = refl
contains-get_deletions desired (x ∷ current) r =
    ground (arith, contains-get_deletions desired current r)

get_deletions-AreNormal :
    (desired current : List String) → AreNormal current → AreNormal (get_deletions desired current)
unfolding get_deletions
get_deletions-AreNormal desired [] h = tt
get_deletions-AreNormal desired (x ∷ current) (here, h) = elim (Bool-cases (contains desired x)) [
  | inl old ↦ rw old (get_deletions-AreNormal desired current h)
  | inr new ↦ rw new (here, get_deletions-AreNormal desired current h)
]

normalize_domains_of_AreNormal : (ds : List String) → AreNormal ds → normalize_domains ds ≡ ds
unfolding normalize_domains
normalize_domains_of_AreNormal [] h = refl
normalize_domains_of_AreNormal (d ∷ ds) (here, h) =
    ap₂ (λ x xs. x ∷ xs) here (normalize_domains_of_AreNormal ds h)

domains-aliases_to_upsert :
    (dist : Distribution) (class : CdnClass)
    → domains (aliases_to_upsert dist class) ≡ normalize_domains dist.alternate_domains
unfolding aliases_to_upsert
domains-aliases_to_upsert dist class =
    domains-new_aliases _ _ _ dist.alternate_domains dist.ipv6_enabled

domains-aliases_to_delete :
    (cfg : Config) (dist : Distribution) (status : CdnStatus) (class : CdnClass)
    → domains (aliases_to_delete cfg dist status class)
      ≡ normalize_domains (domains_to_delete cfg dist status)
unfolding aliases_to_delete
domains-aliases_to_delete cfg dist status class = domains-new_aliases _ _ _ _ dist.ipv6_enabled

domains_to_delete-eq :
    (cfg : Config) (dist : Distribution) (status : CdnStatus)
    → cfg.deletion_enabled ≡ true
    → domains_to_delete cfg dist status
      ≡ get_deletions (normalize_domains dist.alternate_domains) (dns_records status)
unfolding domains_to_delete get_deletions
domains_to_delete-eq cfg dist status h = go status.dns refl
  where
    go :
        (dns : Option DnsStatus)
        → status.dns ≡ dns
        → domains_to_delete cfg dist status
          ≡ get_deletions (normalize_domains dist.alternate_domains) (dns_records status)
    go none e = rw (h, e) refl
    go (some dns) e = rw (h, e) refl

contains-deleted :
    (cfg : Config) (dist : Distribution) (status : CdnStatus) (class : CdnClass) (r : String)
    → cfg.deletion_enabled ≡ true
    → AreNormal (dns_records status)
    → contains (domains (aliases_to_delete cfg dist status class)) r ≡ (
        contains (dns_records status) r
        && not (contains (normalize_domains dist.alternate_domains) r))
contains-deleted cfg dist status class r enabled normal =
    let desired = normalize_domains dist.alternate_domains in
    ap (λ l. contains l r)
      (domains-aliases_to_delete cfg dist status class
        ∙ ap normalize_domains (domains_to_delete-eq cfg dist status enabled)
        ∙ normalize_domains_of_AreNormal _ (get_deletions-AreNormal desired _ normal))
    ∙ contains-get_deletions desired (dns_records status) r

module _ (c : Route53Client) where
  after_delete-ok :
      (deleting : Aliases) (errors : List GoError) (status : CdnStatus)
      (result : Result (Unit {0}) × c.State) {status' : CdnStatus} {s' : c.State}
      → after_delete c deleting errors status result ≡ (ok [], (status', s'))
      → (errors ≡ []) × (status' ≡ remove_dns_records (domains deleting) status)
  unfolding after_delete with_errors
  after_delete-ok deleting [] status (ok u, s) h = ground arith
  after_delete-ok deleting (e ∷ es) status (ok u, s) h = cc
  after_delete-ok deleting [] status (err e, s) h = cc
  after_delete-ok deleting (x ∷ es) status (err e, s) h = cc
  after_delete-ok deleting errors status (panic m, s) h = cc

  after_upsert-ok :
      (upserting deleting : Aliases) (status : CdnStatus) (result : Result (Unit {0}) × c.State)
      {status' : CdnStatus} {s' : c.State}
      → after_upsert c upserting deleting status result ≡ (ok [], (status', s'))
      → status'
        ≡ remove_dns_records (domains deleting) (upsert_dns_records (domains upserting) status)
  unfolding after_upsert
  after_upsert-ok upserting deleting status (ok u, s) h =
      (after_delete-ok deleting [] _ (delete_aliases c deleting s) h).1
  after_upsert-ok upserting deleting status (err e, s) h =
      let (none_before, _) =
        after_delete-ok deleting (e ∷ []) status (delete_aliases c deleting s) h in
      cc
  after_upsert-ok upserting deleting status (panic m, s) h = cc

  -- If deletion is enabled and the records that the status lists are normalised, then after a sync
  -- without errors it lists exactly the distribution's domains, normalised.
  pub contains-sync_aliases :
      (cfg : Config) (status : CdnStatus) (dist : Distribution) (class : CdnClass) (s : c.State)
      {status' : CdnStatus} {s' : c.State} (r : String)
      → cfg.deletion_enabled ≡ true
      → AreNormal (dns_records status)
      → sync_aliases c cfg status dist class s ≡ (ok [], (status', s'))
      → contains (dns_records status') r ≡ contains (normalize_domains dist.alternate_domains) r
  unfolding sync_aliases
  contains-sync_aliases cfg status dist class s r enabled normal h =
      let up = aliases_to_upsert dist class in
      let del = aliases_to_delete cfg dist status class in
      let same = after_upsert-ok up del status (upsert_aliases c up s) h in
      let removed =
        contains-remove_dns_records (domains del) (upsert_dns_records (domains up) status) r in
      let added = contains-upsert_dns_records (domains up) status r in
      let upserted = ap (λ l. contains l r) (domains-aliases_to_upsert dist class) in
      let deleted = contains-deleted cfg dist status class r enabled normal in
      ap (λ t. contains (dns_records t) r) same ∙ removed ∙ ground (arith, added, upserted, deleted)
