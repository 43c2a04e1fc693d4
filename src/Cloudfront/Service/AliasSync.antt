-- ===== src/Cloudfront/Service/AliasSync.antt =====
-- internal/cloudfront/service.go: `syncAliases`, which brings the DNS records of a distribution and
-- their list in the status up to date.
pub mod Disabled
pub mod Failed
pub mod Flag
pub mod Records
use mathlib.Core.List.{List, [], ◌∷◌, ◌++◌}
use cdn_origin_controller.Prelude.{
  String, Bool, true, false, not, Option, none, some, if◌then◌else◌,
}
use cdn_origin_controller.GoError.{GoError, Result, ok, err, panic}
use cdn_origin_controller.Strhelper.{contains}
use cdn_origin_controller.Config.{Config}
use cdn_origin_controller.K8s.Objects.{CdnClass}
use cdn_origin_controller.Route53.Alias.{Aliases, new_aliases, domains, normalize_domains}
use cdn_origin_controller.Route53.Repository.{Route53Client, upsert_aliases, delete_aliases}
use cdn_origin_controller.Api.CdnStatus.{
  CdnStatus, upsert_dns_records, remove_dns_records, set_dns_sync,
}
use cdn_origin_controller.Cloudfront.Distribution.{Distribution}

unfoldable pub get_deletions : (desired_domains current_domains : List String) → List String
get_deletions desired [] = []
get_deletions desired (current ∷ domains) =
    let rest = get_deletions desired domains in
    if not (contains desired current) then current ∷ rest else rest

-- The domains to delete: those of the status that the distribution no longer has, if there is a DNS
-- status and deletion is enabled.
unfoldable pub domains_to_delete : Config → Distribution → CdnStatus → List String
unfolding get_deletions
domains_to_delete cfg dist status = if not cfg.deletion_enabled then [] else elim status.dns [
  | none ↦ []
  | some dns ↦ get_deletions (normalize_domains dist.alternate_domains) dns.records
]

unfoldable pub aliases_to_upsert : Distribution → CdnClass → Aliases
aliases_to_upsert dist class =
    new_aliases dist.address class.hosted_zone_id class.txt_owner_value dist.alternate_domains
      dist.ipv6_enabled

unfoldable pub aliases_to_delete : Config → Distribution → CdnStatus → CdnClass → Aliases
aliases_to_delete cfg dist status class =
    new_aliases dist.address class.hosted_zone_id class.txt_owner_value
      (domains_to_delete cfg dist status) dist.ipv6_enabled

-- Where anything failed the DNS status is not in sync.
unfoldable pub with_errors : List GoError → CdnStatus → CdnStatus
with_errors [] status = status
with_errors (e ∷ es) status = set_dns_sync false status

module _ (c : Route53Client) where
  -- The errors, the new status and the new state of the hosted zone.
  abbrev pub Synced : Type 0
  Synced = Result (List GoError) × (CdnStatus × c.State)

  -- What follows the deletion; the errors are those before it.
  unfoldable pub after_delete :
      Aliases → List GoError → CdnStatus → Result (Unit {0}) × c.State → Synced
  unfolding with_errors
  after_delete deleting errors status (ok u, s) =
      (ok errors, (with_errors errors (remove_dns_records (domains deleting) status), s))
  after_delete deleting errors status (err e, s) =
      (ok (errors ++ e ∷ []), (with_errors (errors ++ e ∷ []) status, s))
  after_delete deleting errors status (panic m, s) = (panic m, (status, s))

  -- What follows the upsert: a deletion, also where the upsert failed.
  unfoldable pub after_upsert :
      (upserting deleting : Aliases) → CdnStatus → Result (Unit {0}) × c.State → Synced
  unfolding after_delete
  after_upsert upserting deleting status (ok u, s) =
      after_delete deleting [] (upsert_dns_records (domains upserting) status)
        (delete_aliases c deleting s)
  after_upsert upserting deleting status (err e, s) =
      after_delete deleting (e ∷ []) status (delete_aliases c deleting s)
  after_upsert upserting deleting status (panic m, s) = (panic m, (status, s))

  -- `syncAliases`
  unfoldable pub sync_aliases : Config → CdnStatus → Distribution → CdnClass → c.State → Synced
  unfolding after_upsert
  sync_aliases cfg status dist class s =
      after_upsert (aliases_to_upsert dist class) (aliases_to_delete cfg dist status class) status
        (upsert_aliases c (aliases_to_upsert dist class) s)
