-- ===== src/Cloudfront/Service/AliasSync/Disabled.antt =====
-- A sync of DNS records where deletion is disabled.
use mathlib.Core.List.{List, [], ◌∷◌, ◌++◌}
use cdn_origin_controller.Prelude.{
  String, ◌≡◌, refl, ap, ◌∙◌, Bool, true, false, Option, none, some, string_eq,
}
use cdn_origin_controller.GoError.{GoError, Result, ok, err, panic}
use cdn_origin_controller.Strhelper.{contains}
use cdn_origin_controller.Config.{Config}
use cdn_origin_controller.K8s.Objects.{CdnClass}
use cdn_origin_controller.Route53.Alias.{Aliases, new_aliases, new_entries, domains, entry_names}
use cdn_origin_controller.Route53.Repository.{
  Route53Client, upsert_aliases, delete_aliases, delete_entries,
}
use cdn_origin_controller.Api.CdnStatus.{
  CdnStatus, DnsStatus, upsert_dns_records, remove_dns_records, set_dns_sync,
}
use cdn_origin_controller.Api.CdnStatus.Dns.{
  dns_records, contains-upsert_dns_records, contains-remove_dns_records,
}
use cdn_origin_controller.Cloudfront.Distribution.{Distribution}
use cdn_origin_controller.Cloudfront.Service.AliasSync.{
  domains_to_delete, aliases_to_upsert, aliases_to_delete, with_errors, after_delete, after_upsert,
  sync_aliases,
}

dns_records-set_dns_sync :
    (synced : Bool) (status : CdnStatus)
    → dns_records (set_dns_sync synced status) ≡ dns_records status
unfolding set_dns_sync
dns_records-set_dns_sync synced status = go status.dns refl
  where
    go :
        (dns : Option DnsStatus)
        → status.dns ≡ dns
        → dns_records (set_dns_sync synced status) ≡ dns_records status
    go none e = rw e refl
    go (some dns) e = rw e refl

dns_records-with_errors :
    (errors : List GoError) (status : CdnStatus)
    → dns_records (with_errors errors status) ≡ dns_records status
unfolding with_errors
dns_records-with_errors [] status = refl
dns_records-with_errors (e ∷ es) status = dns_records-set_dns_sync false status

-- The record is listed.
abbrev Lists : String → CdnStatus → Type 0
Lists r status = contains (dns_records status) r ≡ true

Lists-with_errors :
    (errors : List GoError) (status : CdnStatus) (r : String)
    → Lists r status
    → Lists r (with_errors errors status)
Lists-with_errors errors status r h =
    ap (λ l. contains l r) (dns_records-with_errors errors status) ∙ h

Lists-remove_dns_records :
    (rs : List String) (status : CdnStatus) (r : String)
    → rs ≡ []
    → Lists r status
    → Lists r (remove_dns_records rs status)
unfolding contains
Lists-remove_dns_records rs status r empty h =
    contains-remove_dns_records rs status r ∙ rw (h, empty) refl

Lists-upsert_dns_records :
    (rs : List String) (status : CdnStatus) (r : String)
    → Lists r status
    → Lists r (upsert_dns_records rs status)
Lists-upsert_dns_records rs status r h = contains-upsert_dns_records rs status r ∙ rw h refl

-- Nothing is to be deleted.
abbrev IsNothing : Aliases → Type 0
IsNothing a = a.entries ≡ []

domains_of_IsNothing : (a : Aliases) → IsNothing a → domains a ≡ []
unfolding domains entry_names
domains_of_IsNothing a h = rw h refl

aliases_to_delete-IsNothing :
    (cfg : Config) (dist : Distribution) (status : CdnStatus) (class : CdnClass)
    → cfg.deletion_enabled ≡ false
    → IsNothing (aliases_to_delete cfg dist status class)
unfolding aliases_to_delete domains_to_delete new_aliases new_entries
aliases_to_delete-IsNothing cfg dist status class h = rw h refl

module _ (c : Route53Client) where
  delete_aliases_of_IsNothing :
      (a : Aliases) (s : c.State) → IsNothing a → delete_aliases c a s ≡ (ok tt, s)
  unfolding delete_aliases delete_entries
  delete_aliases_of_IsNothing a s h = rw h refl

  after_delete-Lists :
      (deleting : Aliases) (errors : List GoError) (status : CdnStatus)
      (result : Result (Unit {0}) × c.State) (r : String)
      → domains deleting ≡ []
      → Lists r status
      → Lists r (after_delete c deleting errors status result).1.0
  unfolding after_delete
  after_delete-Lists deleting errors status (ok u, s) r empty h =
      Lists-with_errors errors (remove_dns_records (domains deleting) status) r
        (Lists-remove_dns_records (domains deleting) status r empty h)
  after_delete-Lists deleting errors status (err e, s) r empty h =
      Lists-with_errors (errors ++ e ∷ []) status r h
  after_delete-Lists deleting errors status (panic m, s) r empty h = h

  after_delete-state :
      (deleting : Aliases) (errors : List GoError) (status : CdnStatus)
      (result : Result (Unit {0}) × c.State)
      → (after_delete c deleting errors status result).1.1 ≡ result.1
  unfolding after_delete
  after_delete-state deleting errors status (ok u, s) = refl
  after_delete-state deleting errors status (err e, s) = refl
  after_delete-state deleting errors status (panic m, s) = refl

  after_upsert-kept :
      (upserting deleting : Aliases) (status : CdnStatus) (result : Result (Unit {0}) × c.State)
      (r : String)
      → IsNothing deleting
      → Lists r status
      → ((after_upsert c upserting deleting status result).1.1 ≡ result.1)
        × Lists r (after_upsert c upserting deleting status result).1.0
  unfolding after_upsert
  after_upsert-kept upserting deleting status (ok u, s) r nothing h = (
    after_delete-state deleting [] _ (delete_aliases c deleting s)
        ∙ ap (λ t. t.1) (delete_aliases_of_IsNothing deleting s nothing),
    after_delete-Lists deleting [] (upsert_dns_records (domains upserting) status)
        (delete_aliases c deleting s) r (domains_of_IsNothing deleting nothing)
        (Lists-upsert_dns_records (domains upserting) status r h),
  )
  after_upsert-kept upserting deleting status (err e, s) r nothing h = (
    after_delete-state deleting (e ∷ []) status (delete_aliases c deleting s)
        ∙ ap (λ t. t.1) (delete_aliases_of_IsNothing deleting s nothing),
    after_delete-Lists deleting (e ∷ []) status (delete_aliases c deleting s) r
        (domains_of_IsNothing deleting nothing) h,
  )
  after_upsert-kept upserting deleting status (panic m, s) r nothing h = (refl, h)

  -- If deletion is disabled then a sync, whether it succeeds or fails, leaves the hosted zone as the
  -- upsert of the distribution's aliases leaves it, and each record that the status listed is still
  -- listed.
  pub sync_aliases-deletion_disabled :
      (cfg : Config) (status : CdnStatus) (dist : Distribution) (class : CdnClass) (s : c.State)
      (r : String)
      → cfg.deletion_enabled ≡ false
      → contains (dns_records status) r ≡ true
      → ((sync_aliases c cfg status dist class s).1.1
          ≡ (upsert_aliases c (aliases_to_upsert dist class) s).1)
        × (contains (dns_records (sync_aliases c cfg status dist class s).1.0) r ≡ true)
  unfolding sync_aliases
  sync_aliases-deletion_disabled cfg status dist class s r disabled h =
      after_upsert-kept (aliases_to_upsert dist class) (aliases_to_delete cfg dist status class)
        status (upsert_aliases c (aliases_to_upsert dist class) s) r
        (aliases_to_delete-IsNothing cfg dist status class disabled) h
