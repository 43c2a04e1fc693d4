-- ===== src/Cloudfront/Service/AliasSync/Failed.antt =====
-- The DNS records to delete where the distribution could not be created or updated.
use mathlib.Core.List.{List, [], ◌∷◌}
use cdn_origin_controller.Prelude.{String, ◌≡◌, refl, ap, ◌∙◌, true, Option, none, some, inr}
use cdn_origin_controller.GoError.{GoError}
use cdn_origin_controller.Strhelper.{contains}
use cdn_origin_controller.Config.{Config}
use cdn_origin_controller.K8s.Objects.{Ingress, CdnClass}
use cdn_origin_controller.Route53.Alias.{domains, normalize_domains}
use cdn_origin_controller.Route53.Alias.Laws.{domains-new_aliases}
use cdn_origin_controller.Api.CdnStatus.{CdnStatus, DnsStatus, set_ingress_ref}
use cdn_origin_controller.Api.CdnStatus.Dns.{dns_records}
use cdn_origin_controller.Cloudfront.Service.AliasSync.{
  get_deletions, domains_to_delete, aliases_to_delete,
}
use cdn_origin_controller.Cloudfront.Service.Upkeep.{no_distribution, after_dist}

get_deletions_of_none : (current : List String) → get_deletions [] current ≡ current
unfolding get_deletions contains
get_deletions_of_none [] = refl
get_deletions_of_none (d ∷ ds) = ap (λ l. d ∷ l) (get_deletions_of_none ds)

domains_to_delete-no_distribution :
    (cfg : Config) (status : CdnStatus)
    → cfg.deletion_enabled ≡ true
    → domains_to_delete cfg no_distribution status ≡ dns_records status
unfolding domains_to_delete normalize_domains
domains_to_delete-no_distribution cfg status on = go status.dns refl
  where
    go :
        (dns : Option DnsStatus)
        → status.dns ≡ dns
        → domains_to_delete cfg no_distribution status ≡ dns_records status
    go none e = rw (on, e) refl
    go (some dns) e = rw (on, e) (get_deletions_of_none dns.records)

-- If deletion is enabled then, after the distribution could not be created or updated, every DNS
-- record that the status lists is to be deleted, normalised.
pub aliases_to_delete-after_dist :
    (cfg : Config) (class : CdnClass) (status : CdnStatus) (ing : Ingress) (e : GoError)
    → cfg.deletion_enabled ≡ true
    → domains (
        aliases_to_delete cfg
          (after_dist status ing (inr e)).dist
          (after_dist status ing (inr e)).status
          class)
      ≡ normalize_domains (dns_records status)
unfolding after_dist aliases_to_delete set_ingress_ref
aliases_to_delete-after_dist cfg class status ing e on =
    domains-new_aliases _ _ _ _ _
    ∙ ap normalize_domains (domains_to_delete-no_distribution cfg _ on)
