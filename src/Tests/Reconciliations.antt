-- ===== src/Tests/Reconciliations.antt =====
-- Reconciliations of the Ingress of the cluster.
use mathlib.Core.List.{List, [], ◌∷◌}
use cdn_origin_controller.Prelude.{◌≡◌, refl, false, some, string_eq, inr}
use cdn_origin_controller.GoError.{GoError, new, annotate, ok, err}
use cdn_origin_controller.K8s.Objects.{CdnClass}
use cdn_origin_controller.K8s.Ingress.{CdnIngress}
use cdn_origin_controller.Route53.Alias.{domains, normalize_domains}
use cdn_origin_controller.Api.CdnStatus.{CdnStatus}
use cdn_origin_controller.Api.CdnStatus.Dns.{dns_records}
use cdn_origin_controller.Cloudfront.Distribution.{is_empty}
use cdn_origin_controller.Cloudfront.Service.World.{Service, World, ingress_failed}
use cdn_origin_controller.Cloudfront.Service.AliasSync.{sync_aliases, aliases_to_delete}
use cdn_origin_controller.Cloudfront.Service.AliasSync.Flag.{dns_synced, dns_synced-sync_aliases}
use cdn_origin_controller.Cloudfront.Service.AliasSync.Failed.{aliases_to_delete-after_dist}
use cdn_origin_controller.Cloudfront.Service.Fetching.{desired_state}
use cdn_origin_controller.Cloudfront.Service.Upkeep.{
  name_of, no_distribution, after_dist, update_finalizer,
}
use cdn_origin_controller.Cloudfront.Service.Reconcile.{sync_group, reconcile_group}
use cdn_origin_controller.Cloudfront.Service.Checks.{reconcile_group-stops}
use cdn_origin_controller.Cloudfront.Service.Finalizer.{IsSent, update_finalizer_lem}
use cdn_origin_controller.Cloudfront.Service.Untouched.{
  sync_group-deletion_disabled, sync_group-no_alias,
}
use cdn_origin_controller.Tests.Cluster.{
  class, shop, slices-IsFinalizerLawful, service_of, service, world,
}
use cdn_origin_controller.Tests.Distributions.{config, distribution}
use cdn_origin_controller.Tests.DnsRecords.{zone, site}
use cdn_origin_controller.Tests.Ingresses.{ingress, with_request}
use cdn_origin_controller.Tests.Status.{status}

abbrev denied : GoError
denied = new "denied"

update_finalizer_lem_example :
    IsSent service (denied ∷ []) shop world (update_finalizer service (denied ∷ []) shop world).1
update_finalizer_lem_example =
    update_finalizer_lem service (denied ∷ []) shop world slices-IsFinalizerLawful

abbrev keeping : Service
keeping = service_of (ok []) (record config { deletion_enabled = false })

sync_group-deletion_disabled_example :
    (sync_group keeping shop class no_distribution status
      (record { kube = 0; dns = 0; aws = 0; events = [] })).1.aws
    ≡ 0
unfolding is_empty
sync_group-deletion_disabled_example =
    sync_group-deletion_disabled keeping shop class no_distribution status
      (record { kube = 0; dns = 0; aws = 0; events = [] }) refl refl

abbrev without_alias : CdnClass
without_alias = record class { create_alias = false }

sync_group-no_alias_example :
    (sync_group service shop without_alias distribution status world).1.dns ≡ 0
sync_group-no_alias_example =
    sync_group-no_alias service shop without_alias distribution status world refl

abbrev out_of_sync : CdnStatus
out_of_sync = record status { dns = some (record { records = site ∷ []; synced = false }) }

dns_synced-sync_aliases_example :
    dns_synced (sync_aliases zone config out_of_sync distribution class 0).1.0 ≡ false
dns_synced-sync_aliases_example =
    dns_synced-sync_aliases zone config out_of_sync distribution class 0
      (record { records = site ∷ []; synced = false }) refl refl

aliases_to_delete-after_dist_example :
    domains (
      aliases_to_delete config
        (after_dist status shop (inr denied)).dist
        (after_dist status shop (inr denied)).status
        class)
    ≡ normalize_domains (dns_records status)
aliases_to_delete-after_dist_example =
    aliases_to_delete-after_dist config class status shop denied refl

abbrev cut_off : Service
cut_off = service_of (err denied) config

abbrev its_world : World cut_off
its_world = record { kube = 0; dns = 0; aws = 0; events = [] }

abbrev parsed : CdnIngress
parsed = ingress with_request "acl"

abbrev told : GoError
told =
    annotate "computing desired state" (
      annotate "listing active Ingresses that belong to group"
        (annotate "listing Ingresses" denied))

not_listed : (reconcile_group cut_off shop parsed its_world).0 ≡ err told
unfolding reconcile_group desired_state cdn_origin_controller.K8s.UserOrigin.fetch_by
not_listed = refl

reconcile_group-stops_example :
    ((reconcile_group cut_off shop parsed its_world).1.kube ≡ 0)
    × ((reconcile_group cut_off shop parsed its_world).1.dns ≡ 0)
    × ((reconcile_group cut_off shop parsed its_world).1.events
        ≡ ingress_failed (name_of shop) (told ∷ []) ∷ [])
reconcile_group-stops_example = reconcile_group-stops cut_off shop parsed its_world told not_listed
