-- ===== src/Api/CdnStatus.antt =====
-- api/v1alpha1/cdnstatus_types.go: the status that the controller keeps of a distribution.
pub mod Dns
pub mod Refs
use mathlib.Core.List.{List, [], ◌∷◌}
use cdn_origin_controller.Prelude.{
  String, Bool, true, false, not, Option, none, some, ◌==◌, string_eq, if◌then◌else◌,
}
use cdn_origin_controller.GoError.{Result, ok, err, panic, ◌>>=◌}
use cdn_origin_controller.GoMap.{GoMap, insert, delete, lookup}
use cdn_origin_controller.GoString.{nonempty}
use cdn_origin_controller.Strhelper.{append_missing, filter}
use cdn_origin_controller.K8s.Objects.{NamespacedName}
use cdn_origin_controller.Api.IngressRef.{IngressRef, new_ingress_ref, to_namespaced_name}

pub record DnsStatus : Type 0 where
  pub records : List String
  pub synced : Bool

-- `CDNStatus`: its name and resource version, and the fields of `CDNStatusStatus`.
pub record CdnStatus : Type 0 where
  pub name : String
  pub resource_version : String
  pub id : String
  pub arn : String
  pub ingresses : GoMap IngressRef String
  pub aliases : List String
  pub address : String
  pub dns : Option DnsStatus

abbrev pub failed_ingress_status : String
failed_ingress_status = "Failed"

abbrev pub synced_ingress_status : String
synced_ingress_status = "Synced"

unfoldable pub set_aliases : List String → CdnStatus → CdnStatus
set_aliases aliases c = record c { aliases = aliases }

-- The DNS status after `UpsertDNSRecords` of a slice that is not empty.
abbrev pub upserted : Option DnsStatus → List String → DnsStatus
upserted none records = record { records = records; synced = true }
upserted (some dns) records = record dns { records = append_missing dns.records records }

unfoldable pub upsert_dns_records : List String → CdnStatus → CdnStatus
unfolding append_missing
upsert_dns_records [] c = c
upsert_dns_records (r ∷ rs) c = record c { dns = some (upserted c.dns (r ∷ rs)) }

-- The loop of `RemoveDNSRecords`.
unfoldable pub filter_out : List String → List String → List String
filter_out records [] = records
filter_out records (it ∷ its) = filter_out (filter records (λ i. not (i == it))) its

-- A DNS status without records is dropped.
abbrev pub kept : DnsStatus → List String → Option DnsStatus
kept dns [] = none
kept dns (r ∷ rs) = some (record dns { records = r ∷ rs })

abbrev pub removed : Option DnsStatus → List String → Option DnsStatus
removed none records = none
removed (some dns) records = kept dns (filter_out dns.records records)

unfoldable pub remove_dns_records : List String → CdnStatus → CdnStatus
unfolding filter_out
remove_dns_records records c = record c { dns = removed c.dns records }

unfoldable pub set_ingress_ref : (in_sync : Bool) → NamespacedName → CdnStatus → CdnStatus
set_ingress_ref in_sync ing c = record c {
  ingresses =
      insert (new_ingress_ref ing.namespace ing.name)
        (if in_sync then synced_ingress_status else failed_ingress_status) c.ingresses;
}

unfoldable pub remove_ingress_ref : NamespacedName → CdnStatus → CdnStatus
remove_ingress_ref ing c = record c {
  ingresses = delete (new_ingress_ref ing.namespace ing.name) c.ingresses;
}

abbrev is_found {ℓ} : {A : Type ℓ} → Option A → Bool
is_found none = false
is_found (some a) = true

unfoldable pub has_ingress_ref : NamespacedName → CdnStatus → Bool
has_ingress_ref ing c = is_found (lookup (new_ingress_ref ing.namespace ing.name) c.ingresses)

unfoldable pub ingress_keys : GoMap IngressRef String → Result (List NamespacedName)
ingress_keys [] = ok []
ingress_keys ((ref, state) ∷ m) = do
  key ← to_namespaced_name ref
  keys ← ingress_keys m
  ok (key ∷ keys)

-- `GetIngressKeys`
unfoldable pub get_ingress_keys : CdnStatus → Result (List NamespacedName)
unfolding ingress_keys
get_ingress_keys c = ingress_keys c.ingresses

abbrev pub with_sync : Option DnsStatus → Bool → DnsStatus
with_sync none synced = record { records = []; synced = synced }
with_sync (some dns) synced = record dns { synced = synced }

unfoldable pub set_dns_sync : Bool → CdnStatus → CdnStatus
set_dns_sync synced c = record c { dns = some (with_sync c.dns synced) }

unfoldable pub set_info : (id arn address : String) → CdnStatus → CdnStatus
set_info id arn address c = record c { id = id; arn = arn; address = address }

-- `CDNStatus.Exists`
unfoldable pub status_exists : CdnStatus → Bool
status_exists c = nonempty c.resource_version
