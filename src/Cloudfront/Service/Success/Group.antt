-- ===== src/Cloudfront/Service/Success/Group.antt =====
-- The DNS records that a reconciliation without errors leaves in the status, against the Ingresses of
-- the group.
use mathlib.Core.List.{List}
use cdn_origin_controller.Prelude.{String, ◌≡◌}
use cdn_origin_controller.GoError.{GoError, Result, ok, err, panic}
use cdn_origin_controller.Exec.{Exec, lift, annotated}
use cdn_origin_controller.Exec.Inversion.{annotated-ok}
use cdn_origin_controller.Strhelper.{contains}
use cdn_origin_controller.K8s.Objects.{Ingress}
use cdn_origin_controller.K8s.Ingress.{CdnIngress}
use cdn_origin_controller.Route53.Alias.{normalize_domains}
use cdn_origin_controller.Api.CdnStatus.{CdnStatus}
use cdn_origin_controller.Api.CdnStatus.Dns.{dns_records}
use cdn_origin_controller.Cloudfront.Distribution.{Distribution}
use cdn_origin_controller.Cloudfront.Service.AliasSync.Records.{AreNormal}
use cdn_origin_controller.Cloudfront.Service.World.{Service, World}
use cdn_origin_controller.Cloudfront.Service.Desired.{alternate_domains_of, validate_creation}
use cdn_origin_controller.Cloudfront.Service.Fetching.{desired_state, fetch_or_generate_cdn_status}
use cdn_origin_controller.Cloudfront.Service.Reconcile.{failed, or_failed}
use cdn_origin_controller.Cloudfront.Service.Success.Stored.{IsStored}

module _ (x : Service) where
  failed-ok :
      {A : Type 0} (ing : Ingress) (t : Result A × World x) {a : A}
      → (failed ing t).0 ≡ ok a
      → t.0 ≡ ok a
  failed-ok ing (ok a, w) h = h
  failed-ok ing (err e, w) h = cc
  failed-ok ing (panic m, w) h = cc

  pub or_failed-ok :
      {A : Type 0} (ing : Ingress) (m : Exec (World x) A) (w : World x) {a : A}
      → (or_failed ing m w).0 ≡ ok a
      → (m w).0 ≡ ok a
  or_failed-ok ing m w h = failed-ok ing (m w) h

  -- Every status that the server returns lists normalised records.
  abbrev pub ListsNormalRecords : Type 0
  ListsNormalRecords =
      (s : x.kube.State) (name : String) (status : CdnStatus)
      → x.kube.get_status s name ≡ ok status
      → AreNormal (dns_records status)

  -- The three checks of a reconciliation.
  abbrev pub computing : Ingress → CdnIngress → Exec (World x) (List CdnIngress × Distribution)
  computing ing reconciling =
      or_failed ing (annotated "computing desired state" (desired_state x reconciling))

  abbrev pub validating : Ingress → List CdnIngress × Distribution → Exec (World x) (Unit {0})
  validating ing state = or_failed ing (lift (validate_creation x.config state.1 ing))

  abbrev fetching : Ingress → List CdnIngress × Distribution → Exec (World x) CdnStatus
  fetching ing state =
      or_failed ing
        (annotated "validating creation" (fetch_or_generate_cdn_status x state.0 state.1))

  -- Where the state was computed, it is the desired one.
  pub computing-ok :
      (ing : Ingress) (reconciling : CdnIngress) (w : World x)
      (state : List CdnIngress × Distribution)
      → (computing ing reconciling w).0 ≡ ok state
      → (desired_state x reconciling w).0 ≡ ok state
  computing-ok ing reconciling w state h =
      annotated-ok "computing desired state" (desired_state x reconciling) w
        (or_failed-ok ing (annotated "computing desired state" (desired_state x reconciling)) w h)

  -- The status that was stored for the desired distribution, or deleted, lists the domains of the
  -- Ingresses, and the cluster is as that left it.
  pub record IsGroupRecorded (ings : List CdnIngress) (desired : Distribution) (now : x.kube.State)
      : Type 0 where
    pub final : CdnStatus
    pub before : x.kube.State
    pub stored : IsStored x desired final before now
    pub exact :
        (r : String)
        → contains (dns_records final) r
          ≡ contains (normalize_domains (alternate_domains_of ings)) r
