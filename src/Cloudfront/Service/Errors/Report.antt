-- ===== src/Cloudfront/Service/Errors/Report.antt =====
-- The list of the errors of all steps of a reconciliation.
use mathlib.Core.List.{List, [], ◌++◌, map}
use cdn_origin_controller.Prelude.{◌≡◌, Bool, true, false}
use cdn_origin_controller.GoError.{GoError, annotate, ok}
use cdn_origin_controller.K8s.Objects.{Ingress, CdnClass}
use cdn_origin_controller.Api.CdnStatus.{CdnStatus}
use cdn_origin_controller.Cloudfront.Origin.{Origin}
use cdn_origin_controller.Cloudfront.Distribution.{Distribution}
use cdn_origin_controller.Cloudfront.Service.AliasSync.{sync_aliases}
use cdn_origin_controller.Cloudfront.Service.World.{Service, World}
use cdn_origin_controller.Cloudfront.Service.Upkeep.{
  Progress, sync_dist, sync_class_aliases, delete_or_upsert,
}
use cdn_origin_controller.Cloudfront.Service.Errors.{Holds, IsDistReport}

module _ (x : Service) where
  -- The errors of the four steps, each in the world that the step before it left.
  pub record IsReport (ing : Ingress) (class : CdnClass) (desired : Distribution)
      (status : CdnStatus) (w : World x) (errors : List GoError) : Type 0 where
    pub at_aws : List GoError
    pub at_dns : List GoError
    pub at_ingress : List GoError
    pub at_status : List GoError
    pub all :
        errors
        ≡ ((at_aws ++ at_dns) ++ map (annotate "reconciling finalizer for ingress") at_ingress)
          ++ at_status
    pub of_aws : IsDistReport x desired w at_aws
    pub made : Progress
    pub made_ok : (sync_dist x desired status ing w).0 ≡ ok made
    pub unasked : class.create_alias ≡ false → at_dns ≡ []
    pub of_dns :
        class.create_alias ≡ true
        → (sync_aliases x.dns x.config made.status made.dist class
            (sync_dist x desired status ing w).1.dns).0
          ≡ ok at_dns
    pub sent : Ingress
    pub of_ingress :
        Holds
          (x.kube.update_ingress sent
            (sync_class_aliases x class made (sync_dist x desired status ing w).1).1.kube).0
          at_ingress
    pub final : CdnStatus
    pub before : World x
    pub gone : Bool
    pub only_then : gone ≡ true → (desired.custom_origins ≡ []) × (errors ≡ at_status)
    pub whenever :
        desired.custom_origins ≡ [] → at_aws ≡ [] → at_dns ≡ [] → at_ingress ≡ [] → gone ≡ true
    pub of_status : Holds (delete_or_upsert x gone final before).0 at_status

  -- The error of storing the status, which is deleted only where there were no others.
  record IsStatusReport (desired : Distribution) (before all : List GoError) : Type 0 where
    pub errors : List GoError
    pub final : CdnStatus
    pub world : World x
    pub gone : Bool
    pub joined : all ≡ before ++ errors
    pub only_then : gone ≡ true → (desired.custom_origins ≡ []) × (before ≡ [])
    pub whenever : desired.custom_origins ≡ [] → before ≡ [] → gone ≡ true
    pub holds : Holds (delete_or_upsert x gone final world).0 errors
