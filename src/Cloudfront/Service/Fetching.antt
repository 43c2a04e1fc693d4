-- ===== src/Cloudfront/Service/Fetching.antt =====
-- internal/cloudfront/service.go: the desired state of the group that an Ingress belongs to, and
-- the status that is kept of it.
use mathlib.Core.List.{List, [], ◌∷◌}
use cdn_origin_controller.Prelude.{
  String, Bool, false, none, ◌==◌, string_eq, if◌then◌else◌, ◌⊎◌, inl, inr,
}
use cdn_origin_controller.GoError.{
  GoError, new, aws, not_found, annotate, wrap, is_not_found, Result, ok, err, panic,
}
use cdn_origin_controller.Exec.{Exec, ◌>>=◌, pure, lift, reads, attempt, annotated}
use cdn_origin_controller.K8s.Ingress.{CdnIngress}
use cdn_origin_controller.K8s.Shared.{new_shared_ingress_params}
use cdn_origin_controller.K8s.UserOrigin.{fetch_by}
use cdn_origin_controller.Api.CdnStatus.{CdnStatus, set_ingress_ref}
use cdn_origin_controller.Cloudfront.Distribution.{Distribution}
use cdn_origin_controller.Cloudfront.DistRepository.{arn_by_group}
use cdn_origin_controller.Cloudfront.Service.World.{Service, World, on_aws}
use cdn_origin_controller.Cloudfront.Service.Desired.{is_part_of_desired_state, new_distribution}

-- `errors.Is(err, ErrDistNotFound)`, which follows `%w` and stops at `%v`.
unfoldable pub is_dist_not_found : GoError → Bool
is_dist_not_found (new text) = text == "distribution not found"
is_dist_not_found (wrap text e) = is_dist_not_found e
is_dist_not_found (aws code message) = false
is_dist_not_found (not_found text) = false
is_dist_not_found (annotate text e) = false

-- The ARN of the existing distribution; "" where there is none.
unfoldable pub arn_or_empty : String ⊎ GoError → Result String
unfolding is_dist_not_found
arn_or_empty (inl arn) = ok arn
arn_or_empty (inr e) =
    if is_dist_not_found e
    then ok ""
    else err (annotate "fetching existing CloudFront ID based on group" e)

abbrev pub no_status : String → CdnStatus
no_status name = record {
  name = name;
  resource_version = "";
  id = "";
  arn = "";
  ingresses = [];
  aliases = [];
  address = "";
  dns = none;
}

-- The loop of `newCDNStatus`.
unfoldable pub with_ingress_refs : List CdnIngress → CdnStatus → CdnStatus
with_ingress_refs [] status = status
with_ingress_refs (ing ∷ ings) status =
    with_ingress_refs ings (set_ingress_ref false ing.namespaced_name status)

unfoldable pub new_cdn_status : List CdnIngress → Distribution → CdnStatus
unfolding with_ingress_refs
new_cdn_status ings dist = with_ingress_refs ings (no_status dist.group)

unfoldable pub status_or_new : List CdnIngress → Distribution → Result CdnStatus → Result CdnStatus
unfolding new_cdn_status
status_or_new ings dist (ok status) = ok status
status_or_new ings dist (err e) =
    if is_not_found e then ok (new_cdn_status ings dist) else err (annotate "fetching CDNStatus" e)
status_or_new ings dist (panic m) = panic m

module _ (x : Service) where
  unfoldable pub desired_ingresses : CdnIngress → Exec (World x) (List CdnIngress)
  desired_ingresses reconciling = annotated "listing active Ingresses that belong to group" (
      reads (λ w.
        fetch_by x.decoder x.yaml (x.kube.list_ingresses w.kube) reconciling.class
          (is_part_of_desired_state reconciling)))

  unfoldable pub existing_dist_arn : String → Exec (World x) String
  unfolding arn_or_empty
  existing_dist_arn group = do
    found ← attempt (on_aws (arn_by_group x.aws x.config group))
    lift (arn_or_empty found)

  -- `desiredState`
  unfoldable pub desired_state : CdnIngress → Exec (World x) (List CdnIngress × Distribution)
  unfolding desired_ingresses existing_dist_arn
  desired_state reconciling = do
    ings ← desired_ingresses reconciling
    shared ← annotated "shared ingress params" (lift (new_shared_ingress_params x.sets ings))
    arn ← existing_dist_arn reconciling.group
    dist ← annotated "building desired distribution" (
        reads (λ w.
          new_distribution x.md5 x.acm x.aws x.config ings reconciling.group shared arn w.aws))
    pure (ings, dist)

  unfoldable pub fetch_or_generate_cdn_status :
      List CdnIngress → Distribution → Exec (World x) CdnStatus
  unfolding status_or_new
  fetch_or_generate_cdn_status ings dist =
      reads (λ w. status_or_new ings dist (x.kube.get_status w.kube dist.group))
