-- ===== src/Cloudfront/Service/Upkeep.antt =====
-- internal/cloudfront/service.go: bringing the distribution, its DNS records, the Ingress's
-- finalizer and the status up to date. An error of one step is kept while the others run.
use mathlib.Core.List.{List, [], ◌∷◌, ◌++◌}
use cdn_origin_controller.Prelude.{
  Bool, true, false, not, ◌&&◌, ◌||◌, Option, none, some, if◌then◌else◌, ◌⊎◌, inl, inr, pos,
}
use cdn_origin_controller.GoError.{GoError, annotate, is_not_found, Result, ok, err, panic}
use cdn_origin_controller.Exec.{Exec, ◌>>=◌, pure, attempt, annotated, call}
use cdn_origin_controller.K8s.Objects.{Ingress, NamespacedName, CdnClass}
use cdn_origin_controller.K8s.Helpers.{is_being_removed_from_desired_state}
use cdn_origin_controller.K8s.Finalizers.{add_finalizer, remove_finalizer}
use cdn_origin_controller.Api.CdnStatus.{
  CdnStatus, set_ingress_ref, remove_ingress_ref, set_info, set_aliases, status_exists,
}
use cdn_origin_controller.Cloudfront.Oac.{no_oac}
use cdn_origin_controller.Cloudfront.Origin.{Origin}
use cdn_origin_controller.Cloudfront.Distribution.{Distribution, exists, is_empty}
use cdn_origin_controller.Cloudfront.DistRepository.{create, sync, delete}
use cdn_origin_controller.Cloudfront.Service.AliasSync.{sync_aliases}
use cdn_origin_controller.Cloudfront.Service.World.{Service, World, on_kube, on_dns, on_aws}

-- `Distribution{}`
abbrev pub no_origin : Origin
no_origin = record {
  host = "";
  behaviors = [];
  response_timeout = pos 0;
  access = "";
  oac = no_oac;
  headers = record { origin_host = ""; headers = [] };
}

abbrev pub no_distribution : Distribution
no_distribution = record {
  id = "";
  arn = "";
  address = "";
  alternate_domains = [];
  custom_origins = [];
  default_origin = no_origin;
  description = "";
  group = "";
  ipv6_enabled = false;
  logging = record { enabled = false; bucket_address = ""; prefix = "" };
  price_class = "";
  tags = [];
  tls = record { enabled = false; cert_arn = ""; security_policy_id = "" };
  web_acl_id = "";
}

-- `errs.Len() > 0`
abbrev pub any_error : List GoError → Bool
any_error [] = false
any_error (e ∷ es) = true

abbrev pub errors_of {ℓ} : {A : Type ℓ} → A ⊎ GoError → List GoError
errors_of (inl a) = []
errors_of (inr e) = e ∷ []

-- How far a reconciliation has come: its errors, the status, and the distribution at AWS.
pub record Progress : Type 0 where
  pub errors : List GoError
  pub status : CdnStatus
  pub dist : Distribution

abbrev pub name_of : Ingress → NamespacedName
name_of ing = record { namespace = ing.namespace; name = ing.name }

-- The status after the distribution was created or updated.
unfoldable pub after_dist : CdnStatus → Ingress → Distribution ⊎ GoError → Progress
after_dist status ing (inl dist) = record {
  errors = [];
  status =
      set_aliases dist.alternate_domains
        (set_info dist.id dist.arn dist.address (set_ingress_ref true (name_of ing) status));
  dist = dist;
}
after_dist status ing (inr e) = record {
  errors = e ∷ [];
  status = set_ingress_ref false (name_of ing) status;
  dist = no_distribution;
}

unfoldable pub should_have_finalizer : List GoError → Ingress → Bool
should_have_finalizer errors ing = any_error errors || not (is_being_removed_from_desired_state ing)

-- `cdnStatus.RemoveIngressRef(ing)` where the Ingress is gone for good.
unfoldable pub without_ref : List GoError → Ingress → CdnStatus → CdnStatus
without_ref errors ing status =
    if not (any_error errors) && is_being_removed_from_desired_state ing
    then remove_ingress_ref (name_of ing) status
    else status

-- An error that is not NotFound.
unfoldable pub unless_not_found : Option GoError → Option GoError
unless_not_found none = none
unless_not_found (some e) = if is_not_found e then none else some e

module _ (x : Service) where
  -- The repository's `Sync`, which gets a new caller reference at each call.
  unfoldable pub sync_now : Distribution → x.aws.State → Result Distribution × x.aws.State
  sync_now dist s = sync x.aws x.config (x.caller_ref s) dist s

  unfoldable pub update_distribution : Distribution → Exec (World x) Distribution
  unfolding sync_now
  update_distribution dist = annotated "updating Distribution" (on_aws (sync_now dist))

  -- `main` makes the repository's `Sync` its post-creation operation.
  unfoldable pub create_distribution : Distribution → Exec (World x) Distribution
  unfolding sync_now
  create_distribution dist =
      annotated "creating Distribution"
        (on_aws (λ s. create x.aws x.config sync_now (x.caller_ref s) dist s))

  unfoldable pub upsert_distribution : Distribution → CdnStatus → Ingress → Exec (World x) Progress
  unfolding update_distribution create_distribution after_dist
  upsert_distribution dist status ing = do
    result ← attempt (if exists dist then update_distribution dist else create_distribution dist)
    pure (after_dist status ing result)

  unfoldable pub delete_distribution : Distribution → Exec (World x) (Unit {0})
  delete_distribution dist =
      if not (exists dist) || not x.config.deletion_enabled
      then pure tt
      else on_aws (delete x.aws x.config x.polls dist)

  unfoldable pub sync_empty : Distribution → CdnStatus → Exec (World x) Progress
  unfolding delete_distribution
  sync_empty desired status = do
    result ← attempt (delete_distribution desired)
    pure (record { errors = errors_of result; status = status; dist = desired })

  -- `syncDist`
  unfoldable pub sync_dist : Distribution → CdnStatus → Ingress → Exec (World x) Progress
  unfolding sync_empty upsert_distribution
  sync_dist desired status ing =
      if is_empty desired then sync_empty desired status else upsert_distribution desired status ing

  abbrev pub with_synced :
      Progress → Result (List GoError) × (CdnStatus × x.dns.State) → Result Progress × x.dns.State
  with_synced p (ok errors, (status, s)) =
      (ok (record p { errors = p.errors ++ errors; status = status }), s)
  with_synced p (err e, (status, s)) = (err e, s)
  with_synced p (panic m, (status, s)) = (panic m, s)

  unfoldable pub sync_class_aliases : CdnClass → Progress → Exec (World x) Progress
  sync_class_aliases class p =
      if class.create_alias
      then on_dns (λ s. with_synced p (sync_aliases x.dns x.config p.status p.dist class s))
      else pure p

  unfoldable pub with_finalizer : Bool → Ingress → Ingress
  with_finalizer should ing =
      if should then add_finalizer x.finalizers ing else remove_finalizer x.finalizers ing

  unfoldable pub reconcile_finalizer : Ingress → Bool → Exec (World x) Ingress
  unfolding with_finalizer
  reconcile_finalizer ing should = on_kube (x.kube.update_ingress (with_finalizer should ing))

  -- The object as the server returns it, or as it was sent where the update fails.
  abbrev pub sent_or_updated : Ingress → Ingress ⊎ GoError → Ingress × List GoError
  sent_or_updated sent (inl ing) = (ing, [])
  sent_or_updated sent (inr e) = (sent, annotate "reconciling finalizer for ingress" e ∷ [])

  unfoldable pub update_finalizer : List GoError → Ingress → Exec (World x) (Ingress × List GoError)
  unfolding reconcile_finalizer should_have_finalizer with_finalizer
  update_finalizer errors ing = do
    result ← attempt (reconcile_finalizer ing (should_have_finalizer errors ing))
    pure (sent_or_updated (with_finalizer (should_have_finalizer errors ing) ing) result)

  unfoldable pub create_missing : CdnStatus → Exec (World x) CdnStatus
  create_missing status =
      if status_exists status then pure status else on_kube (x.kube.create_status status)

  unfoldable pub upsert_cdn_status : CdnStatus → Exec (World x) (Unit {0})
  unfolding create_missing
  upsert_cdn_status status = do
    created ← create_missing status
    on_kube (call (x.kube.update_status created))

  abbrev deleted : Option GoError × x.kube.State → Option GoError × x.kube.State
  deleted (e, s) = (unless_not_found e, s)

  unfoldable pub delete_cdn_status : CdnStatus → Exec (World x) (Unit {0})
  unfolding unless_not_found
  delete_cdn_status status = on_kube (call (λ s. deleted (x.kube.delete_status status s)))

  unfoldable pub delete_or_upsert : Bool → CdnStatus → Exec (World x) (Unit {0})
  unfolding delete_cdn_status upsert_cdn_status
  delete_or_upsert gone status = if gone then delete_cdn_status status else upsert_cdn_status status

  -- The errors so far, with that of writing the status.
  unfoldable pub write_status :
      List GoError → Distribution → CdnStatus → Exec (World x) (List GoError)
  unfolding delete_or_upsert
  write_status errors desired status = do
    result ← attempt (delete_or_upsert (not (any_error errors) && is_empty desired) status)
    pure (errors ++ errors_of result)
