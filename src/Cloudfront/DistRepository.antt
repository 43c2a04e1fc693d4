-- ===== src/Cloudfront/DistRepository.antt =====
-- internal/cloudfront/repository.go: distributions at AWS. Polling is a loop over the number of
-- polls that fit into the timeout.

pub mod Deletion
pub mod Attaching
pub mod Finishing
pub mod Sending
pub mod Synced
use Prim.Native.Nat.{ℕ, zero, suc}
use mathlib.Core.List.{List, [], ◌∷◌, ◌++◌, foldr}
use cdn_origin_controller.Prelude.{
  String, Bool, true, false, not, ◌&&◌, Option, none, some, ◌==◌, string_eq, if◌then◌else◌,
}
use cdn_origin_controller.GoError.{GoError, new, annotate, wrap, Result, ok, err, panic}
use cdn_origin_controller.GoError.Aws.{is_error_code, ignore_error_code, ignore_error_codef}
use cdn_origin_controller.GoMap.{GoMap}
use cdn_origin_controller.Exec.{Exec, ◌>>=◌, ◌>>◌, pure, lift, reads, call, annotated}
use cdn_origin_controller.Strhelper.{is_empty_or_nil}
use cdn_origin_controller.Config.{Config}
use cdn_origin_controller.Cloudfront.Oac.{Oac, no_oac}
use cdn_origin_controller.Cloudfront.Sort.{sort, string_lt}
use cdn_origin_controller.Cloudfront.Distribution.{
  Distribution, oacs, has_origin, ownership_tag_key, ownership_tag_value, group_tag_key,
}
use cdn_origin_controller.Cloudfront.AwsModels.{
  AwsOrigin, DistributionConfig, Items, new_aws_distribution_config,
}
use cdn_origin_controller.Cloudfront.Client.{
  AwsDistribution, ConfigOutput, UpdateInput, CloudfrontClient,
}
use cdn_origin_controller.Cloudfront.OacRepository.{sync_oac, delete_oac}

abbrev pub no_such_distribution : String
no_such_distribution = "NoSuchDistribution"

abbrev pub cf_deployed_status : String
cf_deployed_status = "Deployed"

-- `*p`
unfoldable pub deref {ℓ} : {A : Type ℓ} → Option A → Result A
deref none = panic "nil pointer dereference"
deref (some a) = ok a

-- `aws.StringValue`
unfoldable pub string_value : Option String → String
string_value none = ""
string_value (some v) = v

-- `byKey.Less`
unfoldable pub less_by_key : String × String → String × String → Bool
less_by_key t u = string_lt t.0 u.0

unfoldable pub distribution_tags : GoMap String String → List (String × String)
distribution_tags tags = sort less_by_key tags

-- The only ARN of the resources that have the tags.
unfoldable pub single_arn : List String → Result String
single_arn [] = err (new "distribution not found")
single_arn (arn ∷ []) = ok arn
single_arn (arn ∷ other ∷ arns) = err (
    new
      "found more than one CloudFront with matching group tag, state is inconsistent and can't continue")

unfoldable pub origin_items : DistributionConfig → List AwsOrigin
origin_items cfg = elim cfg.origins [ none ↦ [] | some origins ↦ origins.items ]

unfoldable pub oac_of_origin : AwsOrigin → Oac
unfolding string_value
oac_of_origin o = record no_oac { id = string_value o.origin_access_control_id }

unfoldable pub filter_origins : (AwsOrigin → Bool) → List AwsOrigin → List Oac
unfolding oac_of_origin
filter_origins should_include [] = []
filter_origins should_include (o ∷ os) =
    let rest = filter_origins should_include os in
    if should_include o then oac_of_origin o ∷ rest else rest

unfoldable pub filter_oacs : DistributionConfig → (AwsOrigin → Bool) → List Oac
unfolding filter_origins origin_items
filter_oacs cfg should_include = filter_origins should_include (origin_items cfg)

unfoldable pub has_oac : AwsOrigin → Bool
unfolding is_empty_or_nil
has_oac o = not (is_empty_or_nil o.origin_access_control_id)

-- The OACs to sync are those of the desired origins; those of the observed origins that are not
-- desired any more are to be deleted.
unfoldable pub diff_desired_and_observed_oacs :
    Distribution → DistributionConfig → List Oac × List Oac
unfolding filter_oacs
diff_desired_and_observed_oacs desired observed =
    (oacs desired, filter_oacs observed (λ o. has_oac o && not (has_origin desired o.id)))

-- The inner loop of `Sync`: the OAC of an origin is the last one of its name.
unfoldable pub attach_oacs : List Oac → AwsOrigin → AwsOrigin
attach_oacs [] o = o
attach_oacs (oac ∷ oacs) o = attach_oacs oacs (record o {
  origin_access_control_id =
      if o.id == oac.origin_name then some oac.id else o.origin_access_control_id;
})

unfoldable pub attach_to_all : List Oac → List AwsOrigin → List AwsOrigin
unfolding attach_oacs
attach_to_all oacs [] = []
attach_to_all oacs (o ∷ os) = attach_oacs oacs o ∷ attach_to_all oacs os

unfoldable pub attach_to_config : List Oac → DistributionConfig → DistributionConfig
unfolding attach_to_all
attach_to_config oacs cfg = elim cfg.origins [
  | none ↦ cfg
  | some origins ↦ record cfg {
    origins =
        some (record { items = attach_to_all oacs origins.items; quantity = origins.quantity });
  }
]

-- The settings that `Sync` takes over from the observed distribution.
unfoldable pub keep_observed : DistributionConfig → DistributionConfig → Result DistributionConfig
unfolding deref
keep_observed observed config = elim observed.caller_reference [
  | none ↦ panic "nil pointer dereference"
  | some reference ↦ elim observed.default_root_object [
    | none ↦ panic "nil pointer dereference"
    | some root ↦ ok (record config {
      caller_reference = some reference;
      default_root_object = some root;
      custom_error_responses = observed.custom_error_responses;
      restrictions = observed.restrictions;
    })
  ]
]

module _ (c : CloudfrontClient) (cfg : Config) where
  unfoldable pub arn_by_group : String → Exec c.State String
  unfolding single_arn
  arn_by_group group = do
    arns ← annotated "listing CloudFronts" (
        reads (λ s.
          c.arns_by_tags s
            ((ownership_tag_key, ownership_tag_value) ∷ (group_tag_key, group) ∷ [])))
    lift (single_arn arns)

  unfoldable pub sync_oacs : List Oac → Exec c.State (List Oac)
  sync_oacs [] = pure []
  sync_oacs (oac ∷ oacs) = do synced ← sync_oac c oac; rest ← sync_oacs oacs; pure (synced ∷ rest)

  unfoldable pub delete_oacs : List Oac → Exec c.State (Unit {0})
  delete_oacs [] = pure tt
  delete_oacs (o ∷ os) = do _ ← delete_oac c cfg o; delete_oacs os

  -- `RunPostCreationOperations` is a function that the repository is given.
  unfoldable pub prepare_and_run_post_creation_operations :
      (Distribution → Exec c.State Distribution)
      → Distribution
      → AwsDistribution
      → Exec c.State Distribution
  prepare_and_run_post_creation_operations post_creation d out = post_creation (record d {
    id = string_value out.id;
    arn = string_value out.arn;
    address = string_value out.domain_name;
  })

  unfoldable pub create :
      (Distribution → Exec c.State Distribution)
      → (caller_ref : String) → Distribution
      → Exec c.State Distribution
  unfolding prepare_and_run_post_creation_operations
  create post_creation caller_ref d = do
    out ← annotated "creating distribution" (
        c.create_distribution (new_aws_distribution_config d caller_ref cfg)
          (distribution_tags d.tags))
    annotated "running distribution post-creation operations"
        (prepare_and_run_post_creation_operations post_creation d out)

  unfoldable pub run_post_update_operations :
      Distribution → List Oac → AwsDistribution → Exec c.State Distribution
  run_post_update_operations d oacs_to_be_deleted out = do
    annotated "deleting unused OACs" (delete_oacs oacs_to_be_deleted)
    annotated "updating tags" (call (c.tag_resource d.arn (distribution_tags d.tags)))
    id ← lift (deref out.id)
    arn ← lift (deref out.arn)
    address ← lift (deref out.domain_name)
    pure (record d { id = id; arn = arn; address = address })

  -- `DistRepository.Sync`
  unfoldable pub sync : (caller_ref : String) → Distribution → Exec c.State Distribution
  sync caller_ref d = do
    output ← annotated "getting distribution config" (reads (λ s. c.get_distribution_config s d.id))
    synced ←
        annotated "syncing OACs"
          (sync_oacs (diff_desired_and_observed_oacs d output.distribution_config).0)
    config ← lift (
        keep_observed output.distribution_config
          (attach_to_config synced (new_aws_distribution_config d caller_ref cfg)))
    out ← annotated "updating distribution" (
        c.update_distribution
          (record { distribution_config = config; if_match = output.etag; id = d.id }))
    annotated "running distribution post-update operations" (
        run_post_update_operations d (diff_desired_and_observed_oacs d output.distribution_config).1
          out)

  unfoldable pub disable_dist :
      DistributionConfig → String → Option String → Exec c.State (Unit {0})
  disable_dist config id etag = do
    tag ← lift (deref etag)
    _ ← c.update_distribution (record {
      distribution_config = record config { enabled = false };
      if_match = some tag;
      id = id;
    })
    pure tt

  -- One evaluation of the condition: whether it is done, with the eTag.
  unfoldable pub poll : Result AwsDistribution → Result (Option (Option String))
  poll (ok out) = ok (if out.status == cf_deployed_status then some out.etag else none)
  poll (err e) = if is_error_code e no_such_distribution then err e else ok none
  poll (panic m) = panic m

  unfoldable pub wait_until_deployed : (polls : ℕ) → String → Exec c.State (Option String)
  unfolding poll
  wait_until_deployed zero id s = (err (new "context deadline exceeded"), s)
  wait_until_deployed (suc polls) id s = elim (poll (c.get_distribution s id)) [
    | ok done ↦ elim done [
      | some etag ↦ (ok etag, s)
      | none ↦ wait_until_deployed polls id (c.pass_time s)
    ]
    | err e ↦ (err e, s)
    | panic m ↦ (panic m, s)
  ]

  unfoldable pub delete_all_oacs : DistributionConfig → Exec c.State (Unit {0})
  delete_all_oacs config = delete_oacs (filter_oacs config has_oac)

  -- An error with the code NoSuchDistribution ends a deletion well.
  abbrev gone : Option GoError → Result (Unit {0})
  gone none = ok tt
  gone (some e) = err e

  abbrev ending {ℓ} :
      {A : Type ℓ}
      → (text : String) (wraps : Bool) → (A → Exec c.State (Unit {0}))
      → Result A × c.State
      → Result (Unit {0}) × c.State
  ending text wraps next (ok a, s) = next a s
  ending text wraps next (err e, s) =
      (gone (ignore_error_codef text wraps e no_such_distribution), s)
  ending text wraps next (panic m, s) = (panic m, s)

  unfoldable pub delete_deployed : ConfigOutput → String → Option String → Exec c.State (Unit {0})
  delete_deployed output id etag s =
      let (e, s') = c.delete_distribution id etag s in
      elim (ignore_error_code e no_such_distribution) [
        | some e' ↦ (err e', s')
        | none ↦ annotated "deleting OACs" (delete_all_oacs output.distribution_config) s'
      ]

  unfoldable pub delete_disabled :
      (polls : ℕ) → ConfigOutput → String → Unit {0} → Exec c.State (Unit {0})
  delete_disabled polls output id u s =
      ending "waiting for distribution to be in deployed status" true (delete_deployed output id)
        (wait_until_deployed polls id s)

  unfoldable pub delete_observed : (polls : ℕ) → String → ConfigOutput → Exec c.State (Unit {0})
  delete_observed polls id output s =
      if output.distribution_config.enabled
      then ending "disabling distribution" false (delete_disabled polls output id)
          (disable_dist output.distribution_config id output.etag s)
      else delete_disabled polls output id tt s

  -- `DistRepository.Delete`
  unfoldable pub delete : (polls : ℕ) → Distribution → Exec c.State (Unit {0})
  delete polls d s =
      ending "getting distribution config" false (delete_observed polls d.id)
        (c.get_distribution_config s d.id, s)
