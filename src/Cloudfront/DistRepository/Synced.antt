-- ===== src/Cloudfront/DistRepository/Synced.antt =====
-- What the repository gives back of a distribution that it created or synced.
use mathlib.Core.List.{List}
use cdn_origin_controller.Prelude.{String, not, ◌&&◌, ◌≡◌, sym, ap}
use cdn_origin_controller.GoError.{ok, ok-injective}
use cdn_origin_controller.Exec.{Exec, lift, reads, call, annotated}
use cdn_origin_controller.Exec.Inversion.{>>=-ok, >>=-annotated-ok, annotated-ok}
use cdn_origin_controller.Config.{Config}
use cdn_origin_controller.Cloudfront.Oac.{Oac}
use cdn_origin_controller.Cloudfront.Distribution.{Distribution, has_origin}
use cdn_origin_controller.Cloudfront.Distribution
use cdn_origin_controller.Cloudfront.AwsModels.{DistributionConfig, new_aws_distribution_config}
use cdn_origin_controller.Cloudfront.Client.{
  AwsDistribution, ConfigOutput, UpdateInput, CloudfrontClient,
}
use cdn_origin_controller.Cloudfront.DistRepository.Attaching.{}
use cdn_origin_controller.Cloudfront.DistRepository.Sending.{IsToSend}
use cdn_origin_controller.Cloudfront.DistRepository.Finishing.{IsFinished}
use cdn_origin_controller.Cloudfront.DistRepository.{
  filter_oacs, has_oac, prepare_and_run_post_creation_operations, create, sync, string_value,
  run_post_update_operations, delete_oacs, sync_oacs, deref, distribution_tags, keep_observed,
  attach_to_config, diff_desired_and_observed_oacs,
}

module _ (c : CloudfrontClient) (cfg : Config) where
  run_post_update_operations-domains :
      (d d' : Distribution) (unused : List Oac) (out : AwsDistribution) (s : c.State)
      → (run_post_update_operations c cfg d unused out s).0 ≡ ok d'
      → d'.alternate_domains ≡ d.alternate_domains
  unfolding run_post_update_operations
  run_post_update_operations-domains d d' unused out s h =
      let (_, _, h1) = >>=-ok (annotated "deleting unused OACs" (delete_oacs c cfg unused)) _ s h in
      let (_, _, h2) =
        >>=-ok (annotated "updating tags" (call (c.tag_resource d.arn (distribution_tags d.tags))))
          _ _ h1 in
      let (id, _, h3) = >>=-ok (lift (deref out.id)) _ _ h2 in
      let (arn, _, h4) = >>=-ok (lift (deref out.arn)) _ _ h3 in
      let (address, _, h5) = >>=-ok (lift (deref out.domain_name)) _ _ h4 in
      ap (λ e. e.alternate_domains) (sym (ok-injective h5))

  pub sync-domains :
      (caller_ref : String) (d d' : Distribution) (s : c.State)
      → (sync c cfg caller_ref d s).0 ≡ ok d'
      → d'.alternate_domains ≡ d.alternate_domains
  unfolding sync
  sync-domains caller_ref d d' s h =
      let (output, _, h1) =
        >>=-annotated-ok "getting distribution config"
          (reads (λ s. c.get_distribution_config s d.id)) _ s h in
      let (synced, _, h2) =
        >>=-ok
          (annotated "syncing OACs"
            (sync_oacs c cfg (diff_desired_and_observed_oacs d output.distribution_config).0))
          _ _ h1 in
      let (config, _, h3) =
        >>=-ok
          (lift (
            keep_observed output.distribution_config
              (attach_to_config synced (new_aws_distribution_config d caller_ref cfg))))
          _ _ h2 in
      let (out, _, h4) =
        >>=-ok
          (annotated "updating distribution" (
            c.update_distribution
              (record { distribution_config = config; if_match = output.etag; id = d.id })))
          _ _ h3 in
      let unused = (diff_desired_and_observed_oacs d output.distribution_config).1 in
      run_post_update_operations-domains d d' unused out _ (
        annotated-ok "running distribution post-update operations"
          (run_post_update_operations c cfg d unused out) _ h4)

  pub create-domains :
      (post_creation : Distribution → Exec c.State Distribution) (caller_ref : String)
      (d d' : Distribution) (s : c.State)
      → ((e e' : Distribution) (t : c.State)
          → (post_creation e t).0 ≡ ok e'
          → e'.alternate_domains ≡ e.alternate_domains)
      → (create c cfg post_creation caller_ref d s).0 ≡ ok d'
      → d'.alternate_domains ≡ d.alternate_domains
  unfolding create prepare_and_run_post_creation_operations
  create-domains post_creation caller_ref d d' s kept h =
      let (out, _, h1) =
        >>=-ok
          (annotated "creating distribution" (
            c.create_distribution (new_aws_distribution_config d caller_ref cfg)
              (distribution_tags d.tags)))
          _ s h in
      let created = record d {
        id = string_value out.id;
        arn = string_value out.arn;
        address = string_value out.domain_name;
      } in
      kept created d' _
        (annotated-ok "running distribution post-creation operations" (post_creation created) _ h1)

  -- The request of the update.
  abbrev update_of : Distribution → ConfigOutput → DistributionConfig → UpdateInput
  update_of d observed config = record {
    distribution_config = config;
    if_match = observed.etag;
    id = d.id;
  }

  -- The calls of a sync in their order, each in the state that the call before it left.
  pub record IsSynced (caller_ref : String) (d d' : Distribution) (s now : c.State) : Type 0 where
    pub observed : ConfigOutput
    pub found : c.get_distribution_config s d.id ≡ ok observed
    pub oacs : List Oac
    pub with_oacs : c.State
    pub oacs_synced : sync_oacs c cfg (Distribution.oacs d) s ≡ (ok oacs, with_oacs)
    pub config : DistributionConfig
    pub to_send :
        IsToSend observed.distribution_config
          (new_aws_distribution_config d caller_ref cfg)
          oacs
          config
    pub out : AwsDistribution
    pub updated : c.State
    pub sent : c.update_distribution (update_of d observed config) with_oacs ≡ (ok out, updated)
    pub finished :
        IsFinished c cfg d d'
          (filter_oacs observed.distribution_config (λ o. has_oac o && not (has_origin d o.id)))
          out
          updated
          now
