-- ===== src/Cloudfront/DistRepository/Sending.antt =====
-- What a sync sends of the configurations that are desired and observed.
use mathlib.Core.Path.{subst}
use mathlib.Core.List.{List}
use cdn_origin_controller.Prelude.{String, Option, none, some, ◌≢◌, ◌≡◌, refl, sym, ap, ◌∙◌}
use cdn_origin_controller.GoError.{ok, panic, ok-injective}
use cdn_origin_controller.Cloudfront.Oac.{Oac}
use cdn_origin_controller.Cloudfront.AwsModels.{DistributionConfig}
use cdn_origin_controller.Cloudfront.Client.{}
use cdn_origin_controller.Cloudfront.DistRepository.Attaching.{
  AreItemsAttached, attach_to_config-AreItemsAttached,
}
use cdn_origin_controller.Cloudfront.DistRepository.Finishing.{}
use cdn_origin_controller.Cloudfront.DistRepository.{keep_observed, attach_to_config}

-- The configuration that is sent is the desired one, except for what is kept of the observed one.
record Keeps (observed desired config : DistributionConfig) : Type 0 where
  pub caller_reference : config.caller_reference ≡ observed.caller_reference
  pub default_root_object : config.default_root_object ≡ observed.default_root_object
  pub custom_error_responses : config.custom_error_responses ≡ observed.custom_error_responses
  pub restrictions : config.restrictions ≡ observed.restrictions
  pub others : config ≡ record desired {
    caller_reference = config.caller_reference;
    default_root_object = config.default_root_object;
    custom_error_responses = config.custom_error_responses;
    restrictions = config.restrictions;
  }

panic-ne-ok : {A : Type 0} (m : String) (a : A) → panic m ≢ ok a
panic-ne-ok m a h = cc

keep_observed-Keeps :
    (observed desired config : DistributionConfig) (reference root : Option String)
    → observed.caller_reference ≡ reference
    → observed.default_root_object ≡ root
    → keep_observed observed desired ≡ ok config
    → Keeps observed desired config
unfolding keep_observed
keep_observed-Keeps observed desired config none root e e' h =
    absurd (panic-ne-ok "nil pointer dereference" config (sym (rw (e, keep_observed) refl) ∙ h))
keep_observed-Keeps observed desired config (some reference) none e e' h =
    absurd (panic-ne-ok "nil pointer dereference" config (sym (rw (e, e', keep_observed) refl) ∙ h))
keep_observed-Keeps observed desired config (some reference) (some root) e e' h =
    subst (Keeps observed desired) (ok-injective (sym (rw (e, e', keep_observed) refl) ∙ h))
      (record {
        caller_reference = sym e;
        default_root_object = sym e';
        custom_error_responses = refl;
        restrictions = refl;
        others = refl;
      })

-- What is sent is the desired configuration with the OACs attached to its origins, except for what
-- is kept of the observed one.
pub record IsToSend (observed desired : DistributionConfig) (oacs : List Oac)
    (config : DistributionConfig) : Type 0 where
  pub caller_reference : config.caller_reference ≡ observed.caller_reference
  pub default_root_object : config.default_root_object ≡ observed.default_root_object
  pub custom_error_responses : config.custom_error_responses ≡ observed.custom_error_responses
  pub restrictions : config.restrictions ≡ observed.restrictions
  pub origins : AreItemsAttached oacs desired.origins config.origins
  pub others : config ≡ record desired {
    caller_reference = config.caller_reference;
    default_root_object = config.default_root_object;
    custom_error_responses = config.custom_error_responses;
    restrictions = config.restrictions;
    origins = config.origins;
  }

Keeps-IsToSend :
    (observed desired config : DistributionConfig) (oacs : List Oac)
    → Keeps observed (attach_to_config oacs desired) config
    → IsToSend observed desired oacs config
Keeps-IsToSend observed desired config oacs k =
    let (attached, alike) = attach_to_config-AreItemsAttached oacs desired in
    let same = ap (λ (t : DistributionConfig). t.origins) k.others in
    record {
      caller_reference = k.caller_reference;
      default_root_object = k.default_root_object;
      custom_error_responses = k.custom_error_responses;
      restrictions = k.restrictions;
      origins = subst (AreItemsAttached oacs desired.origins) (sym same) attached;
      others =
          k.others
          ∙ ap
              (λ (t : DistributionConfig). record t {
                caller_reference = config.caller_reference;
                default_root_object = config.default_root_object;
                custom_error_responses = config.custom_error_responses;
                restrictions = config.restrictions;
              })
              alike
          ∙ ap
              (λ os. record desired {
                caller_reference = config.caller_reference;
                default_root_object = config.default_root_object;
                custom_error_responses = config.custom_error_responses;
                restrictions = config.restrictions;
                origins = os;
              })
              (sym same);
    }

-- Keeping what is observed of the configuration with its OACs attached gives what is to be sent.
pub keep_observed-IsToSend :
    (observed desired config : DistributionConfig) (oacs : List Oac)
    → keep_observed observed (attach_to_config oacs desired) ≡ ok config
    → IsToSend observed desired oacs config
keep_observed-IsToSend observed desired config oacs h =
    Keeps-IsToSend observed desired config oacs
      (keep_observed-Keeps observed (attach_to_config oacs desired) config _ _ refl refl h)
