-- ===== src/Tests/Deletions.antt =====
-- A distribution that is deployed after two polls, and OACs on two pages.
use mathlib.Core.List.{[], ◌∷◌}
use cdn_origin_controller.Prelude.{
  String, ◌≡◌, refl, ◌⊎◌, ℕ, zero, suc, ◌<◌, some, none, string_eq, arith,
}
use cdn_origin_controller.GoError.{ok, err, new}
use cdn_origin_controller.Cloudfront.Oac.{Oac, no_oac}
use cdn_origin_controller.Cloudfront.AwsModels.{new_aws_distribution_config}
use cdn_origin_controller.Cloudfront.Client.{
  AwsDistribution, CloudfrontClient, ConfigOutput, OacSummary, OacPages, last, more,
}
use cdn_origin_controller.Cloudfront.OacRepository.{find_item, find_in_pages}
use cdn_origin_controller.Cloudfront.OacRepository.Laws.{all_items, find_in_pages-eq}
use cdn_origin_controller.Cloudfront.DistRepository.{
  poll, wait_until_deployed, delete_deployed, delete_disabled,
}
use cdn_origin_controller.Cloudfront.DistRepository.Deletion.{
  passes, IsDeployed, IsFailed, delete_disabled-cases, wait_until_deployed-eventually,
}
use cdn_origin_controller.Tests.Distributions.{config, distribution}

abbrev at_aws : (status : String) → AwsDistribution
at_aws status = record {
  id = some "E1";
  arn = some "arn:1";
  domain_name = some "d1.cloudfront.net";
  status = status;
  etag = some "tag";
}

-- The state counts the polls.
abbrev status_after : ℕ → String
status_after zero = "InProgress"
status_after (suc zero) = "InProgress"
status_after (suc (suc n)) = "Deployed"

abbrev summary : String → OacSummary
summary id = record {
  id = id;
  name = id;
  origin_type = "s3";
  signing_behavior = "always";
  signing_protocol = "sigv4";
}

abbrev pages : OacPages
pages = more (summary "O1" ∷ []) (last (summary "O2" ∷ []))

abbrev output : ConfigOutput
output = record {
  distribution_config = record (new_aws_distribution_config distribution "ref" config) {
    default_root_object = some "index.html";
  };
  etag = some "tag";
}

abbrev pub aws : CloudfrontClient
aws = record {
  State = ℕ;
  list_oacs = λ s. pages;
  get_oac_etag = λ s id. ok (some "tag");
  create_oac = λ c s. (err (new "denied"), s);
  update_oac = λ id etag c s. (err (new "denied"), s);
  delete_oac = λ id etag s. (none, s);
  create_distribution = λ c tags s. (ok (at_aws "InProgress"), s);
  get_distribution_config = λ s id. ok output;
  update_distribution = λ i s. (ok (at_aws "InProgress"), s);
  get_distribution = λ s id. ok (at_aws (status_after s));
  delete_distribution = λ id etag s. (none, s);
  tag_resource = λ arn tags s. (none, s);
  arns_by_tags = λ s tags. ok [];
  pass_time = suc;
}

abbrev wanted : Oac
wanted = record no_oac { id = "O2"; name = "second" }

find_in_pages-eq_example : find_in_pages wanted pages ≡ ok (find_item wanted (all_items pages))
find_in_pages-eq_example = find_in_pages-eq wanted pages tt

delete_disabled-cases_example :
    ((d : IsDeployed aws config 5 "E1" 0) × (delete_disabled aws config 5 output "E1" tt 0
        ≡ delete_deployed aws config output "E1" d.out.etag (passes aws config d.n 0)))
    ⊎ ((f : IsFailed aws config 5 "E1" 0) × ((delete_disabled aws config 5 output "E1" tt 0).1
          ≡ passes aws config f.n 0))
delete_disabled-cases_example = delete_disabled-cases aws config 5 output "E1" 0

pending_before :
    (k : ℕ) → k < 2 → poll aws config (aws.get_distribution (passes aws config k 0) "E1") ≡ ok none
unfolding poll passes string_eq
pending_before zero h = refl
pending_before (suc zero) h = refl
pending_before (suc (suc k)) h = absurd (omega arith)

deployed_then : aws.get_distribution (passes aws config 2 0) "E1" ≡ ok (at_aws "Deployed")
unfolding passes
deployed_then = refl

wait_until_deployed-eventually_example :
    wait_until_deployed aws config 5 "E1" 0 ≡ (ok (some "tag"), passes aws config 2 0)
wait_until_deployed-eventually_example =
    wait_until_deployed-eventually aws config 5 2 "E1" 0 (at_aws "Deployed") (omega arith)
      pending_before deployed_then refl
