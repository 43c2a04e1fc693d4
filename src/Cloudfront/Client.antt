-- ===== src/Cloudfront/Client.antt =====
-- The calls of the AWS SDK's CloudFront and tagging clients that the repositories make, with the
-- fields they use. The service's state is a parameter; a call that only reads leaves it alone.
use mathlib.Core.List.{List}
use cdn_origin_controller.Prelude.{String, Option}
use cdn_origin_controller.GoError.{GoError, Result}
use cdn_origin_controller.GoMap.{GoMap}
use cdn_origin_controller.Cloudfront.AwsModels.{DistributionConfig}

-- `OriginAccessControlSummary`; `aws.StringValue` reads a nil pointer as "".
pub record OacSummary : Type 0 where
  pub id : String
  pub name : String
  pub origin_type : String
  pub signing_behavior : String
  pub signing_protocol : String

-- The pages of `ListOriginAccessControls`: an error, the last page, or one with more to come.
pub data OacPages : Type 0 where
  failed : GoError → OacPages
  last : List OacSummary → OacPages
  more : List OacSummary → OacPages → OacPages

pub record OacConfig : Type 0 where
  pub description : String
  pub name : String
  pub origin_type : String
  pub signing_behavior : String
  pub signing_protocol : String

pub record OriginAccessControl : Type 0 where
  pub id : String
  pub config : OacConfig

-- What the SDK returns of a distribution.
pub record AwsDistribution : Type 0 where
  pub id : Option String
  pub arn : Option String
  pub domain_name : Option String
  pub status : String
  pub etag : Option String

pub record ConfigOutput : Type 0 where
  pub distribution_config : DistributionConfig
  pub etag : Option String

pub record UpdateInput : Type 0 where
  pub distribution_config : DistributionConfig
  pub if_match : Option String
  pub id : String

-- `pass_time` is what happens at AWS between two polls.
pub record CloudfrontClient : Type 1 where
  pub State : Type 0
  pub list_oacs : State → OacPages
  pub get_oac_etag : State → String → Result (Option String)
  pub create_oac : OacConfig → State → Result OriginAccessControl × State
  pub update_oac : String → Option String → OacConfig → State → Result OriginAccessControl × State
  pub delete_oac : String → Option String → State → Option GoError × State
  pub create_distribution :
      DistributionConfig → GoMap String String → State → Result AwsDistribution × State
  pub get_distribution_config : State → String → Result ConfigOutput
  pub update_distribution : UpdateInput → State → Result AwsDistribution × State
  pub get_distribution : State → String → Result AwsDistribution
  pub delete_distribution : String → Option String → State → Option GoError × State
  pub tag_resource : String → GoMap String String → State → Option GoError × State
  pub arns_by_tags : State → GoMap String String → Result (List String)
  pub pass_time : State → State
