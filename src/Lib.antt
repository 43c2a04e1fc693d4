-- ===== src/Lib.antt =====
-- Verification of the CDN origin controller.
--
-- The controller watches Kubernetes Ingresses and keeps a CloudFront distribution for each group of
-- them, with its certificate, its origin access controls (OACs) and its DNS records. An event that
-- passes the filter leads to a reconciliation: the Ingresses of the group are fetched and merged, a
-- distribution is built from them, it is created, synced or deleted at AWS, the DNS records follow,
-- and a status resource records the result.
--
-- Which file is about which part (a directory of the file's name holds its parts and its proofs):
--
--   Strhelper.antt                  internal/strhelper/strings.go
--   GoError/Aws.antt                internal/aws/error.go
--   Route53/Alias.antt              internal/route53/alias.go
--   Route53/Records.antt            internal/route53/repository.go: validation and changes
--   Route53/Repository.antt         internal/route53/repository.go: Upsert and Delete
--   K8s/FunctionAssociations.antt   internal/k8s/function_association.go
--   K8s/Helpers.antt                internal/k8s/helpers.go, controllers/predicate.go
--   K8s/Objects.antt                internal/k8s/cdnclass.go, and the Kubernetes objects
--   K8s/Ingress.antt                internal/k8s/ingress.go: one Ingress
--   K8s/Shared.antt                 internal/k8s/ingress.go: the parameters that a group shares
--   K8s/UserOrigin.antt             internal/k8s/user_origin.go, validation.go, ingress_fetcher_v1.go
--   Config.antt, Config/Defaults.antt  internal/config/config.go
--   Certificate.antt                internal/certificate/*.go
--   Api/IngressRef.antt             api/v1alpha1/ingress_ref.go
--   Api/CdnStatus.antt              api/v1alpha1/cdnstatus_types.go
--   Cloudfront/Oac.antt             internal/cloudfront/oac.go
--   Cloudfront/Function.antt        internal/cloudfront/function.go
--   Cloudfront/Origin.antt          internal/cloudfront/origin.go
--   Cloudfront/Sort.antt            internal/cloudfront/sort.go
--   Cloudfront/Distribution.antt    internal/cloudfront/distribution.go
--   Cloudfront/AwsModels.antt       internal/cloudfront/aws_models.go
--   Cloudfront/Client.antt          the calls of the AWS SDK that the repositories make
--   Cloudfront/OacLister.antt       internal/cloudfront/oac_lister.go
--   Cloudfront/OacRepository.antt   internal/cloudfront/oac_repository.go
--   Cloudfront/DistRepository.antt  internal/cloudfront/repository.go
--   Cloudfront/Service/Paths.antt      internal/cloudfront/service_helpers.go
--   Cloudfront/Service/Desired.antt    internal/cloudfront/service.go: newDistribution, validateCreation
--   Cloudfront/Service/AliasSync.antt  internal/cloudfront/service.go: syncAliases
--   Cloudfront/Service/World.antt      internal/cloudfront/service.go: the service and what it reaches
--   Cloudfront/Service/Fetching.antt   internal/cloudfront/service.go: desiredState, the CDNStatus
--   Cloudfront/Service/Upkeep.antt     internal/cloudfront/service.go: syncDist, finalizer, status
--   Cloudfront/Service/Reconcile.antt  internal/cloudfront/service.go: Reconcile
--   K8s/KubeClient.antt             the calls of the Kubernetes API server
--   K8s/Finalizers.antt             internal/k8s/helpers.go: AddFinalizer, RemoveFinalizer
--   K8s/Deprecated.antt             internal/k8s/deprecated.go
--   Controllers.antt                controllers/ingress_v1_controller.go,
--                                   internal/k8s/cdn_class_fetcher.go
--   Prelude, GoMap, GoString, GoError, Exec: what Go and its library give
--   Tests.antt                      the theorems at concrete inputs
--
-- A function is named as in Go, in snake case. An error is a value of `Result`, as is a panic; a
-- pointer that may be nil is an `Option`; a map is an association list, and a loop over one goes in
-- its order. A function with effects takes a state and gives a result and a new state (`Exec`). The
-- texts of errors are shortened; what decides the flow, how an error was wrapped and which code it
-- carries, is kept.
--
-- A reconciliation works on a `World`: the states of the cluster, of the hosted zone and of AWS, and
-- the events that were recorded. Its checks stop at their first error, which is an error of the
-- `Exec`; the steps after them keep their errors in a list, which is the result, empty where the
-- reconciliation succeeds. The Go code changes the Ingress and the status in place: here each step
-- gives on the new value.
--
-- The wait for a deployment polls until a timeout: it is a loop over a number of polls, which is an
-- argument, so nothing is assumed of the clock. The Go code polls at once, before any time has passed,
-- so a wait of no polls, which fails, stands for none of its runs. All other loops follow a list.
--
-- Parameters, since their code is elsewhere: the AWS clients and the Kubernetes client with their
-- states, the controller runtime's functions on finalizers, the YAML decoders, the string sets of
-- the Kubernetes libraries, MD5, and the values that viper reads. Not modelled: logs, the texts of
-- events, the wiring in main.go and of the controller runtime, generated code, and charts.
pub mod Prelude
pub mod GoMap
pub mod GoString
pub mod GoError
pub mod Exec
pub mod Strhelper
pub mod Route53
pub mod K8s
pub mod Config
pub mod Certificate
pub mod Api
pub mod Cloudfront
pub mod Controllers
pub mod Tests
