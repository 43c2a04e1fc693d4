-- ===== src/Cloudfront/Service.antt =====
-- internal/cloudfront/service.go and service_helpers.go, as far as they are modelled: the origin
-- of an Ingress, the distribution of a group, and the DNS records of a distribution.
pub mod Paths
pub mod AliasSync
pub mod World
pub mod Fetching
pub mod Upkeep
pub mod Reconcile
pub mod Effects
pub mod Stops
pub mod Checks
pub mod Finalizer
pub mod Untouched
pub mod Success
pub mod Errors
pub mod Desired
