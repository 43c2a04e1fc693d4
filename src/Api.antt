-- ===== src/Api.antt =====
-- api/v1alpha1: the resources that the controller defines.
pub mod IngressRef
pub mod CdnStatus
