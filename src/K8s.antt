-- ===== src/K8s.antt =====
-- internal/k8s: Ingresses as the controller reads them.
pub mod FunctionAssociations
pub mod Objects
pub mod Helpers
pub mod Ingress
pub mod Shared
pub mod UserOrigin
pub mod Finalizers
pub mod KubeClient
pub mod Deprecated
