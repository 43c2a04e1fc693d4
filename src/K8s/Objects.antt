-- ===== src/K8s/Objects.antt =====
-- The Kubernetes objects that the controller reads, with the fields that it uses, and
-- internal/k8s/cdnclass.go. A pointer that may be nil is an `Option`.
use Prim.Native.Nat.{ℕ}
use mathlib.Core.List.{List}
use cdn_origin_controller.Prelude.{String, Bool, Option, none, some, string_eq}
use cdn_origin_controller.GoMap.{GoMap, lookup}

-- `HTTPIngressPath`; `path_type` is what the pointer of that name points at.
pub record HttpPath : Type 0 where
  pub path : String
  pub path_type : String

-- `networkingv1.Ingress`. A rule with no HTTP part is `none`; a load balancer's ingress point is
-- its hostname.
pub record Ingress : Type 0 where
  pub namespace : String
  pub name : String
  pub annotations : GoMap String String
  pub finalizers : List String
  pub deletion_timestamp : Option ℕ
  pub rules : List (Option (List HttpPath))
  pub load_balancer : List String

pub record NamespacedName : Type 0 where
  pub namespace : String
  pub name : String

pub record CdnClass : Type 0 where
  pub hosted_zone_id : String
  pub create_alias : Bool
  pub txt_owner_value : String

abbrev value_or_empty : Option String → String
value_or_empty none = ""
value_or_empty (some v) = v

-- `obj.GetAnnotations()[key]`: a missing annotation reads as "".
unfoldable pub annotation : Ingress → String → String
annotation ing key = value_or_empty (lookup key ing.annotations)
