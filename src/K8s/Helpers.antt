-- ===== src/K8s/Helpers.antt =====
-- internal/k8s/helpers.go and controllers/predicate.go: which Ingresses the controller looks at.
use mathlib.Core.List.{List, [], ◌∷◌}
use cdn_origin_controller.Prelude.{String, Bool, true, false, not, ◌&&◌, ◌||◌, Option, none, some}
use cdn_origin_controller.GoString.{nonempty}
use cdn_origin_controller.Strhelper.{contains}
use cdn_origin_controller.K8s.Objects.{Ingress, annotation}

abbrev pub cdn_group_annotation : String
cdn_group_annotation = "cdn-origin-controller.gympass.com/cdn.group"

abbrev pub cdn_class_annotation : String
cdn_class_annotation = "cdn-origin-controller.gympass.com/cdn.class"

abbrev pub cdn_finalizer : String
cdn_finalizer = "cdn-origin-controller.gympass.com/finalizer"

unfoldable pub cdn_class_annotation_value : Ingress → String
cdn_class_annotation_value ing = annotation ing cdn_class_annotation

unfoldable pub cdn_class_not_empty : String → Bool
cdn_class_not_empty candidate = nonempty candidate

unfoldable pub has_finalizer : Ingress → Bool
has_finalizer ing = contains ing.finalizers cdn_finalizer

unfoldable pub has_group_annotation : Ingress → Bool
has_group_annotation ing = nonempty (annotation ing cdn_group_annotation)

abbrev first_nonempty : List String → Bool
first_nonempty [] = false
first_nonempty (h ∷ hs) = nonempty h

unfoldable pub has_load_balancer : Ingress → Bool
has_load_balancer ing = first_nonempty ing.load_balancer

abbrev pub is_set {ℓ} : {A : Type ℓ} → Option A → Bool
is_set none = false
is_set (some a) = true

unfoldable pub is_being_removed_from_desired_state : Ingress → Bool
is_being_removed_from_desired_state ing =
    is_set ing.deletion_timestamp || (not (has_group_annotation ing) && has_finalizer ing)

-- `ingressPredicate.Create` and `Delete`, which test the same.
unfoldable pub should_process : Ingress → Bool
should_process ing =
    cdn_class_not_empty (cdn_class_annotation_value ing)
    && (has_finalizer ing || (has_group_annotation ing && has_load_balancer ing))

-- `ingressPredicate.Update`, given whether `reflect.DeepEqual` finds the objects equal.
unfoldable pub should_process_update : (objects_are_equal : Bool) → Ingress → Bool
should_process_update objects_are_equal new =
    cdn_class_not_empty (cdn_class_annotation_value new)
    && (not objects_are_equal
        && (has_finalizer new || (has_group_annotation new && has_load_balancer new)))
