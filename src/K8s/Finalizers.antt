-- ===== src/K8s/Finalizers.antt =====
-- internal/k8s/helpers.go: `AddFinalizer` and `RemoveFinalizer`. The functions of that name of the
-- controller runtime, which they call, are a parameter.
use mathlib.Core.List.{List}
use cdn_origin_controller.Prelude.{String, ◌≡◌, ◌≢◌, true, false, string_eq}
use cdn_origin_controller.Strhelper.{contains}
use cdn_origin_controller.K8s.Objects.{Ingress}
use cdn_origin_controller.K8s.Helpers.{cdn_finalizer}

-- `controllerutil.AddFinalizer` and `RemoveFinalizer`, on the finalizers of an object.
pub record FinalizerUtil : Type 0 where
  pub add_finalizer : List String → String → List String
  pub remove_finalizer : List String → String → List String

-- What their documentation says: a finalizer is there after it was added, and not after it was
-- removed, and the others stay.
pub record IsFinalizerLawful (u : FinalizerUtil) : Type 0 where
  pub contains-add_finalizer :
      (fs : List String) (f : String) → contains (u.add_finalizer fs f) f ≡ true
  pub contains-remove_finalizer :
      (fs : List String) (f : String) → contains (u.remove_finalizer fs f) f ≡ false
  pub add_finalizer-others :
      (fs : List String) (f g : String) → f ≢ g → contains (u.add_finalizer fs f) g ≡ contains fs g
  pub remove_finalizer-others :
      (fs : List String) (f g : String)
      → f ≢ g
      → contains (u.remove_finalizer fs f) g ≡ contains fs g

module _ (u : FinalizerUtil) where
  unfoldable pub add_finalizer : Ingress → Ingress
  add_finalizer ing = record ing { finalizers = u.add_finalizer ing.finalizers cdn_finalizer }

  unfoldable pub remove_finalizer : Ingress → Ingress
  remove_finalizer ing = record ing { finalizers = u.remove_finalizer ing.finalizers cdn_finalizer }
