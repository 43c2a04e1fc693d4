-- ===== src/Controllers/Ignored.antt =====
-- The requests that come to the service, and those that change nothing.
use mathlib.Core.List.{List, []}
use cdn_origin_controller.Prelude.{◌≡◌, refl, sym, ap, true, ◌⊎◌, inl, inr, ◌∙◌, Bool-cases}
use cdn_origin_controller.GoError.{GoError, annotate, is_not_found, Result, ok, err, panic}
use cdn_origin_controller.K8s.Objects.{Ingress, NamespacedName, CdnClass}
use cdn_origin_controller.K8s.Helpers.{cdn_class_annotation_value}
use cdn_origin_controller.Cloudfront.Service.World.{Service, World}
use cdn_origin_controller.Cloudfront.Service.Reconcile.{reconcile}
use cdn_origin_controller.Controllers.{
  fetch_by_name, reconcile_fetched, reconcile_found, reconcile_request,
}

module _ (x : Service) where
  -- The Ingress and its class are there, and the service reconciles them.
  pub record IsPassedOn (name : NamespacedName) (w : World x) : Type 0 where
    pub ing : Ingress
    pub class : CdnClass
    pub has_ingress : x.kube.get_ingress w.kube name ≡ ok ing
    pub has_class : x.kube.get_class w.kube (cdn_class_annotation_value ing) ≡ ok class
    pub passed_on : reconcile_request x name w ≡ reconcile x ing class w

  -- Nothing is changed, and the request succeeds only where the Ingress is not found.
  pub record IsLeft (name : NamespacedName) (w : World x) : Type 0 where
    pub unchanged : (reconcile_request x name w).1 ≡ w
    pub ignored :
        (reconcile_request x name w).0 ≡ ok []
        → (e : GoError) × (x.kube.get_ingress w.kube name ≡ err e) × (is_not_found e ≡ true)

  without_change :
      (name : NamespacedName) (w : World x) (r : Result (List GoError))
      → reconcile_request x name w ≡ (r, w)
      → (r ≡ ok []
          → (e : GoError) × (x.kube.get_ingress w.kube name ≡ err e) × (is_not_found e ≡ true))
      → IsLeft name w
  without_change name w r e why = record {
    unchanged = ap (λ t. t.1) e;
    ignored = λ h. why (sym (ap (λ t. t.0) e) ∙ h);
  }

  with_ingress :
      (name : NamespacedName) (w : World x) (ing : Ingress) (class : Result CdnClass)
      → x.kube.get_ingress w.kube name ≡ ok ing
      → x.kube.get_class w.kube (cdn_class_annotation_value ing) ≡ class
      → IsPassedOn name w ⊎ IsLeft name w
  unfolding reconcile_request reconcile_found reconcile_fetched fetch_by_name
  with_ingress name w ing (ok class) found known = inl (record {
    ing = ing;
    class = class;
    has_ingress = found;
    has_class = known;
    passed_on = rw (found, known) refl;
  })
  with_ingress name w ing (err e) found known = inr (
      without_change name w (err (annotate "could not find CDN class" e)) (rw (found, known) refl)
        (λ h. cc))
  with_ingress name w ing (panic m) found known =
      inr (without_change name w (panic m) (rw (found, known) refl) (λ h. cc))

  with_answer :
      (name : NamespacedName) (w : World x) (answer : Result Ingress)
      → x.kube.get_ingress w.kube name ≡ answer
      → IsPassedOn name w ⊎ IsLeft name w
  unfolding reconcile_request reconcile_found
  with_answer name w (ok ing) found = with_ingress name w ing _ found refl
  with_answer name w (err e) found = elim (Bool-cases (is_not_found e)) [
    | inl gone ↦ inr (without_change name w (ok []) (rw (found, gone) refl) (λ h. (e, found, gone)))
    | inr other ↦ inr (
        without_change name w (err (annotate "could not fetch Ingress" e)) (rw (found, other) refl)
          (λ h. cc))
  ]
  with_answer name w (panic m) found =
      inr (without_change name w (panic m) (rw found refl) (λ h. cc))

  -- A request is either passed on to the service, with the Ingress it names and the class that the
  -- Ingress's annotation names, or it changes nothing, and then it succeeds only where the Ingress is
  -- not found.
  pub reconcile_request-cases :
      (name : NamespacedName) (w : World x) → IsPassedOn name w ⊎ IsLeft name w
  reconcile_request-cases name w = with_answer name w (x.kube.get_ingress w.kube name) refl
