-- ===== src/Cloudfront/Service/Finalizer.antt =====
-- When the Ingress keeps its finalizer.
use mathlib.Core.List.{List, [], ◌∷◌}
use cdn_origin_controller.Prelude.{
  String, ℕ, ◌≡◌, ◌≢◌, refl, ap, ◌∙◌, Bool, true, false, none, some, arith,
}
use cdn_origin_controller.GoString.{nonempty, nonempty_iff}
use cdn_origin_controller.Strhelper.{contains}
use cdn_origin_controller.GoError.{GoError, Result, ok, err, panic}
use cdn_origin_controller.K8s.Objects.{Ingress, annotation}
use cdn_origin_controller.K8s.Helpers.{
  cdn_finalizer, cdn_group_annotation, has_group_annotation, has_finalizer,
  is_being_removed_from_desired_state,
}
use cdn_origin_controller.K8s.Finalizers.{IsFinalizerLawful, add_finalizer, remove_finalizer}
use cdn_origin_controller.Cloudfront.Service.World.{Service, World}
use cdn_origin_controller.Cloudfront.Service.Upkeep.{
  should_have_finalizer, with_finalizer, reconcile_finalizer, update_finalizer,
}

module _ (x : Service) where
  has_finalizer-with_finalizer :
      (should : Bool) (ing : Ingress)
      → IsFinalizerLawful x.finalizers
      → has_finalizer (with_finalizer x should ing) ≡ should
  unfolding has_finalizer with_finalizer add_finalizer remove_finalizer
  has_finalizer-with_finalizer true ing lawful =
      lawful.contains-add_finalizer ing.finalizers cdn_finalizer
  has_finalizer-with_finalizer false ing lawful =
      lawful.contains-remove_finalizer ing.finalizers cdn_finalizer

  with_finalizer-others :
      (should : Bool) (ing : Ingress) (g : String)
      → IsFinalizerLawful x.finalizers
      → cdn_finalizer ≢ g
      → contains (with_finalizer x should ing).finalizers g ≡ contains ing.finalizers g
  unfolding with_finalizer add_finalizer remove_finalizer
  with_finalizer-others true ing g lawful other =
      lawful.add_finalizer-others ing.finalizers cdn_finalizer g other
  with_finalizer-others false ing g lawful other =
      lawful.remove_finalizer-others ing.finalizers cdn_finalizer g other

  with_finalizer-rest :
      (should : Bool) (ing : Ingress)
      → with_finalizer x should ing
        ≡ record ing { finalizers = (with_finalizer x should ing).finalizers }
  unfolding with_finalizer add_finalizer remove_finalizer
  with_finalizer-rest true ing = refl
  with_finalizer-rest false ing = refl

  update_finalizer-kube :
      (errors : List GoError) (ing : Ingress) (w : World x)
      → (update_finalizer x errors ing w).1.kube
        ≡ (x.kube.update_ingress (with_finalizer x (should_have_finalizer errors ing) ing) w.kube).1
  unfolding update_finalizer reconcile_finalizer
  update_finalizer-kube errors ing w =
      state (x.kube.update_ingress (with_finalizer x (should_have_finalizer errors ing) ing) w.kube)
        refl
    where
      state :
          (t : Result Ingress × x.kube.State)
          → x.kube.update_ingress (with_finalizer x (should_have_finalizer errors ing) ing) w.kube
            ≡ t
          → (update_finalizer x errors ing w).1.kube ≡ t.1
      state (ok i, s) e = rw e refl
      state (err i, s) e = rw e refl
      state (panic i, s) e = rw e refl

  -- What is sent is the Ingress with nothing but the controller's own finalizer changed, and that is
  -- kept after an error and where the Ingress goes on to be served, and gone once an Ingress that is
  -- deleted, or that left its group, has been cleaned up without errors.
  pub record IsSent (errors : List GoError) (ing : Ingress) (w w' : World x) : Type 0 where
    pub sent : Ingress
    pub update : w'.kube ≡ (x.kube.update_ingress sent w.kube).1
    pub rest : sent ≡ record ing { finalizers = sent.finalizers }
    pub others :
        (g : String) → cdn_finalizer ≢ g → contains sent.finalizers g ≡ contains ing.finalizers g
    pub kept_after_error : errors ≢ [] → contains sent.finalizers cdn_finalizer ≡ true
    pub kept_in_group :
        ing.deletion_timestamp ≡ none
        → annotation ing cdn_group_annotation ≢ ""
        → contains sent.finalizers cdn_finalizer ≡ true
    pub gone_after_deletion :
        (time : ℕ)
        → errors ≡ []
        → ing.deletion_timestamp ≡ some time
        → contains sent.finalizers cdn_finalizer ≡ false
    pub gone_without_group :
        errors ≡ []
        → annotation ing cdn_group_annotation ≡ ""
        → contains ing.finalizers cdn_finalizer ≡ true
        → contains sent.finalizers cdn_finalizer ≡ false

  kept_after :
      (errors : List GoError) (ing : Ingress)
      → errors ≢ []
      → should_have_finalizer errors ing ≡ true
  unfolding should_have_finalizer
  kept_after [] ing some_error = absurd (some_error refl)
  kept_after (e ∷ es) ing some_error = refl

  should_in_group :
      (errors : List GoError) (ing : Ingress)
      → ing.deletion_timestamp ≡ none
      → annotation ing cdn_group_annotation ≢ ""
      → should_have_finalizer errors ing ≡ true
  unfolding should_have_finalizer is_being_removed_from_desired_state has_group_annotation
      annotation
  should_in_group [] ing alive grouped =
      rw (alive, (nonempty_iff (annotation ing cdn_group_annotation)).1 grouped) refl
  should_in_group (e ∷ es) ing alive grouped = refl

  gone_of_deletion :
      (errors : List GoError) (ing : Ingress) (time : ℕ)
      → errors ≡ []
      → ing.deletion_timestamp ≡ some time
      → should_have_finalizer errors ing ≡ false
  unfolding should_have_finalizer is_being_removed_from_desired_state
  gone_of_deletion errors ing time none_failed deleted = rw (none_failed, deleted) refl

  gone_of_group :
      (errors : List GoError) (ing : Ingress)
      → errors ≡ []
      → annotation ing cdn_group_annotation ≡ ""
      → contains ing.finalizers cdn_finalizer ≡ true
      → should_have_finalizer errors ing ≡ false
  unfolding should_have_finalizer is_being_removed_from_desired_state has_group_annotation
      has_finalizer
  gone_of_group errors ing none_failed groupless has =
      rw (none_failed, ap nonempty groupless, has) (ground arith)

  -- If the finalizer utilities do what they document, then after the steps on AWS and DNS one update
  -- of the Ingress is sent, in which nothing but the controller's own finalizer is changed: the
  -- finalizer is there after an error, and where the Ingress is not deleted and names a group; it is
  -- not there where there was no error and the Ingress is deleted, or has the finalizer and names no
  -- group.
  pub update_finalizer_lem :
      (errors : List GoError) (ing : Ingress) (w : World x)
      → IsFinalizerLawful x.finalizers
      → IsSent errors ing w (update_finalizer x errors ing w).1
  unfolding has_finalizer
  update_finalizer_lem errors ing w lawful =
      let should = should_have_finalizer errors ing in
      let own = has_finalizer-with_finalizer should ing lawful in
      record {
        sent = with_finalizer x should ing;
        update = update_finalizer-kube errors ing w;
        rest = with_finalizer-rest should ing;
        others = λ g other. with_finalizer-others should ing g lawful other;
        kept_after_error = λ some_error. own ∙ kept_after errors ing some_error;
        kept_in_group = λ alive grouped. own ∙ should_in_group errors ing alive grouped;
        gone_after_deletion =
            λ time none_failed deleted. own ∙ gone_of_deletion errors ing time none_failed deleted;
        gone_without_group =
            λ none_failed groupless has. own ∙ gone_of_group errors ing none_failed groupless has;
      }
