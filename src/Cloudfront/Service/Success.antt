-- ===== src/Cloudfront/Service/Success.antt =====
-- What a reconciliation without errors has done.
pub mod Stored
pub mod Records
pub mod Domains
pub mod Group
pub mod Allowed
use mathlib.Core.Path.{subst}
use mathlib.Core.List.{List, [], ◌∷◌, ◌++◌}
use cdn_origin_controller.Prelude.{
  String, ◌≡◌, refl, sym, ap, ap₂, ◌∙◌, Bool, true, false, not, ◌&&◌, if◌then◌else◌, ◌⊎◌, inl, inr,
}
use cdn_origin_controller.GoError.{GoError, Result, ok, err, panic, ok-injective}
use cdn_origin_controller.Exec.{attempt, pure, ◌>>=◌}
use cdn_origin_controller.Exec.Inversion.{>>=-ok, >>=-eq, attempt-ok, attempt-state}
use cdn_origin_controller.K8s.Objects.{Ingress, CdnClass}
use cdn_origin_controller.Api.CdnStatus.{CdnStatus}
use cdn_origin_controller.Cloudfront.Distribution.{Distribution, is_empty}
use cdn_origin_controller.Cloudfront.Service.AliasSync.{sync_aliases}
use cdn_origin_controller.Cloudfront.Service.World.{Service, World, on_dns}
use cdn_origin_controller.Cloudfront.Service.Upkeep.{
  Progress, any_error, errors_of, without_ref, with_synced, sync_dist, sync_class_aliases,
  update_finalizer, delete_or_upsert, write_status,
}
use cdn_origin_controller.Cloudfront.Service.Reconcile.{handle_result, report, sync_group}

abbrev AreNone : List GoError → Type 0
AreNone es = es ≡ []

left-AreNone : (ds es : List GoError) → AreNone (ds ++ es) → AreNone ds
left-AreNone [] es h = refl
left-AreNone (d ∷ ds) es h = cc

right-AreNone : (ds es : List GoError) → AreNone (ds ++ es) → AreNone es
right-AreNone [] es h = h
right-AreNone (d ∷ ds) es h = cc

succeeded : {A : Type 0} (r : A ⊎ GoError) → AreNone (errors_of r) → (a : A) × (r ≡ inl a)
succeeded (inl a) h = (a, refl)
succeeded (inr e) h = cc

pub if_true : {A : Type 0} (b : Bool) (m n : A) → b ≡ true → (if b then m else n) ≡ m
if_true true m n h = refl
if_true false m n h = cc

module _ (x : Service) where
  handle_result-AreNone :
      (ing : Ingress) (status : CdnStatus) (errors : List GoError) (w : World x)
      → (handle_result x ing status errors w).0 ≡ ok []
      → AreNone errors
  unfolding handle_result
  handle_result-AreNone ing status [] w h = refl
  handle_result-AreNone ing status (e ∷ es) w h = cc

  handle_result-kube :
      (ing : Ingress) (status : CdnStatus) (errors : List GoError) (w : World x)
      → (handle_result x ing status errors w).1.kube ≡ w.kube
  unfolding handle_result
  handle_result-kube ing status [] w = refl
  handle_result-kube ing status (e ∷ es) w = refl

  -- The status was written, or deleted where the group needs no distribution, and the cluster is as
  -- that left it.
  abbrev IsWritten : Distribution → CdnStatus → World x → x.kube.State → Type 0
  IsWritten desired status w s =
      ((delete_or_upsert x (is_empty desired) status w).0 ≡ ok tt)
      × ((delete_or_upsert x (is_empty desired) status w).1.kube ≡ s)

  write_status_of :
      (errors : List GoError) (desired : Distribution) (status : CdnStatus) (w : World x)
      (r : Unit {0} ⊎ GoError)
      → (attempt (delete_or_upsert x (not (any_error errors) && is_empty desired) status) w).0
        ≡ ok r
      → AreNone (errors ++ errors_of r)
      → AreNone errors
        × IsWritten desired status w
            (attempt
              (delete_or_upsert x (not (any_error errors) && is_empty desired) status)
              w).1.kube
  write_status_of [] desired status w (inl u) h none = (
    refl,
    (
      attempt-ok (delete_or_upsert x (is_empty desired) status) w h,
      ap (λ v. v.kube) (sym (attempt-state (delete_or_upsert x (is_empty desired) status) w)),
    ),
  )
  write_status_of [] desired status w (inr e) h none = cc
  write_status_of (e ∷ es) desired status w r h none = cc

  write_status-IsWritten :
      (errors : List GoError) (desired : Distribution) (status : CdnStatus) (w : World x)
      (all : List GoError)
      → (write_status x errors desired status w).0 ≡ ok all
      → AreNone all
      → AreNone errors × IsWritten desired status w (write_status x errors desired status w).1.kube
  unfolding write_status
  write_status-IsWritten errors desired status w all h none =
      let (r, tried, rest) =
        >>=-ok (attempt (delete_or_upsert x (not (any_error errors) && is_empty desired) status))
          (λ r. pure (errors ++ errors_of r)) w h in
      let (none_before, (wrote, left)) =
        write_status_of errors desired status w r tried (ok-injective rest ∙ none) in
      (
        none_before,
        (
          wrote,
          left
              ∙ ap (λ t. t.1.kube)
                  (sym (
                    >>=-eq
                      (attempt
                        (delete_or_upsert x (not (any_error errors) && is_empty desired) status))
                      (λ r. pure (errors ++ errors_of r)) w r tried)),
        ),
      )

  without_ref_of_none :
      (errors : List GoError) (ing : Ingress) (status : CdnStatus)
      → AreNone errors
      → without_ref errors ing status ≡ without_ref [] ing status
  without_ref_of_none errors ing status none = ap (λ es. without_ref es ing status) none

  report-IsWritten :
      (desired : Distribution) (p : Progress) (t : Ingress × List GoError) (w : World x)
      → (report x desired p t w).0 ≡ ok []
      → AreNone p.errors
        × IsWritten desired (without_ref [] t.0 p.status) w (report x desired p t w).1.kube
  unfolding report
  report-IsWritten desired p (ing, errors) w h =
      let all = p.errors ++ errors in
      let (written, wrote, told) =
        >>=-ok (write_status x all desired (without_ref all ing p.status))
          (handle_result x ing (without_ref all ing p.status)) w h in
      let (none, done) =
        write_status-IsWritten all desired (without_ref all ing p.status) w written wrote
          (handle_result-AreNone ing (without_ref all ing p.status) written _ told) in
      let kube =
        ap (λ t. t.1.kube)
          (>>=-eq (write_status x all desired (without_ref all ing p.status))
            (handle_result x ing (without_ref all ing p.status)) w written wrote)
        ∙ handle_result-kube ing (without_ref all ing p.status) written _ in
      (
        left-AreNone p.errors errors none,
        subst (λ st. IsWritten desired st w (report x desired p (ing, errors) w).1.kube)
            (without_ref_of_none all ing p.status none) (done.0, done.1 ∙ sym kube),
      )

  with_synced-ok :
      (p q : Progress) (t : Result (List GoError) × (CdnStatus × x.dns.State))
      → (with_synced x p t).0 ≡ ok q
      → AreNone q.errors
      → AreNone p.errors × (t ≡ (ok [], (q.status, t.1.1)))
  with_synced-ok p q (ok errors, (status, s)) h none =
      let e = ok-injective h in
      let all = ap (λ r. r.errors) e ∙ none in
      (
        left-AreNone p.errors errors all,
        ap₂ (λ es st. (ok es, (st, s))) (right-AreNone p.errors errors all) (ap (λ r. r.status) e),
      )
  with_synced-ok p q (err f, (status, s)) h none = cc
  with_synced-ok p q (panic m, (status, s)) h none = cc

  sync_class_aliases-ok :
      (class : CdnClass) (p q : Progress) (w : World x)
      → class.create_alias ≡ true
      → (sync_class_aliases x class p w).0 ≡ ok q
      → AreNone q.errors
      → AreNone p.errors
        × (sync_aliases x.dns x.config p.status p.dist class w.dns
            ≡ (ok [], (q.status, (sync_aliases x.dns x.config p.status p.dist class w.dns).1.1)))
  unfolding sync_class_aliases
  sync_class_aliases-ok class p q w on h none =
      with_synced-ok p q (sync_aliases x.dns x.config p.status p.dist class w.dns)
        (ap (λ m. (m w).0)
            (sym (
              if_true class.create_alias
                (on_dns
                  (λ s. with_synced x p (sync_aliases x.dns x.config p.status p.dist class s)))
                (pure p) on))
          ∙ h)
        none

  -- What a reconciliation without errors has done: the distribution was brought up to date, then the
  -- DNS records, and then the status was written.
  pub record IsComplete (ing : Ingress) (class : CdnClass) (desired : Distribution)
      (status : CdnStatus) (w : World x) : Type 0 where
    pub made : Progress
    pub made_ok : (sync_dist x desired status ing w).0 ≡ ok made
    pub made_errors : made.errors ≡ []
    pub synced : Progress
    pub synced_ok :
        sync_aliases x.dns x.config made.status made.dist class
          (sync_dist x desired status ing w).1.dns
        ≡ (
          ok [],
          (
            synced.status,
            (sync_aliases x.dns x.config made.status made.dist class
                (sync_dist x desired status ing w).1.dns).1.1,
          ),
        )
    pub updated : Ingress
    pub before : World x
    pub written :
        IsWritten desired
          (without_ref [] updated synced.status)
          before
          (sync_group x ing class desired status w).1.kube

  -- If the class asks for aliases then a reconciliation without errors is complete.
  pub sync_group-IsComplete :
      (ing : Ingress) (class : CdnClass) (desired : Distribution) (status : CdnStatus) (w : World x)
      → class.create_alias ≡ true
      → (sync_group x ing class desired status w).0 ≡ ok []
      → IsComplete ing class desired status w
  unfolding sync_group
  sync_group-IsComplete ing class desired status w on h =
      let (made, made_ok, h1) = >>=-ok (sync_dist x desired status ing) _ w h in
      let (synced, synced_ok, h2) = >>=-ok (sync_class_aliases x class made) _ _ h1 in
      let (updated, updated_ok, h3) =
        >>=-ok (update_finalizer x synced.errors ing) (report x desired synced) _ h2 in
      let (none, written) = report-IsWritten desired synced updated _ h3 in
      let (made_errors, aliases) = sync_class_aliases-ok class made synced _ on synced_ok none in
      let whole =
        >>=-eq (sync_dist x desired status ing) _ w made made_ok
        ∙ >>=-eq (sync_class_aliases x class made) _ _ synced synced_ok
        ∙ >>=-eq (update_finalizer x synced.errors ing) (report x desired synced) _ updated
            updated_ok in
      record {
        made = made;
        made_ok = made_ok;
        made_errors = made_errors;
        synced = synced;
        synced_ok = aliases;
        updated = updated.0;
        before = _;
        written = (written.0, written.1 ∙ ap (λ t. t.1.kube) (sym whole));
      }
