-- ===== src/Cloudfront/DistRepository/Finishing.antt =====
-- What follows the update of a distribution: its unused OACs are deleted and its tags are set.
use mathlib.Core.List.{List}
use cdn_origin_controller.Prelude.{String, ◌≡◌, refl, sym, ap, ◌∙◌, Option, none, some}
use cdn_origin_controller.GoError.{GoError, Result, ok, err, panic, ok-injective}
use cdn_origin_controller.Exec.{Exec, lift, call, annotated, note}
use cdn_origin_controller.Exec.Inversion.{>>=-ok, >>=-eq}
use cdn_origin_controller.Config.{Config}
use cdn_origin_controller.Cloudfront.Oac.{Oac}
use cdn_origin_controller.Cloudfront.Distribution.{Distribution}
use cdn_origin_controller.Cloudfront.Client.{AwsDistribution, CloudfrontClient}
use cdn_origin_controller.Cloudfront.DistRepository.{
  run_post_update_operations, delete_oacs, deref, distribution_tags,
}

module _ {S : Type 0} where
  note-eq :
      {A : Type 0} (text : String) (t : Result A × S) {a : A}
      → (note text t).0 ≡ ok a
      → t ≡ (ok a, (note text t).1)
  note-eq text (ok b, s) h = ap (λ r. (r, s)) h
  note-eq text (err e, s) h = cc
  note-eq text (panic m, s) h = cc

  -- What succeeds with an annotation succeeds without it, alike.
  pub annotated-eq :
      {A : Type 0} (text : String) (m : Exec S A) (s : S) {a : A}
      → (annotated text m s).0 ≡ ok a
      → m s ≡ (ok a, (annotated text m s).1)
  annotated-eq text m s h = note-eq text (m s) h

  returned-ok :
      (t : Option GoError × S) (s : S)
      → (call (λ s. t) s).0 ≡ ok tt
      → t ≡ (none, (call (λ s. t) s).1)
  returned-ok (none, s') s h = refl
  returned-ok (some e, s') s h = cc

  call-ok : (f : S → Option GoError × S) (s : S) → (call f s).0 ≡ ok tt → f s ≡ (none, (call f s).1)
  call-ok f s h = returned-ok (f s) s h

deref-ok : {A : Type 0} (o : Option A) {a : A} → deref o ≡ ok a → o ≡ some a
unfolding deref
deref-ok none h = cc
deref-ok (some b) h = ap some (ok-injective h)

module _ (c : CloudfrontClient) (cfg : Config) where
  -- The unused OACs were deleted, then the tags were set and nothing else was asked of AWS; the
  -- distribution has what AWS answered.
  pub record IsFinished (d d' : Distribution) (unused : List Oac) (out : AwsDistribution)
      (s now : c.State) : Type 0 where
    pub cleaned : c.State
    pub unused_deleted : delete_oacs c cfg unused s ≡ (ok tt, cleaned)
    pub tagged : c.tag_resource d.arn (distribution_tags d.tags) cleaned ≡ (none, now)
    pub id : out.id ≡ some d'.id
    pub arn : out.arn ≡ some d'.arn
    pub address : out.domain_name ≡ some d'.address
    pub rest : d' ≡ record d { id = d'.id; arn = d'.arn; address = d'.address }

  abbrev tagging : Distribution → Exec c.State (Unit {0})
  tagging d = call (c.tag_resource d.arn (distribution_tags d.tags))

  pub run_post_update_operations-IsFinished :
      (d d' : Distribution) (unused : List Oac) (out : AwsDistribution) (s : c.State)
      → (run_post_update_operations c cfg d unused out s).0 ≡ ok d'
      → IsFinished d d' unused out s (run_post_update_operations c cfg d unused out s).1
  unfolding run_post_update_operations
  run_post_update_operations-IsFinished d d' unused out s h =
      let deleting = annotated "deleting unused OACs" (delete_oacs c cfg unused) in
      let (_, deleted, h1) = >>=-ok deleting _ s h in
      let s1 = (deleting s).1 in
      let (_, tagged, h2) = >>=-ok (annotated "updating tags" (tagging d)) _ s1 h1 in
      let s2 = (annotated "updating tags" (tagging d) s1).1 in
      let (id, id_ok, h3) = >>=-ok (lift (deref out.id)) _ s2 h2 in
      let (arn, arn_ok, h4) = >>=-ok (lift (deref out.arn)) _ s2 h3 in
      let (address, address_ok, h5) = >>=-ok (lift (deref out.domain_name)) _ s2 h4 in
      let whole =
        >>=-eq deleting _ s tt deleted
        ∙ >>=-eq (annotated "updating tags" (tagging d)) _ s1 tt tagged
        ∙ >>=-eq (lift (deref out.id)) _ s2 id id_ok
        ∙ >>=-eq (lift (deref out.arn)) _ s2 arn arn_ok
        ∙ >>=-eq (lift (deref out.domain_name)) _ s2 address address_ok in
      let same = ok-injective h5 in
      let set = annotated-eq "updating tags" (tagging d) s1 tagged in
      record {
        cleaned = s1;
        unused_deleted = annotated-eq "deleting unused OACs" (delete_oacs c cfg unused) s deleted;
        tagged =
            call-ok (c.tag_resource d.arn (distribution_tags d.tags)) s1 (ap (λ t. t.0) set)
            ∙ ap (λ t. (none, t)) (ap (λ t. t.1) set ∙ ap (λ t. t.1) (sym whole));
        id = deref-ok out.id id_ok ∙ ap (λ e. some e.id) same;
        arn = deref-ok out.arn arn_ok ∙ ap (λ e. some e.arn) same;
        address = deref-ok out.domain_name address_ok ∙ ap (λ e. some e.address) same;
        rest =
            sym same
            ∙ ap (λ (e : Distribution). record d { id = e.id; arn = e.arn; address = e.address })
                same;
      }
