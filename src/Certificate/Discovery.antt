-- ===== src/Certificate/Discovery.antt =====
-- What discovery finds, and what it does not look at.
use mathlib.Core.List.{List, [], ◌∷◌, ◌++◌}
use mathlib.Core.Path.{subst}
use cdn_origin_controller.Prelude.{
  String, ◌≡◌, refl, ap, ◌∙◌, inl, inr, Bool, true, if◌then◌else◌, arith, All, All-append,
  Bool-cases,
}
use cdn_origin_controller.GoError.{
  GoError, Result, ok, err, panic, ◌>>=◌, >>=-eq-ok, annotated, annotated-eq-ok, ok-injective,
}
use cdn_origin_controller.Certificate.{
  Certificate, AcmClient, Pages, failed, last, more, filter_page, list_pages, find_by_filter,
  discover_by_host, cert_matches, matching_domain_filter, first_cert,
}

err-ne-ok {ℓ} : {A : Type ℓ} {e : GoError} {a : A} → err e ≡ ok a → ⊥
err-ne-ok h = cc

bind-ok {ℓ} :
    {A : Type ℓ} (text : String) (m : Result A)
    → annotated text (m >>= λ a. ok a) ≡ annotated text m
bind-ok text (ok a) = refl
bind-ok text (err e) = refl
bind-ok text (panic p) = refl

module _ (c : AcmClient) (filter : Certificate → Bool) where
  filter_page-All :
      (certs : List Certificate) (arns : List String) {found : List Certificate}
      → All (λ x. filter x ≡ true) certs
      → filter_page c filter certs arns ≡ ok found
      → All (λ x. filter x ≡ true) found
  unfolding filter_page
  filter_page-All certs [] h e = subst (All (λ x. filter x ≡ true)) (ok-injective e) h
  filter_page-All certs (arn ∷ arns) h e =
      let (cert, _, k) = >>=-eq-ok (annotated _ (c.describe_certificate arn)) _ e in
      filter_page-All (if filter cert then certs ++ (cert ∷ []) else certs) arns (kept cert) k
    where
      kept :
          (cert : Certificate)
          → All (λ x. filter x ≡ true) (if filter cert then certs ++ (cert ∷ []) else certs)
      kept cert = elim (Bool-cases (filter cert)) [
        | inl fits ↦ rw fits (All-append _ certs (cert ∷ []) h (fits, tt))
        | inr other ↦ rw other h
      ]

  list_pages-All :
      (certs : List Certificate) (pages : Pages) {found : List Certificate}
      → All (λ x. filter x ≡ true) certs
      → list_pages c filter certs pages ≡ ok found
      → All (λ x. filter x ≡ true) found
  unfolding list_pages
  list_pages-All certs (failed e) h k = absurd (err-ne-ok k)
  list_pages-All certs (last page) h k = filter_page-All certs page h k
  list_pages-All certs (more page pages) h k =
      let (found, fp, e) = >>=-eq-ok (filter_page c filter certs page) _ k in
      subst (All (λ x. filter x ≡ true)) (ok-injective e) (filter_page-All certs page h fp)

matching_domain_filter-All :
    (hosts : List String) (cert : Certificate)
    → matching_domain_filter hosts cert ≡ true
    → All (λ h. cert_matches h cert ≡ true) hosts
unfolding matching_domain_filter
matching_domain_filter-All [] cert h = tt
matching_domain_filter-All (host ∷ hosts) cert h =
    ground (arith, matching_domain_filter-All hosts cert)

first_cert-All :
    (P : Certificate → Type 0) (certs : List Certificate) {cert : Certificate}
    → All P certs
    → first_cert certs ≡ ok cert
    → P cert
first_cert-All P [] h e = absurd (err-ne-ok e)
first_cert-All P (x ∷ certs) (px, h) e = subst P (ok-injective e) px

-- A certificate that is discovered matches every host, not only some of them.
pub discover_by_host-All :
    (c : AcmClient) (hosts : List String) {cert : Certificate}
    → discover_by_host c hosts ≡ ok cert
    → All (λ h. cert_matches h cert ≡ true) hosts
unfolding discover_by_host find_by_filter
discover_by_host-All c hosts h =
    let (certs, found, first) =
      >>=-eq-ok (annotated _ (annotated _ (list_pages c _ [] c.pages))) _ h in
    matching_domain_filter-All hosts _ (
      first_cert-All (λ x. matching_domain_filter hosts x ≡ true) certs
        (list_pages-All c _ [] c.pages tt (annotated-eq-ok _ _ (annotated-eq-ok _ _ found))) first)

-- Where there is more than one page only the first is looked at: what is found does not depend on
-- the pages after it.
pub find_by_filter-first_page :
    (c : AcmClient) (filter : Certificate → Bool) (page : List String) (pages : Pages)
    → c.pages ≡ more page pages
    → find_by_filter c filter ≡ annotated "finding certificate" (filter_page c filter [] page)
unfolding find_by_filter list_pages
find_by_filter-first_page c filter page pages e =
    ap (λ p. annotated "finding certificate" (list_pages c filter [] p)) e ∙ bind-ok _ _
