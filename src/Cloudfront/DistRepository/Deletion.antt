-- ===== src/Cloudfront/DistRepository/Deletion.antt =====
-- When a distribution is deleted, and how long the repository waits for it.
use cdn_origin_controller.Prelude.{
  String, ◌≡◌, refl, ◌∙◌, ◌⊎◌, inl, inr, ℕ, zero, suc, ◌<◌, true, Option, none, some, string_eq,
  arith, Bool-cases, ◌==◌, ==→≡,
}
use cdn_origin_controller.GoError.{GoError, Result, ok, err, panic}
use cdn_origin_controller.GoError.Aws.{is_error_code}
use cdn_origin_controller.Config.{Config}
use cdn_origin_controller.Cloudfront.Client.{AwsDistribution, ConfigOutput, CloudfrontClient}
use cdn_origin_controller.Cloudfront.DistRepository.{
  cf_deployed_status, no_such_distribution, poll, wait_until_deployed, delete_deployed,
  delete_disabled, ending,
}

module _ (c : CloudfrontClient) (cfg : Config) where
  -- The state after as many polls.
  unfoldable pub passes : ℕ → c.State → c.State
  passes zero s = s
  passes (suc n) s = passes n (c.pass_time s)

  abbrev IsFailure {ℓ} : {A : Type ℓ} → Result A → Type 0
  IsFailure (ok a) = ⊥
  IsFailure (err e) = Unit
  IsFailure (panic m) = Unit

  -- After `n` polls the distribution is deployed, and the wait ends with its eTag.
  pub record IsDeployed (polls : ℕ) (id : String) (s : c.State) : Type 0 where
    pub n : ℕ
    pub out : AwsDistribution
    pub found : c.get_distribution (passes n s) id ≡ ok out
    pub deployed : out.status ≡ cf_deployed_status
    pub ended : wait_until_deployed c cfg polls id s ≡ (ok out.etag, passes n s)

  -- After `n` polls the wait fails.
  pub record IsFailed (polls : ℕ) (id : String) (s : c.State) : Type 0 where
    pub n : ℕ
    pub result : Result (Option String)
    pub failed : IsFailure result
    pub ended : wait_until_deployed c cfg polls id s ≡ (result, passes n s)

  abbrev Waited : ℕ → String → c.State → Type 0
  Waited polls id s = IsDeployed polls id s ⊎ IsFailed polls id s

  pub wait_again :
      (polls : ℕ) (id : String) (s : c.State)
      → poll c cfg (c.get_distribution s id) ≡ ok none
      → wait_until_deployed c cfg (suc polls) id s
        ≡ wait_until_deployed c cfg polls id (c.pass_time s)
  unfolding wait_until_deployed
  wait_again polls id s e = rw (e, wait_until_deployed) refl

  poll_of_deployed :
      (id : String) (s : c.State) (out : AwsDistribution)
      → c.get_distribution s id ≡ ok out
      → out.status ≡ cf_deployed_status
      → poll c cfg (c.get_distribution s id) ≡ ok (some out.etag)
  unfolding poll
  poll_of_deployed id s out e d = ground (arith, e)

  wait_done :
      (polls : ℕ) (id : String) (s : c.State) (out : AwsDistribution)
      → c.get_distribution s id ≡ ok out
      → out.status ≡ cf_deployed_status
      → wait_until_deployed c cfg (suc polls) id s ≡ (ok out.etag, s)
  unfolding wait_until_deployed
  wait_done polls id s out e d = rw (poll_of_deployed id s out e d, wait_until_deployed) refl

  wait_failed :
      (polls : ℕ) (id : String) (s : c.State) (x : GoError)
      → poll c cfg (c.get_distribution s id) ≡ err x
      → wait_until_deployed c cfg (suc polls) id s ≡ (err x, s)
  unfolding wait_until_deployed
  wait_failed polls id s x e = rw (e, wait_until_deployed) refl

  wait_next :
      (polls : ℕ) (id : String) (s : c.State)
      → poll c cfg (c.get_distribution s id) ≡ ok none
      → Waited polls id (c.pass_time s)
      → Waited (suc polls) id s
  unfolding passes
  wait_next polls id s e (inl d) = inl (record {
    n = suc d.n;
    out = d.out;
    found = d.found;
    deployed = d.deployed;
    ended = wait_again polls id s e ∙ d.ended;
  })
  wait_next polls id s e (inr f) = inr (record {
    n = suc f.n;
    result = f.result;
    failed = f.failed;
    ended = wait_again polls id s e ∙ f.ended;
  })

  failed_now :
      (polls : ℕ) (id : String) (s : c.State) (r : Result (Option String))
      → IsFailure r
      → wait_until_deployed c cfg polls id s ≡ (r, s)
      → Waited polls id s
  unfolding passes
  failed_now polls id s r f e = inr (record { n = zero; result = r; failed = f; ended = e })

  wait_ends_from :
      (polls : ℕ) (id : String) (s : c.State) (r : Result AwsDistribution)
      → c.get_distribution s id ≡ r
      → Waited polls id (c.pass_time s)
      → Waited (suc polls) id s
  unfolding passes poll wait_until_deployed
  wait_ends_from polls id s (ok out) e rest = elim (Bool-cases (out.status == cf_deployed_status)) [
    | inl done ↦ inl (record {
      n = zero;
      out = out;
      found = e;
      deployed = ==→≡ _ _ done;
      ended = wait_done polls id s out e (==→≡ _ _ done);
    })
    | inr pending ↦ wait_next polls id s (rw (e, pending) refl) rest
  ]
  wait_ends_from polls id s (err x) e rest =
      elim (Bool-cases (is_error_code x no_such_distribution)) [
        | inl gone ↦
            failed_now (suc polls) id s (err x) tt (wait_failed polls id s x (rw (e, gone) refl))
        | inr other ↦ wait_next polls id s (rw (e, other) refl) rest
      ]
  wait_ends_from polls id s (panic m) e rest =
      failed_now (suc polls) id s (panic m) tt (rw (e, wait_until_deployed) refl)

  -- The wait ends, whatever AWS answers: with the eTag of a distribution that was found deployed,
  -- or with a failure.
  pub wait_ends : (polls : ℕ) (id : String) (s : c.State) → Waited polls id s
  unfolding wait_until_deployed passes
  wait_ends zero id s = failed_now zero id s _ tt refl
  wait_ends (suc polls) id s =
      wait_ends_from polls id s (c.get_distribution s id) refl (wait_ends polls id (c.pass_time s))

  ending_failed :
      (text : String) (next : Option String → c.State → Result (Unit {0}) × c.State)
      (r : Result (Option String)) (s : c.State)
      → IsFailure r
      → (ending c cfg text true next (r, s)).1 ≡ s
  ending_failed text next (ok a) s f = absurd f
  ending_failed text next (err e) s f = refl
  ending_failed text next (panic m) s f = refl

  ending_failure :
      (polls : ℕ) (output : ConfigOutput) (id : String) (s : c.State)
      → (f : IsFailed polls id s) → (delete_disabled c cfg polls output id tt s).1 ≡ passes f.n s
  unfolding delete_disabled
  ending_failure polls output id s f =
      rw f.ended
        (ending_failed _ (delete_deployed c cfg output id) f.result (passes f.n s) f.failed)

  -- Of a disabled distribution, either only polling is done and the wait failed, or it was found
  -- deployed and what follows is its deletion with the eTag that it was found with.
  pub delete_disabled-cases :
      (polls : ℕ) (output : ConfigOutput) (id : String) (s : c.State)
      → ((d : IsDeployed polls id s) × (delete_disabled c cfg polls output id tt s
            ≡ delete_deployed c cfg output id d.out.etag (passes d.n s)))
        ⊎ ((f : IsFailed polls id s) × ((delete_disabled c cfg polls output id tt s).1
              ≡ passes f.n s))
  unfolding delete_disabled
  delete_disabled-cases polls output id s = elim (wait_ends polls id s) [
    | inl d ↦ inl (d, rw d.ended refl)
    | inr f ↦ inr (f, ending_failure polls output id s f)
  ]

  -- If the polls before the `n`-th find the distribution not deployed, and the `n`-th finds it
  -- deployed, then a wait of more polls than `n` gives its eTag.
  pub wait_until_deployed-eventually :
      (polls n : ℕ) (id : String) (s : c.State) (out : AwsDistribution)
      → n < polls
      → ((k : ℕ) → k < n → poll c cfg (c.get_distribution (passes k s) id) ≡ ok none)
      → c.get_distribution (passes n s) id ≡ ok out
      → out.status ≡ cf_deployed_status
      → wait_until_deployed c cfg polls id s ≡ (ok out.etag, passes n s)
  unfolding passes
  wait_until_deployed-eventually zero n id s out lt before found deployed = absurd (omega arith)
  wait_until_deployed-eventually (suc polls) zero id s out lt before found deployed =
      wait_done polls id s out found deployed
  wait_until_deployed-eventually (suc polls) (suc n) id s out lt before found deployed =
      wait_again polls id s (before zero (omega arith))
      ∙ wait_until_deployed-eventually polls n id (c.pass_time s) out (omega arith)
          (λ k h. before (suc k) (omega arith)) found deployed
