-- ===== src/Exec/Inversion.antt =====
-- What a success of functions with effects says of their parts.
use cdn_origin_controller.Prelude.{ap, String, ◌≡◌, refl, inl}
use cdn_origin_controller.GoError.{Result, ok, err, panic, ok-injective}
use cdn_origin_controller.Exec.{Exec, continue, ◌>>=◌, attempt, attempted, annotated, note}

module _ {ℓ} {S : Type ℓ} {A B : Type 0} where
  continue-ok :
      (r : Result A) (f : A → Exec S B) (s : S) {b : B}
      → (continue r f s).0 ≡ ok b
      → (a : A) × (r ≡ ok a) × ((f a s).0 ≡ ok b)
  continue-ok (ok a) f s h = (a, refl, h)
  continue-ok (err e) f s h = cc
  continue-ok (panic m) f s h = cc

  continue-eq :
      (r : Result A) (f : A → Exec S B) (s : S) (a : A) → r ≡ ok a → continue r f s ≡ f a s
  continue-eq (ok b) f s a e = ap (λ v. f v s) (ok-injective e)
  continue-eq (err x) f s a e = cc
  continue-eq (panic m) f s a e = cc

  -- Where the first part succeeds, the whole is the rest with its value and state.
  pub >>=-eq :
      (m : Exec S A) (f : A → Exec S B) (s : S) (a : A) → (m s).0 ≡ ok a → (m >>= f) s ≡ f a (m s).1
  >>=-eq m f s a e = continue-eq (m s).0 f (m s).1 a e

  -- Where the whole succeeds, so does the first part, and the rest with its value and state.
  pub >>=-ok :
      (m : Exec S A) (f : A → Exec S B) (s : S) {b : B}
      → ((m >>= f) s).0 ≡ ok b
      → (a : A) × ((m s).0 ≡ ok a) × ((f a (m s).1).0 ≡ ok b)
  >>=-ok m f s h = continue-ok (m s).0 f (m s).1 h

module _ {ℓ} {S : Type ℓ} {A : Type 0} where
  attempted-ok : (t : Result A × S) {a : A} → (attempted t).0 ≡ ok (inl a) → t.0 ≡ ok a
  attempted-ok (ok a, s) h = cc
  attempted-ok (err e, s) h = cc
  attempted-ok (panic m, s) h = cc

  pub attempt-ok : (m : Exec S A) (s : S) {a : A} → (attempt m s).0 ≡ ok (inl a) → (m s).0 ≡ ok a
  attempt-ok m s h = attempted-ok (m s) h

  attempted-state : (t : Result A × S) → (attempted t).1 ≡ t.1
  attempted-state (ok a, s) = refl
  attempted-state (err e, s) = refl
  attempted-state (panic m, s) = refl

  pub attempt-state : (m : Exec S A) (s : S) → (attempt m s).1 ≡ (m s).1
  attempt-state m s = attempted-state (m s)

  note-ok : (text : String) (t : Result A × S) {a : A} → (note text t).0 ≡ ok a → t.0 ≡ ok a
  note-ok text (ok a, s) h = cc
  note-ok text (err e, s) h = cc
  note-ok text (panic m, s) h = cc

  pub annotated-ok :
      (text : String) (m : Exec S A) (s : S) {a : A}
      → (annotated text m s).0 ≡ ok a
      → (m s).0 ≡ ok a
  annotated-ok text m s h = note-ok text (m s) h

module _ {ℓ} {S : Type ℓ} {A B : Type 0} where
  continue-note-ok :
      (text : String) (t : Result A × S) (f : A → Exec S B) {b : B}
      → (continue (note text t).0 f (note text t).1).0 ≡ ok b
      → (a : A) × (t.0 ≡ ok a) × ((f a t.1).0 ≡ ok b)
  continue-note-ok text (ok a, s) f h = (a, refl, h)
  continue-note-ok text (err e, s) f h = cc
  continue-note-ok text (panic m, s) f h = cc

  -- The same of a first part whose error is annotated.
  pub >>=-annotated-ok :
      (text : String) (m : Exec S A) (f : A → Exec S B) (s : S) {b : B}
      → ((annotated text m >>= f) s).0 ≡ ok b
      → (a : A) × ((m s).0 ≡ ok a) × ((f a (m s).1).0 ≡ ok b)
  >>=-annotated-ok text m f s h = continue-note-ok text (m s) f h
