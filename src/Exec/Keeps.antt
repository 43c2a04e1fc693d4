-- ===== src/Exec/Keeps.antt =====
-- Functions with effects that leave a part of the state alone, and those that never return an
-- error.
use cdn_origin_controller.Prelude.{
  Bool, true, false, if◌then◌else◌, ◌≡◌, ◌≢◌, refl, ap, ◌∙◌, String,
}
use cdn_origin_controller.GoError.{GoError, Result, ok, err, panic}
use cdn_origin_controller.Exec.{Exec, continue, ◌>>=◌, attempt, attempted, annotated, note}

module _ {ℓ κ} {S : Type ℓ} {T : Type κ} (part : S → T) where
  -- The part of the state is the same before and after.
  abbrev pub Keeps : {A : Type 0} → Exec S A → Type (ℓ ⊔ κ)
  Keeps m = (s : S) → part (m s).1 ≡ part s

  pub Keeps-continue :
      {A B : Type 0} (r : Result A) (f : A → Exec S B)
      → ((a : A) → Keeps (f a))
      → Keeps (continue r f)
  Keeps-continue (ok a) f h s = h a s
  Keeps-continue (err e) f h s = refl
  Keeps-continue (panic m) f h s = refl

  pub Keeps->>= :
      {A B : Type 0} (m : Exec S A) (f : A → Exec S B)
      → Keeps m
      → ((a : A) → Keeps (f a))
      → Keeps (m >>= f)
  Keeps->>= m f km kf s = Keeps-continue (m s).0 f kf (m s).1 ∙ km s

  pub Keeps-if :
      {A : Type 0} (b : Bool) (m n : Exec S A) → Keeps m → Keeps n → Keeps (if b then m else n)
  Keeps-if true m n hm hn = hm
  Keeps-if false m n hm hn = hn

  attempted-state : {A : Type 0} (t : Result A × S) → (attempted t).1 ≡ t.1
  attempted-state (ok a, s) = refl
  attempted-state (err e, s) = refl
  attempted-state (panic m, s) = refl

  note-state : {A : Type 0} (text : String) (t : Result A × S) → (note text t).1 ≡ t.1
  note-state text (ok a, s) = refl
  note-state text (err e, s) = refl
  note-state text (panic m, s) = refl

  pub Keeps-attempt : {A : Type 0} (m : Exec S A) → Keeps m → Keeps (attempt m)
  Keeps-attempt m h s = ap part (attempted-state (m s)) ∙ h s

  pub Keeps-annotated :
      {A : Type 0} (text : String) (m : Exec S A) → Keeps m → Keeps (annotated text m)
  Keeps-annotated text m h s = ap part (note-state text (m s)) ∙ h s

module _ {ℓ} {S : Type ℓ} where
  -- It never returns an error, though it may panic.
  abbrev pub NeverFails : {A : Type 0} → Exec S A → Type ℓ
  NeverFails m = (s : S) (e : GoError) → (m s).0 ≢ err e

  NeverFails-continue :
      {A B : Type 0} (r : Result A) (f : A → Exec S B)
      → ((e : GoError) → r ≢ err e)
      → ((a : A) → NeverFails (f a))
      → NeverFails (continue r f)
  NeverFails-continue (ok a) f hr hf s e h = hf a s e h
  NeverFails-continue (err e') f hr hf s e h = absurd (hr e' refl)
  NeverFails-continue (panic m) f hr hf s e h = cc

  pub NeverFails->>= :
      {A B : Type 0} (m : Exec S A) (f : A → Exec S B)
      → NeverFails m
      → ((a : A) → NeverFails (f a))
      → NeverFails (m >>= f)
  NeverFails->>= m f hm hf s = NeverFails-continue (m s).0 f (hm s) hf (m s).1

  pub NeverFails-if :
      {A : Type 0} (b : Bool) (m n : Exec S A)
      → NeverFails m
      → NeverFails n
      → NeverFails (if b then m else n)
  NeverFails-if true m n hm hn = hm
  NeverFails-if false m n hm hn = hn

  attempted-NeverFails : {A : Type 0} (t : Result A × S) (e : GoError) → (attempted t).0 ≢ err e
  attempted-NeverFails (ok a, s) e h = cc
  attempted-NeverFails (err f, s) e h = cc
  attempted-NeverFails (panic m, s) e h = cc

  pub NeverFails-attempt : {A : Type 0} (m : Exec S A) → NeverFails (attempt m)
  NeverFails-attempt m s = attempted-NeverFails (m s)
