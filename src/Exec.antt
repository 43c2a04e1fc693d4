-- ===== src/Exec.antt =====
-- Go functions with effects: they return a value and an error, or panic, and leave a new state,
-- also beside an error.
pub mod Keeps
pub mod Inversion
use cdn_origin_controller.Prelude.{String, Option, none, some, ◌⊎◌, inl, inr}
use cdn_origin_controller.GoError.{GoError, annotate, Result, ok, err, panic}

abbrev pub Exec {ℓ} : Type ℓ → Type 0 → Type ℓ
Exec S A = S → Result A × S

abbrev pub continue {ℓ} : {S : Type ℓ} {A B : Type 0} → Result A → (A → Exec S B) → Exec S B
continue (ok a) f s = f a s
continue (err e) f s = (err e, s)
continue (panic m) f s = (panic m, s)

infixl 5 ◌>>=◌ ◌>>◌
abbrev pub ◌>>=◌ {ℓ} : {S : Type ℓ} {A B : Type 0} → Exec S A → (A → Exec S B) → Exec S B
◌>>=◌ m f s = let (r, s') = m s in continue r f s'

abbrev pub ◌>>◌ {ℓ} : {S : Type ℓ} {B : Type 0} → Exec S (Unit {0}) → Exec S B → Exec S B
m >> n = m >>= λ _. n

abbrev pub pure {ℓ} : {S : Type ℓ} {A : Type 0} → A → Exec S A
pure a s = (ok a, s)

abbrev pub lift {ℓ} : {S : Type ℓ} {A : Type 0} → Result A → Exec S A
lift r s = (r, s)

-- A call that reads the state.
abbrev pub reads {ℓ} : {S : Type ℓ} {A : Type 0} → (S → Result A) → Exec S A
reads f s = (f s, s)

abbrev pub note {ℓ} : {S : Type ℓ} {A : Type 0} → String → Result A × S → Result A × S
note text (ok a, s) = (ok a, s)
note text (err e, s) = (err (annotate text e), s)
note text (panic m, s) = (panic m, s)

-- `if err != nil { return fmt.Errorf("text: %v", err) }`
abbrev pub annotated {ℓ} : {S : Type ℓ} {A : Type 0} → String → Exec S A → Exec S A
annotated text m s = note text (m s)

abbrev returned {ℓ} : {S : Type ℓ} → Option GoError × S → Result (Unit {0}) × S
returned (none, s) = (ok tt, s)
returned (some e, s) = (err e, s)

-- A call that returns only an error, nil where it succeeds.
abbrev pub call {ℓ} : {S : Type ℓ} → (S → Option GoError × S) → Exec S (Unit {0})
call f s = returned (f s)

abbrev pub attempted {ℓ} : {S : Type ℓ} {A : Type 0} → Result A × S → Result (A ⊎ GoError) × S
attempted (ok a, s) = (ok (inl a), s)
attempted (err e, s) = (ok (inr e), s)
attempted (panic m, s) = (panic m, s)

-- A call whose error is kept as a value: what follows runs all the same, except after a panic.
abbrev pub attempt {ℓ} : {S : Type ℓ} {A : Type 0} → Exec S A → Exec S (A ⊎ GoError)
attempt m s = attempted (m s)
