-- ===== src/GoError.antt =====
-- Go's `error` values, the results that carry them, and panics.
pub mod Aws
use cdn_origin_controller.Prelude.{String, Bool, true, false, ◌≡◌, refl}

-- `new` is `errors.New`, or `fmt.Errorf` of a text; `aws` is an `awserr.Error` with its code;
-- `annotate` is `fmt.Errorf("text: %v", err)`, which keeps only the text of `err`; `wrap` is
-- `fmt.Errorf("text: %w", err)`, which keeps `err`; `not_found` is the API server's NotFound.
pub data GoError : Type 0 where
  new : String → GoError
  aws : (code message : String) → GoError
  not_found : String → GoError
  annotate : String → GoError → GoError
  wrap : String → GoError → GoError

-- `k8serrors.IsNotFound`, which follows `%w` and stops at `%v`.
abbrev pub is_not_found : GoError → Bool
is_not_found (not_found text) = true
is_not_found (wrap text e) = is_not_found e
is_not_found (new text) = false
is_not_found (aws code message) = false
is_not_found (annotate text e) = false

-- A function that returns a value and an `error`, or panics.
pub data Result {ℓ} (A : Type ℓ) : Type ℓ where
  ok : A → Result A
  err : GoError → Result A
  panic : String → Result A

infixl 5 ◌>>=◌
infixl 5 ◌>>◌
-- The code after `if err != nil { return err }`.
abbrev pub ◌>>=◌ {ℓ κ} : {T : Type ℓ} {V : Type κ} → Result T → (T → Result V) → Result V
panic text >>= next = panic text
err e >>= next = err e
ok v >>= next = next v

abbrev pub ◌>>◌ {κ} : {V : Type κ} → Result (Unit {0}) → Result V → Result V
r >> next = r >>= λ u. next

-- `if err != nil { return fmt.Errorf("text: %v", err) }`
abbrev pub annotated {ℓ} : {A : Type ℓ} → String → Result A → Result A
annotated text (ok a) = ok a
annotated text (err e) = err (annotate text e)
annotated text (panic m) = panic m

-- Where the whole succeeds, so does the first part, with the value that the rest goes on from.
pub >>=-eq-ok {ℓ κ} :
    {T : Type ℓ} {V : Type κ} (r : Result T) (next : T → Result V) {v : V}
    → (r >>= next) ≡ ok v
    → (t : T) × (r ≡ ok t) × (next t ≡ ok v)
>>=-eq-ok (panic text) next e = cc
>>=-eq-ok (err x) next e = cc
>>=-eq-ok (ok t) next e = (t, refl, e)

pub annotated-eq-ok {ℓ} :
    {A : Type ℓ} (text : String) (m : Result A) {a : A} → annotated text m ≡ ok a → m ≡ ok a
annotated-eq-ok text (ok a) h = h
annotated-eq-ok text (err e) h = cc
annotated-eq-ok text (panic m) h = cc

pub ok-injective {ℓ} : {A : Type ℓ} {a b : A} → ok a ≡ ok b → a ≡ b
ok-injective h = cc
