-- ===== src/Prelude/Integers.antt =====
-- Signed integers: `negsuc n` is -(n + 1).
use Prim.Native.Nat.{ℕ}
use mathlib.Core.Bool.{Bool, true, false}
use native.Mathlib.Decide.{ℕ_discrete}
use cdn_origin_controller.Prelude.Equality.{Eq}

pub data ℤ : Type 0 where
  pos : ℕ → ℤ
  negsuc : ℕ → ℤ

-- `n > 0`
abbrev pub is_positive : ℤ → Bool
is_positive (pos ℕ.zero) = false
is_positive (pos (ℕ.suc n)) = true
is_positive (negsuc n) = false

int_discrete : Discrete ℤ
int_discrete = hlevel ℕ_discrete

instance unfoldable pub int_eq : Eq ℤ
unfolding int_discrete
int_eq = record { dec = int_discrete }
