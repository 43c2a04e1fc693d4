-- ===== src/Cloudfront/Sort/Lex.antt =====
-- The lexicographic order of two lists of the same length, by the rank of their elements: what
-- the comparison of path patterns is on ASCII.
use Prim.Native.Nat.{ℕ, ◌<◌}
use mathlib.Core.List.{List, [], ◌∷◌}
use cdn_origin_controller.Prelude.{
  ◌≡◌, refl, ◌⊎◌, inl, Bool, true, ◌==◌, nat_eq, if◌then◌else◌, ltb, length, arith, All,
}
use cdn_origin_controller.Cloudfront.Sort.{in_order, star, question}

-- `*` comes last, `?` before it, and every other byte before both.
abbrev pub rank : ℕ → ℕ
rank x = if x == star then 257 else if x == question then 256 else x

unfoldable pub lex : List ℕ → List ℕ → Bool
lex [] js = true
lex (x ∷ is) [] = true
lex (x ∷ is) (y ∷ js) = let rest = lex is js in if x == y then rest else ltb (rank x) (rank y)

-- The bytes are ASCII.
abbrev pub IsAscii : List ℕ → Type 0
IsAscii = All (λ b. b < 128)

pub in_order-eq-lex : (is js : List ℕ) → IsAscii is → IsAscii js → in_order is js ≡ lex is js
unfolding in_order lex
in_order-eq-lex [] js h k = refl
in_order-eq-lex (x ∷ is) [] h k = refl
in_order-eq-lex (x ∷ is) (y ∷ js) (a, h) (b, k) = ground (arith, in_order-eq-lex is js h k)

pub lex_total :
    (is js : List ℕ)
    → IsAscii is
    → IsAscii js
    → length is ≡ length js
    → (lex is js ≡ true) ⊎ (lex js is ≡ true)
unfolding lex
lex_total [] js h k e = inl refl
lex_total (x ∷ is) [] h k e = inl refl
lex_total (x ∷ is) (y ∷ js) (a, h) (b, k) e = ground (arith, lex_total is js h k)

pub lex_trans :
    (is js ks : List ℕ)
    → IsAscii is
    → IsAscii js
    → IsAscii ks
    → length is ≡ length js
    → length js ≡ length ks
    → lex is js ≡ true
    → lex js ks ≡ true
    → lex is ks ≡ true
unfolding lex
lex_trans [] js ks p q r d e h k = refl
lex_trans (x ∷ is) js [] p q r d e h k = refl
lex_trans (x ∷ is) [] (z ∷ ks) p q r d e h k = absurd (omega arith)
lex_trans (x ∷ is) (y ∷ js) (z ∷ ks) (a, p) (b, q) (c, r) d e h k =
    ground (arith, lex_trans is js ks p q r)

pub lex_antisymm :
    (is js : List ℕ)
    → IsAscii is
    → IsAscii js
    → length is ≡ length js
    → lex is js ≡ true
    → lex js is ≡ true
    → is ≡ js
unfolding lex
lex_antisymm [] [] p q e h k = refl
lex_antisymm [] (y ∷ js) p q e h k = absurd (omega arith)
lex_antisymm (x ∷ is) [] p q e h k = absurd (omega arith)
lex_antisymm (x ∷ is) (y ∷ js) (a, p) (b, q) e h k = ground (arith, lex_antisymm is js p q)
