-- ===== src/Cloudfront/Sort/Order.antt =====
-- The order of path patterns on ASCII: longer patterns first, wildcards last among those of one
-- length; a total order.
use Prim.Native.Char.{Char, code}
use text.Mathlib.TextEquality.{Char-path}
use mathlib.Core.List.{List, [], ◌∷◌}
use cdn_origin_controller.Prelude.{
  String, ◌≡◌, refl, ap₂, ◌⊎◌, true, false, ◌<◌, nat_eq, length, arith, ◌∙◌, sym, ℕ,
}
use cdn_origin_controller.Cloudfront.Sort.{bytes_in_order, bytes, is_in_most_specific_order}
use cdn_origin_controller.Cloudfront.Sort.Lex.{
  IsAscii, in_order-eq-lex, lex_total, lex_trans, lex_antisymm,
}

bytes_total :
    (i j : List ℕ)
    → IsAscii i
    → IsAscii j
    → (bytes_in_order i j ≡ true) ⊎ (bytes_in_order j i ≡ true)
unfolding bytes_in_order
bytes_total i j p q =
    ground (arith, in_order-eq-lex i j p q, in_order-eq-lex j i q p, lex_total i j p q)

bytes_trans :
    (i j k : List ℕ)
    → IsAscii i
    → IsAscii j
    → IsAscii k
    → bytes_in_order i j ≡ true
    → bytes_in_order j k ≡ true
    → bytes_in_order i k ≡ true
unfolding bytes_in_order
bytes_trans i j k p q r h h' = ground (
  arith,
  in_order-eq-lex i j p q,
  in_order-eq-lex j k q r,
  in_order-eq-lex i k p r,
  lex_trans i j k p q r,
)

bytes_antisymm :
    (i j : List ℕ)
    → IsAscii i
    → IsAscii j
    → bytes_in_order i j ≡ true
    → bytes_in_order j i ≡ true
    → i ≡ j
unfolding bytes_in_order
bytes_antisymm i j p q h k =
    ground (arith, in_order-eq-lex i j p q, in_order-eq-lex j i q p, lex_antisymm i j p q)

-- The pattern is ASCII, as CloudFront's patterns are.
abbrev pub IsAsciiPattern : String → Type 0
IsAsciiPattern s = IsAscii (bytes s)

bytes-cons :
    (c : Char) (s : String)
    → IsAsciiPattern (String.◌∷◌ c s)
    → (bytes (String.◌∷◌ c s) ≡ code c ∷ bytes s) × IsAsciiPattern s
unfolding bytes
bytes-cons c s h = ground arith

cons-not-nil : (x : ℕ) (xs : List ℕ) → x ∷ xs ≡ [] → ⊥
cons-not-nil x xs e = cc

bytes-nil : bytes String.[] ≡ []
unfolding bytes
bytes-nil = refl

bytes-injective : (i j : String) → IsAsciiPattern i → IsAsciiPattern j → bytes i ≡ bytes j → i ≡ j
bytes-injective String.[] String.[] p q e = refl
bytes-injective String.[] (String.◌∷◌ d t) p q e =
    absurd (cons-not-nil _ _ (sym (bytes-cons d t q).0 ∙ sym e ∙ bytes-nil))
bytes-injective (String.◌∷◌ c s) String.[] p q e =
    absurd (cons-not-nil _ _ (sym (bytes-cons c s p).0 ∙ e ∙ bytes-nil))
bytes-injective (String.◌∷◌ c s) (String.◌∷◌ d t) p q e =
    let (be, bp) = bytes-cons c s p in
    let (ce, cp) = bytes-cons d t q in
    ap₂ String.◌∷◌ (Char-path c d (ground (arith, e)))
      (bytes-injective s t bp cp (ground (arith, e)))

-- Of two ASCII patterns one at least may come first.
pub is_in_most_specific_order_total :
    (i j : String)
    → IsAsciiPattern i
    → IsAsciiPattern j
    → (is_in_most_specific_order i j ≡ true) ⊎ (is_in_most_specific_order j i ≡ true)
unfolding is_in_most_specific_order
is_in_most_specific_order_total i j p q = bytes_total (bytes i) (bytes j) p q

-- If one ASCII pattern may come before a second and that before a third, the first may come before
-- the third.
pub is_in_most_specific_order_trans :
    (i j k : String)
    → IsAsciiPattern i
    → IsAsciiPattern j
    → IsAsciiPattern k
    → is_in_most_specific_order i j ≡ true
    → is_in_most_specific_order j k ≡ true
    → is_in_most_specific_order i k ≡ true
unfolding is_in_most_specific_order
is_in_most_specific_order_trans i j k p q r h h' =
    bytes_trans (bytes i) (bytes j) (bytes k) p q r h h'

-- Two ASCII patterns of which each may come first are one pattern.
pub is_in_most_specific_order_antisymm :
    (i j : String)
    → IsAsciiPattern i
    → IsAsciiPattern j
    → is_in_most_specific_order i j ≡ true
    → is_in_most_specific_order j i ≡ true
    → i ≡ j
unfolding is_in_most_specific_order
is_in_most_specific_order_antisymm i j p q h k =
    bytes-injective i j p q (bytes_antisymm (bytes i) (bytes j) p q h k)

-- A pattern with more bytes may come before one with fewer, and not after it.
pub is_in_most_specific_order_longer :
    (i j : String)
    → length (bytes j) < length (bytes i)
    → (is_in_most_specific_order i j ≡ true) × (is_in_most_specific_order j i ≡ false)
unfolding is_in_most_specific_order bytes_in_order
is_in_most_specific_order_longer i j h = ground arith
