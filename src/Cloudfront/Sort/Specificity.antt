-- ===== src/Cloudfront/Sort/Specificity.antt =====
-- What it is to be more specific, apart from the comparison: more bytes, or a byte that comes earlier
-- where two patterns of one length first differ.
use mathlib.Core.List.{List, [], ◌∷◌, ◌++◌}
use cdn_origin_controller.Prelude.{
  String, ◌≡◌, ◌≢◌, refl, sym, ap, ap₂, ◌⊎◌, inl, inr, ℕ, ◌<◌, true, false, Bool-cases, ◌==◌,
  nat_eq, length, arith, All,
}
use cdn_origin_controller.Cloudfront.Sort.{
  in_order, bytes_in_order, bytes, is_in_most_specific_order,
}
use cdn_origin_controller.Cloudfront.Sort.Lex.{IsAscii}
use cdn_origin_controller.Cloudfront.Sort.Order.{IsAsciiPattern}
use cdn_origin_controller.Cloudfront.Sort.Sorting.{Ordered}

-- `*` comes after every other byte, and `?` after every other but `*`; the rest go by their code.
abbrev pub IsBefore : ℕ → ℕ → Type 0
IsBefore x y =
    ((x ≢ b'*') × (y ≡ b'*'))
    ⊎ (((x ≢ b'*') × (x ≢ b'?') × (y ≡ b'?'))
        ⊎ ((x ≢ b'*') × (x ≢ b'?') × (y ≢ b'*') × (y ≢ b'?') × (x < y)))

-- The lists differ, and the first one has the earlier byte where they first do.
pub record IsEarlier (is js : List ℕ) : Type 0 where
  pub common : List ℕ
  pub here : ℕ
  pub there : ℕ
  pub after_here : List ℕ
  pub after_there : List ℕ
  pub first : is ≡ common ++ here ∷ after_here
  pub second : js ≡ common ++ there ∷ after_there
  pub before : IsBefore here there

-- The first pattern is longer, or the two are as long and are one, or differ first in a byte that is
-- earlier in the first.
abbrev pub IsMoreSpecific : String → String → Type 0
IsMoreSpecific i j =
    (length (bytes j) < length (bytes i))
    ⊎ ((length (bytes i) ≡ length (bytes j))
        × ((bytes i ≡ bytes j) ⊎ IsEarlier (bytes i) (bytes j)))

in_order-IsBefore :
    (x y : ℕ) (is js : List ℕ)
    → x < 128
    → (x == y) ≡ false
    → in_order (x ∷ is) (y ∷ js) ≡ true
    → IsBefore x y
unfolding in_order
in_order-IsBefore x y is js small differ h = ground arith

in_order-IsEarlier :
    (is js : List ℕ)
    → IsAscii is
    → length is ≡ length js
    → in_order is js ≡ true
    → (is ≡ js) ⊎ IsEarlier is js
unfolding in_order
in_order-IsEarlier [] [] p e h = inl refl
in_order-IsEarlier [] (y ∷ js) p e h = absurd (omega (arith, e))
in_order-IsEarlier (x ∷ is) [] p e h = absurd (omega (arith, e))
in_order-IsEarlier (x ∷ is) (y ∷ js) (small, p) e h = elim (Bool-cases (x == y)) [
  | inl same ↦
      one_more x y is js (ground (arith, same))
        (in_order-IsEarlier is js p (omega (arith, e)) (ground (arith, same, h)))
  | inr differ ↦ inr (record {
    common = [];
    here = x;
    there = y;
    after_here = is;
    after_there = js;
    first = refl;
    second = refl;
    before = in_order-IsBefore x y is js small differ h;
  })
]
  where
    one_more :
        (x y : ℕ) (is js : List ℕ)
        → x ≡ y
        → (is ≡ js) ⊎ IsEarlier is js
        → (x ∷ is ≡ y ∷ js) ⊎ IsEarlier (x ∷ is) (y ∷ js)
    one_more x y is js e (inl same) = inl (ap₂ ◌∷◌ e same)
    one_more x y is js e (inr d) = inr (record {
      common = x ∷ d.common;
      here = d.here;
      there = d.there;
      after_here = d.after_here;
      after_there = d.after_there;
      first = ap (◌∷◌ x) d.first;
      second = ap₂ ◌∷◌ (sym e) d.second;
      before = d.before;
    })

-- Of two ASCII patterns, one that may come first is more specific, or they are one.
pub is_in_most_specific_order-IsMoreSpecific :
    (i j : String) → IsAsciiPattern i → is_in_most_specific_order i j ≡ true → IsMoreSpecific i j
unfolding is_in_most_specific_order bytes_in_order
is_in_most_specific_order-IsMoreSpecific i j p h =
    elim (Bool-cases (length (bytes i) == length (bytes j))) [
      | inl e ↦ inr (
        ground (arith, e),
        in_order-IsEarlier (bytes i) (bytes j) p (ground (arith, e)) (ground (arith, e, h)),
      )
      | inr ne ↦ inl (ground (arith, ne, h))
    ]

-- Where one relation gives another between the elements of a list, so does the order.
module _ {ℓ κ μ} {A : Type ℓ} (P : A → Type κ) (R S : A → A → Type μ)
    (gives : (x y : A) → P x → R x y → S x y) where
  All-gives : (x : A) (ys : List A) → P x → All (R x) ys → All (S x) ys
  All-gives x [] p h = tt
  All-gives x (y ∷ ys) p (here, h) = (gives x y p here, All-gives x ys p h)

  pub Ordered-map : (xs : List A) → All P xs → Ordered R xs → Ordered S xs
  Ordered-map [] p h = tt
  Ordered-map (x ∷ xs) (here, p) (first, h) = (All-gives x xs here first, Ordered-map xs p h)
