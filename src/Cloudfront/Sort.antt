-- ===== src/Cloudfront/Sort.antt =====
-- internal/cloudfront/sort.go: the order of path patterns, and sorting. `sort.Sort` is insertion
-- sort, as Go runs it on up to twelve elements; what is shown of its result (a permutation in
-- order) is what the documentation of `sort.Sort` says of any length.
pub mod Lex
pub mod Order
pub mod Sorting
pub mod Specificity
use Prim.Native.Nat.{ℕ, ◌+◌, ◌/◌, ◌%◌, suc}
use Prim.Native.Char.{code}
use Prim.Native.String
use mathlib.Core.List.{List, [], ◌∷◌, ◌++◌, reverse}
use cdn_origin_controller.Prelude.{
  String, Bool, true, false, not, ◌&&◌, ◌||◌, ◌==◌, nat_eq, if◌then◌else◌, ltb, leb, length,
}

-- The UTF-8 bytes of a code point.
abbrev utf8 : ℕ → List ℕ
utf8 c =
    if ltb c 128
    then c ∷ []
    else if ltb c 2048
    then (192 + c / 64) ∷ (128 + c % 64) ∷ []
    else if ltb c 65536
    then (224 + c / 4096) ∷ (128 + c / 64 % 64) ∷ (128 + c % 64) ∷ []
    else (240 + c / 262144) ∷ (128 + c / 4096 % 64) ∷ (128 + c / 64 % 64) ∷ (128 + c % 64) ∷ []

unfoldable pub bytes : String → List ℕ
bytes String.[] = []
bytes (String.◌∷◌ c s) = utf8 (code c) ++ bytes s

-- `range` over a string visits the first byte of each character.
abbrev pub continues : ℕ → Bool
continues b = leb 128 b && ltb b 192

abbrev pub star : ℕ
star = b'*'

abbrev pub question : ℕ
question = b'?'

-- The loop of `isInMostSpecificOrder`, over the bytes of two strings of the same length.
unfoldable pub in_order : List ℕ → List ℕ → Bool
in_order [] js = true
in_order (x ∷ is) [] = true
in_order (x ∷ is) (y ∷ js) =
    let rest = in_order is js in
    if continues x || x == y
    then rest
    else if x == star
    then false
    else if x == question
    then y == star
    else if y == star || y == question
    then true
    else ltb x y

-- `isInMostSpecificOrder`, over bytes.
unfoldable pub bytes_in_order : List ℕ → List ℕ → Bool
unfolding in_order
bytes_in_order i j = if length i == length j then in_order i j else ltb (length j) (length i)

unfoldable pub is_in_most_specific_order : String → String → Bool
unfolding bytes_in_order bytes
is_in_most_specific_order i j = bytes_in_order (bytes i) (bytes j)

-- Go's `<` on strings. UTF-8 keeps the order of the code points.
unfoldable pub string_lt : String → String → Bool
string_lt s String.[] = false
string_lt String.[] (String.◌∷◌ d t) = true
string_lt (String.◌∷◌ c s) (String.◌∷◌ d t) =
    let rest = string_lt s t in if code c == code d then rest else ltb (code c) (code d)

module _ {ℓ} {A : Type ℓ} (less : A → A → Bool) where
  -- The inner loop: the element moves left, past those that it is less than. The part that is
  -- sorted already is held from right to left.
  unfoldable pub move_left : A → List A → List A
  move_left x [] = x ∷ []
  move_left x (p ∷ ps) = let moved = move_left x ps in if less x p then p ∷ moved else x ∷ p ∷ ps

  unfoldable pub sort_onto : List A → List A → List A
  unfolding move_left
  sort_onto sorted [] = sorted
  sort_onto sorted (x ∷ xs) = sort_onto (move_left x sorted) xs

  unfoldable pub sort : List A → List A
  unfolding sort_onto
  sort xs = reverse (sort_onto [] xs)
