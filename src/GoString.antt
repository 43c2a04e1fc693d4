-- ===== src/GoString.antt =====
-- The functions of Go's `strings` that the program calls. A string is a text of code points, its
-- Go value their UTF-8 bytes. Every separator, prefix and suffix in the program is ASCII, where
-- working by code points and by bytes is the same.
pub mod Laws
use Prim.Native.Char.{Char, code}
use Prim.Native.String.{[], ◌∷◌, count}
use mathlib.Core.List
use text.Mathlib.TextLemmas.{cons-ne-nil}
use cdn_origin_controller.Prelude.{
  ℕ, zero, suc, ◌-◌, String, ◌<>◌, Bool, true, false, ◌&&◌, ◌||◌, List, ◌==◌, if◌then◌else◌, nat_eq,
  string_eq, ◌≡◌, ◌≢◌, ◌↔◌, refl,
}

-- `len(s) > 0`
abbrev pub nonempty : String → Bool
nonempty [] = false
nonempty (c ∷ s) = true

pub nonempty_iff : (s : String) → (nonempty s ≡ true) ↔ (s ≢ "")
nonempty_iff [] = (λ h. cc, λ h. absurd (h refl))
nonempty_iff (c ∷ s) = (λ h e. cons-ne-nil c s e, λ h. refl)

unfoldable pub has_prefix : String → String → Bool
has_prefix s [] = true
has_prefix [] (d ∷ t) = false
has_prefix (c ∷ s) (d ∷ t) = code c == code d && has_prefix s t

unfoldable pub has_suffix : String → String → Bool
has_suffix [] t = "" == t
has_suffix (c ∷ s) t = (c ∷ s) == t || has_suffix s t

unfoldable pub trim_suffix : String → String → String
trim_suffix [] t = []
trim_suffix (c ∷ s) t = let rest = trim_suffix s t in if (c ∷ s) == t then [] else c ∷ rest

unfoldable pub contains : String → String → Bool
unfolding has_prefix
contains [] t = has_prefix [] t
contains (c ∷ s) t = has_prefix (c ∷ s) t || contains s t

-- A character in front of the first part.
abbrev pub onto_first : Char → List String → List String
onto_first c List.[] = List.◌∷◌ (c ∷ []) List.[]
onto_first c (List.◌∷◌ p ps) = List.◌∷◌ (c ∷ p) ps

-- `strings.Split(s, sep)` at a separator of one ASCII character, given by its code.
unfoldable pub split : String → ℕ → List String
split [] sep = List.◌∷◌ "" List.[]
split (c ∷ s) sep =
    let rest = split s sep in if code c == sep then List.◌∷◌ "" rest else onto_first c rest

-- `strings.Join(parts, sep)`
unfoldable pub join : List String → String → String
join List.[] sep = ""
join (List.◌∷◌ p List.[]) sep = p
join (List.◌∷◌ p (List.◌∷◌ q qs)) sep = p <> (sep <> join (List.◌∷◌ q qs) sep)

-- The scan of `replace_all`: `skip` characters of a match are still to be passed over.
replace_from : ℕ → String → String → String → String
replace_from skip [] old by = []
replace_from (suc skip) (c ∷ s) old by = replace_from skip s old by
replace_from zero (c ∷ s) old by = elim (has_prefix (c ∷ s) old) [
  | true ↦ by <> replace_from (count old - 1) s old by
  | false ↦ c ∷ replace_from zero s old by
]

-- `strings.ReplaceAll(s, old, by)` for an `old` that is not empty.
unfoldable pub replace_all : String → String → String → String
unfolding replace_from has_prefix
replace_all s old by = replace_from zero s old by
