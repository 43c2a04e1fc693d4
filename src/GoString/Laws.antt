-- ===== src/GoString/Laws.antt =====
-- Laws of the string functions: suffixes, splitting.
use Prim.Native.Char.{Char, code}
use Prim.Native.String.{[], ◌∷◌}
use text.Mathlib.TextLemmas.{nil-append, cons-append}
use text.Mathlib.TextEquality.{Char-path}
use cdn_origin_controller.Prelude.{
  Bool-cases, inl, inr, ap, ap₂, sym, ◌∙◌, ==→≡, ℕ, String, ◌<>◌, ◌≡◌, refl, ◌≢◌, true, List, arith,
  ◌==◌, nat_eq, string_eq,
}
use cdn_origin_controller.GoString.{has_suffix, split, onto_first, join}

has_suffix_refl : (t : String) → has_suffix t t ≡ true
unfolding has_suffix
has_suffix_refl [] = ground arith
has_suffix_refl (c ∷ t) = ground arith

pub has_suffix-append : (s t : String) → has_suffix (s <> t) t ≡ true
unfolding has_suffix
has_suffix-append [] t = rw nil-append (has_suffix_refl t)
has_suffix-append (c ∷ s) t = rw cons-append (ground (arith, has_suffix-append s t))

-- The text holds no character of the code.
abbrev pub Lacks : ℕ → String → Type 0
Lacks sep [] = Unit
Lacks sep (c ∷ s) = (code c ≢ sep) × Lacks sep s

pub split_of_Lacks : (s : String) (sep : ℕ) → Lacks sep s → split s sep ≡ List.◌∷◌ s List.[]
unfolding split
split_of_Lacks [] sep h = refl
split_of_Lacks (c ∷ s) sep (h, k) = rw (split_of_Lacks s sep k) (ground arith)

-- A first part that lacks the separator is cut off whole.
pub split-append :
    (s : String) (c : Char) (t : String)
    → Lacks (code c) s
    → split (s <> (c ∷ t)) (code c) ≡ List.◌∷◌ s (split t (code c))
unfolding split
split-append [] c t h = rw nil-append (ground arith)
split-append (d ∷ s) c t (h, k) = rw (cons-append, split-append s c t k) (ground arith)

abbrev dot : Char
dot = "."

split-cons :
    (s : String) (sep : ℕ) → (p : String) × (ps : List String) × (split s sep ≡ List.◌∷◌ p ps)
unfolding split
split-cons [] sep = ("", List.[], refl)
split-cons (c ∷ s) sep =
    let (p, ps, e) = split-cons s sep in
    elim (Bool-cases (code c == sep)) [
      | inl here ↦ ("", split s sep, rw here refl)
      | inr other ↦ (c ∷ p, ps, rw (other, e) refl)
    ]

join-onto_first :
    (c : Char) (p : String) (ps : List String) (sep : String)
    → join (onto_first c (List.◌∷◌ p ps)) sep ≡ c ∷ join (List.◌∷◌ p ps) sep
unfolding join
join-onto_first c p List.[] sep = refl
join-onto_first c p (List.◌∷◌ q qs) sep = cons-append c p _

join-empty_first :
    (p : String) (ps : List String)
    → join (List.◌∷◌ "" (List.◌∷◌ p ps)) "." ≡ dot ∷ join (List.◌∷◌ p ps) "."
unfolding join
join-empty_first p ps = nil-append _ ∙ cons-append dot [] _ ∙ ap (λ t. dot ∷ t) (nil-append _)

-- Joining the parts of a text gives the text.
pub join-split : (s : String) → join (split s b'.') "." ≡ s
unfolding split join
join-split [] = refl
join-split (c ∷ s) =
    let (p, ps, e) = split-cons s b'.' in
    let ih = join-split s in
    elim (Bool-cases (code c == b'.')) [
      | inl here ↦
          rw (here, e)
            (join-empty_first p ps
              ∙ ap₂ (λ x y. x ∷ y) (sym (Char-path c dot (==→≡ (code c) b'.' here)))
                  (ap (λ l. join l ".") (sym e) ∙ ih))
      | inr other ↦
          rw (other, e)
            (join-onto_first c p ps "." ∙ ap (λ y. c ∷ y) (ap (λ l. join l ".") (sym e) ∙ ih))
    ]
