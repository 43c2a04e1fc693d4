-- ===== src/Cloudfront/Sort/Sorting.antt =====
-- Sorting gives a permutation in order.
use mathlib.Core.List.{
  List, [], ◌∷◌, ◌++◌, reverse, reverse-cons, reverse_perm, Perm, perm_middle, append-nil,
}
use mathlib.Core.List.Perm
use mathlib.Core.Bool.{true≢false}
use cdn_origin_controller.Prelude.{
  ◌≡◌, sym, ◌∙◌, ◌⊎◌, inl, inr, Bool, true, false, Bool-cases, All, All-append,
}
use cdn_origin_controller.Cloudfront.Sort.{move_left, sort_onto, sort}

-- Every element stands before all that follow it.
abbrev pub Ordered {ℓ κ} : {A : Type ℓ} → (A → A → Type κ) → List A → Type κ
Ordered R [] = Unit
Ordered R (x ∷ xs) = All (R x) xs × Ordered R xs

module _ {ℓ κ} {A : Type ℓ} (R : A → A → Type κ) where
  Ordered-concat :
      (xs : List A) (x : A) → Ordered R xs → All (λ y. R y x) xs → Ordered R (xs ++ x ∷ [])
  Ordered-concat [] x h k = (tt, tt)
  Ordered-concat (y ∷ ys) x (first, h) (here, k) =
      (All-append (R y) ys (x ∷ []) first (here, tt), Ordered-concat ys x h k)

module _ {ℓ κ} {A : Type ℓ} (P : A → Type κ) where
  All-reverse : (xs : List A) → All P xs → All P (reverse xs)
  All-reverse [] h = tt
  All-reverse (x ∷ xs) (here, h) =
      rw reverse-cons (All-append P (reverse xs) (x ∷ []) (All-reverse xs h) (here, tt))

module _ {ℓ κ} {A : Type ℓ} (R : A → A → Type κ) where
  Ordered-reverse : (xs : List A) → Ordered (λ x y. R y x) xs → Ordered R (reverse xs)
  Ordered-reverse [] h = tt
  Ordered-reverse (x ∷ xs) (first, h) =
      rw reverse-cons
        (Ordered-concat R (reverse xs) x (Ordered-reverse xs h) (All-reverse (λ y. R y x) xs first))

module _ {ℓ κ} {A : Type ℓ} (less : A → A → Bool) (Q : A → Type κ) where
  move_left-All : (x : A) (ps : List A) → Q x → All Q ps → All Q (move_left less x ps)
  unfolding move_left
  move_left-All x [] q h = (q, tt)
  move_left-All x (p ∷ ps) q (here, h) = elim (Bool-cases (less x p)) [
    | inl before ↦ rw before (here, move_left-All x ps q h)
    | inr after ↦ rw after (q, (here, h))
  ]

  sort_onto-All : (sorted xs : List A) → All Q sorted → All Q xs → All Q (sort_onto less sorted xs)
  unfolding sort_onto
  sort_onto-All sorted [] h k = h
  sort_onto-All sorted (x ∷ xs) h (q, k) =
      sort_onto-All (move_left less x sorted) xs (move_left-All x sorted q h) k

  -- What holds of all elements holds of all that are sorted.
  pub sort-All : (xs : List A) → All Q xs → All Q (sort less xs)
  unfolding sort
  sort-All xs h = All-reverse Q (sort_onto less [] xs) (sort_onto-All [] xs tt h)

module _ {ℓ} {A : Type ℓ} (less : A → A → Bool) where
  move_left-perm : (x : A) (ps : List A) → Perm (move_left less x ps) (x ∷ ps)
  unfolding move_left
  move_left-perm x [] = Perm.refl _
  move_left-perm x (p ∷ ps) = elim (Bool-cases (less x p)) [
    | inl before ↦ rw before (Perm.trans (Perm.cons p (move_left-perm x ps)) (Perm.swap x p ps))
    | inr after ↦ rw after (Perm.refl _)
  ]

  sort_onto-perm : (sorted xs : List A) → Perm (sort_onto less sorted xs) (xs ++ sorted)
  unfolding sort_onto
  sort_onto-perm sorted [] = Perm.refl _
  sort_onto-perm sorted (x ∷ xs) =
      Perm.trans (sort_onto-perm (move_left less x sorted) xs)
        (Perm.trans (Perm.append_left xs (move_left-perm x sorted)) (perm_middle xs sorted))

  -- Sorting a list permutes it.
  pub sort-perm : (xs : List A) → Perm (sort less xs) xs
  unfolding sort
  sort-perm xs =
      Perm.trans (reverse_perm (sort_onto less [] xs)) (rw append-nil at (sort_onto-perm [] xs))

  module _ {κ} (P : A → Type κ)
      (total : (a b : A) → P a → P b → (less a b ≡ true) ⊎ (less b a ≡ true))
      (trans : (a b c : A)
        → P a
        → P b
        → P c
        → less a b ≡ true
        → less b c ≡ true
        → less a c ≡ true) where
    -- The part sorted so far, from right to left.
    abbrev Falling : List A → Type 0
    Falling = Ordered (λ x y. less y x ≡ true)

    falls_below :
        (x p : A) (ps : List A)
        → P x
        → P p
        → All P ps
        → less p x ≡ true
        → All (λ y. less y p ≡ true) ps
        → All (λ y. less y x ≡ true) ps
    falls_below x p [] px pp h e k = tt
    falls_below x p (q ∷ ps) px pp (pq, h) e (here, k) =
        (trans q p x pq pp px here e, falls_below x p ps px pp h e k)

    or_else_less : (a b : A) → P a → P b → less a b ≡ false → less b a ≡ true
    or_else_less a b pa pb e = elim (total a b pa pb) [
      | inl h ↦ absurd (true≢false (sym h ∙ e))
      | inr h ↦ h
    ]

    move_left-Falling :
        (x : A) (ps : List A) → P x → All P ps → Falling ps → Falling (move_left less x ps)
    unfolding move_left
    move_left-Falling x [] px h f = (tt, tt)
    move_left-Falling x (p ∷ ps) px (pp, h) (first, f) = elim (Bool-cases (less x p)) [
      | inl before ↦ rw before (
        move_left-All less (λ y. less y p ≡ true) x ps before first,
        move_left-Falling x ps px h f,
      )
      | inr after ↦
          let e = or_else_less x p px pp after in
          rw after ((e, falls_below x p ps px pp h e first), (first, f))
    ]

    sort_onto-Falling :
        (sorted xs : List A)
        → All P sorted
        → All P xs
        → Falling sorted
        → Falling (sort_onto less sorted xs)
    unfolding sort_onto
    sort_onto-Falling sorted [] ps h f = f
    sort_onto-Falling sorted (x ∷ xs) ps (px, h) f =
        sort_onto-Falling (move_left less x sorted) xs (move_left-All less P x sorted px ps) h
          (move_left-Falling x sorted px ps f)

    -- Sorting by a total and transitive comparison puts a list in order.
    pub sort-Ordered : (xs : List A) → All P xs → Ordered (λ x y. less x y ≡ true) (sort less xs)
    unfolding sort
    sort-Ordered xs h =
        Ordered-reverse (λ x y. less x y ≡ true) (sort_onto less [] xs)
          (sort_onto-Falling [] xs tt h tt)
