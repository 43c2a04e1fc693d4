-- ===== src/Tests/StringSet.antt =====
-- String sets as lists without duplicates.
use mathlib.Core.List.{List, [], ◌∷◌, ◌++◌}
use cdn_origin_controller.Prelude.{
  String, ◌≡◌, refl, ◌⊎◌, inl, inr, Bool, true, false, ◌||◌, ◌==◌, string_eq, arith,
}
use cdn_origin_controller.Strhelper.{contains}
use cdn_origin_controller.Strhelper.Laws.{Nodup, append-Nodup, contains-append}
use cdn_origin_controller.K8s.Shared.{StringSets, IsLawful}

abbrev pub Distinct : Type 0
Distinct = (l : List String) × Nodup l

-- The flag tells whether the value is in the list.
abbrev pub insert_if :
    (l : List String) (a : String) → Nodup l → (b : Bool) → contains l a ≡ b → Distinct
insert_if l a h true known = (l, h)
insert_if l a h false new = (l ++ a ∷ [], append-Nodup l a h new)

abbrev pub insert : Distinct → String → Distinct
insert (l, h) a = insert_if l a h (contains l a) refl

abbrev pub first : List String → String
first [] = ""
first (x ∷ xs) = x

abbrev pub distinct_lists : StringSets
distinct_lists = record {
  Set = Distinct;
  new_string = ([], tt);
  insert = insert;
  list = λ s. s.0;
  pop_any = λ s. first s.0;
}

contains-insert_if :
    (l : List String) (a b : String) (h : Nodup l) (known : Bool) (e : contains l a ≡ known)
    → contains (insert_if l a h known e).0 b ≡ (a == b || contains l b)
unfolding contains
contains-insert_if l a b h true e = ground (arith, e)
contains-insert_if l a b h false e = ground (arith, contains-append l (a ∷ []) b)

contains-insert :
    (s : Distinct) (a b : String) → contains (insert s a).0 b ≡ (a == b || contains s.0 b)
contains-insert (l, h) a b = contains-insert_if l a b h (contains l a) refl

first-nil : (l : List String) → l ≡ [] → first l ≡ ""
first-nil [] e = refl
first-nil (x ∷ xs) e = cc

first-mem : (l : List String) → (l ≡ []) ⊎ (contains l (first l) ≡ true)
unfolding contains
first-mem [] = inl refl
first-mem (x ∷ xs) = inr (ground arith)

pub distinct_lists-IsLawful : IsLawful distinct_lists
distinct_lists-IsLawful = record {
  list-new_string = refl;
  contains-insert = contains-insert;
  list-Nodup = λ s. s.1;
  pop_any-nil = λ s e. first-nil s.0 e;
  pop_any-mem = λ s. first-mem s.0;
}
