-- ===== src/Strhelper/Laws.antt =====
-- What the helpers on slices, sets and maps of strings promise.
use mathlib.Core.List.{List, [], ◌∷◌, ◌++◌}
use mathlib.Core.Option.{or_else}
use cdn_origin_controller.Prelude.{
  String, ◌≡◌, refl, ◌∙◌, inl, inr, Bool, true, false, ◌&&◌, ◌||◌, arith, ◌==◌, string_eq,
  Bool-cases,
}
use cdn_origin_controller.GoMap.{GoMap, insert, lookup, lookup-insert, NodupKeys, insert-NodupKeys}
use cdn_origin_controller.Strhelper.{
  contains, filter, insert_all, merge_map_string, add, set_contains, Set, append_missing,
}

-- No text is listed twice.
abbrev pub Nodup : List String → Type 0
Nodup [] = Unit
Nodup (x ∷ xs) = (contains xs x ≡ false) × Nodup xs

pub contains-append :
    (xs ys : List String) (e : String) → contains (xs ++ ys) e ≡ (contains xs e || contains ys e)
unfolding contains
contains-append [] ys e = refl
contains-append (x ∷ xs) ys e = ground (arith, contains-append xs ys e)

pub contains-filter :
    (xs : List String) (p : String → Bool) (e : String)
    → contains (filter xs p) e ≡ (contains xs e && p e)
unfolding contains filter
contains-filter [] p e = refl
contains-filter (x ∷ xs) p e = ground (arith, contains-filter xs p e)

pub filter-Nodup : (xs : List String) (p : String → Bool) → Nodup xs → Nodup (filter xs p)
unfolding filter
filter-Nodup [] p h = tt
filter-Nodup (x ∷ xs) p (fresh, h) = ground (arith, filter-Nodup xs p h, contains-filter xs p x)

pub append-Nodup :
    (xs : List String) (e : String) → Nodup xs → contains xs e ≡ false → Nodup (xs ++ e ∷ [])
unfolding contains
append-Nodup [] e h k = (refl, tt)
append-Nodup (x ∷ xs) e (fresh, h) k =
    ground (arith, append-Nodup xs e h, contains-append xs (e ∷ []) x)

pub set_contains-add :
    (ss : Set) (s t : String) → set_contains (add ss s) t ≡ (s == t || set_contains ss t)
unfolding add set_contains
set_contains-add ss s t = ground (arith, lookup-insert t s true ss)

module _ {ℓ} {V : Type ℓ} where
  pub lookup-insert_all :
      (nm m : GoMap String V) (k : String)
      → NodupKeys m
      → lookup k (insert_all nm m) ≡ or_else (lookup k m) (lookup k nm)
  unfolding insert_all lookup or_else
  lookup-insert_all nm [] k h = refl
  lookup-insert_all nm ((j, v) ∷ m) k (fresh, h) =
      lookup-insert_all (insert j v nm) m k h ∙ ground (arith, lookup-insert k j v nm)

  pub insert_all-NodupKeys : (nm m : GoMap String V) → NodupKeys nm → NodupKeys (insert_all nm m)
  unfolding insert_all
  insert_all-NodupKeys nm [] h = h
  insert_all-NodupKeys nm ((j, v) ∷ m) h =
      insert_all-NodupKeys (insert j v nm) m (insert-NodupKeys j v nm h)

-- For maps without duplicate keys: a merged map has the second map's value where it has one, and else the first's.
pub lookup-merge_map_string :
    (m1 m2 : GoMap String String) (k : String)
    → NodupKeys m1
    → NodupKeys m2
    → lookup k (merge_map_string m1 m2) ≡ or_else (lookup k m2) (lookup k m1)
unfolding merge_map_string or_else lookup
lookup-merge_map_string m1 m2 k h1 h2 =
    ground (arith, lookup-insert_all (insert_all [] m1) m2 k h2, lookup-insert_all [] m1 k h1)

pub contains-append_missing :
    (known es : List String) (e : String)
    → contains (append_missing known es) e ≡ (contains known e || contains es e)
unfolding append_missing contains
contains-append_missing known [] e = ground arith
contains-append_missing known (x ∷ es) e = elim (Bool-cases (contains known x)) [
  | inl old ↦ rw old (contains-append_missing known es e ∙ ground arith)
  | inr new ↦ rw new (
      contains-append_missing (known ++ x ∷ []) es e
      ∙ ground (arith, contains-append known (x ∷ []) e))
]

pub append_missing-Nodup : (known es : List String) → Nodup known → Nodup (append_missing known es)
unfolding append_missing
append_missing-Nodup known [] h = h
append_missing-Nodup known (x ∷ es) h = elim (Bool-cases (contains known x)) [
  | inl old ↦ rw old (append_missing-Nodup known es h)
  | inr new ↦ rw new (append_missing-Nodup (known ++ x ∷ []) es (append-Nodup known x h new))
]
