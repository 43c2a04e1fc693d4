-- ===== src/Strhelper.antt =====
-- internal/strhelper/strings.go
pub mod Laws
use Prim.Native.String.{[]}
use mathlib.Core.List.{List, ◌∷◌, ◌++◌}
use cdn_origin_controller.Prelude.{
  String, Bool, true, false, ◌||◌, Option, none, some, ◌==◌, string_eq, if◌then◌else◌,
}
use cdn_origin_controller.GoMap.{GoMap, insert, lookup, keys}

-- `Set` is a map into `bool`, where a missing key reads as false.
abbrev pub Set : Type 0
Set = GoMap String Bool

abbrev pub new_set : Set
new_set = List.[]

unfoldable pub add : Set → String → Set
unfolding insert
add ss s = insert s true ss

abbrev or_false : Option Bool → Bool
or_false none = false
or_false (some b) = b

unfoldable pub set_contains : Set → String → Bool
unfolding lookup
set_contains ss s = or_false (lookup s ss)

unfoldable pub to_slice : Set → List String
unfolding keys
to_slice ss = keys ss

unfoldable pub contains : List String → String → Bool
contains List.[] e = false
contains (a ∷ s) e = a == e || contains s e

unfoldable pub filter : List String → (String → Bool) → List String
filter List.[] predicate = List.[]
filter (it ∷ s) predicate =
    let filtered = filter s predicate in if predicate it then it ∷ filtered else filtered

-- `for k, v := range m { nm[k] = v }`
unfoldable pub insert_all {ℓ} : {V : Type ℓ} → GoMap String V → GoMap String V → GoMap String V
insert_all nm List.[] = nm
insert_all nm ((k, v) ∷ m) = insert_all (insert k v nm) m

unfoldable pub merge_map_string : GoMap String String → GoMap String String → GoMap String String
unfolding insert_all
merge_map_string m1 m2 = insert_all (insert_all List.[] m1) m2

unfoldable pub is_empty_or_nil : Option String → Bool
is_empty_or_nil none = true
is_empty_or_nil (some str) = str == ""

-- The loop that appends to a slice, in turn, the strings that it does not contain yet. The program
-- writes it out for the alternate domains of an Ingress and of a distribution, and for the DNS
-- records of a status.
unfoldable pub append_missing : List String → List String → List String
append_missing known List.[] = known
append_missing known (e ∷ es) =
    append_missing (if contains known e then known else known ++ (e ∷ List.[])) es
