-- ===== src/Storage/IntSet.antt =====
-- The compact encoding of a set of integers: intset.go. Where the source overwrites a slice in
-- place (`slices.Sort`, `compactUniqueInts`, `slices.Delete`), the model returns the new list.
pub mod Sorted
pub mod Prepare
pub mod Contents
use runedb.Base.{
  ℕ, zero, suc, ◌+◌, Bool, true, false, Option, none, some, List, [], ◌∷◌, map, Bytes,
  if◌then◌else◌, length, equal_bytes,
}
use runedb.Base.Int.{ℤ, ltb_ℤ, eqb_ℤ}
use runedb.Protocol.Number.{format_int}
use runedb.Protocol.Number.Parse.{denotes, int64_only}

abbrev pub int_set_max_entries : ℕ
int_set_max_entries = 512

pub record IntSet : Type 0 where
  pub values : List ℤ

-- strconv.ParseInt(text, 10, 64), without its error.
unfoldable pub parse_int : Bytes → Option ℤ
parse_int text = int64_only (denotes text)

-- `parseIntSetMember`: only the form that `FormatInt` prints is an integer member.
unfoldable pub parse_int_set_member : Bytes → Option ℤ
parse_int_set_member member = elim (parse_int member) [
  | none ↦ none
  | some value ↦ if equal_bytes (format_int value) member then some value else none
]

-- `parseIntSetMembers`
unfoldable pub parse_int_set_members : List Bytes → Option (List ℤ)
parse_int_set_members [] = some []
parse_int_set_members (member ∷ members) =
    let rest = parse_int_set_members members in
    elim (parse_int_set_member member) [
      | none ↦ none
      | some value ↦ elim rest [ none ↦ none | some values ↦ some (value ∷ values) ]
    ]

unfoldable pub insert_sorted : ℤ → List ℤ → List ℤ
insert_sorted v [] = v ∷ []
insert_sorted v (x ∷ xs) =
    let rest = insert_sorted v xs in if ltb_ℤ x v then x ∷ rest else v ∷ x ∷ xs

-- slices.Sort
unfoldable pub sort : List ℤ → List ℤ
unfolding insert_sorted
sort [] = []
sort (x ∷ xs) = insert_sorted x (sort xs)

-- The loop of `compactUniqueInts`; `last` is `values[write-1]`.
unfoldable pub unique_after : ℤ → List ℤ → List ℤ
unique_after last [] = []
unique_after last (v ∷ vs) =
    let same = unique_after last vs in
    let other = unique_after v vs in if eqb_ℤ v last then same else v ∷ other

unfoldable pub compact_unique_ints : List ℤ → List ℤ
unfolding unique_after
compact_unique_ints [] = []
compact_unique_ints (x ∷ xs) = x ∷ unique_after x xs

-- `newIntSet`
unfoldable pub new_int_set : List Bytes → Option IntSet
new_int_set members = elim (parse_int_set_members members) [
  | none ↦ none
  | some values ↦ some (record { values = compact_unique_ints (sort values) })
]

-- The merge loop of `addMany`, with the count of what was added.
unfoldable pub merge : List ℤ → List ℤ → List ℤ × ℕ
merge [] ys = (ys, length ys)
merge (x ∷ xs) [] = (x ∷ xs, 0)
merge (x ∷ xs) (y ∷ ys) =
    let left = merge xs (y ∷ ys) in
    let right = merge (x ∷ xs) ys in
    let both = merge xs ys in
    if ltb_ℤ x y
    then (x ∷ left.0, left.1)
    else if ltb_ℤ y x
    then (y ∷ right.0, right.1 + 1)
    else (x ∷ both.0, both.1)

-- `addMany`: `none` where a member is no integer, and the set is then as it was.
unfoldable pub add_many : IntSet → List Bytes → Option (IntSet × ℕ)
add_many s members = elim (parse_int_set_members members) [
  | none ↦ none
  | some values ↦
      let merged = merge s.values (compact_unique_ints (sort values)) in
      some (record { values = merged.0 }, merged.1)
]

-- slices.BinarySearch on a sorted slice: the first position that is not less, and whether the value
-- stands there.
unfoldable pub binary_search : List ℤ → ℤ → ℕ × Bool
binary_search [] v = (0, false)
binary_search (x ∷ xs) v =
    let rest = binary_search xs v in if ltb_ℤ x v then (suc rest.0, rest.1) else (0, eqb_ℤ x v)

unfoldable pub delete_at : ℕ → List ℤ → List ℤ
delete_at i [] = []
delete_at zero (x ∷ xs) = xs
delete_at (suc i) (x ∷ xs) = x ∷ delete_at i xs

unfoldable pub contains : IntSet → Bytes → Bool
unfolding binary_search
contains s member = elim (parse_int_set_member member) [
  | none ↦ false
  | some value ↦ (binary_search s.values value).1
]

unfoldable pub remove : IntSet → Bytes → IntSet × Bool
unfolding binary_search delete_at
remove s member = elim (parse_int_set_member member) [
  | none ↦ (s, false)
  | some value ↦
      let found = binary_search s.values value in
      if found.1 then (record { values = delete_at found.0 s.values }, true) else (s, false)
]

abbrev pub len : IntSet → ℕ
len s = length s.values

-- `members`
unfoldable pub members : IntSet → List Bytes
members s = map format_int s.values
