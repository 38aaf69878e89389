-- ===== src/Tests/Storage.antt =====
-- internal/storage at concrete inputs.
use runedb.Base.{◌++◌, Option, none, Bool}
use runedb.Storage.CompactHash.{
  CompactHash, Pair, get, find, field_equal, all, set_field, set_all, others, append_entry,
  overwrite, set_value_len, copy_at,
}
use runedb.Storage.CompactHash.Lookup.{lookup, overwritten}
use runedb.Storage.CompactHash.Fields.{IsLaidOut, get_lem, set_field_new}
use runedb.Base.Int.{max_int64}
use runedb.Storage.Stream.{StreamValue, add_record, compare_stream_ids, next_auto_id}
use runedb.Storage.Stream.Ascending.{AddOutcome, add_record-AddOutcome}
use runedb.Base.{
  ◌≢◌, true, ◌≡◌, ◌||◌, ◌&&◌, not, refl, some, List, [], ◌∷◌, Bytes, equal_bytes, arith, ◌+◌,
}
use runedb.Base.Int.{pos}
use runedb.Protocol.Number.{format_int, digits_of}
use runedb.Protocol.Number.Parse.{of_digits}
use runedb.Storage.IntSet.{
  IntSet, parse_int, parse_int_set_member, parse_int_set_members, new_int_set, add_many, contains,
  remove, len, sort, compact_unique_ints, merge,
}
use runedb.Storage.IntSet.Contents.{
  IsSorted, listed, add_many-IsSorted, contains-add_many, len-add_many, remove_lem,
  contains-new_int_set,
}

abbrev two_five : IntSet
two_five = record { values = pos 2 ∷ pos 5 ∷ [] }

two_five-IsSorted : IsSorted two_five
two_five-IsSorted = record { ascending = omega arith }

-- "3", "5" and "3"
abbrev threes : List Bytes
threes = (b'3' ∷ []) ∷ (b'5' ∷ []) ∷ (b'3' ∷ []) ∷ []

abbrev two_three_five : IntSet
two_three_five = record { values = pos 2 ∷ pos 3 ∷ pos 5 ∷ [] }

three_added : add_many two_five threes ≡ some (two_three_five, 1)
unfolding add_many parse_int_set_members parse_int_set_member parse_int of_digits format_int
    digits_of sort compact_unique_ints merge
three_added = refl

add_many-IsSorted_example : IsSorted two_three_five
add_many-IsSorted_example =
    add_many-IsSorted two_five two_three_five threes 1 two_five-IsSorted three_added

contains-add_many_example :
    contains two_three_five (b'3' ∷ []) ≡ contains two_five (b'3' ∷ []) || listed (b'3' ∷ []) threes
contains-add_many_example =
    contains-add_many two_five two_three_five threes 1 two_five-IsSorted three_added (b'3' ∷ [])

len-add_many_example : len two_three_five ≡ len two_five + 1
len-add_many_example = len-add_many two_five two_three_five threes 1 two_five-IsSorted three_added

remove_lem_example :
    ((remove two_five (b'5' ∷ [])).1 ≡ contains two_five (b'5' ∷ []))
    × IsSorted (remove two_five (b'5' ∷ [])).0
    × ((x : Bytes)
        → contains (remove two_five (b'5' ∷ [])).0 x
          ≡ contains two_five x && not (equal_bytes x (b'5' ∷ [])))
remove_lem_example = remove_lem two_five (b'5' ∷ []) two_five-IsSorted

abbrev three_five : IntSet
three_five = record { values = pos 3 ∷ pos 5 ∷ [] }

made : new_int_set threes ≡ some three_five
unfolding new_int_set parse_int_set_members parse_int_set_member parse_int of_digits format_int
    digits_of sort compact_unique_ints
made = refl

contains-new_int_set_example : contains three_five (b'2' ∷ []) ≡ listed (b'2' ∷ []) threes
contains-new_int_set_example = contains-new_int_set threes three_five (b'2' ∷ []) made

abbrev stream_five : StreamValue
stream_five = record {
  entries =
      (record { id = record { milliseconds = pos 5; sequence = pos 2 }; id_text = []; values = [] })
      ∷ [];
  last_id = record { milliseconds = pos 5; sequence = pos 2 };
  has_entries = true;
}

two_is_not_max : pos 2 ≢ max_int64
two_is_not_max h = ground arith

add_record-AddOutcome_example :
    AddOutcome (b'*' ∷ []) stream_five (add_record (b'*' ∷ []) [] (pos 3) stream_five)
add_record-AddOutcome_example =
    add_record-AddOutcome (b'*' ∷ []) [] (pos 3) stream_five (tt, refl) two_is_not_max

-- Behind the largest sequence number, the automatic identifier is smaller than the last one.
wrapped_id :
    compare_stream_ids
      (record { milliseconds = pos 5; sequence = max_int64 })
      (next_auto_id
        (record stream_five { last_id = record { milliseconds = pos 5; sequence = max_int64 } })
        (pos 3))
    ≡ pos 1
unfolding compare_stream_ids next_auto_id
wrapped_id = refl

-- The field "a" with the value "1".
abbrev one_field : CompactHash
one_field = record {
  entries = (record { field_start = 0; field_len = 1; value_start = 1; value_len = 1 }) ∷ [];
  arena = b'a' ∷ b'1' ∷ [];
}

one_field-IsLaidOut : IsLaidOut one_field
one_field-IsLaidOut = (omega arith, omega arith, tt)

get_lem_example : get one_field (b'a' ∷ []) ≡ lookup (b'a' ∷ []) (all one_field)
get_lem_example = get_lem one_field (b'a' ∷ []) one_field-IsLaidOut

one_field_lacks : get one_field (b'b' ∷ []) ≡ none
unfolding get find field_equal
one_field_lacks = refl

set_field_new_example :
    (h' : CompactHash) × (set_field one_field (b'b' ∷ []) (b'2' ∷ []) ≡ some (h', true))
    × IsLaidOut h'
    × ((g : Bytes) → get h' g ≡ overwritten (b'b' ∷ []) (b'2' ∷ []) g (get one_field g))
    × (all h' ≡ all one_field ++ (b'b' ∷ [], b'2' ∷ []) ∷ [])
set_field_new_example =
    set_field_new one_field (b'b' ∷ []) (b'2' ∷ []) one_field-IsLaidOut one_field_lacks

abbrev map_hash : Option (CompactHash × Bool) → Option (List Pair)
map_hash none = none
map_hash (some (h, added)) = some (all h)

-- A longer value rebuilds the hash.
overwritten_field :
    map_hash (set_field one_field (b'a' ∷ []) (b'4' ∷ b'2' ∷ []))
    ≡ some ((b'a' ∷ [], b'4' ∷ b'2' ∷ []) ∷ [])
unfolding set_field find field_equal set_all others append_entry overwrite set_value_len copy_at
overwritten_field = refl
