-- ===== src/Storage/Keyspace/Ops.antt =====
-- The operations of store.go on strings and lists.
use runedb.Base.{
  ℕ, suc, ◌+◌, ◌-◌, ◌==◌, Bool, true, false, not, Option, none, some, List, [], ◌∷◌, ◌++◌, Bytes,
  ltb, leb, if◌then◌else◌, length, take, drop, min, Result, ok, err,
}
use runedb.Base.Int.{ℤ, pos, negsuc, eqb_ℤ, max_int64}
use runedb.Protocol.Number.{format_int}
use runedb.Storage.IntSet.{parse_int}
use runedb.Storage.Keyspace.{
  StoreError, syntax_error, value_not_integer, wrong_type, Payload, string_value, list_value,
  ValueObject, incremented, is_expired, string_of, list_of, Store, stored, put_in_shard,
  set_key_locked, remove_key_locked, delete_key_locked, prepare_existing_value_locked, write_key,
  read_key, new_value,
}

-- normalizeListIndex: -1 is below the list, its length past its end.
abbrev pub normalize_list_index : ℕ → ℤ → ℤ
normalize_list_index n (pos i) = if leb n i then pos n else pos i
normalize_list_index n (negsuc i) = if ltb n (suc i) then negsuc 0 else pos (n - suc i)

abbrev pub range_from : ℤ → ℕ
range_from (pos i) = i
range_from (negsuc i) = 0

-- normalizeListRange, from the two indexes on
abbrev pub range_between : ℕ → ℕ → ℤ → Option (ℕ × ℕ)
range_between n from (negsuc i) = none
range_between n from (pos to) =
    if leb n from
    then none
    else if ltb (if leb n to then n - 1 else to) from
    then none
    else some (from, if leb n to then n - 1 else to)

unfoldable pub normalize_list_range : ℕ → ℤ → ℤ → Option (ℕ × ℕ)
normalize_list_range n start stop =
    if n == 0
    then none
    else range_between n (range_from (normalize_list_index n start)) (normalize_list_index n stop)

abbrev pub successor : Option ℤ → Result StoreError ℤ
successor none = err value_not_integer
successor (some n) = if eqb_ℤ n max_int64 then err value_not_integer else ok (incremented n)

abbrev pub reversed_onto : List Bytes → List Bytes → List Bytes
reversed_onto [] items = items
reversed_onto (x ∷ xs) items = reversed_onto xs (x ∷ items)

-- The additions, which a left push puts in front in reverse.
abbrev pub pushed : Bool → List Bytes → List Bytes → List Bytes
pushed true additions items = reversed_onto additions items
pushed false additions items = items ++ additions

-- The first `n` items of a side, and the rest of the list.
abbrev pub popped : Bool → ℕ → List Bytes → List Bytes × List Bytes
popped true n items = (take n items, drop n items)
popped false n items =
    (reversed_onto (drop (length items - n) items) [], take (length items - n) items)

abbrev pub slice_of : Option (ℕ × ℕ) → List Bytes → List Bytes
slice_of none items = []
slice_of (some (from, to)) items = take (to + 1 - from) (drop from items)

abbrev pub range_of : ℤ → ℤ → Result StoreError (List Bytes) → Result StoreError (List Bytes)
range_of start stop (err e) = err e
range_of start stop (ok items) =
    ok (slice_of (normalize_list_range (length items) start stop) items)

abbrev pub or_empty : Result StoreError (Option (List Bytes)) → Result StoreError (List Bytes)
or_empty (err e) = err e
or_empty (ok none) = ok []
or_empty (ok (some items)) = ok items

abbrev pub last_item : Bytes → List Bytes → Bytes
last_item x [] = x
last_item x (y ∷ ys) = last_item y ys

abbrev pub but_last : Bytes → List Bytes → List Bytes
but_last x [] = []
but_last x (y ∷ ys) = x ∷ but_last y ys

-- The item at a side of a list that is not empty, and the rest.
abbrev pub popped_item : Bool → Bytes → List Bytes → Bytes × List Bytes
popped_item true x xs = (x, xs)
popped_item false x xs = (last_item x xs, but_last x xs)

module _ {ℓ} {C : Type ℓ} where
  abbrev pub next_integer : Payload C → Result StoreError ℤ
  next_integer (string_value bytes) = successor (parse_int bytes)
  next_integer p = err wrong_type

-- `hash` is maphash.String with the store's seed.
module _ {ℓ} {C : Type ℓ} (hash : Bytes → ℕ) where
  -- `Set`
  unfoldable pub set_string : Bytes → Bytes → ℤ → ℤ → Store C → Store C
  unfolding set_key_locked remove_key_locked
  set_string key content expires_at now s =
      (write_key hash {A = Unit {0}} key now s (λ s' current.
        (set_key_locked hash key (new_value (string_value content) expires_at now) s', tt))).0

  -- `Get`
  unfoldable pub get_string : Bytes → ℤ → Store C → Store C × Result StoreError (Option Bytes)
  unfolding remove_key_locked
  get_string key now s = read_key hash key now s (λ v. string_of v.payload)

  abbrev pub delete_live : Option (ValueObject C) → Bytes → ℤ → Store C → Store C × Bool
  delete_live none key now s = ((delete_key_locked hash key s).0, false)
  delete_live (some v) key now s = ((delete_key_locked hash key s).0, not (is_expired v now))

  -- `Delete`
  unfoldable pub delete : Bytes → ℤ → Store C → Store C × Bool
  unfolding remove_key_locked
  delete key now s = delete_live (stored hash key s) key now s

  -- `Increment` of a value that is there: its string is replaced in place.
  abbrev pub increment_string :
      Result StoreError ℤ → ValueObject C → Bytes → ℤ → Store C → Store C × Result StoreError ℤ
  increment_string (err e) v key now s = (s, err e)
  increment_string (ok n) v key now s = (
    put_in_shard hash key
        (record v { payload = string_value (format_int n); last_accessed_at = now }) s,
    ok n,
  )

  abbrev pub increment_current :
      Option (ValueObject C) → Bytes → ℤ → Store C → Store C × Result StoreError ℤ
  increment_current none key now s =
      (set_key_locked hash key (new_value (string_value (b'1' ∷ [])) (pos 0) now) s, ok (pos 1))
  increment_current (some v) key now s = increment_string (next_integer v.payload) v key now s

  -- `Increment`
  unfoldable pub increment : Bytes → ℤ → Store C → Store C × Result StoreError ℤ
  unfolding set_key_locked remove_key_locked
  increment key now s =
      write_key hash key now s (λ s' current. increment_current current key now s')

  abbrev pub push_items :
      Result StoreError (List Bytes)
      → ℤ
      → Bool
      → List Bytes
      → Bytes
      → ℤ
      → Store C
      → Store C × Result StoreError ℕ
  push_items (err e) expires_at left additions key now s = (s, err e)
  push_items (ok items) expires_at left additions key now s = (
    set_key_locked hash key (new_value (list_value (pushed left additions items)) expires_at now) s,
    ok (length (pushed left additions items)),
  )

  abbrev pub push_current :
      Option (ValueObject C)
      → Bool
      → List Bytes
      → Bytes
      → ℤ
      → Store C
      → Store C × Result StoreError ℕ
  push_current none left additions key now s = push_items (ok []) (pos 0) left additions key now s
  push_current (some v) left additions key now s =
      push_items (list_of v.payload) v.expires_at left additions key now s

  -- `pushList`, without its waiters
  unfoldable pub push_list : Bool → Bytes → List Bytes → ℤ → Store C → Store C × Result StoreError ℕ
  unfolding set_key_locked remove_key_locked
  push_list left key [] now s = (s, err syntax_error)
  push_list left key (x ∷ xs) now s =
      write_key hash key now s (λ s' current. push_current current left (x ∷ xs) key now s')

  -- What is left of a list is stored; an empty list is removed.
  abbrev pub store_rest :
      List Bytes × List Bytes
      → ValueObject C
      → Bytes
      → ℤ
      → Store C
      → Store C × Result StoreError (Option (List Bytes))
  store_rest (items, []) v key now s = ((delete_key_locked hash key s).0, ok (some items))
  store_rest (items, x ∷ xs) v key now s = (
    put_in_shard hash key (record v { payload = list_value (x ∷ xs); last_accessed_at = now }) s,
    ok (some items),
  )

  abbrev pub pop_items :
      Result StoreError (List Bytes)
      → Bool
      → ℕ
      → ValueObject C
      → Bytes
      → ℤ
      → Store C
      → Store C × Result StoreError (Option (List Bytes))
  pop_items (err e) left count v key now s = (s, err e)
  pop_items (ok []) left count v key now s = ((delete_key_locked hash key s).0, ok none)
  pop_items (ok (x ∷ xs)) left count v key now s =
      store_rest (popped left (min count (length (x ∷ xs))) (x ∷ xs)) v key now s

  abbrev pub pop_current :
      Option (ValueObject C)
      → Bool
      → ℕ
      → Bytes
      → ℤ
      → Store C
      → Store C × Result StoreError (Option (List Bytes))
  pop_current none left count key now s = (s, ok none)
  pop_current (some v) left count key now s = pop_items (list_of v.payload) left count v key now s

  -- `popN`; a negative count is an error.
  unfoldable pub pop_n :
      Bool → Bytes → ℤ → ℤ → Store C → Store C × Result StoreError (Option (List Bytes))
  unfolding remove_key_locked
  pop_n left key (negsuc n) now s = (s, err syntax_error)
  pop_n left key (pos count) now s =
      let (s', current) = prepare_existing_value_locked hash key now s in
      pop_current current left count key now s'

  abbrev pub store_item_rest :
      Bytes × List Bytes
      → ValueObject C
      → Bytes
      → ℤ
      → Store C
      → Store C × Result StoreError (Option Bytes)
  store_item_rest (item, []) v key now s = ((delete_key_locked hash key s).0, ok (some item))
  store_item_rest (item, x ∷ xs) v key now s = (
    put_in_shard hash key (record v { payload = list_value (x ∷ xs); last_accessed_at = now }) s,
    ok (some item),
  )

  abbrev pub pop_item :
      Result StoreError (List Bytes)
      → Bool
      → ValueObject C
      → Bytes
      → ℤ
      → Store C
      → Store C × Result StoreError (Option Bytes)
  pop_item (err e) left v key now s = (s, err e)
  pop_item (ok []) left v key now s = ((delete_key_locked hash key s).0, ok none)
  pop_item (ok (x ∷ xs)) left v key now s = store_item_rest (popped_item left x xs) v key now s

  abbrev pub pop_one_current :
      Option (ValueObject C)
      → Bool
      → Bytes
      → ℤ
      → Store C
      → Store C × Result StoreError (Option Bytes)
  pop_one_current none left key now s = (s, ok none)
  pop_one_current (some v) left key now s = pop_item (list_of v.payload) left v key now s

  -- `LeftPop` and `RightPop`
  unfoldable pub pop_one : Bool → Bytes → ℤ → Store C → Store C × Result StoreError (Option Bytes)
  unfolding remove_key_locked
  pop_one left key now s =
      let (s', current) = prepare_existing_value_locked hash key now s in
      pop_one_current current left key now s'

  -- `ListRange`
  unfoldable pub list_range : Bytes → ℤ → ℤ → ℤ → Store C → Store C × Result StoreError (List Bytes)
  unfolding remove_key_locked normalize_list_range
  list_range key start stop now s =
      let (s', items) = read_key hash key now s (λ v. range_of start stop (list_of v.payload)) in
      (s', or_empty items)
