-- ===== src/Storage/Keyspace/Effect.antt =====
-- What an operation does, as a function of the value under its key: no shards, no counts.
use runedb.Base.{
  ℕ, Bool, true, false, Option, none, some, List, [], ◌∷◌, Bytes, length, min, if◌then◌else◌,
  Result, ok, err,
}
use runedb.Base.Int.{ℤ, pos, negsuc, pos_part}
use runedb.Protocol.Number.{format_int}
use runedb.Storage.Keyspace.{
  StoreError, syntax_error, string_value, list_value, ValueObject, is_expired, string_of, list_of,
  Store, new_value,
}
use runedb.Storage.Keyspace.Ops.{
  set_string, get_string, delete, increment, push_list, pop_n, pop_one, list_range, next_integer,
  pushed, popped, popped_item, range_of,
}

pub data Operation : Type 0 where
  setting : Bytes → ℤ → Operation
  getting deleting incrementing : Operation
  pushing : Bool → List Bytes → Operation
  popping : Bool → ℤ → Operation
  popping_one : Bool → Operation
  ranging : ℤ → ℤ → Operation

pub data Reply : Type 0 where
  done : Reply
  flag : Bool → Reply
  text : Result StoreError (Option Bytes) → Reply
  number : Result StoreError ℤ → Reply
  size : Result StoreError ℕ → Reply
  items : Result StoreError (Option (List Bytes)) → Reply
  range : Result StoreError (List Bytes) → Reply

abbrev pub found : {A : Type 0} → Result StoreError A → Result StoreError (Option A)
found (err e) = err e
found (ok a) = ok (some a)

module _ {ℓ} {C : Type ℓ} where
  -- A value past its deadline is no value.
  abbrev pub live : ℤ → Option (ValueObject C) → Option (ValueObject C)
  live now none = none
  live now (some v) = if is_expired v now then none else some v

  abbrev pub is_some : Option (ValueObject C) → Bool
  is_some none = false
  is_some (some v) = true

  -- A list is stored while it has items.
  abbrev pub list_under : List Bytes → ValueObject C → ℤ → Option (ValueObject C)
  list_under [] v now = none
  list_under (x ∷ xs) v now =
      some (record v { payload = list_value (x ∷ xs); last_accessed_at = now })

  abbrev pub read_effect :
      {A : Type 0} → ℤ → ValueObject C → Result StoreError A → Option (ValueObject C)
  read_effect now v (err e) = some v
  read_effect now v (ok a) = some (record v { last_accessed_at = now })

  abbrev pub increment_effect : ℤ → ValueObject C → Result StoreError ℤ → Option (ValueObject C)
  increment_effect now v (err e) = some v
  increment_effect now v (ok n) =
      some (record v { payload = string_value (format_int n); last_accessed_at = now })

  abbrev pub push_effect :
      ℤ
      → Bool
      → List Bytes
      → Option (ValueObject C)
      → ℤ
      → Result StoreError (List Bytes)
      → Option (ValueObject C) × Reply
  push_effect now left additions old expires_at (err e) = (old, size (err e))
  push_effect now left additions old expires_at (ok xs) = (
    some (new_value (list_value (pushed left additions xs)) expires_at now),
    size (ok (length (pushed left additions xs))),
  )

  abbrev pub pop_effect :
      ℤ → Bool → ℕ → ValueObject C → Result StoreError (List Bytes) → Option (ValueObject C) × Reply
  pop_effect now left count v (err e) = (some v, items (err e))
  pop_effect now left count v (ok []) = (none, items (ok none))
  pop_effect now left count v (ok (x ∷ xs)) =
      let (taken, rest) = popped left (min count (length (x ∷ xs))) (x ∷ xs) in
      (list_under rest v now, items (ok (some taken)))

  abbrev pub pop_one_effect :
      ℤ → Bool → ValueObject C → Result StoreError (List Bytes) → Option (ValueObject C) × Reply
  pop_one_effect now left v (err e) = (some v, text (err e))
  pop_one_effect now left v (ok []) = (none, text (ok none))
  pop_one_effect now left v (ok (x ∷ xs)) =
      let (taken, rest) = popped_item left x xs in (list_under rest v now, text (ok (some taken)))

  -- The value under the key afterwards and the reply, from the live value under it before.
  abbrev pub effect : Operation → ℤ → Option (ValueObject C) → Option (ValueObject C) × Reply
  effect (setting content expires_at) now old =
      (some (new_value (string_value content) expires_at now), done)
  effect getting now none = (none, text (ok none))
  effect getting now (some v) =
      (read_effect now v (string_of v.payload), text (found (string_of v.payload)))
  effect deleting now old = (none, flag (is_some old))
  effect incrementing now none =
      (some (new_value (string_value (b'1' ∷ [])) (pos 0) now), number (ok (pos 1)))
  effect incrementing now (some v) =
      (increment_effect now v (next_integer v.payload), number (next_integer v.payload))
  effect (pushing left additions) now none = push_effect now left additions none (pos 0) (ok [])
  effect (pushing left additions) now (some v) =
      push_effect now left additions (some v) v.expires_at (list_of v.payload)
  effect (popping left count) now none = (none, items (ok none))
  effect (popping left count) now (some v) =
      pop_effect now left (pos_part count) v (list_of v.payload)
  effect (popping_one left) now none = (none, text (ok none))
  effect (popping_one left) now (some v) = pop_one_effect now left v (list_of v.payload)
  effect (ranging start stop) now none = (none, range (ok []))
  effect (ranging start stop) now (some v) = (
    read_effect now v (range_of start stop (list_of v.payload)),
    range (range_of start stop (list_of v.payload)),
  )

  -- The two calls that are refused before the key is looked up leave even a value past its deadline.
  abbrev pub outcome : Operation → ℤ → Option (ValueObject C) → Option (ValueObject C) × Reply
  outcome (pushing left []) now old = (old, size (err syntax_error))
  outcome (popping left (negsuc n)) now old = (old, items (err syntax_error))
  outcome op now old = effect op now (live now old)

module _ {ℓ} {C : Type ℓ} (hash : Bytes → ℕ) where
  -- The operation on the store.
  abbrev pub operate : Operation → Bytes → ℤ → Store C → Store C × Reply
  operate (setting content expires_at) key now s =
      (set_string hash key content expires_at now s, done)
  operate getting key now s = let (s', r) = get_string hash key now s in (s', text r)
  operate deleting key now s = let (s', r) = delete hash key now s in (s', flag r)
  operate incrementing key now s = let (s', r) = increment hash key now s in (s', number r)
  operate (pushing left additions) key now s =
      let (s', r) = push_list hash left key additions now s in (s', size r)
  operate (popping left count) key now s =
      let (s', r) = pop_n hash left key count now s in (s', items r)
  operate (popping_one left) key now s = let (s', r) = pop_one hash left key now s in (s', text r)
  operate (ranging start stop) key now s =
      let (s', r) = list_range hash key start stop now s in (s', range r)
