-- ===== src/Storage/Keyspace/Sound.antt =====
-- Every operation keeps the counts right.
use runedb.Base.{
  ℕ, ◌≡◌, refl, ◌∙◌, Bool, Option, none, some, List, [], ◌∷◌, Bytes, length, min, equal_bytes_refl,
  equal_bytes_refl, Result, ok, err,
}
use runedb.Base.Int.{ℤ, pos, negsuc}
use runedb.Storage.Keyspace.{
  StoreError, Payload, string_value, list_value, ValueObject, key_stats_kind_index, kind_of_payload,
  string_of, list_of, hash_value, set_value, zset_value, stream_value, Store, stored,
  prepare_existing_value_locked, read_found, read_current,
}
use runedb.Storage.Keyspace.Ops.{
  set_string, get_string, delete, delete_live, increment, increment_string, increment_current,
  push_list, push_items, push_current, pop_n, pop_items, pop_current, store_rest, pop_one, pop_item,
  pop_one_current, store_item_rest, list_range, next_integer, popped, popped_item, range_of,
}
use runedb.Storage.Keyspace.Effect.{
  Operation, setting, getting, deleting, incrementing, pushing, popping, popping_one, ranging,
  operate,
}
use runedb.Protocol.Number.{format_int}
use runedb.Storage.Keyspace.Refines.{prepared}
use runedb.Storage.Keyspace.Census.{
  IsSound, set_key_locked-IsSound, put_in_shard-IsSound, delete_key_locked-IsSound,
  prepare_found-IsSound,
}

module _ {ℓ} {C : Type ℓ} (hash : Bytes → ℕ) (key : Bytes) (now : ℤ) where
  -- What follows on the preparation of the key.
  from_live :
      {A : Type 0} (s : Store C) (run : Option (ValueObject C) → Store C → Store C × A)
      → ((current : Option (ValueObject C)) (s' : Store C)
          → stored hash key s' ≡ current
          → IsSound s'
          → IsSound (run current s').0)
      → IsSound s
      → IsSound
          (run
            (prepare_existing_value_locked hash key now s).1
            (prepare_existing_value_locked hash key now s).0).0
  from_live s run step sound =
      let s' = (prepare_existing_value_locked hash key now s).0 in
      let here : stored hash key s' ≡ (prepare_existing_value_locked hash key now s).1 =
        (prepared hash key now s).0 key ∙ rw (equal_bytes_refl key) in
      step (prepare_existing_value_locked hash key now s).1 s' here
        (prepare_found-IsSound hash (stored hash key s) key now s sound)

  read_found-IsSound :
      {A : Type 0} (r : Result StoreError A) (v : ValueObject C) (s : Store C)
      → stored hash key s ≡ some v
      → IsSound s
      → IsSound (read_found hash r v key now s).0
  read_found-IsSound (err e) v s here sound = sound
  read_found-IsSound (ok a) v s here sound =
      put_in_shard-IsSound hash key v (record v { last_accessed_at = now }) s here refl sound

  read_current-IsSound :
      {A : Type 0} (fn : ValueObject C → Result StoreError A) (current : Option (ValueObject C))
      (s : Store C)
      → stored hash key s ≡ current
      → IsSound s
      → IsSound (read_current hash current key now s fn).0
  read_current-IsSound fn none s here sound = sound
  read_current-IsSound fn (some v) s here sound = read_found-IsSound (fn v) v s here sound

  -- A value that has another payload of the kind that a reader found.
  same_list :
      (p : Payload C) (xs ys : List Bytes)
      → list_of p ≡ ok xs
      → key_stats_kind_index (kind_of_payload {C = C} (list_value ys))
        ≡ key_stats_kind_index (kind_of_payload p)
  same_list (string_value bytes) xs ys h = cc
  same_list (list_value old) xs ys h = refl
  same_list (hash_value c) xs ys h = cc
  same_list (set_value c) xs ys h = cc
  same_list (zset_value c) xs ys h = cc
  same_list (stream_value c) xs ys h = cc

  same_string :
      (p : Payload C) (n : ℤ) (bytes : Bytes)
      → next_integer p ≡ ok n
      → key_stats_kind_index (kind_of_payload {C = C} (string_value bytes))
        ≡ key_stats_kind_index (kind_of_payload p)
  same_string (string_value old) n bytes h = refl
  same_string (list_value old) n bytes h = cc
  same_string (hash_value c) n bytes h = cc
  same_string (set_value c) n bytes h = cc
  same_string (zset_value c) n bytes h = cc
  same_string (stream_value c) n bytes h = cc

  increment_current-IsSound :
      (current : Option (ValueObject C)) (s : Store C)
      → stored hash key s ≡ current
      → IsSound s
      → IsSound (increment_current hash current key now s).0
  increment_current-IsSound none s here sound = set_key_locked-IsSound hash key _ s sound
  increment_current-IsSound (some v) s here sound = go (next_integer v.payload) refl
    where
      go :
          (r : Result StoreError ℤ)
          → next_integer v.payload ≡ r
          → IsSound (increment_string hash r v key now s).0
      go (err e) h = sound
      go (ok n) h =
          put_in_shard-IsSound hash key v
            (record v { payload = string_value (format_int n); last_accessed_at = now }) s here
            (same_string v.payload n (format_int n) h) sound

  push_items-IsSound :
      (r : Result StoreError (List Bytes)) (expires_at : ℤ) (left : Bool) (additions : List Bytes)
      (s : Store C)
      → IsSound s
      → IsSound (push_items hash r expires_at left additions key now s).0
  push_items-IsSound (err e) expires_at left additions s sound = sound
  push_items-IsSound (ok xs) expires_at left additions s sound =
      set_key_locked-IsSound hash key _ s sound

  push_current-IsSound :
      (current : Option (ValueObject C)) (left : Bool) (additions : List Bytes) (s : Store C)
      → IsSound s
      → IsSound (push_current hash current left additions key now s).0
  push_current-IsSound none left additions s sound =
      push_items-IsSound (ok []) (pos 0) left additions s sound
  push_current-IsSound (some v) left additions s sound =
      push_items-IsSound (list_of v.payload) v.expires_at left additions s sound

  store_rest-IsSound :
      (taken rest xs : List Bytes) (v : ValueObject C) (s : Store C)
      → list_of v.payload ≡ ok xs
      → stored hash key s ≡ some v
      → IsSound s
      → IsSound (store_rest hash (taken, rest) v key now s).0
  store_rest-IsSound taken [] xs v s h here sound = delete_key_locked-IsSound hash key s sound
  store_rest-IsSound taken (y ∷ ys) xs v s h here sound =
      put_in_shard-IsSound hash key v _ s here (same_list v.payload xs (y ∷ ys) h) sound

  pop_current-IsSound :
      (current : Option (ValueObject C)) (left : Bool) (count : ℕ) (s : Store C)
      → stored hash key s ≡ current
      → IsSound s
      → IsSound (pop_current hash current left count key now s).0
  pop_current-IsSound none left count s here sound = sound
  pop_current-IsSound (some v) left count s here sound = go (list_of v.payload) refl
    where
      go :
          (r : Result StoreError (List Bytes))
          → list_of v.payload ≡ r
          → IsSound (pop_items hash r left count v key now s).0
      go (err e) h = sound
      go (ok []) h = delete_key_locked-IsSound hash key s sound
      go (ok (x ∷ xs)) h =
          let both = popped left (min count (length (x ∷ xs))) (x ∷ xs) in
          store_rest-IsSound both.0 both.1 (x ∷ xs) v s h here sound

  store_item_rest-IsSound :
      (taken : Bytes) (rest xs : List Bytes) (v : ValueObject C) (s : Store C)
      → list_of v.payload ≡ ok xs
      → stored hash key s ≡ some v
      → IsSound s
      → IsSound (store_item_rest hash (taken, rest) v key now s).0
  store_item_rest-IsSound taken [] xs v s h here sound = delete_key_locked-IsSound hash key s sound
  store_item_rest-IsSound taken (y ∷ ys) xs v s h here sound =
      put_in_shard-IsSound hash key v _ s here (same_list v.payload xs (y ∷ ys) h) sound

  pop_one_current-IsSound :
      (current : Option (ValueObject C)) (left : Bool) (s : Store C)
      → stored hash key s ≡ current
      → IsSound s
      → IsSound (pop_one_current hash current left key now s).0
  pop_one_current-IsSound none left s here sound = sound
  pop_one_current-IsSound (some v) left s here sound = go (list_of v.payload) refl
    where
      go :
          (r : Result StoreError (List Bytes))
          → list_of v.payload ≡ r
          → IsSound (pop_item hash r left v key now s).0
      go (err e) h = sound
      go (ok []) h = delete_key_locked-IsSound hash key s sound
      go (ok (x ∷ xs)) h =
          let both = popped_item left x xs in
          store_item_rest-IsSound both.0 both.1 (x ∷ xs) v s h here sound

  delete_live-IsSound :
      (o : Option (ValueObject C)) (s : Store C)
      → IsSound s
      → IsSound (delete_live hash o key now s).0
  delete_live-IsSound none s sound = delete_key_locked-IsSound hash key s sound
  delete_live-IsSound (some v) s sound = delete_key_locked-IsSound hash key s sound

  pub operate-IsSound :
      (op : Operation) (s : Store C) → IsSound s → IsSound (operate hash op key now s).0
  unfolding set_string get_string delete increment push_list pop_n pop_one list_range
  operate-IsSound (setting content expires_at) s sound =
      set_key_locked-IsSound hash key _ _
        (prepare_found-IsSound hash (stored hash key s) key now s sound)
  operate-IsSound getting s sound =
      from_live s (λ current s'. read_current hash current key now s' (λ v. string_of v.payload))
        (read_current-IsSound (λ v. string_of v.payload)) sound
  operate-IsSound deleting s sound = delete_live-IsSound (stored hash key s) s sound
  operate-IsSound incrementing s sound =
      from_live s (λ current s'. increment_current hash current key now s')
        increment_current-IsSound sound
  operate-IsSound (pushing left []) s sound = sound
  operate-IsSound (pushing left (x ∷ xs)) s sound =
      from_live s (λ current s'. push_current hash current left (x ∷ xs) key now s')
        (λ current s' here ok_s. push_current-IsSound current left (x ∷ xs) s' ok_s) sound
  operate-IsSound (popping left (negsuc n)) s sound = sound
  operate-IsSound (popping left (pos count)) s sound =
      from_live s (λ current s'. pop_current hash current left count key now s')
        (λ current s'. pop_current-IsSound current left count s') sound
  operate-IsSound (popping_one left) s sound =
      from_live s (λ current s'. pop_one_current hash current left key now s')
        (λ current s'. pop_one_current-IsSound current left s') sound
  operate-IsSound (ranging start stop) s sound =
      from_live s
        (λ current s'.
          read_current hash current key now s' (λ v. range_of start stop (list_of v.payload)))
        (read_current-IsSound (λ v. range_of start stop (list_of v.payload))) sound
