-- ===== src/Storage/Keyspace/Simulates.antt =====
-- Every operation does to the store what its effect says.
use runedb.Base.{
  ℕ, ◌≡◌, refl, ap, ◌∙◌, inl, inr, Bool, Bool-cases, Option, none, some, List, [], ◌∷◌, Bytes,
  length, min, if◌then◌else◌, equal_bytes, Result, ok, err,
}
use runedb.Base.Int.{ℤ, pos, negsuc}
use runedb.Storage.Keyspace.{
  StoreError, string_value, list_value, ValueObject, is_expired, string_of, list_of, Store, stored,
  put_in_shard, set_key_locked, delete_key_locked, prepare_existing_value_locked, read_found,
  read_current, new_value,
}
use runedb.Storage.Keyspace.Ops.{
  set_string, get_string, delete, delete_live, increment, increment_string, increment_current,
  push_list, push_items, push_current, pop_n, pop_items, pop_current, store_rest, pop_one, pop_item,
  pop_one_current, store_item_rest, list_range, next_integer, popped, popped_item, range_of,
  or_empty,
}
use runedb.Storage.Keyspace.Effect.{
  Operation, setting, getting, deleting, incrementing, pushing, popping, popping_one, ranging,
  Reply, flag, text, number, size, items, range, found, live, is_some, list_under, read_effect,
  increment_effect, push_effect, pop_effect, pop_one_effect, effect, outcome, operate,
}
use runedb.Storage.Keyspace.Refines.{
  Moves, Moves-same, Moves-trans, Moves-put, Moves-set, Moves-delete, prepared,
}

module _ {ℓ} {C : Type ℓ} (hash : Bytes → ℕ) (key : Bytes) (now : ℤ) where
  -- A step of the store that moves the key to the first part of an outcome, and replies its second.
  abbrev Does :
      {A : Type 0} → (A → Reply) → Store C → Store C × A → Option (ValueObject C) × Reply → Type ℓ
  Does reply s (s', r) (new, r') = Moves hash key s s' new × (reply r ≡ r')

  -- What follows on the preparation of the key.
  from_live :
      {A : Type 0} (reply : A → Reply) (s : Store C)
      (run : Option (ValueObject C) → Store C → Store C × A)
      (spec : Option (ValueObject C) → Option (ValueObject C) × Reply)
      → ((current : Option (ValueObject C)) (s' : Store C)
          → Moves hash key s s' current
          → Does reply s (run current s') (spec current))
      → Does reply s
          (run
            (prepare_existing_value_locked hash key now s).1
            (prepare_existing_value_locked hash key now s).0)
          (spec (live now (stored hash key s)))
  from_live reply s run spec step =
      let (moved, e) = prepared hash key now s in
      rw (← e) (
        step (prepare_existing_value_locked hash key now s).1
          (prepare_existing_value_locked hash key now s).0 moved)

  -- The key got `new` after it had `old`.
  then_put :
      (s s' : Store C) (old : Option (ValueObject C)) (v : ValueObject C)
      → Moves hash key s s' old
      → Moves hash key s (put_in_shard hash key v s') (some v)
  then_put s s' old v m =
      Moves-trans hash key s s' (put_in_shard hash key v s') old (some v) m
        (Moves-put hash key v s')

  then_set :
      (s s' : Store C) (old : Option (ValueObject C)) (v : ValueObject C)
      → Moves hash key s s' old
      → Moves hash key s (set_key_locked hash key v s') (some v)
  then_set s s' old v m =
      Moves-trans hash key s s' (set_key_locked hash key v s') old (some v) m
        (Moves-set hash key v s')

  then_delete :
      (s s' : Store C) (old : Option (ValueObject C))
      → Moves hash key s s' old
      → Moves hash key s (delete_key_locked hash key s').0 none
  then_delete s s' old m =
      Moves-trans hash key s s' (delete_key_locked hash key s').0 old none m
        (Moves-delete hash key s')

  read_found-Does :
      {A : Type 0} (reply : Result StoreError (Option A) → Reply) (s s' : Store C)
      (v : ValueObject C) (r : Result StoreError A)
      → Moves hash key s s' (some v)
      → Does reply s (read_found hash r v key now s') (read_effect now v r, reply (found r))
  read_found-Does reply s s' v (err e) m = (m, refl)
  read_found-Does reply s s' v (ok a) m =
      (then_put s s' (some v) (record v { last_accessed_at = now }) m, refl)

  get_string-Does :
      (s : Store C)
      → Does text s (get_string hash key now s) (effect getting now (live now (stored hash key s)))
  unfolding get_string
  get_string-Does s =
      from_live text s
        (λ current s'. read_current hash current key now s' (λ v. string_of v.payload))
        (effect getting now) step
    where
      step :
          (current : Option (ValueObject C)) (s' : Store C)
          → Moves hash key s s' current
          → Does text s
              (read_current hash current key now s' (λ v. string_of v.payload))
              (effect getting now current)
      step none s' m = (m, refl)
      step (some v) s' m = read_found-Does text s s' v (string_of v.payload) m

  set_string-Does :
      (content : Bytes) (expires_at : ℤ) (s : Store C)
      → Moves hash key s
          (set_string hash key content expires_at now s)
          (some (new_value (string_value content) expires_at now))
  unfolding set_string
  set_string-Does content expires_at s =
      then_set s (prepare_existing_value_locked hash key now s).0
        (prepare_existing_value_locked hash key now s).1
        (new_value (string_value content) expires_at now) (prepared hash key now s).0

  delete_live_lem :
      (o : Option (ValueObject C)) (s : Store C)
      → ((delete_live hash o key now s).0 ≡ (delete_key_locked hash key s).0)
        × (flag (delete_live hash o key now s).1 ≡ flag (is_some (live now o)))
  delete_live_lem none s = (refl, refl)
  delete_live_lem (some v) s =
      (refl, elim (Bool-cases (is_expired v now)) [ inl dead ↦ rw dead | inr alive ↦ rw alive ])

  delete-Does :
      (s : Store C)
      → Does flag s (delete hash key now s) (effect deleting now (live now (stored hash key s)))
  unfolding delete
  delete-Does s =
      let (moved, told) = delete_live_lem (stored hash key s) s in
      ((λ k. ap (λ s'. stored hash k s') moved ∙ Moves-delete hash key s k), told)

  increment_string-Does :
      (s s' : Store C) (v : ValueObject C) (r : Result StoreError ℤ)
      → Moves hash key s s' (some v)
      → Does number s (increment_string hash r v key now s') (increment_effect now v r, number r)
  increment_string-Does s s' v (err e) m = (m, refl)
  increment_string-Does s s' v (ok n) m = (then_put s s' (some v) _ m, refl)

  increment-Does :
      (s : Store C)
      → Does number s
          (increment hash key now s)
          (effect incrementing now (live now (stored hash key s)))
  unfolding increment
  increment-Does s =
      from_live number s (λ current s'. increment_current hash current key now s')
        (effect incrementing now) step
    where
      step :
          (current : Option (ValueObject C)) (s' : Store C)
          → Moves hash key s s' current
          → Does number s
              (increment_current hash current key now s')
              (effect incrementing now current)
      step none s' m = (then_set s s' none _ m, refl)
      step (some v) s' m = increment_string-Does s s' v (next_integer v.payload) m

  push_items-Does :
      (s s' : Store C) (old : Option (ValueObject C)) (left : Bool) (additions : List Bytes)
      (expires_at : ℤ) (r : Result StoreError (List Bytes))
      → Moves hash key s s' old
      → Does size s
          (push_items hash r expires_at left additions key now s')
          (push_effect now left additions old expires_at r)
  push_items-Does s s' old left additions expires_at (err e) m = (m, refl)
  push_items-Does s s' old left additions expires_at (ok xs) m = (then_set s s' old _ m, refl)

  push_list-Does :
      (left : Bool) (additions : List Bytes) (s : Store C)
      → Does size s
          (push_list hash left key additions now s)
          (outcome (pushing left additions) now (stored hash key s))
  unfolding push_list
  push_list-Does left [] s = (Moves-same hash key s, refl)
  push_list-Does left (x ∷ xs) s =
      from_live size s (λ current s'. push_current hash current left (x ∷ xs) key now s')
        (effect (pushing left (x ∷ xs)) now) step
    where
      step :
          (current : Option (ValueObject C)) (s' : Store C)
          → Moves hash key s s' current
          → Does size s
              (push_current hash current left (x ∷ xs) key now s')
              (effect (pushing left (x ∷ xs)) now current)
      step none s' m = push_items-Does s s' none left (x ∷ xs) (pos 0) (ok []) m
      step (some v) s' m =
          push_items-Does s s' (some v) left (x ∷ xs) v.expires_at (list_of v.payload) m

  store_rest-Does :
      (s s' : Store C) (v : ValueObject C) (taken rest : List Bytes)
      → Moves hash key s s' (some v)
      → Does items s
          (store_rest hash (taken, rest) v key now s')
          (list_under rest v now, items (ok (some taken)))
  store_rest-Does s s' v taken [] m = (then_delete s s' (some v) m, refl)
  store_rest-Does s s' v taken (x ∷ xs) m = (
    then_put s s' (some v) (record v { payload = list_value (x ∷ xs); last_accessed_at = now }) m,
    refl,
  )

  pop_items-Does :
      (s s' : Store C) (left : Bool) (count : ℕ) (v : ValueObject C)
      (r : Result StoreError (List Bytes))
      → Moves hash key s s' (some v)
      → Does items s (pop_items hash r left count v key now s') (pop_effect now left count v r)
  pop_items-Does s s' left count v (err e) m = (m, refl)
  pop_items-Does s s' left count v (ok []) m = (then_delete s s' (some v) m, refl)
  pop_items-Does s s' left count v (ok (x ∷ xs)) m =
      let both = popped left (min count (length (x ∷ xs))) (x ∷ xs) in
      store_rest-Does s s' v both.0 both.1 m

  pop_n-Does :
      (left : Bool) (count : ℤ) (s : Store C)
      → Does items s
          (pop_n hash left key count now s)
          (outcome (popping left count) now (stored hash key s))
  unfolding pop_n
  pop_n-Does left (negsuc n) s = (Moves-same hash key s, refl)
  pop_n-Does left (pos count) s =
      from_live items s (λ current s'. pop_current hash current left count key now s')
        (effect (popping left (pos count)) now) step
    where
      step :
          (current : Option (ValueObject C)) (s' : Store C)
          → Moves hash key s s' current
          → Does items s
              (pop_current hash current left count key now s')
              (effect (popping left (pos count)) now current)
      step none s' m = (m, refl)
      step (some v) s' m = pop_items-Does s s' left count v (list_of v.payload) m

  store_item_rest-Does :
      (s s' : Store C) (v : ValueObject C) (taken : Bytes) (rest : List Bytes)
      → Moves hash key s s' (some v)
      → Does text s
          (store_item_rest hash (taken, rest) v key now s')
          (list_under rest v now, text (ok (some taken)))
  store_item_rest-Does s s' v taken [] m = (then_delete s s' (some v) m, refl)
  store_item_rest-Does s s' v taken (x ∷ xs) m = (
    then_put s s' (some v) (record v { payload = list_value (x ∷ xs); last_accessed_at = now }) m,
    refl,
  )

  pop_item-Does :
      (s s' : Store C) (left : Bool) (v : ValueObject C) (r : Result StoreError (List Bytes))
      → Moves hash key s s' (some v)
      → Does text s (pop_item hash r left v key now s') (pop_one_effect now left v r)
  pop_item-Does s s' left v (err e) m = (m, refl)
  pop_item-Does s s' left v (ok []) m = (then_delete s s' (some v) m, refl)
  pop_item-Does s s' left v (ok (x ∷ xs)) m =
      let both = popped_item left x xs in store_item_rest-Does s s' v both.0 both.1 m

  pop_one-Does :
      (left : Bool) (s : Store C)
      → Does text s
          (pop_one hash left key now s)
          (effect (popping_one left) now (live now (stored hash key s)))
  unfolding pop_one
  pop_one-Does left s =
      from_live text s (λ current s'. pop_one_current hash current left key now s')
        (effect (popping_one left) now) step
    where
      step :
          (current : Option (ValueObject C)) (s' : Store C)
          → Moves hash key s s' current
          → Does text s
              (pop_one_current hash current left key now s')
              (effect (popping_one left) now current)
      step none s' m = (m, refl)
      step (some v) s' m = pop_item-Does s s' left v (list_of v.payload) m

  list_range-Does :
      (start stop : ℤ) (s : Store C)
      → Does range s
          (list_range hash key start stop now s)
          (effect (ranging start stop) now (live now (stored hash key s)))
  unfolding list_range
  list_range-Does start stop s =
      from_live (λ r. range (or_empty r)) s
        (λ current s'.
          read_current hash current key now s' (λ v. range_of start stop (list_of v.payload)))
        (effect (ranging start stop) now) step
    where
      step :
          (current : Option (ValueObject C)) (s' : Store C)
          → Moves hash key s s' current
          → Does
              (λ r. range (or_empty r))
              s
              (read_current hash current key now s' (λ v. range_of start stop (list_of v.payload)))
              (effect (ranging start stop) now current)
      step none s' m = (m, refl)
      step (some v) s' m = ranged v s' m (range_of start stop (list_of v.payload))
        where
          ranged :
              (v : ValueObject C) (s' : Store C)
              → Moves hash key s s' (some v)
              → (r : Result StoreError (List Bytes))
              → Does
                  (λ r. range (or_empty r))
                  s
                  (read_found hash r v key now s')
                  (read_effect now v r, range r)
          ranged v s' m (err e) = (m, refl)
          ranged v s' m (ok xs) =
              (then_put s s' (some v) (record v { last_accessed_at = now }) m, refl)

  -- On a store with any hash and any shards, an operation on a key at a time does what its outcome says
  -- of the value that the key had: it gives the key the new value, or takes it out, leaves every other
  -- key its value, and returns the outcome's reply.
  pub operate-outcome :
      (op : Operation) (s : Store C)
      → let after : Store C × Reply = operate hash op key now s in
        let expected : Option (ValueObject C) × Reply = outcome op now (stored hash key s) in
        ((k : Bytes)
          → stored hash k after.0 ≡ (if equal_bytes key k then expected.0 else stored hash k s))
        × (after.1 ≡ expected.1)
  operate-outcome (setting content expires_at) s = (set_string-Does content expires_at s, refl)
  operate-outcome getting s = get_string-Does s
  operate-outcome deleting s = delete-Does s
  operate-outcome incrementing s = increment-Does s
  operate-outcome (pushing left []) s = push_list-Does left [] s
  operate-outcome (pushing left (x ∷ xs)) s = push_list-Does left (x ∷ xs) s
  operate-outcome (popping left (pos count)) s = pop_n-Does left (pos count) s
  operate-outcome (popping left (negsuc n)) s = pop_n-Does left (negsuc n) s
  operate-outcome (popping_one left) s = pop_one-Does left s
  operate-outcome (ranging start stop) s = list_range-Does start stop s
