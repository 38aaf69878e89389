-- ===== src/Storage/Keyspace.antt =====
-- The keyspace of store.go, with shard.go, stats.go and types.go: keys in shards, values with a
-- deadline, and the operations on strings and lists, for a store without a memory limit. The other
-- kinds of value are a payload `C` that these operations only pass on. An operation runs under its
-- locks, so it is one step, with one reading `now` of the clock.
pub mod Ops
pub mod Effect
pub mod Refines
pub mod Simulates
pub mod Counts
pub mod Census
pub mod Sound
pub mod Stats
pub mod Range
use runedb.Base.{
  ℕ, zero, suc, ◌+◌, ◌-◌, ◌%◌, ◌==◌, Bool, true, false, ◌&&◌, not, Option, none, some, List, [],
  ◌∷◌, ◌++◌, Bytes, ltb, leb, if◌then◌else◌, length, take, drop, equal_bytes, is_empty, min, Result,
  ok, err,
}
use runedb.Base.Int.{ℤ, pos, negsuc, ltb_ℤ, eqb_ℤ, max_int64}
use runedb.Protocol.Number.{format_int}
use runedb.Storage.IntSet.{parse_int}

pub data ValueKind : Type 0 where
  string_kind list_kind hash_kind set_kind zset_kind stream_kind : ValueKind

pub data StoreError : Type 0 where
  syntax_error value_not_integer wrong_type : StoreError

-- `ValueObject`, whose kind is that of its payload.
pub data Payload {ℓ} (C : Type ℓ) : Type ℓ where
  string_value : Bytes → Payload C
  list_value : List Bytes → Payload C
  hash_value set_value zset_value stream_value : C → Payload C

pub record ValueObject {ℓ} (C : Type ℓ) : Type ℓ where
  pub payload : Payload C
  pub expires_at : ℤ
  pub last_accessed_at : ℤ

-- `keyStatsKindIndex`
abbrev pub key_stats_kind_index : ValueKind → ℕ
key_stats_kind_index string_kind = 0
key_stats_kind_index list_kind = 1
key_stats_kind_index hash_kind = 2
key_stats_kind_index set_kind = 3
key_stats_kind_index zset_kind = 4
key_stats_kind_index stream_kind = 5

abbrev pub incremented : ℤ → ℤ
incremented (pos n) = pos (suc n)
incremented (negsuc zero) = pos 0
incremented (negsuc (suc n)) = negsuc n

abbrev pub decremented : ℤ → ℤ
decremented (pos zero) = negsuc 0
decremented (pos (suc n)) = pos n
decremented (negsuc n) = negsuc (suc n)

abbrev pub update {ℓ} : {A : Type ℓ} → ℕ → A → (ℕ → A) → ℕ → A
update i a f j = if i == j then a else f j

module _ {ℓ} {C : Type ℓ} where
  abbrev pub kind_of_payload : Payload C → ValueKind
  kind_of_payload (string_value bytes) = string_kind
  kind_of_payload (list_value items) = list_kind
  kind_of_payload (hash_value c) = hash_kind
  kind_of_payload (set_value c) = set_kind
  kind_of_payload (zset_value c) = zset_kind
  kind_of_payload (stream_value c) = stream_kind

  abbrev pub kind_index : ValueObject C → ℕ
  kind_index v = key_stats_kind_index (kind_of_payload v.payload)

  abbrev pub is_expired : ValueObject C → ℤ → Bool
  is_expired v now = ltb_ℤ (pos 0) v.expires_at && ltb_ℤ v.expires_at now

  abbrev pub string_of : Payload C → Result StoreError Bytes
  string_of (string_value bytes) = ok bytes
  string_of p = err wrong_type

  abbrev pub list_of : Payload C → Result StoreError (List Bytes)
  list_of (list_value items) = ok items
  list_of p = err wrong_type

  -- The map of a shard, in the order of its keys' arrival.
  abbrev pub find : Bytes → List (Bytes × ValueObject C) → Option (ValueObject C)
  find key [] = none
  find key ((k, v) ∷ shard) = if equal_bytes k key then some v else find key shard

  abbrev pub put :
      Bytes → ValueObject C → List (Bytes × ValueObject C) → List (Bytes × ValueObject C)
  put key v [] = (key, v) ∷ []
  put key v ((k, u) ∷ shard) =
      if equal_bytes k key then (key, v) ∷ shard else (k, u) ∷ put key v shard

  abbrev pub discard : Bytes → List (Bytes × ValueObject C) → List (Bytes × ValueObject C)
  discard key [] = []
  discard key ((k, u) ∷ shard) =
      if equal_bytes k key then discard key shard else (k, u) ∷ discard key shard

pub record Store {ℓ} (C : Type ℓ) : Type ℓ where
  pub shards : ℕ → List (Bytes × ValueObject C)
  pub key_kind_counts : ℕ → ℤ

unfoldable pub default_shard_count : ℕ
default_shard_count = 256

abbrev pub new_store {ℓ} : {C : Type ℓ} → Store C
new_store = record { shards = λ i. []; key_kind_counts = λ i. pos 0 }

abbrev pub shard_index : (Bytes → ℕ) → Bytes → ℕ
shard_index hash key = hash key % default_shard_count

abbrev pub sum_below : ℕ → (ℕ → ℕ) → ℕ
sum_below zero f = 0
sum_below (suc n) f = sum_below n f + f n

module _ {ℓ} {C : Type ℓ} where
  abbrev pub new_value : Payload C → ℤ → ℤ → ValueObject C
  new_value p expires_at now = record {
    payload = p;
    expires_at = expires_at;
    last_accessed_at = now;
  }

  -- `Len`
  unfoldable pub len : Store C → ℕ
  len s = sum_below default_shard_count (λ i. length (s.shards i))

-- `hash` is maphash.String with the store's seed.
module _ {ℓ} {C : Type ℓ} (hash : Bytes → ℕ) where
  abbrev pub stored : Bytes → Store C → Option (ValueObject C)
  stored key s = find key (s.shards (shard_index hash key))

  abbrev pub adjust_key_kind_count : Option (ValueObject C) → (ℤ → ℤ) → (ℕ → ℤ) → ℕ → ℤ
  adjust_key_kind_count none delta counts = counts
  adjust_key_kind_count (some v) delta counts =
      update (kind_index v) (delta (counts (kind_index v))) counts

  -- The map write alone, as for a value that is edited in place.
  abbrev pub put_in_shard : Bytes → ValueObject C → Store C → Store C
  put_in_shard key v s = record s {
    shards = update (shard_index hash key) (put key v (s.shards (shard_index hash key))) s.shards;
  }

  abbrev pub recounted : Option (ValueObject C) → ValueObject C → (ℕ → ℤ) → ℕ → ℤ
  recounted none v counts = adjust_key_kind_count (some v) incremented counts
  recounted (some previous) v counts =
      if kind_index previous == kind_index v
      then counts
      else adjust_key_kind_count (some v) incremented
          (adjust_key_kind_count (some previous) decremented counts)

  unfoldable pub set_key_locked : Bytes → ValueObject C → Store C → Store C
  set_key_locked key v s =
      put_in_shard key v
        (record s { key_kind_counts = recounted (stored key s) v s.key_kind_counts })

  unfoldable pub remove_key_locked : Bytes → Store C → Store C
  remove_key_locked key s = record {
    shards = update (shard_index hash key) (discard key (s.shards (shard_index hash key))) s.shards;
    key_kind_counts = adjust_key_kind_count (stored key s) decremented s.key_kind_counts;
  }

  -- `deleteKeyLocked` and `deleteKeyWithSizeLocked`
  abbrev pub delete_found : Option (ValueObject C) → Bytes → Store C → Store C × Bool
  delete_found none key s = (s, false)
  delete_found (some v) key s = (remove_key_locked key s, true)

  abbrev pub delete_key_locked : Bytes → Store C → Store C × Bool
  delete_key_locked key s = delete_found (stored key s) key s

  abbrev pub prepare_found :
      Option (ValueObject C) → Bytes → ℤ → Store C → Store C × Option (ValueObject C)
  prepare_found none key now s = (s, none)
  prepare_found (some v) key now s =
      if is_expired v now then ((delete_key_locked key s).0, none) else (s, some v)

  -- `prepareExistingValueLocked`
  abbrev pub prepare_existing_value_locked : Bytes → ℤ → Store C → Store C × Option (ValueObject C)
  prepare_existing_value_locked key now s = prepare_found (stored key s) key now s

  -- `writeKey`
  abbrev pub write_key {κ} :
      {A : Type κ}
      → Bytes
      → ℤ
      → Store C
      → (Store C → Option (ValueObject C) → Store C × A)
      → Store C × A
  write_key key now s fn =
      let (s', current) = prepare_existing_value_locked key now s in fn s' current

  -- `readKey`; `dropIfStillExpired` finds what the read found, in one step with it.
  abbrev pub read_found {κ} :
      {A : Type κ}
      → Result StoreError A
      → ValueObject C
      → Bytes
      → ℤ
      → Store C
      → Store C × Result StoreError (Option A)
  read_found (err e) v key now s = (s, err e)
  read_found (ok a) v key now s =
      (put_in_shard key (record v { last_accessed_at = now }) s, ok (some a))

  abbrev pub read_current {κ} :
      {A : Type κ}
      → Option (ValueObject C)
      → Bytes
      → ℤ
      → Store C
      → (ValueObject C → Result StoreError A)
      → Store C × Result StoreError (Option A)
  read_current none key now s fn = (s, ok none)
  read_current (some v) key now s fn = read_found (fn v) v key now s

  abbrev pub read_key {κ} :
      {A : Type κ}
      → Bytes
      → ℤ
      → Store C
      → (ValueObject C → Result StoreError A)
      → Store C × Result StoreError (Option A)
  read_key key now s fn =
      let (s', current) = prepare_existing_value_locked key now s in
      read_current current key now s' fn

infixl 60 ◌+ℤ◌
abbrev pub ◌+ℤ◌ : ℤ → ℤ → ℤ
pos m +ℤ pos n = pos (m + n)
pos m +ℤ negsuc n = if ltb n m then pos (m - suc n) else negsuc (n - m)
negsuc m +ℤ pos n = if ltb m n then pos (n - suc m) else negsuc (m - n)
negsuc m +ℤ negsuc n = negsuc (suc (m + n))

module _ {ℓ} {C : Type ℓ} where
  abbrev pub total_keys : Store C → ℤ
  total_keys s =
      s.key_kind_counts 0
      +ℤ s.key_kind_counts 1
      +ℤ s.key_kind_counts 2
      +ℤ s.key_kind_counts 3
      +ℤ s.key_kind_counts 4
      +ℤ s.key_kind_counts 5

  abbrev pub count_kind : ℕ → List (Bytes × ValueObject C) → ℕ
  count_kind i [] = 0
  count_kind i ((k, v) ∷ shard) =
      if kind_index v == i then suc (count_kind i shard) else count_kind i shard

  -- The loops of `recalculateKeyStatsLocked`, for one kind.
  abbrev pub resident : ℕ → Store C → ℕ
  resident i s = sum_below default_shard_count (λ j. count_kind i (s.shards j))

  -- `recalculateKeyStatsLocked`
  abbrev pub recalculate_key_stats_locked : Store C → Store C
  recalculate_key_stats_locked s = record s { key_kind_counts = λ i. pos (resident i s) }

  -- The keys of a shard of the other store, each put into its shard here.
  abbrev pub distribute :
      (Bytes → ℕ)
      → List (Bytes × ValueObject C)
      → (ℕ → List (Bytes × ValueObject C))
      → ℕ
      → List (Bytes × ValueObject C)
  distribute hash [] shards = shards
  distribute hash ((key, v) ∷ rest) shards =
      distribute hash rest
        (update (shard_index hash key) (put key v (shards (shard_index hash key))) shards)

  abbrev pub distribute_below : (Bytes → ℕ) → ℕ → Store C → ℕ → List (Bytes × ValueObject C)
  distribute_below hash zero other = λ i. []
  distribute_below hash (suc n) other =
      distribute hash (other.shards n) (distribute_below hash n other)

  -- `ReplaceWith`
  unfoldable pub replace_with : (Bytes → ℕ) → Store C → Store C → Store C
  replace_with hash other s =
      recalculate_key_stats_locked
        (record s { shards = distribute_below hash default_shard_count other })
