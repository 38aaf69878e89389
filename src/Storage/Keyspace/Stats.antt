-- ===== src/Storage/Keyspace/Stats.antt =====
-- KeyStats and Len after any history of operations and replacements.
use runedb.Base.{
  ℕ, zero, suc, ◌+◌, ◌==◌, ◌≡◌, refl, sym, ap, List, [], ◌∷◌, Bytes, length, if◌then◌else◌, arith,
}
use runedb.Base.Int.{ℤ, pos}
use runedb.Storage.Keyspace.{
  ValueKind, string_kind, list_kind, hash_kind, set_kind, zset_kind, stream_kind,
  key_stats_kind_index, kind_of_payload, ValueObject, put, update, count_kind, sum_below,
  default_shard_count, shard_index, Store, new_store, resident, total_keys, len, distribute,
  distribute_below, replace_with,
}
use runedb.Storage.Keyspace.Counts.{IsUnique, IsUnique-put}
use runedb.Storage.Keyspace.Census.{IsSound, IsUnique-update, sum_zero}
use runedb.Storage.Keyspace.Effect.{Operation, operate}
use runedb.Storage.Keyspace.Sound.{operate-IsSound}

-- A history: an operation on a key at a time, or the replacement by what another history made, under
-- another hash.
pub data History : Type 0 where
  opened : History
  operating : Operation → Bytes → ℤ → History → History
  replacing : (Bytes → ℕ) → History → History → History

module _ {ℓ} {C : Type ℓ} where
  distribute-IsUnique :
      (hash : Bytes → ℕ) (shard : List (Bytes × ValueObject C))
      (shards : ℕ → List (Bytes × ValueObject C))
      → ((j : ℕ) → IsUnique (shards j))
      → (j : ℕ) → IsUnique (distribute hash shard shards j)
  distribute-IsUnique hash [] shards us = us
  distribute-IsUnique hash ((key, v) ∷ rest) shards us =
      distribute-IsUnique hash rest
        (update (shard_index hash key) (put key v (shards (shard_index hash key))) shards)
        (IsUnique-update (shard_index hash key) (put key v (shards (shard_index hash key))) shards
          (IsUnique-put key v (shards (shard_index hash key)) (us (shard_index hash key))) us)

  distribute_below-IsUnique :
      (hash : Bytes → ℕ) (n : ℕ) (other : Store C) (j : ℕ)
      → IsUnique (distribute_below hash n other j)
  distribute_below-IsUnique hash zero other j = tt
  distribute_below-IsUnique hash (suc n) other j =
      distribute-IsUnique hash (other.shards n) (distribute_below hash n other)
        (distribute_below-IsUnique hash n other) j

  replace_with-IsSound :
      (hash : Bytes → ℕ) (other s : Store C) → IsSound (replace_with hash other s)
  unfolding replace_with
  replace_with-IsSound hash other s =
      (distribute_below-IsUnique hash default_shard_count other, λ i. refl)

  -- Every entry has one of the six kinds.
  all_kinds : List (Bytes × ValueObject C) → ℕ
  all_kinds shard =
      count_kind 0 shard
      + count_kind 1 shard
      + count_kind 2 shard
      + count_kind 3 shard
      + count_kind 4 shard
      + count_kind 5 shard

  all_kinds-length : (shard : List (Bytes × ValueObject C)) → all_kinds shard ≡ length shard
  unfolding all_kinds
  all_kinds-length [] = omega arith
  all_kinds-length ((k, v) ∷ shard) = one (kind_of_payload v.payload) (all_kinds-length shard)
    where
      one :
          (kind : ValueKind)
          → all_kinds shard ≡ length shard
          → let at : ℕ → ℕ = λ i.
            if key_stats_kind_index kind == i
            then suc (count_kind i shard)
            else count_kind i shard in
            at 0 + at 1 + at 2 + at 3 + at 4 + at 5 ≡ suc (length shard)
      one string_kind h = omega (arith, h)
      one list_kind h = omega (arith, h)
      one hash_kind h = omega (arith, h)
      one set_kind h = omega (arith, h)
      one zset_kind h = omega (arith, h)
      one stream_kind h = omega (arith, h)

  sums :
      (n : ℕ) (shards : ℕ → List (Bytes × ValueObject C))
      → let at : ℕ → ℕ = λ i. sum_below n (λ j. count_kind i (shards j)) in
        at 0 + at 1 + at 2 + at 3 + at 4 + at 5 ≡ sum_below n (λ j. length (shards j))
  unfolding all_kinds
  sums zero shards = omega arith
  sums (suc n) shards = omega (arith, sums n shards, all_kinds-length (shards n))

module _ {ℓ} (C : Type ℓ) where
  new_store-IsSound : IsSound (new_store {C = C})
  new_store-IsSound = ((λ j. tt), λ i. ap pos (sym (sum_zero default_shard_count i)))

  abbrev pub store_after : (Bytes → ℕ) → History → Store C
  store_after hash opened = new_store
  store_after hash (operating op key now history) =
      (operate hash op key now (store_after hash history)).0
  store_after hash (replacing hash' other history) =
      replace_with hash (store_after hash' other) (store_after hash history)

  store_after-IsSound : (hash : Bytes → ℕ) (history : History) → IsSound (store_after hash history)
  store_after-IsSound hash opened = new_store-IsSound
  store_after-IsSound hash (operating op key now history) =
      operate-IsSound hash key now op (store_after hash history) (store_after-IsSound hash history)
  store_after-IsSound hash (replacing hash' other history) =
      replace_with-IsSound hash (store_after hash' other) (store_after hash history)

  -- After any history of operations and replacements, under any hash, the count of each kind is the
  -- number of keys of that kind in the shards, and the total of KeyStats is what Len returns.
  pub total_keys-len :
      (hash : Bytes → ℕ) (history : History)
      → ((i : ℕ)
          → (store_after hash history).key_kind_counts i
            ≡ pos (resident i (store_after hash history)))
        × (total_keys (store_after hash history) ≡ pos (len (store_after hash history)))
  unfolding len
  total_keys-len hash history =
      let s = store_after hash history in
      let counts = (store_after-IsSound hash history).1 in
      (
        counts,
        rw (counts 0, counts 1, counts 2, counts 3, counts 4, counts 5)
            (ap pos (sums default_shard_count s.shards)),
      )
