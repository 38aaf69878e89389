-- ===== src/Storage/Keyspace/Census.antt =====
-- The counts of keys by kind are those of the shards, after any operations.
use runedb.Base.{
  ℕ, zero, suc, ◌+◌, ◌-◌, ◌≤◌, ◌==◌, ◌≡◌, refl, ap, ◌∙◌, inl, inr, Bool-cases, Option, none, some,
  List, Bytes, if◌then◌else◌, ==_iff, arith,
}
use runedb.Base.Int.{ℤ, pos}
use runedb.Storage.Keyspace.{
  ValueObject, is_expired, put, discard, update, kind_index, count_kind, sum_below,
  default_shard_count, shard_index, Store, stored, resident, incremented, decremented,
  adjust_key_kind_count, recounted, put_in_shard, set_key_locked, remove_key_locked, delete_found,
  delete_key_locked, prepare_found,
}
use runedb.Storage.Keyspace.Counts.{
  IsUnique, of_kind, count_kind-put, count_kind-discard, IsUnique-put, IsUnique-discard,
  sum_below-update, shard_index_below,
}

module _ {ℓ} {C : Type ℓ} where
  -- The keys of a shard are different, and the counts are right.
  abbrev pub IsSound : Store C → Type ℓ
  IsSound s =
      ((j : ℕ) → IsUnique (s.shards j)) × ((i : ℕ) → s.key_kind_counts i ≡ pos (resident i s))

  pub IsUnique-update :
      (i : ℕ) (x : List (Bytes × ValueObject C)) (g : ℕ → List (Bytes × ValueObject C))
      → IsUnique x
      → ((j : ℕ) → IsUnique (g j))
      → (j : ℕ) → IsUnique (update i x g j)
  IsUnique-update i x g u us j = elim (Bool-cases (i == j)) [ inl a ↦ rw a u | inr b ↦ rw b (us j) ]

dec_pos : (n : ℕ) → 1 ≤ n → decremented (pos n) ≡ pos (n - 1)
dec_pos zero h = absurd (omega (arith, h))
dec_pos (suc n) h = ap pos (omega arith)

pub sum_zero : (n i : ℕ) → sum_below n (λ j. 0) ≡ 0
sum_zero zero i = refl
sum_zero (suc n) i = rw (sum_zero n i) (omega arith)

module _ {ℓ} {C : Type ℓ} (hash : Bytes → ℕ) where
  more_of :
      (v : ValueObject C) (counts : ℕ → ℤ) (i n : ℕ)
      → counts i ≡ pos n
      → adjust_key_kind_count hash (some v) incremented counts i ≡ pos (n + of_kind i (some v))
  more_of v counts i n h = elim (Bool-cases (kind_index v == i)) [
    | inl same ↦ rw same (
        ap (λ j. incremented (counts j)) ((==_iff (kind_index v) i).0 same)
        ∙ rw h (ap pos (omega arith)))
    | inr other ↦ rw other (h ∙ ap pos (omega arith))
  ]

  fewer_of :
      (v : ValueObject C) (counts : ℕ → ℤ) (i n : ℕ)
      → counts i ≡ pos n
      → of_kind i (some v) ≤ n
      → adjust_key_kind_count hash (some v) decremented counts i ≡ pos (n - of_kind i (some v))
  fewer_of v counts i n h le = elim (Bool-cases (kind_index v == i)) [
    | inl same ↦ rw same (
        ap (λ j. decremented (counts j)) ((==_iff (kind_index v) i).0 same)
        ∙ rw h (dec_pos n (rw same at le)))
    | inr other ↦ rw other (h ∙ ap pos (omega arith))
  ]

  recounted_lem :
      (o : Option (ValueObject C)) (v : ValueObject C) (counts : ℕ → ℤ) (i n n' : ℕ)
      → counts i ≡ pos n
      → n' + of_kind i o ≡ n + of_kind i (some v)
      → of_kind i o ≤ n
      → recounted hash o v counts i ≡ pos n'
  recounted_lem none v counts i n n' h e le = more_of v counts i n h ∙ ap pos (omega (arith, e))
  recounted_lem (some u) v counts i n n' h e le = elim (Bool-cases (kind_index u == kind_index v)) [
    | inl same ↦
        let kinds : of_kind i (some u) ≡ of_kind i (some v) =
          ap (λ k. if k == i then 1 else 0) ((==_iff (kind_index u) (kind_index v)).0 same) in
        rw same (h ∙ ap pos (omega (arith, e, kinds)))
    | inr other ↦
        ap
          (λ b.
            (if b
                then counts
                else adjust_key_kind_count hash (some v) incremented
                    (adjust_key_kind_count hash (some u) decremented counts))
              i)
          other
        ∙ (more_of v (adjust_key_kind_count hash (some u) decremented counts) i
              (n - of_kind i (some u)) (fewer_of u counts i n h le)
            ∙ ap pos (omega (arith, e, le)))
  ]

  resident-put :
      (i : ℕ) (key : Bytes) (v : ValueObject C) (s : Store C)
      → resident i (put_in_shard hash key v s) + of_kind i (stored hash key s)
        ≡ resident i s + of_kind i (some v)
  resident-put i key v s =
      let shard = s.shards (shard_index hash key) in
      let one = count_kind-put i key v shard in
      let all =
        sum_below-update default_shard_count (shard_index hash key) (put key v shard) (count_kind i)
          s.shards (shard_index_below hash key) in
      omega (arith, one, all)

  resident-discard :
      (i : ℕ) (key : Bytes) (s : Store C)
      → IsSound s
      → resident i (remove_key_locked hash key s) + of_kind i (stored hash key s) ≡ resident i s
  unfolding remove_key_locked
  resident-discard i key s sound =
      let shard = s.shards (shard_index hash key) in
      let one = count_kind-discard i key shard (sound.0 (shard_index hash key)) in
      let all =
        sum_below-update default_shard_count (shard_index hash key) (discard key shard)
          (count_kind i) s.shards (shard_index_below hash key) in
      omega (arith, one, all)

  pub set_key_locked-IsSound :
      (key : Bytes) (v : ValueObject C) (s : Store C)
      → IsSound s
      → IsSound (set_key_locked hash key v s)
  unfolding set_key_locked
  set_key_locked-IsSound key v s sound = (
    IsUnique-update (shard_index hash key) (put key v (s.shards (shard_index hash key))) s.shards
        (IsUnique-put key v (s.shards (shard_index hash key)) (sound.0 (shard_index hash key)))
        sound.0,
    λ i.
        let e = resident-put i key v s in
        recounted_lem (stored hash key s) v s.key_kind_counts i (resident i s)
          (resident i (put_in_shard hash key v s)) (sound.1 i) e
          (omega (arith, resident-discard i key s sound)),
  )

  pub put_in_shard-IsSound :
      (key : Bytes) (u v : ValueObject C) (s : Store C)
      → stored hash key s ≡ some u
      → kind_index v ≡ kind_index u
      → IsSound s
      → IsSound (put_in_shard hash key v s)
  put_in_shard-IsSound key u v s present same sound = (
    IsUnique-update (shard_index hash key) (put key v (s.shards (shard_index hash key))) s.shards
        (IsUnique-put key v (s.shards (shard_index hash key)) (sound.0 (shard_index hash key)))
        sound.0,
    λ i.
        let e = resident-put i key v s in
        let was : of_kind i (stored hash key s) ≡ of_kind i (some v) = rw (present, same) in
        sound.1 i ∙ ap pos (omega (arith, e, was)),
  )

  remove_key_locked-IsSound :
      (key : Bytes) (s : Store C) → IsSound s → IsSound (remove_key_locked hash key s)
  unfolding remove_key_locked
  remove_key_locked-IsSound key s sound = (unique, counts)
    where
      unique : (j : ℕ) → IsUnique ((remove_key_locked hash key s).shards j)
      unique =
          IsUnique-update (shard_index hash key) (discard key (s.shards (shard_index hash key)))
            s.shards
            (IsUnique-discard key (s.shards (shard_index hash key))
              (sound.0 (shard_index hash key)))
            sound.0

      adjusted :
          (o : Option (ValueObject C)) (i n n' : ℕ)
          → s.key_kind_counts i ≡ pos n
          → n' + of_kind i o ≡ n
          → adjust_key_kind_count hash o decremented s.key_kind_counts i ≡ pos n'
      adjusted none i n n' h e = h ∙ ap pos (omega (arith, e))
      adjusted (some u) i n n' h e =
          fewer_of u s.key_kind_counts i n h (omega (arith, e)) ∙ ap pos (omega (arith, e))

      counts :
          (i : ℕ)
          → (remove_key_locked hash key s).key_kind_counts i
            ≡ pos (resident i (remove_key_locked hash key s))
      counts i =
          adjusted (stored hash key s) i (resident i s) (resident i (remove_key_locked hash key s))
            (sound.1 i) (resident-discard i key s sound)

  delete_found-IsSound :
      (o : Option (ValueObject C)) (key : Bytes) (s : Store C)
      → IsSound s
      → IsSound (delete_found hash o key s).0
  delete_found-IsSound none key s sound = sound
  delete_found-IsSound (some v) key s sound = remove_key_locked-IsSound key s sound

  pub delete_key_locked-IsSound :
      (key : Bytes) (s : Store C) → IsSound s → IsSound (delete_key_locked hash key s).0
  delete_key_locked-IsSound key s sound = delete_found-IsSound (stored hash key s) key s sound

  pub prepare_found-IsSound :
      (o : Option (ValueObject C)) (key : Bytes) (now : ℤ) (s : Store C)
      → IsSound s
      → IsSound (prepare_found hash o key now s).0
  prepare_found-IsSound none key now s sound = sound
  prepare_found-IsSound (some v) key now s sound = elim (Bool-cases (is_expired v now)) [
    | inl dead ↦ rw dead (delete_key_locked-IsSound key s sound)
    | inr alive ↦ rw alive sound
  ]
