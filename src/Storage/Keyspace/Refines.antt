-- ===== src/Storage/Keyspace/Refines.antt =====
-- The sharded store is one map: an operation changes the value under its key as its effect says, and
-- no other.
use runedb.Base.{
  ℕ, ◌==◌, ◌≡◌, refl, sym, ap, ◌∙◌, inl, inr, true, false, Bool-cases, Option, none, some,
  Option-cases, List, [], ◌∷◌, Bytes, if◌then◌else◌, equal_bytes, equal_bytes_iff, equal_bytes_sym,
  ==_iff, arith,
}
use runedb.Base.Int.{ℤ}
use runedb.Storage.Keyspace.{
  ValueObject, is_expired, find, put, discard, update, Store, shard_index, stored, put_in_shard,
  set_key_locked, remove_key_locked, delete_key_locked, prepare_existing_value_locked,
}
use runedb.Storage.Keyspace.Effect.{live}

equal_bytes_eq : (k key : Bytes) → equal_bytes k key ≡ true → k ≡ key
equal_bytes_eq k key h = (equal_bytes_iff k key).0 h

apart : (j key k : Bytes) → j ≡ k → equal_bytes j key ≡ false → equal_bytes key k ≡ false
apart j key k e h = equal_bytes_sym key k ∙ ap (λ x. equal_bytes x key) (sym e) ∙ h

module _ {ℓ} {C : Type ℓ} where
  pub find-put :
      (key k : Bytes) (v : ValueObject C) (shard : List (Bytes × ValueObject C))
      → find k (put key v shard) ≡ (if equal_bytes key k then some v else find k shard)
  find-put key k v [] = refl
  find-put key k v ((j, u) ∷ shard) = elim (Bool-cases (equal_bytes j key)) [
    | inl same ↦
        let e : j ≡ key = equal_bytes_eq j key same in
        rw (same, e) (elim (Bool-cases (equal_bytes key k)) [ inl a ↦ rw a | inr b ↦ rw b ])
    | inr other ↦ rw other (elim (Bool-cases (equal_bytes j k)) [
      | inl a ↦ let e : j ≡ k = equal_bytes_eq j k a in rw (a, apart j key k e other)
      | inr b ↦ rw b (find-put key k v shard)
    ])
  ]

  pub find-discard :
      (key k : Bytes) (shard : List (Bytes × ValueObject C))
      → find k (discard key shard) ≡ (if equal_bytes key k then none else find k shard)
  find-discard key k [] = elim (Bool-cases (equal_bytes key k)) [ inl a ↦ rw a | inr b ↦ rw b ]
  find-discard key k ((j, u) ∷ shard) = elim (Bool-cases (equal_bytes j key)) [
    | inl same ↦
        let e : j ≡ key = equal_bytes_eq j key same in
        rw (same, e)
          (find-discard key k shard
            ∙ (elim (Bool-cases (equal_bytes key k)) [ inl a ↦ rw a | inr b ↦ rw b ]))
    | inr other ↦ rw other (elim (Bool-cases (equal_bytes j k)) [
      | inl a ↦ let e : j ≡ k = equal_bytes_eq j k a in rw (a, apart j key k e other)
      | inr b ↦ rw b (find-discard key k shard)
    ])
  ]

other_shard :
    (hash : Bytes → ℕ) (key k : Bytes)
    → (shard_index hash key == shard_index hash k) ≡ false
    → equal_bytes key k ≡ false
other_shard hash key k h = elim (Bool-cases (equal_bytes key k)) [
  | inl t ↦ absurd (differ (rw (equal_bytes_eq key k t) at h))
  | inr f ↦ f
]
  where
    differ : (shard_index hash k == shard_index hash k) ≡ false → ⊥
    differ h = ground (arith, h)

-- Between `s` and `s'` the key got the value `new`, and no other key changed.
abbrev pub Moves {ℓ} :
    {C : Type ℓ} → (Bytes → ℕ) → Bytes → Store C → Store C → Option (ValueObject C) → Type ℓ
Moves hash key s s' new =
    (k : Bytes) → stored hash k s' ≡ (if equal_bytes key k then new else stored hash k s)

module _ {ℓ} {C : Type ℓ} (hash : Bytes → ℕ) (key : Bytes) where
  pub Moves-same : (s : Store C) → Moves hash key s s (stored hash key s)
  Moves-same s k = elim (Bool-cases (equal_bytes key k)) [
    | inl a ↦ rw (a, equal_bytes_eq key k a)
    | inr b ↦ rw b
  ]

  pub Moves-trans :
      (s s' s'' : Store C) (a b : Option (ValueObject C))
      → Moves hash key s s' a
      → Moves hash key s' s'' b
      → Moves hash key s s'' b
  Moves-trans s s' s'' a b p q k = elim (Bool-cases (equal_bytes key k)) [
    | inl t ↦ q k ∙ rw t
    | inr f ↦ q k ∙ rw f (p k ∙ rw f)
  ]

  -- A shard that changed at the key alone.
  Moves-shard :
      (s : Store C) (shard : List (Bytes × ValueObject C)) (counts : ℕ → ℤ)
      (new : Option (ValueObject C))
      → ((k : Bytes)
          → find k shard
            ≡ (if equal_bytes key k then new else find k (s.shards (shard_index hash key))))
      → Moves hash key s
          (record {
            shards = update (shard_index hash key) shard s.shards;
            key_kind_counts = counts;
          })
          new
  Moves-shard s shard counts new h k =
      elim (Bool-cases (shard_index hash key == shard_index hash k)) [
        | inl same ↦
            let e : shard_index hash key ≡ shard_index hash k =
              (==_iff (shard_index hash key) (shard_index hash k)).0 same in
            rw same (h k ∙ ap (λ i. if equal_bytes key k then new else find k (s.shards i)) e)
        | inr other ↦ rw (other, other_shard hash key k other)
      ]

  pub Moves-put :
      (v : ValueObject C) (s : Store C) → Moves hash key s (put_in_shard hash key v s) (some v)
  Moves-put v s =
      Moves-shard s (put key v (s.shards (shard_index hash key))) s.key_kind_counts (some v)
        (λ k. find-put key k v (s.shards (shard_index hash key)))

  pub Moves-set :
      (v : ValueObject C) (s : Store C) → Moves hash key s (set_key_locked hash key v s) (some v)
  unfolding set_key_locked
  Moves-set v s =
      Moves-shard s (put key v (s.shards (shard_index hash key)))
        (set_key_locked hash key v s).key_kind_counts (some v)
        (λ k. find-put key k v (s.shards (shard_index hash key)))

  pub Moves-delete : (s : Store C) → Moves hash key s (delete_key_locked hash key s).0 none
  unfolding remove_key_locked
  Moves-delete s = elim (Option-cases (stored hash key s)) [
    | inl absent ↦ rw absent (λ k. Moves-same s k ∙ rw absent)
    | inr (v, present) ↦ rw present (
        Moves-shard s (discard key (s.shards (shard_index hash key)))
          (remove_key_locked hash key s).key_kind_counts none
          (λ k. find-discard key k (s.shards (shard_index hash key))))
  ]

  -- Behind `prepareExistingValueLocked`, the live value is what the shard holds.
  pub prepared :
      (now : ℤ) (s : Store C)
      → Moves hash key s
          (prepare_existing_value_locked hash key now s).0
          (prepare_existing_value_locked hash key now s).1
        × ((prepare_existing_value_locked hash key now s).1 ≡ live now (stored hash key s))
  prepared now s = elim (Option-cases (stored hash key s)) [
    | inl absent ↦ rw absent ((λ k. Moves-same s k ∙ rw absent), refl)
    | inr (v, present) ↦ elim (Bool-cases (is_expired v now)) [
      | inl dead ↦ rw (present, dead) ((λ k. Moves-delete s k ∙ refl), refl)
      | inr alive ↦ rw (present, alive) ((λ k. Moves-same s k ∙ rw present), refl)
    ]
  ]
