-- ===== src/Storage/Keyspace/Counts.antt =====
-- The number of keys of each kind in a shard and in the store.
use runedb.Base.{
  ℕ, zero, suc, ◌+◌, ◌<◌, ◌≤◌, ◌==◌, ◌≡◌, refl, ap, ◌∙◌, inl, inr, false, Bool-cases, Option, none,
  some, List, [], ◌∷◌, Bytes, if◌then◌else◌, equal_bytes, equal_bytes_iff, equal_bytes_sym, ==_iff,
  arith,
}
use runedb.Storage.Keyspace.{
  ValueObject, find, put, discard, update, kind_index, count_kind, sum_below, default_shard_count,
  shard_index,
}
use runedb.Storage.Keyspace.Refines.{find-put, find-discard}

module _ {ℓ} {C : Type ℓ} where
  -- Every key of a shard occurs once.
  abbrev pub IsUnique : List (Bytes × ValueObject C) → Type ℓ
  IsUnique [] = Unit
  IsUnique ((k, v) ∷ shard) = (find k shard ≡ none) × IsUnique shard

  -- One for a value of the kind.
  abbrev pub of_kind : ℕ → Option (ValueObject C) → ℕ
  of_kind i none = 0
  of_kind i (some v) = if kind_index v == i then 1 else 0

  pub count_kind-put :
      (i : ℕ) (key : Bytes) (v : ValueObject C) (shard : List (Bytes × ValueObject C))
      → count_kind i (put key v shard) + of_kind i (find key shard)
        ≡ count_kind i shard + of_kind i (some v)
  count_kind-put i key v [] = ground arith
  count_kind-put i key v ((k, u) ∷ shard) = elim (Bool-cases (equal_bytes k key)) [
    | inl same ↦ rw same (ground arith)
    | inr other ↦ rw other (let rest = count_kind-put i key v shard in ground (arith, rest))
  ]

  discard_absent :
      (key : Bytes) (shard : List (Bytes × ValueObject C))
      → find key shard ≡ none
      → discard key shard ≡ shard
  discard_absent key [] h = refl
  discard_absent key ((k, u) ∷ shard) h = elim (Bool-cases (equal_bytes k key)) [
    | inl same ↦ absurd (some_none (rw same at h))
    | inr other ↦ rw other (ap (◌∷◌ (k, u)) (discard_absent key shard (rw other at h)))
  ]
    where
      some_none : {v : ValueObject C} → some v ≡ none → ⊥
      some_none h = cc

  pub count_kind-discard :
      (i : ℕ) (key : Bytes) (shard : List (Bytes × ValueObject C))
      → IsUnique shard
      → count_kind i (discard key shard) + of_kind i (find key shard) ≡ count_kind i shard
  count_kind-discard i key [] u = ground arith
  count_kind-discard i key ((k, v) ∷ shard) u = elim (Bool-cases (equal_bytes k key)) [
    | inl same ↦
        let gone : discard key shard ≡ shard =
          discard_absent key shard (rw (← (equal_bytes_iff k key).0 same) u.0) in
        rw (same, gone) (ground arith)
    | inr other ↦ rw other (let rest = count_kind-discard i key shard u.1 in ground (arith, rest))
  ]

  pub IsUnique-put :
      (key : Bytes) (v : ValueObject C) (shard : List (Bytes × ValueObject C))
      → IsUnique shard
      → IsUnique (put key v shard)
  IsUnique-put key v [] u = (refl, tt)
  IsUnique-put key v ((k, w) ∷ shard) u = elim (Bool-cases (equal_bytes k key)) [
    | inl same ↦ rw same (rw ((equal_bytes_iff k key).0 same) at u.0, u.1)
    | inr other ↦
        let apart : equal_bytes key k ≡ false = equal_bytes_sym key k ∙ other in
        let absent : find k (put key v shard) ≡ none = find-put key k v shard ∙ rw apart u.0 in
        rw other (absent, IsUnique-put key v shard u.1)
  ]

  pub IsUnique-discard :
      (key : Bytes) (shard : List (Bytes × ValueObject C))
      → IsUnique shard
      → IsUnique (discard key shard)
  IsUnique-discard key [] u = u
  IsUnique-discard key ((k, w) ∷ shard) u = elim (Bool-cases (equal_bytes k key)) [
    | inl same ↦ rw same (IsUnique-discard key shard u.1)
    | inr other ↦
        let apart : equal_bytes key k ≡ false = equal_bytes_sym key k ∙ other in
        let absent : find k (discard key shard) ≡ none = find-discard key k shard ∙ rw apart u.0 in
        rw other (absent, IsUnique-discard key shard u.1)
  ]

module _ {ℓ} {A : Type ℓ} where
  sum_above :
      (n i : ℕ) (x : A) (f : A → ℕ) (g : ℕ → A)
      → n ≤ i
      → sum_below n (λ j. f (update i x g j)) ≡ sum_below n (λ j. f (g j))
  sum_above zero i x f g h = refl
  sum_above (suc n) i x f g h =
      let apart : (i == n) ≡ false = ground (arith, h) in
      rw apart (let rest = sum_above n i x f g (omega (arith, h)) in rw rest)

  -- A sum in which one term changes.
  pub sum_below-update :
      (n i : ℕ) (x : A) (f : A → ℕ) (g : ℕ → A)
      → i < n
      → sum_below n (λ j. f (update i x g j)) + f (g i) ≡ sum_below n (λ j. f (g j)) + f x
  sum_below-update zero i x f g h = absurd (omega (arith, h))
  sum_below-update (suc n) i x f g h = elim (Bool-cases (i == n)) [
    | inl same ↦
        let e : i ≡ n = (==_iff i n).0 same in
        let before = sum_above n i x f g (omega (arith, e)) in
        rw same (omega (arith, before, ap (λ j. f (g j)) e))
    | inr other ↦
        let below : i < n = ground (arith, h, other) in
        let rest = sum_below-update n i x f g below in rw other (omega (arith, rest))
  ]

pub shard_index_below :
    (hash : Bytes → ℕ) (key : Bytes) → shard_index hash key < default_shard_count
unfolding default_shard_count
shard_index_below hash key = omega arith
