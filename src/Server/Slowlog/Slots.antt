-- ===== src/Server/Slowlog/Slots.antt =====
-- The index arithmetic of the ring: where the `i`-th newest entry lies before and after a `Record`.
use native.Mathlib.Nat.{mod-eq_of_lt, mod-eq-sub-mod}
use runedb.Base.{
  ℕ, suc, ◌+◌, ◌-◌, ◌%◌, ◌≤◌, ◌<◌, ◌≡◌, ◌≢◌, ◌⊎◌, inl, inr, ap, ◌∙◌, Bool-cases, ltb, arith,
}

-- A remainder below three times the divisor.
abbrev Wrapped : ℕ → ℕ → Type 0
Wrapped x n =
    ((x < n) × (x % n ≡ x))
    ⊎ ((n ≤ x) × (x < n + n) × (x % n ≡ x - n))
    ⊎ ((n + n ≤ x) × (x % n ≡ x - n - n))

wrap : (x n : ℕ) → x < n + n + n → Wrapped x n
wrap x n h = elim (Bool-cases (ltb x n)) [
  | inl small ↦ inl (ground arith, mod-eq_of_lt (ground arith))
  | inr large ↦
      let past : n ≤ x = ground arith in
      elim (Bool-cases (ltb x (n + n))) [
        | inl once ↦
            inr (inl (past, ground arith, mod-eq-sub-mod past ∙ mod-eq_of_lt (ground arith)))
        | inr twice ↦
            let past' : n ≤ x - n = ground arith in
            inr (
              inr (
                ground arith,
                mod-eq-sub-mod past ∙ (mod-eq-sub-mod past' ∙ mod-eq_of_lt (omega arith)),
              ))
      ]
]

-- The index of the `i`-th newest entry, as `Entries` computes it.
abbrev pub slot : ℕ → ℕ → ℕ → ℕ → ℕ
slot start count n i = (start + count - 1 - i + n) % n

pub slot-lt : (start count n i : ℕ) → start < n → count ≤ n → slot start count n i < n
slot-lt start count n i h c = omega arith

module _ (start n : ℕ) (in_ring : start < n) where
  pub slot_overwritten : slot ((start + 1) % n) n n 0 ≡ start
  slot_overwritten = omega (
    arith,
    wrap (start + 1) n (omega arith),
    wrap ((start + 1) % n + n - 1 - 0 + n) n (omega arith),
  )

  pub slot_kept : (i : ℕ) → suc i < n → slot ((start + 1) % n) n n (suc i) ≡ slot start n n i
  slot_kept i h = omega (
    arith,
    wrap (start + 1) n (omega arith),
    wrap ((start + 1) % n + n - 1 - suc i + n) n (omega arith),
    wrap (start + n - 1 - i + n) n (omega arith),
  )

  pub slot_ne_start : (i : ℕ) → suc i < n → slot start n n i ≢ start
  slot_ne_start i h = omega (arith, wrap (start + n - 1 - i + n) n (omega arith))

  module _ (count : ℕ) (room : count < n) where
    pub slot_added : slot start (count + 1) n 0 ≡ (start + count) % n
    slot_added = omega (
      arith,
      wrap (start + count) n (omega arith),
      wrap (start + (count + 1) - 1 - 0 + n) n (omega arith),
    )

    pub slot_later : (i : ℕ) → i < count → slot start (count + 1) n (suc i) ≡ slot start count n i
    slot_later i h = ap (λ (k : ℕ). k % n) (omega arith)

    pub slot_ne_added : (i : ℕ) → i < count → slot start count n i ≢ (start + count) % n
    slot_ne_added i h = omega (
      arith,
      wrap (start + count) n (omega arith),
      wrap (start + count - 1 - i + n) n (omega arith),
    )
