-- ===== src/Storage/IntSet/Sorted.antt =====
-- Sorted lists without repetition, and the functions that make them.
use runedb.Base.{
  ◌+◌, ◌≡◌, refl, inl, inr, Bool, true, false, ◌||◌, Bool-cases, List, [], ◌∷◌, length, arith,
  ltb→lt, ◌↔◌,
}
use runedb.Base.Int.{ℤ, ltb_ℤ, eqb_ℤ, ◌<ℤ◌}
use runedb.Storage.IntSet.{merge}

abbrev pub AllAbove : ℤ → List ℤ → Type 0
AllAbove w [] = Unit
AllAbove w (x ∷ xs) = (w <ℤ x) × AllAbove w xs

abbrev pub Ascending : List ℤ → Type 0
Ascending [] = Unit
Ascending (x ∷ xs) = AllAbove x xs × Ascending xs

-- Equality of integers, shut: proofs use `same_iff`.
unfoldable pub same : ℤ → ℤ → Bool
same a b = eqb_ℤ a b

pub same_iff : (a b : ℤ) → (same a b ≡ true) ↔ (a ≡ b)
unfolding same
same_iff a b = ground arith

pub trichotomy : (a b : ℤ) → ltb_ℤ a b ≡ false → ltb_ℤ b a ≡ false → a ≡ b
trichotomy a b h k = ground arith

abbrev pub has : ℤ → List ℤ → Bool
has z [] = false
has z (x ∷ xs) = same z x || has z xs

pub AllAbove-trans : (w x : ℤ) (xs : List ℤ) → w <ℤ x → AllAbove x xs → AllAbove w xs
AllAbove-trans w x [] h a = tt
AllAbove-trans w x (y ∷ xs) h a = (omega (arith, a.0), AllAbove-trans w x xs h a.1)

AllAbove-merge :
    (w : ℤ) (xs ys : List ℤ) → AllAbove w xs → AllAbove w ys → AllAbove w (merge xs ys).0
unfolding merge
AllAbove-merge w [] ys hx hy = hy
AllAbove-merge w (x ∷ xs) [] hx hy = hx
AllAbove-merge w (x ∷ xs) (y ∷ ys) hx hy = elim (Bool-cases (ltb_ℤ x y)) [
  | inl below ↦ rw below (hx.0, AllAbove-merge w xs (y ∷ ys) hx.1 hy)
  | inr over ↦ elim (Bool-cases (ltb_ℤ y x)) [
    | inl above ↦ rw (over, above) (hy.0, AllAbove-merge w (x ∷ xs) ys hx hy.1)
    | inr level ↦ rw (over, level) (hx.0, AllAbove-merge w xs ys hx.1 hy.1)
  ]
]

pub Ascending-merge : (xs ys : List ℤ) → Ascending xs → Ascending ys → Ascending (merge xs ys).0
unfolding merge
Ascending-merge [] ys hx hy = hy
Ascending-merge (x ∷ xs) [] hx hy = hx
Ascending-merge (x ∷ xs) (y ∷ ys) hx hy = elim (Bool-cases (ltb_ℤ x y)) [
  | inl below ↦
      let lt : x <ℤ y = ltb→lt _ _ below in
      rw below (
        AllAbove-merge x xs (y ∷ ys) hx.0 (lt, AllAbove-trans x y ys lt hy.0),
        Ascending-merge xs (y ∷ ys) hx.1 hy,
      )
  | inr over ↦ elim (Bool-cases (ltb_ℤ y x)) [
    | inl above ↦
        let lt : y <ℤ x = ltb→lt _ _ above in
        rw (over, above)
          (
            AllAbove-merge y (x ∷ xs) ys (lt, AllAbove-trans y x xs lt hx.0) hy.0,
            Ascending-merge (x ∷ xs) ys hx hy.1,
          )
    | inr level ↦
        rw (over, level)
          (
            AllAbove-merge x xs ys hx.0 (rw (trichotomy x y over level) hy.0),
            Ascending-merge xs ys hx.1 hy.1,
          )
  ]
]

or_regroup : (a b c : Bool) → a || (b || c) ≡ (a || b) || c
or_regroup a b c = ground arith

pub or_pull : (a b c : Bool) → a || (b || c) ≡ b || (a || c)
or_pull a b c = ground arith

or_twice : (a b c : Bool) → a || (b || c) ≡ (a || b) || (a || c)
or_twice a b c = ground arith

pub has-merge : (z : ℤ) (xs ys : List ℤ) → has z (merge xs ys).0 ≡ has z xs || has z ys
unfolding merge
has-merge z [] ys = refl
has-merge z (x ∷ xs) [] = ground arith
has-merge z (x ∷ xs) (y ∷ ys) = elim (Bool-cases (ltb_ℤ x y)) [
  | inl below ↦
      rw (below, has-merge z xs (y ∷ ys)) (or_regroup (same z x) (has z xs) (has z (y ∷ ys)))
  | inr over ↦ elim (Bool-cases (ltb_ℤ y x)) [
    | inl above ↦
        rw (over, above, has-merge z (x ∷ xs) ys) (or_pull (same z y) (has z (x ∷ xs)) (has z ys))
    | inr level ↦
        rw (over, level, has-merge z xs ys, trichotomy x y over level)
          (or_twice (same z y) (has z xs) (has z ys))
  ]
]

-- What the merge counts is what it adds.
pub length-merge : (xs ys : List ℤ) → length (merge xs ys).0 ≡ length xs + (merge xs ys).1
unfolding merge
length-merge [] ys = omega arith
length-merge (x ∷ xs) [] = omega arith
length-merge (x ∷ xs) (y ∷ ys) = elim (Bool-cases (ltb_ℤ x y)) [
  | inl below ↦ rw below (omega (arith, length-merge xs (y ∷ ys)))
  | inr over ↦ elim (Bool-cases (ltb_ℤ y x)) [
    | inl above ↦ rw (over, above) (omega (arith, length-merge (x ∷ xs) ys))
    | inr level ↦ rw (over, level) (omega (arith, length-merge xs ys))
  ]
]
