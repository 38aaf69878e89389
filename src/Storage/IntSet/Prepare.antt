-- ===== src/Storage/IntSet/Prepare.antt =====
-- `slices.Sort`, `compactUniqueInts`, `slices.BinarySearch` and `slices.Delete` on lists of integers.
use runedb.Base.{
  ℕ, zero, suc, ◌≡◌, refl, sym, ap, ◌∙◌, inl, inr, Bool, true, false, not, ◌&&◌, ◌||◌, Bool-cases,
  List, [], ◌∷◌, arith,
}
use runedb.Base.Int.{ℤ, ltb_ℤ, eqb_ℤ, ◌<ℤ◌}
use runedb.Storage.IntSet.{
  insert_sorted, sort, unique_after, compact_unique_ints, binary_search, delete_at,
}
use runedb.Storage.IntSet.Sorted.{
  AllAbove, Ascending, AllAbove-trans, has, same, same_iff, trichotomy, or_pull,
}

-- No element is less than `w`, and each is at least the one before.
abbrev AllFrom : ℤ → List ℤ → Type 0
AllFrom w [] = Unit
AllFrom w (x ∷ xs) = (ltb_ℤ x w ≡ false) × AllFrom w xs

abbrev Rising : List ℤ → Type 0
Rising [] = Unit
Rising (x ∷ xs) = AllFrom x xs × Rising xs

not_below : (a b : ℤ) → ltb_ℤ a b ≡ true → ltb_ℤ b a ≡ false
not_below a b h = ground arith

not_below_trans : (a b c : ℤ) → ltb_ℤ b a ≡ false → ltb_ℤ c b ≡ false → ltb_ℤ c a ≡ false
not_below_trans a b c h k = ground arith

AllFrom-trans : (w x : ℤ) (xs : List ℤ) → ltb_ℤ x w ≡ false → AllFrom x xs → AllFrom w xs
AllFrom-trans w x [] h a = tt
AllFrom-trans w x (y ∷ xs) h a = (not_below_trans w x y h a.0, AllFrom-trans w x xs h a.1)

AllFrom-insert_sorted :
    (w v : ℤ) (xs : List ℤ) → ltb_ℤ v w ≡ false → AllFrom w xs → AllFrom w (insert_sorted v xs)
unfolding insert_sorted
AllFrom-insert_sorted w v [] h a = (h, tt)
AllFrom-insert_sorted w v (x ∷ xs) h a = elim (Bool-cases (ltb_ℤ x v)) [
  | inl below ↦ rw below (a.0, AllFrom-insert_sorted w v xs h a.1)
  | inr here ↦ rw here (h, a)
]

Rising-insert_sorted : (v : ℤ) (xs : List ℤ) → Rising xs → Rising (insert_sorted v xs)
unfolding insert_sorted
Rising-insert_sorted v [] r = (tt, tt)
Rising-insert_sorted v (x ∷ xs) r = elim (Bool-cases (ltb_ℤ x v)) [
  | inl below ↦
      rw below
        (AllFrom-insert_sorted x v xs (not_below x v below) r.0, Rising-insert_sorted v xs r.1)
  | inr here ↦ rw here ((here, AllFrom-trans v x xs here r.0), r)
]

Rising-sort : (xs : List ℤ) → Rising (sort xs)
unfolding sort
Rising-sort [] = tt
Rising-sort (x ∷ xs) = Rising-insert_sorted x (sort xs) (Rising-sort xs)

has-insert_sorted : (z v : ℤ) (xs : List ℤ) → has z (insert_sorted v xs) ≡ same z v || has z xs
unfolding insert_sorted
has-insert_sorted z v [] = refl
has-insert_sorted z v (x ∷ xs) = elim (Bool-cases (ltb_ℤ x v)) [
  | inl below ↦ rw (below, has-insert_sorted z v xs) (or_pull (same z x) (same z v) (has z xs))
  | inr here ↦ rw here
]

has-sort : (z : ℤ) (xs : List ℤ) → has z (sort xs) ≡ has z xs
unfolding sort
has-sort z [] = refl
has-sort z (x ∷ xs) = has-insert_sorted z x (sort xs) ∙ ap (λ b. same z x || b) (has-sort z xs)

equal_iff : (a b : ℤ) → eqb_ℤ a b ≡ true → a ≡ b
equal_iff a b h = ground arith

above_last : (last v : ℤ) → ltb_ℤ v last ≡ false → eqb_ℤ v last ≡ false → last <ℤ v
above_last last v h k = ground (arith, trichotomy last v)

unique_after-Ascending :
    (last : ℤ) (vs : List ℤ)
    → AllFrom last vs
    → Rising vs
    → AllAbove last (unique_after last vs) × Ascending (unique_after last vs)
unfolding unique_after
unique_after-Ascending last [] a r = (tt, tt)
unique_after-Ascending last (v ∷ vs) a r = elim (Bool-cases (eqb_ℤ v last)) [
  | inl again ↦ rw again (unique_after-Ascending last vs a.1 r.1)
  | inr new ↦
      let lt = above_last last v a.0 new in
      let later = unique_after-Ascending v vs r.0 r.1 in
      rw new ((lt, AllAbove-trans last v (unique_after v vs) lt later.0), later)
]

or_absorb : (a b : Bool) → a || (a || b) ≡ a || b
or_absorb a b = ground arith

has-unique_after :
    (z last : ℤ) (vs : List ℤ)
    → same z last || has z (unique_after last vs) ≡ same z last || has z vs
unfolding unique_after
has-unique_after z last [] = refl
has-unique_after z last (v ∷ vs) = elim (Bool-cases (eqb_ℤ v last)) [
  | inl again ↦ rw again (
      has-unique_after z last vs
      ∙ rw (equal_iff v last again) (sym (or_absorb (same z last) (has z vs))))
  | inr new ↦ rw (new, has-unique_after z v vs)
]

-- What `addMany` and `newIntSet` merge: sorted, without repetition, and the same integers.
pub prepared-Ascending : (xs : List ℤ) → Ascending (compact_unique_ints (sort xs))
prepared-Ascending xs = compacted (sort xs) (Rising-sort xs)
  where
    compacted : (ys : List ℤ) → Rising ys → Ascending (compact_unique_ints ys)
    compacted [] r = unfold compact_unique_ints in tt
    compacted (y ∷ ys) r = unfold compact_unique_ints in unique_after-Ascending y ys r.0 r.1

has-compact_unique_ints : (z : ℤ) (xs : List ℤ) → has z (compact_unique_ints xs) ≡ has z xs
unfolding compact_unique_ints
has-compact_unique_ints z [] = refl
has-compact_unique_ints z (x ∷ xs) = has-unique_after z x xs

pub has_prepared : (z : ℤ) (xs : List ℤ) → has z (compact_unique_ints (sort xs)) ≡ has z xs
has_prepared z xs = has-compact_unique_ints z (sort xs) ∙ has-sort z xs

-- What is above `v` is not `v`.
has-AllAbove : (v w : ℤ) (xs : List ℤ) → ltb_ℤ w v ≡ false → AllAbove w xs → has v xs ≡ false
unfolding same
has-AllAbove v w [] h a = refl
has-AllAbove v w (x ∷ xs) h a = ground (arith, has-AllAbove v w xs h a.1)

pub binary_search-has : (v : ℤ) (xs : List ℤ) → Ascending xs → (binary_search xs v).1 ≡ has v xs
unfolding binary_search
binary_search-has v [] a = refl
binary_search-has v (x ∷ xs) a = elim (Bool-cases (ltb_ℤ x v)) [
  | inl below ↦ rw (below, binary_search-has v xs a.1, different v x below)
  | inr here ↦ rw (here, has-AllAbove v x xs here a.0) (flip_same v x)
]
  where
    different : (v x : ℤ) → ltb_ℤ x v ≡ true → same v x ≡ false
    different v x h = unfold same in ground arith

    flip_same : (v x : ℤ) → eqb_ℤ x v ≡ same v x || false
    flip_same v x = unfold same in ground arith

and_other : (a b c : Bool) → (a ≡ true → c ≡ false) → a || (b && not c) ≡ (a || b) && not c
and_other a b c h = ground (arith, h)

and_this : (b c : Bool) → (c ≡ true → b ≡ false) → b ≡ (c || b) && not c
and_this b c h = ground (arith, h)

-- Deleting at the position found takes out that integer, and no other.
pub has-delete_at :
    (z v : ℤ) (xs : List ℤ)
    → Ascending xs
    → (binary_search xs v).1 ≡ true
    → has z (delete_at (binary_search xs v).0 xs) ≡ has z xs && not (same z v)
unfolding binary_search delete_at
has-delete_at z v [] a h = cc
has-delete_at z v (x ∷ xs) a h = elim (Bool-cases (ltb_ℤ x v)) [
  | inl below ↦
      rw (below, has-delete_at z v xs a.1 (rw below at h))
        (and_other (same z x) (has z xs) (same z v)
          (λ e. rw ((same_iff z x).0 e) (lower x v below)))
  | inr here ↦
      let hit : x ≡ v = equal_iff x v (rw here at h) in
      rw here (
        and_this (has z xs) (same z v) (λ e. rw ((same_iff z v).0 e) (has-AllAbove v x xs here a.0))
        ∙ rw hit)
]
  where
    lower : (x v : ℤ) → ltb_ℤ x v ≡ true → same x v ≡ false
    lower x v e = unfold same in ground arith

AllAbove-delete_at : (w : ℤ) (i : ℕ) (xs : List ℤ) → AllAbove w xs → AllAbove w (delete_at i xs)
unfolding delete_at
AllAbove-delete_at w zero [] a = tt
AllAbove-delete_at w (suc i) [] a = tt
AllAbove-delete_at w zero (x ∷ xs) a = a.1
AllAbove-delete_at w (suc i) (x ∷ xs) a = (a.0, AllAbove-delete_at w i xs a.1)

pub Ascending-delete_at : (i : ℕ) (xs : List ℤ) → Ascending xs → Ascending (delete_at i xs)
unfolding delete_at
Ascending-delete_at zero [] a = tt
Ascending-delete_at (suc i) [] a = tt
Ascending-delete_at zero (x ∷ xs) a = a.1
Ascending-delete_at (suc i) (x ∷ xs) a =
    (AllAbove-delete_at x i xs a.0, Ascending-delete_at i xs a.1)
