-- ===== src/Storage/Keyspace/Range.antt =====
-- ListRange against the positions that its indexes name.
use runedb.Base.{
  ℕ, zero, suc, ◌+◌, ◌-◌, ◌≤◌, ◌<◌, ◌==◌, ◌≡◌, refl, sym, ap, ◌∙◌, inl, inr, Bool, true, false,
  ◌&&◌, Bool-cases, none, some, List, [], ◌∷◌, Bytes, ltb, leb, length, take, drop, if◌then◌else◌,
  arith,
}
use runedb.Base.Int.{ℤ, pos, negsuc}
use runedb.Storage.Keyspace.Ops.{
  normalize_list_index, range_from, range_between, normalize_list_range, slice_of,
}

-- Position `i` of a list of `n` items is not before `start`, not behind `stop`; a negative index counts
-- from the end.
abbrev pub from_start : ℕ → ℤ → ℕ → Bool
from_start n (pos a) i = leb a i
from_start n (negsuc a) i = leb n (i + suc a)

abbrev pub to_stop : ℕ → ℤ → ℕ → Bool
to_stop n (pos b) i = leb i b
to_stop n (negsuc b) i = leb (i + suc b) n

-- The items whose position, from `i` on, passes a test.
abbrev pub selected : (ℕ → Bool) → ℕ → List Bytes → List Bytes
selected test i [] = []
selected test i (x ∷ xs) = if test i then x ∷ selected test (suc i) xs else selected test (suc i) xs

selected_same :
    (test test' : ℕ → Bool) (i n : ℕ) (xs : List Bytes)
    → i + length xs ≡ n
    → ((j : ℕ) → j < n → test j ≡ test' j)
    → selected test i xs ≡ selected test' i xs
selected_same test test' i n [] e h = refl
selected_same test test' i n (x ∷ xs) e h =
    let rest = selected_same test test' (suc i) n xs (omega (arith, e)) h in
    rw (h i (omega (arith, e)), rest)

nothing_selected : (i : ℕ) (xs : List Bytes) → selected (λ j. false) i xs ≡ []
nothing_selected i [] = refl
nothing_selected i (x ∷ xs) = nothing_selected (suc i) xs

abbrev inside : ℕ → ℕ → ℕ → Bool
inside from to j = leb from j && leb j to

past : (from to i : ℕ) (xs : List Bytes) → to < i → selected (inside from to) i xs ≡ []
past from to i [] h = refl
past from to i (x ∷ xs) h =
    let out : inside from to i ≡ false = ground (arith, h) in
    rw out (past from to (suc i) xs (omega (arith, h)))

-- From a position in the window on.
window :
    (from to i d : ℕ) (xs : List Bytes)
    → from ≤ i
    → i + d ≡ suc to
    → selected (inside from to) i xs ≡ take d xs
window from to i zero xs h e = past from to i xs (omega (arith, e))
window from to i (suc d) [] h e = refl
window from to i (suc d) (x ∷ xs) h e =
    let in_ : inside from to i ≡ true = ground (arith, h, e) in
    rw in_ (ap (◌∷◌ x) (window from to (suc i) d xs (omega (arith, h)) (omega (arith, e))))

-- From a position before the window on.
before :
    (from to i d : ℕ) (xs : List Bytes)
    → i + d ≡ from
    → from ≤ to
    → selected (inside from to) i xs ≡ take (to + 1 - from) (drop d xs)
before from to i zero xs e h =
    window from to i (to + 1 - from) xs (omega (arith, e)) (omega (arith, e, h))
before from to i (suc d) [] e h = sym (take_empty (to + 1 - from))
  where
    take_empty : (n : ℕ) → take {A = Bytes} n [] ≡ []
    take_empty zero = refl
    take_empty (suc n) = refl
before from to i (suc d) (x ∷ xs) e h =
    let out : inside from to i ≡ false = ground (arith, e) in
    rw out (before from to (suc i) d xs (omega (arith, e)) h)

start_position :
    (n : ℕ) (start : ℤ) (j : ℕ)
    → j < n
    → from_start n start j ≡ leb (range_from (normalize_list_index n start)) j
start_position n (pos a) j h = elim (Bool-cases (leb n a)) [
  | inl beyond ↦ rw beyond (ground (arith, beyond, h))
  | inr within ↦ rw within
]
start_position n (negsuc a) j h = elim (Bool-cases (ltb n (suc a))) [
  | inl below ↦ rw below (ground (arith, below))
  | inr within ↦ rw within (ground (arith, within))
]

-- The window between two positions, cut at the end of the list.
between :
    (n from to : ℕ) (xs : List Bytes)
    → length xs ≡ n
    → slice_of (range_between n from (pos to)) xs ≡ selected (inside from to) 0 xs
between n from to xs e = elim (Bool-cases (leb n from)) [
  | inl beyond ↦ rw beyond (
      sym (
        selected_same (inside from to) (λ j. false) 0 n xs (omega (arith, e))
          (λ j h. ground (arith, beyond, h))
        ∙ nothing_selected 0 xs))
  | inr within ↦ elim (Bool-cases (leb n to)) [
    | inl over ↦ rw (within, over) (cut_at (n - 1) (λ j h. ground (arith, over, h)))
    | inr inner ↦ rw (within, inner) (cut_at to (λ j h. refl))
  ]
]
  where
    cut_at :
        (last : ℕ)
        → ((j : ℕ) → j < n → inside from to j ≡ inside from last j)
        → slice_of (if ltb last from then none else some (from, last)) xs
          ≡ selected (inside from to) 0 xs
    cut_at last h = elim (Bool-cases (ltb last from)) [
      | inl empty ↦ rw empty (
          sym (
            selected_same (inside from to) (λ j. false) 0 n xs (omega (arith, e))
              (λ j below. h j below ∙ ground (arith, empty))
            ∙ nothing_selected 0 xs))
      | inr full ↦ rw full (
          sym (
            selected_same (inside from to) (inside from last) 0 n xs (omega (arith, e)) h
            ∙ before from last 0 from xs (omega arith) (ground (arith, full))))
    ]

-- LRANGE returns, in order, the items whose positions are not before `start` and not behind `stop`,
-- where a negative index counts from the end of the list, however far out the indexes are.
pub normalize_list_range-selected :
    (start stop : ℤ) (xs : List Bytes)
    → slice_of (normalize_list_range (length xs) start stop) xs
      ≡ selected (λ i. from_start (length xs) start i && to_stop (length xs) stop i) 0 xs
unfolding normalize_list_range
normalize_list_range-selected start stop [] = refl
normalize_list_range-selected start stop (x ∷ xs) =
    let some_item : (length (x ∷ xs) == 0) ≡ false = ground arith in
    rw some_item (
      positions (length (x ∷ xs)) (x ∷ xs)
        (range_from (normalize_list_index (length (x ∷ xs)) start)) refl
        (start_position (length (x ∷ xs)) start) stop)
  where
    positions :
        (n : ℕ) (ys : List Bytes) (from : ℕ)
        → length ys ≡ n
        → ((j : ℕ) → j < n → from_start n start j ≡ leb from j)
        → (stop : ℤ)
        → slice_of (range_between n from (normalize_list_index n stop)) ys
          ≡ selected (λ i. from_start n start i && to_stop n stop i) 0 ys
    positions n ys from e h (pos b) = elim (Bool-cases (leb n b)) [
      | inl over ↦ rw over (
          between n from n ys e
          ∙ selected_same (inside from n) (λ i. from_start n start i && leb i b) 0 n ys
              (omega (arith, e)) (λ j below. rw (h j below) (ground (arith, over, below))))
      | inr inner ↦ rw inner (
          between n from b ys e
          ∙ selected_same (inside from b) (λ i. from_start n start i && leb i b) 0 n ys
              (omega (arith, e)) (λ j below. rw (h j below)))
    ]
    positions n ys from e h (negsuc b) = elim (Bool-cases (ltb n (suc b))) [
      | inl below_all ↦ rw below_all (
          sym (
            selected_same (λ i. from_start n start i && leb (i + suc b) n) (λ j. false) 0 n ys
              (omega (arith, e)) (λ j below. rw (h j below) (ground (arith, below_all)))
            ∙ nothing_selected 0 ys))
      | inr inner ↦ rw inner (
          between n from (n - suc b) ys e
          ∙ selected_same (inside from (n - suc b)) (λ i. from_start n start i && leb (i + suc b) n)
              0 n ys (omega (arith, e)) (λ j below. rw (h j below) (ground (arith, inner))))
    ]
