-- ===== src/Storage/IntSet/Contents.antt =====
-- The set as its callers see it: which byte strings it contains.
use runedb.Base.{
  ℕ, ◌+◌, ◌≡◌, refl, sym, ap, ◌∙◌, inl, inr, Bool, true, false, not, ◌&&◌, ◌||◌, Bool-cases, none,
  some, Option-cases, List, [], ◌∷◌, Bytes, equal_bytes, equal_bytes_iff, arith,
}
use runedb.Base.Int.{ℤ}
use runedb.Protocol.Number.{format_int}
use runedb.Storage.IntSet.{
  IntSet, parse_int_set_member, parse_int_set_members, new_int_set, add_many, sort,
  compact_unique_ints, merge, contains, remove, binary_search, delete_at, len, parse_int,
}
use runedb.Storage.IntSet.Sorted.{
  Ascending, has, same, same_iff, has-merge, length-merge, Ascending-merge,
}
use runedb.Storage.IntSet.Prepare.{
  prepared-Ascending, has_prepared, binary_search-has, has-delete_at, Ascending-delete_at,
}

-- The invariant of an IntSet: strictly ascending values.
pub record IsSorted (s : IntSet) : Type 0 where
  pub ascending : Ascending s.values

-- Whether a byte string stands in a list.
abbrev pub listed : Bytes → List Bytes → Bool
listed m [] = false
listed m (x ∷ xs) = equal_bytes m x || listed m xs

-- A member is the text that its integer prints.
member_text : (m : Bytes) (v : ℤ) → parse_int_set_member m ≡ some v → format_int v ≡ m
unfolding parse_int_set_member
member_text m v h = elim (Option-cases (parse_int m)) [
  | inl e ↦ ground arith
  | inr (w, e) ↦ ground (arith, equal_bytes_iff (format_int w) m)
]

-- Two members are the same text exactly when they are the same integer.
same_text :
    (m x : Bytes) (v w : ℤ)
    → parse_int_set_member m ≡ some v
    → parse_int_set_member x ≡ some w
    → equal_bytes m x ≡ same v w
same_text m x v w h k =
    bool_eq (equal_bytes m x) (same v w)
      (λ e.
        (same_iff v w).1
          (injective (sym h ∙ ap parse_int_set_member ((equal_bytes_iff m x).0 e) ∙ k)))
      (λ e.
        (equal_bytes_iff m x).1
          (sym (member_text m v h) ∙ ap format_int ((same_iff v w).0 e) ∙ member_text x w k))
  where
    bool_eq : (a b : Bool) → (a ≡ true → b ≡ true) → (b ≡ true → a ≡ true) → a ≡ b
    bool_eq true b f g = sym (f refl)
    bool_eq false true f g = g refl
    bool_eq false false f g = refl

    injective : {a b : ℤ} → some a ≡ some b → a ≡ b
    injective e = cc

listed-has :
    (m : Bytes) (v : ℤ) (ms : List Bytes) (values : List ℤ)
    → parse_int_set_member m ≡ some v
    → parse_int_set_members ms ≡ some values
    → listed m ms ≡ has v values
unfolding parse_int_set_members
listed-has m v [] values h k = ground arith
listed-has m v (x ∷ ms) values h k = elim (Option-cases (parse_int_set_member x)) [
  | inl e ↦ ground arith
  | inr (w, e) ↦ elim (Option-cases (parse_int_set_members ms)) [
    | inl e' ↦ ground arith
    | inr (ws, e') ↦
        let parts : values ≡ w ∷ ws = ground arith in
        rw (parts, same_text m x v w h e, listed-has m v ms ws h e')
  ]
]

-- A text that is no integer is no member of a list of integers.
listed-none :
    (m : Bytes) (ms : List Bytes) (values : List ℤ)
    → parse_int_set_member m ≡ none
    → parse_int_set_members ms ≡ some values
    → listed m ms ≡ false
unfolding parse_int_set_members
listed-none m [] values h k = refl
listed-none m (x ∷ ms) values h k = elim (Option-cases (parse_int_set_member x)) [
  | inl e ↦ ground arith
  | inr (w, e) ↦ elim (Option-cases (parse_int_set_members ms)) [
    | inl e' ↦ ground arith
    | inr (ws, e') ↦ elim (Bool-cases (equal_bytes m x)) [
      | inl hit ↦
          absurd (absent (sym h ∙ ap parse_int_set_member ((equal_bytes_iff m x).0 hit) ∙ e))
      | inr miss ↦ rw (miss, listed-none m ms ws h e')
    ]
  ]
]
  where
    absent : {w : ℤ} → none ≡ some w → ⊥
    absent e = cc

contains-has :
    (s : IntSet) (m : Bytes) (v : ℤ)
    → IsSorted s
    → parse_int_set_member m ≡ some v
    → contains s m ≡ has v s.values
unfolding contains
contains-has s m v i h = rw (h, contains) (binary_search-has v s.values i.ascending)

contains-none : (s : IntSet) (m : Bytes) → parse_int_set_member m ≡ none → contains s m ≡ false
unfolding contains
contains-none s m h = rw (h, contains)

-- What `addMany` returns where every member is an integer.
add_many_parts :
    (s s' : IntSet) (ms : List Bytes) (n : ℕ)
    → add_many s ms ≡ some (s', n)
    → (values : List ℤ) × (parse_int_set_members ms ≡ some values)
      × (s'.values ≡ (merge s.values (compact_unique_ints (sort values))).0)
      × (n ≡ (merge s.values (compact_unique_ints (sort values))).1)
unfolding add_many
add_many_parts s s' ms n h = elim (Option-cases (parse_int_set_members ms)) [
  | inl e ↦ absurd (ground arith)
  | inr (values, e) ↦ (values, e, ground arith, ground arith)
]

module _ (s s' : IntSet) (ms : List Bytes) (n : ℕ) (sorted : IsSorted s)
    (added : add_many s ms ≡ some (s', n)) where
  -- Where `addMany` succeeds on a set with strictly ascending values, the new values are strictly
  -- ascending.
  pub add_many-IsSorted : IsSorted s'
  add_many-IsSorted =
      let (values, e, v, k) = add_many_parts s s' ms n added in
      record {
        ascending = rw v (Ascending-merge s.values _ sorted.ascending (prepared-Ascending values));
      }

  -- Where `addMany` succeeds on a set with strictly ascending values, the set then contains what it
  -- contained and the members given, and nothing else.
  pub contains-add_many : (m : Bytes) → contains s' m ≡ contains s m || listed m ms
  contains-add_many m =
      let (values, e, v, k) = add_many_parts s s' ms n added in
      elim (Option-cases (parse_int_set_member m)) [
        | inl no_int ↦
            rw (
              contains-none s' m no_int,
              contains-none s m no_int,
              listed-none m ms values no_int e,
            )
        | inr (z, int) ↦ rw (
          contains-has s' m z add_many-IsSorted int,
          contains-has s m z sorted int,
          listed-has m z ms values int e,
          v,
          has-merge z s.values (compact_unique_ints (sort values)),
          has_prepared z values,
        )
      ]

  -- Where `addMany` succeeds on a set with strictly ascending values, its count is the number of
  -- values that the set has gained.
  pub len-add_many : len s' ≡ len s + n
  len-add_many =
      let (values, e, v, k) = add_many_parts s s' ms n added in
      rw (v, k) (length-merge s.values (compact_unique_ints (sort values)))

remove_miss : (s : IntSet) (m : Bytes) → contains s m ≡ false → remove s m ≡ (s, false)
unfolding contains remove
remove_miss s m h = elim (Option-cases (parse_int_set_member m)) [
  | inl e ↦ rw (e, remove)
  | inr (v, e) ↦ rw (e, remove) (rw (rw (e, contains) at h))
]

remove_hit :
    (s : IntSet) (m : Bytes)
    → contains s m ≡ true
    → (v : ℤ) × (parse_int_set_member m ≡ some v)
      × ((binary_search s.values v).1 ≡ true)
      × (remove s m ≡ (record { values = delete_at (binary_search s.values v).0 s.values }, true))
unfolding contains remove
remove_hit s m h = elim (Option-cases (parse_int_set_member m)) [
  | inl e ↦ absurd (absent (rw (e, contains) at h))
  | inr (v, e) ↦ let found = rw (e, contains) at h in (v, e, found, rw (e, remove) (rw found))
]
  where
    absent : false ≡ true → ⊥
    absent e = cc

-- Without the member, taking it out changes nothing.
contains_other :
    (s : IntSet) (m x : Bytes)
    → contains s m ≡ false
    → contains s x ≡ contains s x && not (equal_bytes x m)
contains_other s m x h = elim (Bool-cases (equal_bytes x m)) [
  | inl hit ↦ rw ((equal_bytes_iff x m).0 hit, h)
  | inr miss ↦ rw miss (always (contains s x))
]
  where
    always : (b : Bool) → b ≡ b && true
    always true = refl
    always false = refl

contains_deleted :
    (s : IntSet) (m x : Bytes) (v : ℤ)
    → IsSorted s
    → parse_int_set_member m ≡ some v
    → (binary_search s.values v).1 ≡ true
    → contains (record { values = delete_at (binary_search s.values v).0 s.values }) x
      ≡ contains s x && not (equal_bytes x m)
contains_deleted s m x v sorted e found =
    let smaller : IsSorted (record { values = delete_at (binary_search s.values v).0 s.values }) =
      record { ascending = Ascending-delete_at _ s.values sorted.ascending } in
    elim (Option-cases (parse_int_set_member x)) [
      | inl no_int ↦ rw (contains-none _ x no_int, contains-none s x no_int)
      | inr (z, int) ↦
          rw
            (contains-has _ x z smaller int, contains-has s x z sorted int, same_text x m z v int e)
            (has-delete_at z v s.values sorted.ascending found)
    ]

-- On a set with strictly ascending values, `remove` reports whether the member was there, keeps the
-- values strictly ascending, and takes out that member alone.
pub remove_lem :
    (s : IntSet) (m : Bytes)
    → IsSorted s
    → ((remove s m).1 ≡ contains s m)
      × IsSorted (remove s m).0
      × ((x : Bytes) → contains (remove s m).0 x ≡ contains s x && not (equal_bytes x m))
remove_lem s m sorted = elim (Bool-cases (contains s m)) [
  | inl there ↦
      let (v, e, found, r) = remove_hit s m there in
      rw (r, there)
        (
          refl,
          record { ascending = Ascending-delete_at _ s.values sorted.ascending },
          λ x. contains_deleted s m x v sorted e found,
        )
  | inr gone ↦ rw (remove_miss s m gone) (sym gone, sorted, λ x. contains_other s m x gone)
]

-- A set that `newIntSet` makes contains exactly the members that it was made of.
pub contains-new_int_set :
    (ms : List Bytes) (s : IntSet) (m : Bytes)
    → new_int_set ms ≡ some s
    → contains s m ≡ listed m ms
unfolding new_int_set
contains-new_int_set ms s m h = elim (Option-cases (parse_int_set_members ms)) [
  | inl e ↦ absurd (ground arith)
  | inr (values, e) ↦
      let made : s ≡ record { values = compact_unique_ints (sort values) } = ground arith in
      let sorted : IsSorted s = rw made (record { ascending = prepared-Ascending values }) in
      elim (Option-cases (parse_int_set_member m)) [
        | inl no_int ↦ rw (contains-none s m no_int, listed-none m ms values no_int e)
        | inr (z, int) ↦
            rw (contains-has s m z sorted int, listed-has m z ms values int e)
              (ap (λ (t : IntSet). has z t.values) made ∙ has_prepared z values)
      ]
]
