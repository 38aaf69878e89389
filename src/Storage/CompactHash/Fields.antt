-- ===== src/Storage/CompactHash/Fields.antt =====
-- A compact hash read as its list of pairs, and the insertion of a new field.
use runedb.Base.{
  ℕ, suc, ◌+◌, ◌≤◌, ◌==◌, ◌≡◌, refl, sym, ap, ◌∙◌, inl, inr, true, false, Bool-cases, Option,
  Option-cases, none, some, List, [], ◌∷◌, ◌++◌, append_assoc, append-nil, drop-append, take-append,
  Bytes, length, length-append, length-take, length-drop, take, drop, equal_bytes, arith,
}
use runedb.Storage.CompactHash.{
  CompactHashEntry, CompactHash, slice, field, value, field_equal, find, get, pairs_of, all,
  append_entry, set_field, set_fuel, set_found, rebuild_with,
}
use runedb.Storage.CompactHash.Arena.{slice-append, slice_appended}
use runedb.Storage.CompactHash.Lookup.{lookup, overwritten, lookup-append_new}

-- The bytes of every entry lie in the arena.
abbrev pub InArena : ℕ → List CompactHashEntry → Type 0
InArena n [] = Unit
InArena n (e ∷ es) =
    (e.field_start + e.field_len ≤ n) × (e.value_start + e.value_len ≤ n) × InArena n es

abbrev pub IsLaidOut : CompactHash → Type 0
IsLaidOut h = InArena (length h.arena) h.entries

length-equal_bytes : (xs ys : Bytes) → equal_bytes xs ys ≡ true → length xs ≡ length ys
length-equal_bytes [] [] h = refl
length-equal_bytes [] (y ∷ ys) h = ground arith
length-equal_bytes (x ∷ xs) [] h = ground arith
length-equal_bytes (x ∷ xs) (y ∷ ys) h = ap suc (length-equal_bytes xs ys (ground arith))

length-slice : (s n : ℕ) (arena : Bytes) → s + n ≤ length arena → length (slice s n arena) ≡ n
length-slice s n arena h = omega (arith, length-take {0} n (drop s arena), length-drop {0} s arena)

field_equal_lem :
    (arena : Bytes) (e : CompactHashEntry) (name : Bytes)
    → e.field_start + e.field_len ≤ length arena
    → field_equal arena e name ≡ equal_bytes (field arena e) name
unfolding field_equal
field_equal_lem arena e name h = elim (Bool-cases (e.field_len == length name)) [
  | inl same ↦ rw same
  | inr differ ↦ elim (Bool-cases (equal_bytes (field arena e) name)) [
    | inl eq ↦
        let l = length-equal_bytes (field arena e) name eq in
        let m = length-slice e.field_start e.field_len arena h in
        absurd (apart (omega (arith, l, m)) differ)
    | inr ne ↦ rw (differ, ne)
  ]
]
  where
    apart : {a b : ℕ} → a ≡ b → (a == b) ≡ false → ⊥
    apart h k = ground arith

-- What `find` gives `get`.
value_of : Bytes → Option (ℕ × CompactHashEntry) → Option Bytes
value_of arena none = none
value_of arena (some (i, e)) = some (value arena e)

find_lem :
    (arena name : Bytes) (i : ℕ) (es : List CompactHashEntry)
    → InArena (length arena) es
    → value_of arena (find arena name i es) ≡ lookup name (pairs_of arena es)
unfolding find value_of
find_lem arena name i [] h = refl
find_lem arena name i (e ∷ es) h = elim (Bool-cases (equal_bytes (field arena e) name)) [
  | inl eq ↦ rw (field_equal_lem arena e name h.0, eq)
  | inr ne ↦ rw (field_equal_lem arena e name h.0, ne) (find_lem arena name (suc i) es h.2)
]

get-value_of :
    (h : CompactHash) (name : Bytes) → get h name ≡ value_of h.arena (find h.arena name 0 h.entries)
unfolding get value_of
get-value_of h name = elim (Option-cases (find h.arena name 0 h.entries)) [
  | inl e ↦ rw (e, get) refl
  | inr (found, e) ↦ rw (e, get) refl
]

-- In a hash whose entries lie in its arena, reading a field gives the value of the first pair of that
-- name in the list that `all` returns, and nothing where there is none.
pub get_lem : (h : CompactHash) (name : Bytes) → IsLaidOut h → get h name ≡ lookup name (all h)
get_lem h name laid = get-value_of h name ∙ find_lem h.arena name 0 h.entries laid

pairs_of-append :
    (arena : Bytes) (es fs : List CompactHashEntry)
    → pairs_of arena (es ++ fs) ≡ pairs_of arena es ++ pairs_of arena fs
pairs_of-append arena [] fs = refl
pairs_of-append arena (e ∷ es) fs =
    ap (◌∷◌ (field arena e, value arena e)) (pairs_of-append arena es fs)

pairs_of_longer :
    (arena more : Bytes) (es : List CompactHashEntry)
    → InArena (length arena) es
    → pairs_of (arena ++ more) es ≡ pairs_of arena es
pairs_of_longer arena more [] h = refl
pairs_of_longer arena more (e ∷ es) h = rw (
  slice-append e.field_start e.field_len arena more h.0,
  slice-append e.value_start e.value_len arena more h.1,
  pairs_of_longer arena more es h.2,
)

InArena-longer : (m n : ℕ) (es : List CompactHashEntry) → m ≤ n → InArena m es → InArena n es
InArena-longer m n [] l h = tt
InArena-longer m n (e ∷ es) l h =
    (omega (arith, h.0), omega (arith, h.1), InArena-longer m n es l h.2)

InArena-append :
    (n : ℕ) (es fs : List CompactHashEntry) → InArena n es → InArena n fs → InArena n (es ++ fs)
InArena-append n [] fs h k = k
InArena-append n (e ∷ es) fs h k = (h.0, h.1, InArena-append n es fs h.2 k)

slice_end : (front v : Bytes) → slice (length front) (length v) (front ++ v) ≡ v
slice_end front v =
    rw (drop-append front v) (ap (take (length v)) (sym (append-nil v)) ∙ take-append v [])

all-append_entry :
    (h : CompactHash) (name v : Bytes)
    → IsLaidOut h
    → all (append_entry h name v) ≡ all h ++ (name, v) ∷ []
unfolding append_entry
all-append_entry h name v laid =
    pairs_of-append ((h.arena ++ name) ++ v) h.entries _
    ∙ rw (
      slice_end (h.arena ++ name) v,
      append_assoc h.arena name v,
      slice_appended h.arena name v,
      pairs_of_longer h.arena (name ++ v) h.entries laid,
    )

append_entry-IsLaidOut :
    (h : CompactHash) (name v : Bytes) → IsLaidOut h → IsLaidOut (append_entry h name v)
unfolding append_entry
append_entry-IsLaidOut h name v laid =
    let l1 = length-append {0} h.arena name in
    let l2 = length-append {0} (h.arena ++ name) v in
    InArena-append (length ((h.arena ++ name) ++ v)) h.entries _
      (InArena-longer (length h.arena) (length ((h.arena ++ name) ++ v)) h.entries
        (omega (arith, l1, l2)) laid)
      (omega (arith, l1, l2), omega (arith, l1, l2), tt)

-- Setting a field that a hash does not have, where the entries lie in the arena, inserts it: the result
-- is laid out too, reports the insertion, gives the value for the field and what it gave before for
-- every other, and lists the pair behind the others.
pub set_field_new :
    (h : CompactHash) (name v : Bytes)
    → IsLaidOut h
    → get h name ≡ none
    → (h' : CompactHash) × (set_field h name v ≡ some (h', true))
      × IsLaidOut h'
      × ((g : Bytes) → get h' g ≡ overwritten name v g (get h g))
      × (all h' ≡ all h ++ (name, v) ∷ [])
unfolding set_field set_fuel value_of
set_field_new h name v laid absent =
    let h' = append_entry h name v in
    let laid' : IsLaidOut h' = append_entry-IsLaidOut h name v laid in
    let e : all h' ≡ all h ++ (name, v) ∷ [] = all-append_entry h name v laid in
    (
      h',
      ap (set_found (rebuild_with (set_fuel 0)) h name v)
          (not_found (find h.arena name 0 h.entries) (sym (get-value_of h name) ∙ absent)),
      laid',
      (λ g.
          get_lem h' g laid'
          ∙ rw (e, get_lem h g laid)
              (lookup-append_new name v g (all h) (sym (get_lem h name laid) ∙ absent))),
      e,
    )
  where
    not_found : (o : Option (ℕ × CompactHashEntry)) → value_of h.arena o ≡ none → o ≡ none
    not_found none k = refl
    not_found (some found) k = absurd (ground arith)
