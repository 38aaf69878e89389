-- ===== src/Storage/CompactHash.antt =====
-- The compact encoding of a small hash: compact_hash.go. Field and value bytes lie in one arena, and
-- the entries say where. `rebuild` makes a new hash by `set`, and `set` may rebuild: that recursion takes
-- fuel, and `none` means that the fuel ran out.
pub mod Arena
pub mod Fields
pub mod Lookup
use runedb.Base.{
  ℕ, zero, suc, ◌+◌, Bool, true, false, not, Option, none, some, List, [], ◌∷◌, ◌++◌, map, Bytes,
  leb, ◌==◌, if◌then◌else◌, length, take, drop, equal_bytes, set,
}

pub record CompactHashEntry : Type 0 where
  pub field_start : ℕ
  pub field_len : ℕ
  pub value_start : ℕ
  pub value_len : ℕ

pub record CompactHash : Type 0 where
  pub entries : List CompactHashEntry
  pub arena : Bytes

-- `HashFieldValue`: a field and its value.
abbrev pub Pair : Type 0
Pair = Bytes × Bytes

abbrev pub empty_hash : CompactHash
empty_hash = record { entries = []; arena = [] }

-- arena[start : start+len]
abbrev pub slice : ℕ → ℕ → Bytes → Bytes
slice start len arena = take len (drop start arena)

-- copy(arena[start:], src), where it fits
unfoldable pub copy_at : ℕ → Bytes → Bytes → Bytes
copy_at start src [] = []
copy_at zero [] (b ∷ arena) = b ∷ arena
copy_at zero (c ∷ src) (b ∷ arena) = c ∷ copy_at zero src arena
copy_at (suc start) src (b ∷ arena) = b ∷ copy_at start src arena

abbrev pub field : Bytes → CompactHashEntry → Bytes
field arena e = slice e.field_start e.field_len arena

abbrev pub value : Bytes → CompactHashEntry → Bytes
value arena e = slice e.value_start e.value_len arena

-- `fieldEqual`
unfoldable pub field_equal : Bytes → CompactHashEntry → Bytes → Bool
field_equal arena e name =
    if not (e.field_len == length name) then false else equal_bytes (field arena e) name

-- The search of `set`, `get` and `del`: the first entry of that name, with its index from `i`.
unfoldable pub find : Bytes → Bytes → ℕ → List CompactHashEntry → Option (ℕ × CompactHashEntry)
find arena name i [] = none
find arena name i (e ∷ es) =
    let rest = find arena name (suc i) es in if field_equal arena e name then some (i, e) else rest

unfoldable pub get : CompactHash → Bytes → Option Bytes
get h name = elim (find h.arena name 0 h.entries) [
  | none ↦ none
  | some (i, e) ↦ some (value h.arena e)
]

-- `all`
abbrev pub pairs_of : Bytes → List CompactHashEntry → List Pair
pairs_of arena [] = []
pairs_of arena (e ∷ es) = (field arena e, value arena e) ∷ pairs_of arena es

abbrev pub all : CompactHash → List Pair
all h = pairs_of h.arena h.entries

-- The entry at an index gets another value length.
unfoldable pub set_value_len : ℕ → ℕ → List CompactHashEntry → List CompactHashEntry
set_value_len i len [] = []
set_value_len zero len (e ∷ es) = (record e { value_len = len }) ∷ es
set_value_len (suc i) len (e ∷ es) = e ∷ set_value_len i len es

-- A field that is not there yet goes to the end of the arena.
unfoldable pub append_entry : CompactHash → Bytes → Bytes → CompactHash
append_entry h name v =
    let field_start = length h.arena in
    let arena' = h.arena ++ name in
    let value_start = length arena' in
    record {
      entries =
          h.entries
          ++ (record {
            field_start = field_start;
            field_len = length name;
            value_start = value_start;
            value_len = length v;
          })
            ∷ [];
      arena = arena' ++ v;
    }

-- A value that fits goes where the old one lies.
unfoldable pub overwrite : CompactHash → ℕ → CompactHashEntry → Bytes → CompactHash
overwrite h i e v = record {
  entries = set_value_len i (length v) h.entries;
  arena = copy_at e.value_start v h.arena;
}

-- `set` behind its search, for a given `rebuild`; the flag says whether the field is new.
abbrev pub set_found :
    (CompactHash → ℕ → List Pair → Option CompactHash)
    → CompactHash
    → Bytes
    → Bytes
    → Option (ℕ × CompactHashEntry)
    → Option (CompactHash × Bool)
set_found rebuild h name v none = some (append_entry h name v, true)
set_found rebuild h name v (some (i, e)) =
    if leb (length v) e.value_len
    then some (overwrite h i e v, false)
    else elim (rebuild h i ((name, v) ∷ [])) [ none ↦ none | some r ↦ some (r, false) ]

-- `set`, for a given `rebuild`
abbrev pub set_with :
    (CompactHash → ℕ → List Pair → Option CompactHash)
    → CompactHash
    → Bytes
    → Bytes
    → Option (CompactHash × Bool)
set_with rebuild h name v = set_found rebuild h name v (find h.arena name 0 h.entries)

-- The loop of `newCompactHash`, for a given `set`.
unfoldable pub set_all :
    (CompactHash → Bytes → Bytes → Option (CompactHash × Bool))
    → CompactHash
    → List Pair
    → Option CompactHash
set_all put h [] = some h
set_all put h ((name, v) ∷ pairs) = elim (put h name v) [
  | none ↦ none
  | some (h', added) ↦ set_all put h' pairs
]

-- The pairs of all entries but the one at index `skip`.
unfoldable pub others : Bytes → ℕ → List CompactHashEntry → List Pair
others arena skip [] = []
others arena zero (e ∷ es) = pairs_of arena es
others arena (suc skip) (e ∷ es) = (field arena e, value arena e) ∷ others arena skip es

-- `rebuild`, for a given `set`.
abbrev pub rebuild_with :
    (CompactHash → Bytes → Bytes → Option (CompactHash × Bool))
    → CompactHash
    → ℕ
    → List Pair
    → Option CompactHash
rebuild_with put h skip replacements =
    set_all put empty_hash (replacements ++ others h.arena skip h.entries)

unfoldable pub set_fuel : ℕ → CompactHash → Bytes → Bytes → Option (CompactHash × Bool)
set_fuel zero = set_with (λ h skip replacements. none)
set_fuel (suc fuel) = set_with (rebuild_with (set_fuel fuel))

-- `set`: a rebuild inserts different fields into an empty hash, so it does not rebuild again.
unfoldable pub set_field : CompactHash → Bytes → Bytes → Option (CompactHash × Bool)
unfolding set_fuel set_all others find field_equal append_entry overwrite set_value_len copy_at
set_field = set_fuel 1

-- `newCompactHash`
unfoldable pub new_compact_hash : List Pair → Option CompactHash
unfolding set_field set_all
new_compact_hash pairs = set_all set_field empty_hash pairs

-- `del`
unfoldable pub del : CompactHash → Bytes → Option (CompactHash × Bool)
unfolding set_field set_all others find
del h name = elim (find h.arena name 0 h.entries) [
  | none ↦ some (h, false)
  | some (i, e) ↦ elim (rebuild_with set_field h i []) [ none ↦ none | some r ↦ some (r, true) ]
]

abbrev pub len : CompactHash → ℕ
len h = length h.entries
