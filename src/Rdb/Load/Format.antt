-- ===== src/Rdb/Load/Format.antt =====
-- The snapshot files that the loader accepts, as a grammar without a loop, and what loading one does to the
-- store.
use runedb.Base.{
  ℕ, ◌+◌, ◌*◌, ◌^◌, ◌≤◌, ◌<◌, ◌≡◌, ◌⊎◌, Bool, not, ◌&&◌, Option, none, some, List, [], ◌∷◌, Bytes,
  if◌then◌else◌, length, take, drop, ok,
}
use runedb.Base.Int.{ℤ, pos, ltb_ℤ, ◌<ℤ◌}
use runedb.Storage.IntSet.{parse_int}
use runedb.Rdb.Reader.{little_endian, read_length, read_string}
use runedb.Rdb.Load.{LoadState}

-- A record of a snapshot: one that is passed over, or a string with its deadline (0 for none) and key.
pub data Item : Type 0 where
  ignored : Item
  entry : ℤ → Bytes → Bytes → Item

-- Two strings, one behind the other.
abbrev pub Strings : Bytes → Bytes → Bytes → Bytes → Type 0
Strings bs first second rest =
    (middle : Bytes) × (read_string bs ≡ ok (first, middle))
    × (read_string middle ≡ ok (second, rest))

-- A record and what is behind it. Only strings (type 0) and database 0 are there.
pub data ItemAt : Bytes → Item → Bytes → Type 0 where
  aux :
      {bs rest : Bytes} (key content : Bytes)
      → Strings bs key content rest
      → ItemAt (250 ∷ bs) ignored rest
  sizes :
      {bs rest : Bytes} (keys expires : ℕ × Bool) (middle : Bytes)
      → read_length bs ≡ ok (keys, middle)
      → read_length middle ≡ ok (expires, rest)
      → ItemAt (251 ∷ bs) ignored rest
  database :
      {bs rest : Bytes} (encoded : Bool)
      → read_length bs ≡ ok ((0, encoded), rest)
      → ItemAt (254 ∷ bs) ignored rest
  plain :
      {bs rest key content : Bytes}
      → Strings bs key content rest
      → ItemAt (0 ∷ bs) (entry (pos 0) key content) rest
  expires_seconds :
      {bs behind rest key content : Bytes}
      → 4 ≤ length bs
      → drop 4 bs ≡ 0 ∷ behind
      → Strings behind key content rest
      → ItemAt (253 ∷ bs) (entry (pos (little_endian (take 4 bs) * 1000)) key content) rest
  expires_millis :
      {bs behind rest key content : Bytes}
      → 8 ≤ length bs
      → little_endian (take 8 bs) < 2 ^ 63
      → drop 8 bs ≡ 0 ∷ behind
      → Strings behind key content rest
      → ItemAt (252 ∷ bs) (entry (pos (little_endian (take 8 bs))) key content) rest

-- The records up to the end marker, behind which there is a checksum of eight bytes or nothing.
pub data ItemsIn : Bytes → List Item → Type 0 where
  end_marker :
      {checksum : Bytes}
      → (length checksum ≡ 0) ⊎ (length checksum ≡ 8)
      → ItemsIn (255 ∷ checksum) []
  next_item :
      {bs rest : Bytes} {item : Item} {items : List Item}
      → ItemAt bs item rest
      → ItemsIn rest items
      → ItemsIn bs (item ∷ items)

-- "REDIS", and a version from 1 to 11 in four characters.
abbrev pub IsHeader : Bytes → Type 0
IsHeader header =
    (take 5 header ≡ b'R' ∷ b'E' ∷ b'D' ∷ b'I' ∷ b'S' ∷ [])
    × ((version : ℤ) × (parse_int (drop 5 header) ≡ some version)
        × (pos 0 <ℤ version)
        × (version <ℤ pos 12))

abbrev pub IsFile : Bytes → List Item → Type 0
IsFile bs items = (9 ≤ length bs) × IsHeader (take 9 bs) × ItemsIn (drop 9 bs) items

module _ {ℓ} {S : Type ℓ} (put : S → Bytes → Bytes → ℤ → Option S) (clock : ℕ → ℤ) where
  unfoldable pub count_loaded : LoadState S → Option S → Option (LoadState S)
  count_loaded s none = none
  count_loaded s (some store) = some (record s { store = store; loaded = s.loaded + 1 })

  -- Loading a record: a string whose deadline has come is passed over, any other is set.
  unfoldable pub load_item : LoadState S → Item → Option (LoadState S)
  unfolding count_loaded
  load_item s ignored = some s
  load_item s (entry expires_at key content) =
      if ltb_ℤ (pos 0) expires_at && not (ltb_ℤ (clock (s.loaded + s.skipped)) expires_at)
      then some (record s { skipped = s.skipped + 1 })
      else count_loaded s (put s.store key content expires_at)

  unfoldable pub and_then :
      Option (LoadState S) → (LoadState S → Option (LoadState S)) → Option (LoadState S)
  and_then none f = none
  and_then (some s) f = f s

  unfoldable pub load_items : List Item → LoadState S → Option (LoadState S)
  unfolding and_then load_item
  load_items [] s = some s
  load_items (item ∷ items) s = and_then (load_item s item) (load_items items)

  -- The file is of the format, and loading its records in their order gives the state.
  abbrev pub Accepts : S → Bytes → LoadState S → Type ℓ
  Accepts store bs st =
      (items : List Item) × IsFile bs items
      × (load_items items (record { store = store; loaded = 0; skipped = 0 }) ≡ some st)
