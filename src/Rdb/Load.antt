-- ===== src/Rdb/Load.antt =====
-- The loader of internal/rdb/loader.go over an abstract store: `put` is its Set, which may fail, and
-- `clock` gives the reading of the clock for each entry. A marker takes a byte at least, so one unit of
-- fuel for each byte is enough.
pub mod Format
mod Entries
mod Items
pub mod Accepts
pub mod Total
use runedb.Base.{
  ℕ, zero, suc, ◌+◌, ◌-◌, ◌*◌, ◌^◌, ◌==◌, ◌≡◌, Bool, true, false, not, ◌&&◌, ◌||◌, Option, none,
  some, [], ◌∷◌, Bytes, ltb, leb, if◌then◌else◌, length, take, drop, equal_bytes, Result, ok, err,
  ◌>>=◌,
}
use runedb.Base.Int.{ℤ, pos, ltb_ℤ}
use runedb.Storage.IntSet.{parse_int}
use runedb.Rdb.Reader.{
  RdbError, unexpected_eof, invalid_header, checksum_length, store_failed, no_fuel, unsupported_db,
  unsupported_value_type, unsupported_opcode, expiry_overflow, Read, read_byte, read_full,
  read_uint_le, read_length, read_string,
}

abbrev pub file_header : Bytes
file_header = b'R' ∷ b'E' ∷ b'D' ∷ b'I' ∷ b'S' ∷ b'0' ∷ b'0' ∷ b'1' ∷ b'1' ∷ []

abbrev pub opcode_aux : ℕ
opcode_aux = 250

abbrev pub opcode_resize_db : ℕ
opcode_resize_db = 251

abbrev pub opcode_expire_time_ms : ℕ
opcode_expire_time_ms = 252

abbrev pub opcode_expire_time_sec : ℕ
opcode_expire_time_sec = 253

abbrev pub opcode_select_db : ℕ
opcode_select_db = 254

abbrev pub opcode_eof : ℕ
opcode_eof = 255

-- `validateHeader`: the version is a number from 1 to 11. strconv.Atoi accepts what ParseInt does.
unfoldable pub validate_header : Bytes → Result RdbError (Unit {0})
validate_header header =
    if not (length header == 9) || not (equal_bytes (take 5 header) (take 5 file_header))
    then err invalid_header
    else elim (parse_int (drop 5 header)) [
      | none ↦ err invalid_header
      | some version ↦
          if ltb_ℤ version (pos 1) || ltb_ℤ (pos 11) version then err invalid_header else ok tt
    ]

unfoldable pub is_value_type : ℕ → Bool
is_value_type marker = leb marker 4 || (leb 9 marker && leb marker 14)

-- The loader's store and its counters.
pub record LoadState {ℓ} (S : Type ℓ) : Type ℓ where
  pub store : S
  pub loaded : ℕ
  pub skipped : ℕ

-- `validatedExpiryMillis`
unfoldable pub validated_expiry_millis : ℕ → Result RdbError ℤ
validated_expiry_millis n = if leb (2 ^ 63) n then err expiry_overflow else ok (pos n)

-- `skipAuxField`, `skipResizeDBMetadata` and `readDatabaseSelection`, on a state that they keep
unfoldable pub skip_aux_field {ℓ} : {A : Type ℓ} → A → Bytes → Read A
skip_aux_field s bs =
    read_string bs >>= λ (key, rest). read_string rest >>= λ (v, rest'). ok (s, rest')

unfoldable pub skip_resize_db_metadata {ℓ} : {A : Type ℓ} → A → Bytes → Read A
skip_resize_db_metadata s bs =
    read_length bs >>= λ (n, rest). read_length rest >>= λ (m, rest'). ok (s, rest')

unfoldable pub read_database_selection {ℓ} : {A : Type ℓ} → A → Bytes → Read A
read_database_selection s bs =
    read_length bs >>= λ (n, rest). if n.0 == 0 then ok (s, rest) else err (unsupported_db n.0)

module _ {ℓ} {S : Type ℓ} (put : S → Bytes → Bytes → ℤ → Option S) (clock : ℕ → ℤ) where
  -- The second half of `readEntry`.
  unfoldable pub store_entry : LoadState S → Bytes → Bytes → ℤ → Result RdbError (LoadState S)
  store_entry s key v expires_at =
      if ltb_ℤ (pos 0) expires_at && not (ltb_ℤ (clock (s.loaded + s.skipped)) expires_at)
      then ok (record s { skipped = s.skipped + 1 })
      else elim (put s.store key v expires_at) [
        | none ↦ err store_failed
        | some store' ↦ ok (record s { store = store'; loaded = s.loaded + 1 })
      ]

  unfoldable pub read_entry : LoadState S → ℕ → ℤ → Bytes → Read (LoadState S)
  unfolding store_entry
  read_entry s value_type expires_at bs =
      if value_type == 0
      then (read_string bs >>= λ (key, rest). read_string rest >>= λ (v, rest').
          store_entry s key v expires_at >>= λ s'. ok (s', rest'))
      else err (unsupported_value_type value_type)

  unfoldable pub read_expiring_entry : LoadState S → ℤ → Bytes → Read (LoadState S)
  unfolding read_entry
  read_expiring_entry s expires_at bs =
      read_byte bs >>= λ (value_type, rest). read_entry s value_type expires_at rest

  -- `processMarker`, for every marker but the end.
  unfoldable pub process_marker : LoadState S → ℕ → Bytes → Read (LoadState S)
  unfolding read_expiring_entry read_entry validated_expiry_millis skip_aux_field
      skip_resize_db_metadata read_database_selection is_value_type
  process_marker s marker bs =
      if marker == opcode_aux
      then skip_aux_field s bs
      else if marker == opcode_resize_db
      then skip_resize_db_metadata s bs
      else if marker == opcode_select_db
      then read_database_selection s bs
      else if marker == opcode_expire_time_sec
      then (read_uint_le 4 bs >>= λ (seconds, rest).
          read_expiring_entry s (pos (seconds * 1000)) rest)
      else if marker == opcode_expire_time_ms
      then (read_uint_le 8 bs >>= λ (millis, rest).
          validated_expiry_millis millis >>= λ expires_at. read_expiring_entry s expires_at rest)
      else if is_value_type marker
      then read_entry s marker (pos 0) bs
      else err (unsupported_opcode marker)

  -- `consumeChecksum`
  unfoldable pub consume_checksum : LoadState S → Bytes → Result RdbError (LoadState S)
  consume_checksum s rest =
      if not (length rest == 0) && not (length rest == 8) then err checksum_length else ok s

  -- The loop of `load`: it ends behind the marker of the end.
  unfoldable pub load_loop : ℕ → LoadState S → Bytes → Result RdbError (LoadState S)
  unfolding process_marker consume_checksum
  load_loop zero s bs = err no_fuel
  load_loop (suc fuel) s bs = read_byte bs >>= λ (marker, rest).
      if marker == opcode_eof
      then consume_checksum s rest
      else (process_marker s marker rest >>= λ (s', rest'). load_loop fuel s' rest')

  -- `LoadReader`
  unfoldable pub load_reader : S → Bytes → Result RdbError (LoadState S)
  unfolding load_loop validate_header
  load_reader store bs = read_full 9 bs >>= λ (header, rest). validate_header header >>= λ u.
      load_loop (suc (length rest)) (record { store = store; loaded = 0; skipped = 0 }) rest
