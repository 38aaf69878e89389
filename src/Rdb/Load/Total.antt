-- ===== src/Rdb/Load/Total.antt =====
-- The loader ends on every input.
use runedb.Base.{
  ℕ, zero, suc, ◌+◌, ◌*◌, ◌≤◌, ◌<◌, ◌==◌, Bool, true, false, not, ◌&&◌, ◌||◌, Option, none, some,
  [], ◌∷◌, Bytes, take, equal_bytes, leb, ◌^◌, if◌then◌else◌, length, drop, Result, ok, err, ◌>>=◌,
  arith,
}
use runedb.Base.Int.{ℤ, pos, ltb_ℤ}
use runedb.Storage.IntSet.{parse_int}
use runedb.Rdb.Reader.{
  RdbError, invalid_header, store_failed, Read, read_byte, read_full, read_length, read_string,
  read_uint_le,
}
use runedb.Rdb.Reader.Shrink.{
  HasFuel, Shrinks, read_full-Shrinks, >>=-Shrinks, if_Shrinks, Shrinks-mono, read_byte-Shrinks_all,
  read_uint_le-Shrinks, read_length-Shrinks, read_string-Shrinks,
}
use runedb.Rdb.Load.{
  LoadState, file_header, validate_header, is_value_type, validated_expiry_millis, skip_aux_field,
  skip_resize_db_metadata, read_database_selection, store_entry, read_entry, read_expiring_entry,
  process_marker, consume_checksum, load_loop, load_reader, opcode_aux, opcode_resize_db,
  opcode_select_db, opcode_expire_time_ms, opcode_expire_time_sec, opcode_eof,
}

-- A result that is no lack of fuel.
abbrev pub Ends {ℓ} : {A : Type ℓ} → Result RdbError A → Type 0
Ends (ok a) = Unit
Ends (err e) = HasFuel e

if_Ends {ℓ} :
    {A : Type ℓ} (b : Bool) (r s : Result RdbError A) → Ends r → Ends s → Ends (if b then r else s)
if_Ends true r s h k = h
if_Ends false r s h k = k

module _ {ℓ κ} {A : Type ℓ} {B : Type κ} where
  -- A test between two reads.
  test-Shrinks :
      (n : ℕ) (r : Result RdbError A) (f : A → Read B)
      → Ends r
      → ((a : A) → Shrinks n (f a))
      → Shrinks n (r >>= f)
  test-Shrinks n (ok a) f h k = k a
  test-Shrinks n (err e) f h k = h

  >>=-Ends :
      (n : ℕ) (r : Read A) (f : A × Bytes → Result RdbError B)
      → Shrinks n r
      → ((a : A) (rest : Bytes) → length rest ≤ n → Ends (f (a, rest)))
      → Ends (r >>= f)
  >>=-Ends n (ok (a, rest)) f h k = k a rest h
  >>=-Ends n (err e) f h k = h

skip_aux_field-Shrinks {ℓ} :
    {A : Type ℓ} (s : A) (bs : Bytes) → Shrinks (length bs) (skip_aux_field s bs)
unfolding skip_aux_field
skip_aux_field-Shrinks s bs =
    >>=-Shrinks (length bs) (read_string bs) _ (read_string-Shrinks bs) (λ key rest h.
      >>=-Shrinks (length bs) (read_string rest) _
        (Shrinks-mono (length rest) (length bs) _ h (read_string-Shrinks rest)) (λ v rest' h'. h'))

skip_resize_db_metadata-Shrinks {ℓ} :
    {A : Type ℓ} (s : A) (bs : Bytes) → Shrinks (length bs) (skip_resize_db_metadata s bs)
unfolding skip_resize_db_metadata
skip_resize_db_metadata-Shrinks s bs =
    >>=-Shrinks (length bs) (read_length bs) _ (read_length-Shrinks bs) (λ n rest h.
      >>=-Shrinks (length bs) (read_length rest) _
        (Shrinks-mono (length rest) (length bs) _ h (read_length-Shrinks rest)) (λ m rest' h'. h'))

read_database_selection-Shrinks {ℓ} :
    {A : Type ℓ} (s : A) (bs : Bytes) → Shrinks (length bs) (read_database_selection s bs)
unfolding read_database_selection
read_database_selection-Shrinks s bs =
    >>=-Shrinks (length bs) (read_length bs) _ (read_length-Shrinks bs)
      (λ n rest h. if_Shrinks (length bs) (n.0 == 0) _ _ h tt)

validated_expiry_millis-Ends : (millis : ℕ) → Ends (validated_expiry_millis millis)
unfolding validated_expiry_millis
validated_expiry_millis-Ends millis = if_Ends (leb (2 ^ 63) millis) _ _ tt tt

validate_header-Ends : (header : Bytes) → Ends (validate_header header)
unfolding validate_header
validate_header-Ends header =
    if_Ends (not (length header == 9) || not (equal_bytes (take 5 header) (take 5 file_header)))
      (err invalid_header) _ tt (version (parse_int (drop 5 header)))
  where
    version :
        (o : Option ℤ)
        → Ends (elim o as (λ x. Result RdbError (Unit {0})) [
          | none ↦ err invalid_header
          | some v ↦ if ltb_ℤ v (pos 1) || ltb_ℤ (pos 11) v then err invalid_header else ok tt
        ])
    version none = tt
    version (some v) = if_Ends (ltb_ℤ v (pos 1) || ltb_ℤ (pos 11) v) _ _ tt tt

module _ {ℓ} {S : Type ℓ} (put : S → Bytes → Bytes → ℤ → Option S) (clock : ℕ → ℤ) where
  store_entry-Ends :
      (s : LoadState S) (key v : Bytes) (expires_at : ℤ)
      → Ends (store_entry put clock s key v expires_at)
  unfolding store_entry
  store_entry-Ends s key v expires_at =
      if_Ends (ltb_ℤ (pos 0) expires_at && not (ltb_ℤ (clock (s.loaded + s.skipped)) expires_at)) _
        _ tt (stored (put s.store key v expires_at))
    where
      stored :
          (o : Option S)
          → Ends (elim o as (λ x. Result RdbError (LoadState S)) [
            | none ↦ err store_failed
            | some store' ↦ ok (record s { store = store'; loaded = s.loaded + 1 })
          ])
      stored none = tt
      stored (some x) = tt

  read_entry-Shrinks :
      (s : LoadState S) (value_type : ℕ) (expires_at : ℤ) (bs : Bytes)
      → Shrinks (length bs) (read_entry put clock s value_type expires_at bs)
  unfolding read_entry
  read_entry-Shrinks s value_type expires_at bs =
      if_Shrinks (length bs) (value_type == 0) _ _
        (>>=-Shrinks (length bs) (read_string bs) _ (read_string-Shrinks bs) (λ key rest h.
          >>=-Shrinks (length bs) (read_string rest) _
            (Shrinks-mono (length rest) (length bs) _ h (read_string-Shrinks rest))
            (λ v rest' h'.
              test-Shrinks (length bs) (store_entry put clock s key v expires_at) _
                (store_entry-Ends s key v expires_at) (λ s'. h'))))
        tt

  read_expiring_entry-Shrinks :
      (s : LoadState S) (expires_at : ℤ) (bs : Bytes)
      → Shrinks (length bs) (read_expiring_entry put clock s expires_at bs)
  unfolding read_expiring_entry
  read_expiring_entry-Shrinks s expires_at bs =
      >>=-Shrinks (length bs) (read_byte bs) _ (read_byte-Shrinks_all bs) (λ t rest h.
        Shrinks-mono (length rest) (length bs) _ h (read_entry-Shrinks s t expires_at rest))

  pub process_marker-Shrinks :
      (s : LoadState S) (marker : ℕ) (bs : Bytes)
      → Shrinks (length bs) (process_marker put clock s marker bs)
  unfolding process_marker
  process_marker-Shrinks s marker bs =
      let n = length bs in
      if_Shrinks n (marker == opcode_aux) _ _ (skip_aux_field-Shrinks s bs) (
        if_Shrinks n (marker == opcode_resize_db) _ _ (skip_resize_db_metadata-Shrinks s bs) (
          if_Shrinks n (marker == opcode_select_db) _ _ (read_database_selection-Shrinks s bs) (
            if_Shrinks n (marker == opcode_expire_time_sec) _ _
              (>>=-Shrinks n (read_uint_le 4 bs) _ (read_uint_le-Shrinks 4 bs) (λ seconds rest h.
                Shrinks-mono (length rest) n _ h
                  (read_expiring_entry-Shrinks s (pos (seconds * 1000)) rest)))
              (if_Shrinks n (marker == opcode_expire_time_ms) _ _
                (>>=-Shrinks n (read_uint_le 8 bs) _ (read_uint_le-Shrinks 8 bs) (λ millis rest h.
                  test-Shrinks n (validated_expiry_millis millis) _
                    (validated_expiry_millis-Ends millis)
                    (λ at.
                      Shrinks-mono (length rest) n _ h (read_expiring_entry-Shrinks s at rest))))
                (if_Shrinks n (is_value_type marker) _ _ (read_entry-Shrinks s marker (pos 0) bs)
                  tt)))))

  load_loop-Ends :
      (fuel : ℕ) (s : LoadState S) (bs : Bytes)
      → length bs < fuel
      → Ends (load_loop put clock fuel s bs)
  unfolding load_loop consume_checksum read_byte
  load_loop-Ends zero s bs h = absurd (omega arith)
  load_loop-Ends (suc fuel) s [] h = tt
  load_loop-Ends (suc fuel) s (marker ∷ rest) h =
      if_Ends (marker == opcode_eof) _ _
        (if_Ends (not (length rest == 0) && not (length rest == 8)) _ _ tt tt)
        (>>=-Ends (length rest) (process_marker put clock s marker rest) _
          (process_marker-Shrinks s marker rest)
          (λ s' rest' h'. load_loop-Ends fuel s' rest' (omega (arith, h, h'))))

  -- On every input, store and clock the loader ends without a lack of fuel: with a state or with an
  -- error of the format, of the input's end or of the store.
  pub load_reader-Ends : (store : S) (bs : Bytes) → Ends (load_reader put clock store bs)
  unfolding load_reader
  load_reader-Ends store bs =
      >>=-Ends (length bs) (read_full 9 bs) _ (read_full-Shrinks 9 bs)
        (λ header rest h. checked (validate_header header) rest (validate_header-Ends header))
    where
      checked :
          (u : Result RdbError (Unit {0})) (rest : Bytes)
          → Ends u
          → Ends (
              u >>= λ _.
              load_loop put clock
                (suc (length rest))
                (record { store = store; loaded = 0; skipped = 0 })
                rest)
      checked (ok u) rest h = load_loop-Ends (suc (length rest)) _ rest (omega arith)
      checked (err e) rest h = h
