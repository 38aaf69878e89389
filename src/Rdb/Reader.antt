-- ===== src/Rdb/Reader.antt =====
-- The readers of internal/rdb/loader.go. A `bufio.Reader` is the bytes that it has still to give; a
-- read that wants more of them fails, and the loader then fails as a whole.
pub mod Shrink
use runedb.Base.{
  ℕ, suc, ◌+◌, ◌-◌, ◌*◌, ◌/◌, ◌%◌, ◌^◌, ◌==◌, Bool, true, false, [], ◌∷◌, Bytes, ltb, if◌then◌else◌,
  length, take, drop, Result, ok, err, ◌>>=◌,
}
use runedb.Base.Int.{ℤ, pos, neg}
use runedb.Protocol.Number.{format_int}
use runedb.Rdb.Lzf.{LzfError, decompress_lzf}

-- What the loader fails with; `unexpected_eof` is io.EOF or io.ErrUnexpectedEOF.
pub data RdbError : Type 0 where
  unexpected_eof invalid_header checksum_length store_failed no_fuel : RdbError
  unsupported_db unsupported_value_type unsupported_opcode unsupported_encoding : ℕ → RdbError
  invalid_prefix too_long encoded_length expiry_overflow : RdbError
  lzf : LzfError → RdbError

abbrev pub Read {ℓ} : Type ℓ → Type ℓ
Read A = Result RdbError (A × Bytes)

abbrev pub max_rdb_object_length : ℕ
max_rdb_object_length = 512 * 1024 * 1024

unfoldable pub read_byte : Bytes → Read ℕ
read_byte [] = err unexpected_eof
read_byte (b ∷ bs) = ok (b, bs)

-- io.ReadFull
unfoldable pub read_full : ℕ → Bytes → Read Bytes
read_full n bs = if ltb (length bs) n then err unexpected_eof else ok (take n bs, drop n bs)

abbrev pub little_endian : Bytes → ℕ
little_endian [] = 0
little_endian (b ∷ bs) = b + 256 * little_endian bs

abbrev pub big_endian_onto : ℕ → Bytes → ℕ
big_endian_onto high [] = high
big_endian_onto high (b ∷ bs) = big_endian_onto (high * 256 + b) bs

abbrev pub big_endian : Bytes → ℕ
big_endian bs = big_endian_onto 0 bs

-- `readUint16LE`, `readUint32LE` and `readUint64LE`, for their width in bytes
unfoldable pub read_uint_le : ℕ → Bytes → Read ℕ
unfolding read_full
read_uint_le width bs = read_full width bs >>= λ (raw, rest). ok (little_endian raw, rest)

-- The value and whether it is an encoding, by the two high bits of the first byte.
unfoldable pub read_length : Bytes → Read (ℕ × Bool)
unfolding read_byte read_full
read_length bs = read_byte bs >>= λ (first, rest).
    if first / 64 == 0
    then ok ((first % 64, false), rest)
    else if first / 64 == 1
    then (read_byte rest >>= λ (second, rest'). ok (((first % 64) * 256 + second, false), rest'))
    else if first / 64 == 2
    then (read_full 4 rest >>= λ (raw, rest'). ok ((big_endian raw, false), rest'))
    else if first / 64 == 3
    then ok ((first % 64, true), rest)
    else err invalid_prefix

unfoldable pub read_bytes : ℕ → Bytes → Read Bytes
unfolding read_full
read_bytes n bs =
    if n == 0
    then ok ([], bs)
    else if ltb max_rdb_object_length n
    then err too_long
    else read_full n bs

-- A length that must not be an encoding.
abbrev pub plain_length : (ℕ × Bool) × Bytes → Read ℕ
plain_length ((n, true), rest) = err encoded_length
plain_length ((n, false), rest) = ok (n, rest)

-- int8, int16 and int32 of an unsigned number of that width
abbrev pub sign_extend : ℕ → ℕ → ℤ
sign_extend bits n = if ltb n (2 ^ (bits - 1)) then pos n else neg (2 ^ bits - n)

-- The LZF case of `readString`.
unfoldable pub read_lzf : Bytes → Read Bytes
unfolding read_length read_bytes
read_lzf bs = read_length bs >>= plain_length >>= λ (compressed_length, rest).
    read_length rest >>= plain_length >>= λ (uncompressed_length, rest').
    if ltb max_rdb_object_length uncompressed_length
    then err too_long
    else read_bytes compressed_length rest' >>= λ (compressed, rest'').
        elim (decompress_lzf compressed uncompressed_length) [
          | ok out ↦ ok (out, rest'')
          | err e ↦ err (lzf e)
        ]

-- `readString` behind its length
unfoldable pub read_string_body : (ℕ × Bool) × Bytes → Read Bytes
unfolding read_bytes read_byte read_uint_le read_lzf
read_string_body ((n, false), rest) = read_bytes n rest
read_string_body ((n, true), rest) =
    if n == 0
    then (read_byte rest >>= λ (v, rest'). ok (format_int (sign_extend 8 v), rest'))
    else if n == 1
    then (read_uint_le 2 rest >>= λ (v, rest'). ok (format_int (sign_extend 16 v), rest'))
    else if n == 2
    then (read_uint_le 4 rest >>= λ (v, rest'). ok (format_int (sign_extend 32 v), rest'))
    else if n == 3
    then read_lzf rest
    else err (unsupported_encoding n)

unfoldable pub read_string : Bytes → Read Bytes
unfolding read_length read_string_body
read_string bs = read_length bs >>= read_string_body
