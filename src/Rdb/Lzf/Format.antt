-- ===== src/Rdb/Lzf/Format.antt =====
-- The LZF format, on lists, without positions or a preallocated output: what a packed string stands
-- for, and which error a broken one is refused with.
use runedb.Base.{
  ℕ, zero, suc, ◌+◌, ◌-◌, ◌*◌, ◌/◌, ◌%◌, ◌≤◌, ◌<◌, ◌≡◌, ◌≢◌, [], ◌∷◌, ◌++◌, Bytes, length, take,
  drop, get_or, Result, ok, err,
}
use runedb.Rdb.Lzf.{
  LzfError, truncated_literal, literal_exceeds, truncated_match_length, truncated_match_offset,
  invalid_reference, match_exceeds, length_mismatch,
}

-- `n` more bytes, each a copy of the byte at the distance behind the end.
abbrev pub extend : ℕ → ℕ → Bytes → Bytes
extend zero distance out = out
extend (suc n) distance out = extend n distance (out ++ get_or out (length out - distance) 0 ∷ [])

-- How far back a match starts, from its control byte and its offset byte.
abbrev pub distance_of : ℕ → ℕ → ℕ
distance_of control offset = (control % 32) * 256 + offset + 1

-- The length field of a match, and what is behind it: a 7 in the control byte has a byte of its own.
pub data Measured (control : ℕ) : Bytes → ℕ → Bytes → Type 0 where
  short : {rest : Bytes} → control / 32 ≢ 7 → Measured control rest (control / 32) rest
  long :
      {rest : Bytes} (more : ℕ) → control / 32 ≡ 7 → Measured control (more ∷ rest) (7 + more) rest

-- The packed bytes that are left, the bytes unpacked so far and the result, for an output of `n` bytes.
pub data Unpacks (n : ℕ) : Bytes → Bytes → Result LzfError Bytes → Type 0 where
  finished : {out : Bytes} → length out ≡ n → Unpacks n [] out (ok out)
  unfilled : {out : Bytes} → length out ≢ n → Unpacks n [] out (err length_mismatch)
  literal :
      {control : ℕ} {rest out : Bytes} {r : Result LzfError Bytes}
      → control < 32
      → control + 1 ≤ length rest
      → length out + (control + 1) ≤ n
      → Unpacks n (drop (control + 1) rest) (out ++ take (control + 1) rest) r
      → Unpacks n (control ∷ rest) out r
  cut_literal :
      {control : ℕ} {rest out : Bytes}
      → control < 32
      → length rest < control + 1
      → Unpacks n (control ∷ rest) out (err truncated_literal)
  large_literal :
      {control : ℕ} {rest out : Bytes}
      → control < 32
      → control + 1 ≤ length rest
      → n < length out + (control + 1)
      → Unpacks n (control ∷ rest) out (err literal_exceeds)
  match :
      {control count offset : ℕ} {rest rest' out : Bytes} {r : Result LzfError Bytes}
      → 32 ≤ control
      → Measured control rest count (offset ∷ rest')
      → distance_of control offset ≤ length out
      → length out + (count + 2) ≤ n
      → Unpacks n rest' (extend (count + 2) (distance_of control offset) out) r
      → Unpacks n (control ∷ rest) out r
  cut_length :
      {control : ℕ} {out : Bytes}
      → 32 ≤ control
      → control / 32 ≡ 7
      → Unpacks n (control ∷ []) out (err truncated_match_length)
  cut_offset :
      {control count : ℕ} {rest out : Bytes}
      → 32 ≤ control
      → Measured control rest count []
      → Unpacks n (control ∷ rest) out (err truncated_match_offset)
  far_match :
      {control count offset : ℕ} {rest rest' out : Bytes}
      → 32 ≤ control
      → Measured control rest count (offset ∷ rest')
      → length out < distance_of control offset
      → Unpacks n (control ∷ rest) out (err invalid_reference)
  large_match :
      {control count offset : ℕ} {rest rest' out : Bytes}
      → 32 ≤ control
      → Measured control rest count (offset ∷ rest')
      → distance_of control offset ≤ length out
      → n < length out + (count + 2)
      → Unpacks n (control ∷ rest) out (err match_exceeds)
