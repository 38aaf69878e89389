-- ===== src/Rdb/Lzf.antt =====
-- LZF decompression of internal/rdb/loader.go, over the positions `ip` and `op` in its input and its
-- output. A round of the loop consumes input, so the input's length is fuel enough.
pub mod Format
mod Writes
mod Rounds
pub mod Unpacking
pub mod Total
use runedb.Base.{
  ℕ, zero, suc, ◌+◌, ◌-◌, ◌*◌, ◌/◌, ◌%◌, ◌==◌, [], ◌∷◌, Bytes, ltb, leb, if◌then◌else◌, length,
  take, drop, get_or, set, replicate, Result, ok, err, ◌>>=◌,
}
use runedb.Storage.CompactHash.{copy_at, slice}

pub data LzfError : Type 0 where
  truncated_literal literal_exceeds truncated_match_length truncated_match_offset : LzfError
  invalid_reference match_exceeds length_mismatch lzf_no_fuel : LzfError

-- The positions behind a step, and the output.
pub record LzfState : Type 0 where
  pub ip : ℕ
  pub op : ℕ
  pub output : Bytes

unfoldable pub decode_lzf_literal : Bytes → LzfState → ℕ → Result LzfError LzfState
unfolding copy_at
decode_lzf_literal input s control =
    let literal_length = control + 1 in
    if ltb (length input) (s.ip + literal_length)
    then err truncated_literal
    else if ltb (length s.output) (s.op + literal_length)
    then err literal_exceeds
    else ok (record {
      ip = s.ip + literal_length;
      op = s.op + literal_length;
      output = copy_at s.op (slice s.ip literal_length input) s.output;
    })

-- The copying loop, byte by byte: a match may overlap what it writes.
unfoldable pub copy_match : ℕ → ℕ → ℕ → Bytes → Bytes
copy_match zero reference op output = output
copy_match (suc left) reference op output =
    copy_match left (suc reference) (suc op) (set output op (get_or output reference 0))

-- The match behind its length: the offset byte lies at `ip`.
unfoldable pub finish_match : Bytes → LzfState → ℕ → ℕ → Result LzfError LzfState
unfolding copy_match
finish_match input s control match_length =
    let distance = (control % 32) * 256 + get_or input s.ip 0 + 1 in
    if leb (length input) s.ip
    then err truncated_match_offset
    else if ltb s.op distance
    then err invalid_reference
    else if ltb (length s.output) (s.op + (match_length + 2))
    then err match_exceeds
    else ok (record {
      ip = s.ip + 1;
      op = s.op + (match_length + 2);
      output = copy_match (match_length + 2) (s.op - distance) s.op s.output;
    })

unfoldable pub decode_lzf_match : Bytes → LzfState → ℕ → Result LzfError LzfState
unfolding finish_match
decode_lzf_match input s control =
    if control / 32 == 7
    then (if leb (length input) s.ip
        then err truncated_match_length
        else finish_match input (record s { ip = s.ip + 1 }) control (7 + get_or input s.ip 0))
    else finish_match input s control (control / 32)

-- One round of the loop.
unfoldable pub lzf_step : Bytes → LzfState → Result LzfError LzfState
unfolding decode_lzf_literal decode_lzf_match
lzf_step input s =
    let control = get_or input s.ip 0 in
    let next : LzfState = record s { ip = s.ip + 1 } in
    if ltb control 32
    then decode_lzf_literal input next control
    else decode_lzf_match input next control

unfoldable pub lzf_loop : ℕ → Bytes → LzfState → Result LzfError LzfState
unfolding lzf_step
lzf_loop zero input s = if ltb s.ip (length input) then err lzf_no_fuel else ok s
lzf_loop (suc fuel) input s =
    if ltb s.ip (length input) then lzf_step input s >>= lzf_loop fuel input else ok s

unfoldable pub decompress_lzf : Bytes → ℕ → Result LzfError Bytes
unfolding lzf_loop
decompress_lzf input n =
    lzf_loop (length input) input (record { ip = 0; op = 0; output = replicate n 0 }) >>= λ s.
    if s.op == length s.output then ok s.output else err length_mismatch
