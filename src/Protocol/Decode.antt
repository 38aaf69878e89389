-- ===== src/Protocol/Decode.antt =====
-- Decoding from a buffer: decode.go, `trimCRLF` of parser.go and grammar.go. A slice is a value here:
-- the decoder only reads its buffer. The first argument of `decode` is the number of nesting levels
-- left, `maxNestingDepth - depth` of the source.
pub mod Line
pub mod Bounds
pub mod Stable
pub mod Need
pub mod RoundTrip
use runedb.Base.{
  ℕ, zero, suc, ◌+◌, ◌-◌, ◌%◌, ◌^◌, Bool, true, false, not, ◌||◌, Option, none, some, [], ◌∷◌,
  Bytes, ltb, leb, ◌==◌, if◌then◌else◌, Result, ok, err, ◌>>=◌, map_err, length, take, drop, get_or,
}
use runedb.Base.Int.{ℤ, pos, negsuc}
use runedb.Protocol.Number.{parse_int_bytes, parse_decimal_int}
use runedb.Protocol.Value.{
  Value, Values, simple_string, error_value, integer, bulk_string, array, boolean, null, nil, cons,
  Error, incomplete, missing_crlf, unsupported_prefix, parse_integer, invalid_boolean, invalid_null,
  bulk_length, invalid_bulk_length, bulk_missing_crlf, nesting, array_length, invalid_array_length,
  array_element, Fallible,
}

abbrev pub max_nesting_depth : ℕ
max_nesting_depth = 128

-- The sum is an `int`: past 63 bits it wraps around to a negative number.
pub incomplete_need : ℕ → Error
incomplete_need total =
    let wrapped = total % 2 ^ 64 in
    if wrapped == 0 || leb (2 ^ 63) wrapped then incomplete none else incomplete (some wrapped)

-- bytes.IndexByte
pub index_byte : ℕ → Bytes → Option ℕ
index_byte c [] = none
index_byte c (b ∷ buf) =
    let rest = index_byte c buf in
    if b == c then some 0 else elim rest [ none ↦ none | some i ↦ some (suc i) ]

unfoldable pub trim_crlf : Bytes → Fallible Bytes
trim_crlf line =
    let n = length line in
    if ltb n 2 || not (get_or line (n - 2) 0 == b'\r') || not (get_or line (n - 1) 0 == b'\n')
    then err missing_crlf
    else ok (take (n - 2) line)

pub decode_line : Bytes → Fallible (Bytes × ℕ)
unfolding trim_crlf
decode_line buf = elim (index_byte b'\n' buf) [
  | none ↦ err (incomplete none)
  | some idx ↦ do content ← trim_crlf (take (suc idx) buf); ok (content, suc idx)
]

unfoldable pub integer_from_line : Bytes → Fallible Value
integer_from_line line = do value ← map_err parse_integer (parse_int_bytes line); ok (integer value)

unfoldable pub boolean_from_marker : Bytes → Fallible Value
boolean_from_marker (c ∷ []) =
    if c == b't'
    then ok (boolean true)
    else if c == b'f'
    then ok (boolean false)
    else err (invalid_boolean (c ∷ []))
boolean_from_marker line = err (invalid_boolean line)

unfoldable pub null_from_payload : Bytes → Fallible Value
null_from_payload [] = ok null
null_from_payload (c ∷ line) = err (invalid_null (c ∷ line))

-- A frame that is one line: the value is made from the line behind the prefix.
abbrev pub line_frame : (Bytes → Fallible Value) → Bytes → Fallible (Value × ℕ)
line_frame make buf = do (line, n) ← decode_line (drop 1 buf); value ← make line; ok (value, 1 + n)

-- The payload of a bulk string, once its length is known.
pub bulk_payload : Bytes → ℕ → ℤ → Fallible (Value × ℕ)
unfolding incomplete_need
bulk_payload buf consumed (negsuc zero) = ok (bulk_string [] true, consumed)
bulk_payload buf consumed (negsuc (suc k)) = err (invalid_bulk_length (negsuc (suc k)))
bulk_payload buf consumed (pos len) =
    let remaining = drop consumed buf in
    if ltb (length remaining) (len + 2)
    then err (incomplete_need (consumed + len + 2))
    else if not (get_or remaining len 0 == b'\r') || not (get_or remaining (suc len) 0 == b'\n')
    then err (bulk_missing_crlf missing_crlf)
    else ok (bulk_string (take len remaining) false, consumed + len + 2)

pub decode_bulk_string : Bytes → Fallible (Value × ℕ)
decode_bulk_string buf = do
  (line, n) ← decode_line (drop 1 buf)
  len ← map_err bulk_length (parse_decimal_int line)
  bulk_payload buf (1 + n) len

-- What the array makes of an element's error: an incomplete frame stays one, with the hint moved
-- to the start of the array.
pub element_error : ℕ → ℕ → Error → Error
unfolding incomplete_need
element_error i consumed (incomplete (some need)) = incomplete_need (consumed + need)
element_error i consumed (incomplete none) = incomplete none
element_error i consumed e = array_element i e

-- The loop over the elements, with `decode` for one level down; `left` counts the rounds left.
pub decode_elements : (Bytes → Fallible (Value × ℕ)) → ℕ → ℕ → Bytes → ℕ → Fallible (Values × ℕ)
decode_elements dec zero i buf consumed = ok (nil, consumed)
decode_elements dec (suc left) i buf consumed = elim (dec (drop consumed buf)) [
  | err e ↦ err (element_error i consumed e)
  | ok (element, n) ↦ do
    (elements, end) ← decode_elements dec left (suc i) buf (consumed + n)
    ok (cons element elements, end)
]

pub array_elements : (Bytes → Fallible (Value × ℕ)) → Bytes → ℕ → ℤ → Fallible (Value × ℕ)
array_elements dec buf consumed (negsuc zero) = ok (array nil true, consumed)
array_elements dec buf consumed (negsuc (suc k)) = err (invalid_array_length (negsuc (suc k)))
array_elements dec buf consumed (pos count) = do
  (elements, end) ← decode_elements dec count 0 buf consumed
  ok (array elements false, end)

pub decode_array : (Bytes → Fallible (Value × ℕ)) → Bytes → Fallible (Value × ℕ)
decode_array dec buf = do
  (line, n) ← decode_line (drop 1 buf)
  count ← map_err array_length (parse_decimal_int line)
  array_elements dec buf (1 + n) count

-- The switch on the prefix.
pub decode_frame : (Bytes → Fallible (Value × ℕ)) → Bytes → Fallible (Value × ℕ)
decode_frame arrays [] = err (incomplete none)
decode_frame arrays (prefix ∷ body) =
    let buf = prefix ∷ body in
    if prefix == b'+'
    then line_frame (λ line. ok (simple_string line)) buf
    else if prefix == b'-'
    then line_frame (λ line. ok (error_value line)) buf
    else if prefix == b':'
    then line_frame integer_from_line buf
    else if prefix == b'#'
    then line_frame boolean_from_marker buf
    else if prefix == b'_'
    then line_frame null_from_payload buf
    else if prefix == b'$'
    then decode_bulk_string buf
    else if prefix == b'*'
    then arrays buf
    else err (unsupported_prefix prefix)

pub decode_at : ℕ → Bytes → Fallible (Value × ℕ)
decode_at zero = decode_frame (λ buf. err nesting)
decode_at (suc levels) = decode_frame (decode_array (decode_at levels))

-- `Decode`
unfoldable pub decode : Bytes → Fallible (Value × ℕ)
unfolding decode_at decode_frame decode_array decode_elements array_elements decode_bulk_string
    bulk_payload element_error decode_line integer_from_line boolean_from_marker null_from_payload
    index_byte
decode buf = decode_at max_nesting_depth buf
