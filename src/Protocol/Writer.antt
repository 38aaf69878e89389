-- ===== src/Protocol/Writer.antt =====
-- Encoding: writer.go. `strconv.AppendInt` is `format_int`, the length of a slice an `int64` that it
-- always fits, and the capacities that the source asks for are not modelled.
pub mod Length
pub mod Wire
pub mod Stream
pub mod Prefix
use runedb.Base.{
  ℕ, suc, ◌+◌, Bool, true, false, Option, none, some, List, [], ◌∷◌, ◌++◌, Bytes, Result, ok, err,
  ◌>>=◌, length, take,
}
use runedb.Base.Int.{ℤ, pos}
use runedb.Protocol.Number.{format_int, decimal_int_len}
use runedb.Protocol.Value.{
  Value, Values, simple_string, error_value, integer, bulk_string, text_bulk_string, array, boolean,
  null, unknown, nil, cons, count, Error, unsupported_type, Fallible, crlf,
}

abbrev pub null_bulk : Bytes
null_bulk = b'$' ∷ b'-' ∷ b'1' ∷ crlf

abbrev pub null_array : Bytes
null_array = b'*' ∷ b'-' ∷ b'1' ∷ crlf

abbrev pub boolean_line : Bool → Bytes
boolean_line true = b'#' ∷ b't' ∷ crlf
boolean_line false = b'#' ∷ b'f' ∷ crlf

abbrev pub null_line : Bytes
null_line = b'_' ∷ crlf

unfoldable pub append_prefixed_string_line : Bytes → ℕ → Bytes → Bytes
append_prefixed_string_line dst prefix value = ((dst ++ prefix ∷ []) ++ value) ++ crlf

unfoldable pub append_prefixed_int_line : Bytes → ℕ → ℤ → Bytes
append_prefixed_int_line dst prefix value = ((dst ++ prefix ∷ []) ++ format_int value) ++ crlf

-- A non-null bulk string of either type.
unfoldable pub append_bulk : Bytes → Bytes → Bytes
unfolding append_prefixed_int_line
append_bulk dst payload =
    (append_prefixed_int_line dst b'$' (pos (length payload)) ++ payload) ++ crlf

unfoldable mutual
  pub append_encoded_value : Bytes → Value → Fallible Bytes
  append_encoded_value dst (simple_string value) = ok (append_prefixed_string_line dst b'+' value)
  append_encoded_value dst (error_value message) = ok (append_prefixed_string_line dst b'-' message)
  append_encoded_value dst (integer value) = ok (append_prefixed_int_line dst b':' value)
  append_encoded_value dst (bulk_string payload true) = ok (dst ++ null_bulk)
  append_encoded_value dst (bulk_string payload false) = ok (append_bulk dst payload)
  append_encoded_value dst (text_bulk_string value true) = ok (dst ++ null_bulk)
  append_encoded_value dst (text_bulk_string value false) = ok (append_bulk dst value)
  append_encoded_value dst (array elements true) = ok (dst ++ null_array)
  append_encoded_value dst (array elements false) =
      append_elements (append_prefixed_int_line dst b'*' (pos (count elements))) elements
  append_encoded_value dst (boolean value) = ok (dst ++ boolean_line value)
  append_encoded_value dst null = ok (dst ++ null_line)
  append_encoded_value dst unknown = err unsupported_type

  pub append_elements : Bytes → Values → Fallible Bytes
  append_elements dst nil = ok dst
  append_elements dst (cons element elements) =
      append_encoded_value dst element >>= λ dst'. append_elements dst' elements

-- `EncodedLen`
unfoldable mutual
  pub encoded_len : Value → Fallible ℕ
  encoded_len (simple_string value) = ok (1 + length value + 2)
  encoded_len (error_value message) = ok (1 + length message + 2)
  encoded_len (integer value) = ok (1 + decimal_int_len value + 2)
  encoded_len (bulk_string payload true) = ok 5
  encoded_len (bulk_string payload false) =
      ok (1 + decimal_int_len (pos (length payload)) + 2 + length payload + 2)
  encoded_len (text_bulk_string value true) = ok 5
  encoded_len (text_bulk_string value false) =
      ok (1 + decimal_int_len (pos (length value)) + 2 + length value + 2)
  encoded_len (array elements true) = ok 5
  encoded_len (array elements false) =
      elements_len (1 + decimal_int_len (pos (count elements)) + 2) elements
  encoded_len (boolean value) = ok 4
  encoded_len null = ok 3
  encoded_len unknown = err unsupported_type

  pub elements_len : ℕ → Values → Fallible ℕ
  elements_len size nil = ok size
  elements_len size (cons element elements) =
      encoded_len element >>= λ element_len. elements_len (size + element_len) elements

-- `Encode`
unfoldable pub encode : Value → Fallible Bytes
encode value = do size ← encoded_len value; append_encoded_value [] value

-- `EncodedValuesLen`
unfoldable pub encoded_values_len : ℕ → List Value → Fallible ℕ
encoded_values_len total [] = ok total
encoded_values_len total (value ∷ values) = do
  size ← encoded_len value
  encoded_values_len (total + size) values

-- The loop of `EncodeValues`.
unfoldable pub encode_loop : Bytes → List Value → Fallible Bytes
encode_loop payload [] = ok payload
encode_loop payload (value ∷ values) = do
  payload' ← append_encoded_value payload value
  encode_loop payload' values

-- `EncodeValues`
unfoldable pub encode_values : List Value → Fallible Bytes
unfolding encode_loop
encode_values values = do size ← encoded_values_len 0 values; encode_loop [] values

-- The loop of `AppendValues`; `original` is the length to go back to on an error.
unfoldable pub append_loop : ℕ → Bytes → List Value → Bytes × Option Error
append_loop original dst [] = (dst, none)
append_loop original dst (value ∷ values) = elim (append_encoded_value dst value) [
  | err e ↦ (take original dst, some e)
  | ok next ↦ append_loop original next values
]

-- `AppendValues`
unfoldable pub append_values : Bytes → List Value → Bytes × Option Error
unfolding append_loop
append_values dst values = append_loop (length dst) dst values
