-- ===== src/Protocol/Coerce.antt =====
-- `Bytes` of coerce.go: the bytes of a value that may stand as a command token.
use runedb.Base.{true, false, [], ◌∷◌, ok, err}
use runedb.Protocol.Number.{format_int}
use runedb.Protocol.Value.{
  Value, simple_string, error_value, integer, bulk_string, text_bulk_string, array, boolean, null,
  unknown, not_bytes, Fallible,
}
use runedb.Base.{Bytes}

unfoldable pub to_bytes : Value → Fallible Bytes
to_bytes (bulk_string payload true) = err not_bytes
to_bytes (bulk_string payload false) = ok payload
to_bytes (text_bulk_string value true) = err not_bytes
to_bytes (text_bulk_string value false) = ok value
to_bytes (simple_string value) = ok value
to_bytes (integer value) = ok (format_int value)
to_bytes (boolean true) = ok (b'1' ∷ [])
to_bytes (boolean false) = ok (b'0' ∷ [])
to_bytes null = err not_bytes
to_bytes (error_value message) = err not_bytes
to_bytes (array elements is_null) = err not_bytes
to_bytes unknown = err not_bytes
