-- ===== src/Protocol/Writer/Wire.antt =====
-- The bytes of a value, with no buffer in front, and the values that have them.
use Prim.Native.Nat.{◌^◌}
use runedb.Base.{
  ℕ, zero, suc, ◌+◌, ◌<◌, ◌≡◌, refl, sym, ap, ◌∙◌, map_ok, true, false, [], ◌∷◌, ◌++◌, Bytes,
  append_assoc, append-nil, ok, err, length, arith,
}
use runedb.Base.Int.{pos, InInt64}
use runedb.Protocol.Number.{format_int}
use runedb.Protocol.Value.{
  Value, Values, simple_string, error_value, integer, bulk_string, text_bulk_string, array, boolean,
  null, unknown, nil, cons, count, Fallible, crlf, NoNewline,
}
use runedb.Protocol.Writer.{
  null_bulk, null_array, null_line, boolean_line, append_prefixed_string_line,
  append_prefixed_int_line, append_bulk, append_encoded_value, append_elements, encode, encoded_len,
}
use runedb.Protocol.Writer.Length.{length-append_encoded_value}

abbrev pub line : ℕ → Bytes → Bytes
line prefix content = prefix ∷ (content ++ crlf)

abbrev pub bulk : Bytes → Bytes
bulk payload = line b'$' (format_int (pos (length payload))) ++ (payload ++ crlf)

unfoldable mutual
  pub wire : Value → Bytes
  wire (simple_string value) = line b'+' value
  wire (error_value message) = line b'-' message
  wire (integer value) = line b':' (format_int value)
  wire (bulk_string payload true) = null_bulk
  wire (bulk_string payload false) = bulk payload
  wire (text_bulk_string value true) = null_bulk
  wire (text_bulk_string value false) = bulk value
  wire (array elements true) = null_array
  wire (array elements false) = line b'*' (format_int (pos (count elements))) ++ wires elements
  wire (boolean value) = boolean_line value
  wire null = null_line
  wire unknown = []

  pub wires : Values → Bytes
  wires nil = []
  wires (cons v vs) = wire v ++ wires vs

-- What can go through the wire and come back, with so many nesting levels left: no newline inside a
-- line, numbers and lengths that are an `int64`, and the eight frame types.
abbrev mutual
  pub Sendable : ℕ → Value → Type 0
  Sendable levels (simple_string value) = NoNewline value
  Sendable levels (error_value message) = NoNewline message
  Sendable levels (integer value) = InInt64 value
  Sendable levels (bulk_string payload is_null) = length payload < 2 ^ 63
  Sendable levels (text_bulk_string value is_null) = length value < 2 ^ 63
  Sendable zero (array elements is_null) = ⊥
  Sendable (suc levels) (array elements is_null) =
      (count elements < 2 ^ 63) × AllSendable levels elements
  Sendable levels (boolean value) = Unit
  Sendable levels null = Unit
  Sendable levels unknown = ⊥

  pub AllSendable : ℕ → Values → Type 0
  AllSendable levels nil = Unit
  AllSendable levels (cons v vs) = Sendable levels v × AllSendable levels vs

pub append_bulk-bulk : (dst payload : Bytes) → append_bulk dst payload ≡ dst ++ bulk payload
unfolding append_bulk
append_bulk-bulk dst payload = simp append_assoc

mutual
  unfolding append_encoded_value append_elements wire wires append_prefixed_string_line
      append_prefixed_int_line

  append-wire :
      (levels : ℕ) (dst : Bytes) (v : Value)
      → Sendable levels v
      → append_encoded_value dst v ≡ ok (dst ++ wire v)
  append-wire levels dst (simple_string value) s = simp append_assoc
  append-wire levels dst (error_value message) s = simp append_assoc
  append-wire levels dst (integer value) s = simp append_assoc
  append-wire levels dst (bulk_string payload true) s = refl
  append-wire levels dst (bulk_string payload false) s = ap ok (append_bulk-bulk dst payload)
  append-wire levels dst (text_bulk_string value true) s = refl
  append-wire levels dst (text_bulk_string value false) s = ap ok (append_bulk-bulk dst value)
  append-wire zero dst (array elements is_null) s = absurd s
  append-wire (suc levels) dst (array elements true) s = refl
  append-wire (suc levels) dst (array elements false) s =
      append-wires levels _ elements s.1 ∙ simp append_assoc
  append-wire levels dst (boolean value) s = refl
  append-wire levels dst null s = refl
  append-wire levels dst unknown s = absurd s

  append-wires :
      (levels : ℕ) (dst : Bytes) (vs : Values)
      → AllSendable levels vs
      → append_elements dst vs ≡ ok (dst ++ wires vs)
  append-wires levels dst nil s = ap ok (rw append-nil)
  append-wires levels dst (cons v vs) s =
      rw (append-wire levels dst v s.0)
        (append-wires levels (dst ++ wire v) vs s.1 ∙ rw append_assoc)

pub append_encoded_value-wire :
    (levels : ℕ) (dst : Bytes) (v : Value)
    → Sendable levels v
    → append_encoded_value dst v ≡ ok (dst ++ wire v)
append_encoded_value-wire levels dst v s = append-wire levels dst v s

encoded_len-wire :
    (levels : ℕ) (v : Value) → Sendable levels v → encoded_len v ≡ ok (length (wire v))
encoded_len-wire levels v s =
    counted (encoded_len v)
      (sym (length-append_encoded_value [] v) ∙ ap (map_ok length) (append-wire levels [] v s))
  where
    counted : (r : Fallible ℕ) {n : ℕ} → map_ok (λ k. length {A = ℕ} [] + k) r ≡ ok n → r ≡ ok n
    counted (ok k) h = ground arith
    counted (err e) h = cc

pub encode-wire : (levels : ℕ) (v : Value) → Sendable levels v → encode v ≡ ok (wire v)
unfolding encode
encode-wire levels v s = rw (encoded_len-wire levels v s) (append-wire levels [] v s)
