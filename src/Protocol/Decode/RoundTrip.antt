-- ===== src/Protocol/Decode/RoundTrip.antt =====
-- `Decode` after `Encode`: what was written is read back, whatever follows it.
use Prim.Native.Nat.{◌^◌}
use runedb.Base.{
  ℕ, zero, suc, ◌+◌, ◌<◌, ◌≡◌, ap, ◌∙◌, Bool, true, false, [], ◌∷◌, ◌++◌, Bytes, append_assoc, ok,
  length, length-append, drop, drop-append, take-append, arith,
}
use runedb.Base.Int.{pos, InInt64}
use runedb.Protocol.Number.{format_int, parse_int_bytes, parse_decimal_int}
use runedb.Protocol.Number.Print.{
  parse_int_bytes-format_int, parse_decimal_int-format_int, format_int-NoNewline,
}
use runedb.Protocol.Value.{
  Value, Values, simple_string, error_value, integer, bulk_string, text_bulk_string, array, boolean,
  null, unknown, nil, cons, count, Fallible, crlf, NoNewline,
}
use runedb.Protocol.Decode.{
  decode_line, integer_from_line, boolean_from_marker, null_from_payload, bulk_payload,
  decode_bulk_string, decode_elements, array_elements, decode_array, decode_frame, decode_at,
  decode, max_nesting_depth,
}
use runedb.Protocol.Decode.Line.{decode_line_lem, get_or_end, get_or_end_suc}
use runedb.Protocol.Writer.{null_bulk, null_array, encode}
use runedb.Protocol.Writer.Wire.{line, bulk, wire, wires, Sendable, AllSendable, encode-wire}

-- What a reader gets back: the text type is read as bytes, and a null value has no payload.
unfoldable mutual
  pub canonical : Value → Value
  canonical (simple_string value) = simple_string value
  canonical (error_value message) = error_value message
  canonical (integer value) = integer value
  canonical (bulk_string payload true) = bulk_string [] true
  canonical (bulk_string payload false) = bulk_string payload false
  canonical (text_bulk_string value true) = bulk_string [] true
  canonical (text_bulk_string value false) = bulk_string value false
  canonical (array elements true) = array nil true
  canonical (array elements false) = array (canonicals elements) false
  canonical (boolean value) = boolean value
  canonical null = null
  canonical unknown = unknown

  pub canonicals : Values → Values
  canonicals nil = nil
  canonicals (cons v vs) = cons (canonical v) (canonicals vs)

-- A line in front of the rest of the buffer.
line_read :
    (prefix : ℕ) (content rest : Bytes)
    → NoNewline content
    → decode_line (drop 1 (line prefix content ++ rest)) ≡ ok (content, length content + 2)
line_read prefix content rest h =
    rw append_assoc (decode_line_lem content rest h ∙ ap (λ n. ok (content, n)) (omega arith))

payload_read :
    (payload rest front : Bytes) (consumed : ℕ)
    → consumed ≡ length front
    → bulk_payload (front ++ ((payload ++ crlf) ++ rest)) consumed (pos (length payload))
      ≡ ok (bulk_string payload false, consumed + length payload + 2)
unfolding bulk_payload
payload_read payload rest front consumed e =
    rw (e, drop-append front ((payload ++ crlf) ++ rest))
      (rw append_assoc (
        ground (
          arith,
          length-append {0} payload (b'\r' ∷ b'\n' ∷ rest),
          get_or_end payload (b'\r') (b'\n' ∷ rest),
          get_or_end_suc payload (b'\r') (b'\n') rest,
          take-append payload (b'\r' ∷ b'\n' ∷ rest),
        )))

length_int64 : (n : ℕ) → n < 2 ^ 63 → InInt64 (pos n)
length_int64 n h = (h, omega arith)

length-line :
    (prefix : ℕ) (content : Bytes) → length (line prefix content) ≡ 1 + (length content + 2)
length-line prefix content = omega (arith, length-append {0})

length-bulk :
    (payload : Bytes)
    → 1 + (length (format_int (pos (length payload))) + 2) + length payload + 2
      ≡ length (bulk payload)
length-bulk payload =
    let header = format_int (pos (length payload)) in
    omega (
      arith,
      length-line (b'$') header,
      length-append {0} (line b'$' header) (payload ++ crlf),
      length-append {0} payload crlf,
    )

bulk_read :
    (payload rest : Bytes)
    → length payload < 2 ^ 63
    → decode_bulk_string (bulk payload ++ rest)
      ≡ ok (bulk_string payload false, length (bulk payload))
unfolding decode_bulk_string
bulk_read payload rest h =
    let header = format_int (pos (length payload)) in
    let opening = line b'$' header in
    rw (append_assoc opening (payload ++ crlf) rest) (
      rw
        (
          line_read b'$' header ((payload ++ crlf) ++ rest)
              (format_int-NoNewline (pos (length payload))),
          parse_decimal_int-format_int (pos (length payload)) (length_int64 (length payload) h),
        )
        (payload_read payload rest opening (1 + (length header + 2))
            (omega (arith, length-line (b'$') header))
          ∙ ap (λ n. ok (bulk_string payload false, n)) (length-bulk payload)))

null_bulk_read :
    (rest : Bytes) → decode_bulk_string (null_bulk ++ rest) ≡ ok (bulk_string [] true, 5)
unfolding decode_bulk_string bulk_payload parse_decimal_int parse_int_bytes
null_bulk_read rest = rw (line_read b'$' (b'-' ∷ b'1' ∷ []) rest (omega arith))

null_array_read :
    (dec : Bytes → Fallible (Value × ℕ)) (rest : Bytes)
    → decode_array dec (null_array ++ rest) ≡ ok (array nil true, 5)
unfolding decode_array array_elements parse_decimal_int parse_int_bytes
null_array_read dec rest = rw (line_read b'*' (b'-' ∷ b'1' ∷ []) rest (omega arith))

-- `dec` reads back every value that may stand at its level.
abbrev Reads : ℕ → (Bytes → Fallible (Value × ℕ)) → Type 0
Reads levels dec =
    (v : Value) (rest : Bytes)
    → Sendable levels v
    → dec (wire v ++ rest) ≡ ok (canonical v, length (wire v))

module _ (levels : ℕ) (dec : Bytes → Fallible (Value × ℕ)) (reads : Reads levels dec) where
  cons_read :
      (v : Value) (vs : Values) (i : ℕ) (buf : Bytes) (consumed : ℕ)
      → dec (drop consumed buf) ≡ ok (canonical v, length (wire v))
      → decode_elements dec (count vs) (suc i) buf (consumed + length (wire v))
        ≡ ok (canonicals vs, consumed + length (wire v) + length (wires vs))
      → decode_elements dec (suc (count vs)) i buf consumed
        ≡ ok (cons (canonical v) (canonicals vs), consumed + length (wire v ++ wires vs))
  unfolding decode_elements
  cons_read v vs i buf consumed first later =
      rw (decode_elements, first, later)
        (ap (λ n. ok (cons (canonical v) (canonicals vs), n))
          (omega (arith, length-append {0} (wire v) (wires vs))))

  elements_read :
      (vs : Values) (i : ℕ) (front rest : Bytes) (consumed : ℕ)
      → consumed ≡ length front
      → AllSendable levels vs
      → decode_elements dec (count vs) i (front ++ (wires vs ++ rest)) consumed
        ≡ ok (canonicals vs, consumed + length (wires vs))
  unfolding wire canonical
  elements_read nil i front rest consumed e s =
      unfold decode_elements in ap (λ n. ok (nil, n)) (omega arith)
  elements_read (cons v vs) i front rest consumed e s =
      let later =
        elements_read vs (suc i) (front ++ wire v) rest (consumed + length (wire v))
          (omega (arith, length-append {0})) s.1 in
      ap (λ b. decode_elements dec (suc (count vs)) i (front ++ b) consumed)
        (append_assoc (wire v) (wires vs) rest)
      ∙ (cons_read v vs i (front ++ (wire v ++ (wires vs ++ rest))) consumed
          (rw (e, drop-append front (wire v ++ (wires vs ++ rest)))
            (reads v (wires vs ++ rest) s.0))
          (rw (← append_assoc front (wire v) (wires vs ++ rest)) later))

  array_read :
      (vs : Values) (rest : Bytes)
      → count vs < 2 ^ 63
      → AllSendable levels vs
      → decode_array dec (wire (array vs false) ++ rest)
        ≡ ok (array (canonicals vs) false, length (wire (array vs false)))
  unfolding decode_array array_elements wire
  array_read vs rest h s =
      let header = format_int (pos (count vs)) in
      let opening = line b'*' header in
      let later =
        elements_read vs 0 opening rest (1 + (length header + 2))
          (omega (arith, length-line (b'*') header)) s in
      rw (append_assoc opening (wires vs) rest) (
        rw
          (
            line_read b'*' header (wires vs ++ rest) (format_int-NoNewline (pos (count vs))),
            parse_decimal_int-format_int (pos (count vs)) (length_int64 (count vs) h),
            later,
          )
          (ap (λ n. ok (array (canonicals vs) false, n))
            (omega (arith, length-append {0} opening (wires vs), length-line (b'*') header))))

module _ (levels : ℕ) (arrays : Bytes → Fallible (Value × ℕ)) where
  frame_read :
      (array_reads : (vs : Values) (is_null : Bool) (rest : Bytes)
        → Sendable levels (array vs is_null)
        → arrays (wire (array vs is_null) ++ rest)
          ≡ ok (canonical (array vs is_null), length (wire (array vs is_null))))
      → Reads levels (decode_frame arrays)
  unfolding decode_frame wire canonical integer_from_line boolean_from_marker null_from_payload
  frame_read array_reads (simple_string value) rest s =
      rw (line_read b'+' value rest s)
        (ap (λ n. ok (simple_string value, n)) (omega (arith, length-append {0})))
  frame_read array_reads (error_value value) rest s =
      rw (line_read b'-' value rest s)
        (ap (λ n. ok (error_value value, n)) (omega (arith, length-append {0})))
  frame_read array_reads (integer z) rest s =
      rw
        (
          line_read b':' (format_int z) rest (format_int-NoNewline z),
          parse_int_bytes-format_int z s,
        )
        (ap (λ n. ok (integer z, n)) (omega (arith, length-append {0})))
  frame_read array_reads (bulk_string payload true) rest s = null_bulk_read rest
  frame_read array_reads (bulk_string payload false) rest s = bulk_read payload rest s
  frame_read array_reads (text_bulk_string value true) rest s = null_bulk_read rest
  frame_read array_reads (text_bulk_string value false) rest s = bulk_read value rest s
  frame_read array_reads (array vs true) rest s = array_reads vs true rest s
  frame_read array_reads (array vs false) rest s = array_reads vs false rest s
  frame_read array_reads (boolean true) rest s = rw (line_read b'#' (b't' ∷ []) rest (omega arith))
  frame_read array_reads (boolean false) rest s = rw (line_read b'#' (b'f' ∷ []) rest (omega arith))
  frame_read array_reads null rest s = rw (line_read b'_' [] rest tt)
  frame_read array_reads unknown rest s = absurd s

array_Reads :
    (levels : ℕ) (dec : Bytes → Fallible (Value × ℕ))
    → Reads levels dec
    → (vs : Values) (is_null : Bool) (rest : Bytes) → Sendable (suc levels) (array vs is_null)
    → decode_array dec (wire (array vs is_null) ++ rest)
      ≡ ok (canonical (array vs is_null), length (wire (array vs is_null)))
unfolding wire canonical
array_Reads levels dec reads vs true rest s = null_array_read dec rest
array_Reads levels dec reads vs false rest s = array_read levels dec reads vs rest s.0 s.1

decode_at-Reads : (levels : ℕ) → Reads levels (decode_at levels)
unfolding decode_at
decode_at-Reads zero = frame_read zero _ (λ vs is_null rest s. absurd s)
decode_at-Reads (suc levels) =
    frame_read (suc levels) _ (array_Reads levels (decode_at levels) (decode_at-Reads levels))

-- A value that can be sent is encoded (no newline in its lines, numbers and lengths that are an int64,
-- arrays at most 128 deep, frame types only), and `Decode` reads it back from the front of any buffer
-- that begins with its encoding, and takes exactly the bytes of the encoding. Text comes back as bytes,
-- and a null string or array without a payload.
pub decode-encode :
    (v : Value) (rest : Bytes)
    → Sendable max_nesting_depth v
    → (bytes : Bytes) × (encode v ≡ ok bytes)
      × (decode (bytes ++ rest) ≡ ok (canonical v, length bytes))
unfolding decode
decode-encode v rest s =
    (wire v, encode-wire max_nesting_depth v s, decode_at-Reads max_nesting_depth v rest s)
