-- ===== src/Tests/Protocol.antt =====
-- internal/protocol at concrete inputs.
use runedb.Base.{
  ◌≤◌, ◌<◌, ◌≡◌, refl, false, some, [], ◌∷◌, ◌++◌, Bytes, ok, err, length, arith, map_ok, to_option,
  ◌+◌,
}
use runedb.Base.Int.{negsuc}
use runedb.Protocol.Number.{format_int, parse_int_bytes, parse_decimal_int, digits_of}
use runedb.Protocol.Number.Parse.{denotes, int64_only, parse_int_bytes-denotes}
use runedb.Protocol.Number.Print.{parse_int_bytes-format_int}
use runedb.Protocol.Value.{
  Value, integer, bulk_string, text_bulk_string, array, null, nil, cons, incomplete,
}
use runedb.Protocol.Writer.{encode, encoded_len, append_encoded_value}
use runedb.Protocol.Writer.Length.{length-append_encoded_value}
use runedb.Protocol.Writer.Stream.{write_to_buffer, completed, write_value-append_encoded_value}
use runedb.Protocol.Decode.{decode, trim_crlf}
use runedb.Protocol.Decode.RoundTrip.{canonical, decode-encode}
use runedb.Protocol.Decode.Stable.{decode-Stable}
use runedb.Protocol.Decode.Bounds.{decode-Within}
use runedb.Protocol.Decode.Need.{decode_need}

-- An array of an integer, a text and a null.
abbrev reply : Value
reply =
    array
      (cons (integer (negsuc 41))
        (cons (text_bulk_string (b'h' ∷ b'i' ∷ []) false) (cons null nil)))
      false

decode-encode_example :
    (bytes : Bytes) × (encode reply ≡ ok bytes)
    × (decode (bytes ++ b'+' ∷ []) ≡ ok (canonical reply, length bytes))
decode-encode_example = decode-encode reply (b'+' ∷ []) (omega arith)

-- "$3\r\nab"
abbrev half_bulk : Bytes
half_bulk = b'$' ∷ b'3' ∷ b'\r' ∷ b'\n' ∷ b'a' ∷ b'b' ∷ []

abbrev other_half : Bytes
other_half = b'c' ∷ b'\r' ∷ b'\n' ∷ b'+' ∷ []

abbrev abc : Value
abc = bulk_string (b'a' ∷ b'b' ∷ b'c' ∷ []) false

half_bulk_needs : decode half_bulk ≡ err (incomplete (some 9))
unfolding decode trim_crlf parse_decimal_int parse_int_bytes
half_bulk_needs = refl

whole_bulk : decode (half_bulk ++ other_half) ≡ ok (abc, 9)
unfolding decode trim_crlf parse_decimal_int parse_int_bytes
whole_bulk = refl

decode-Stable_example :
    decode (half_bulk ++ other_half ++ b'x' ∷ []) ≡ decode (half_bulk ++ other_half)
decode-Stable_example = decode-Stable (half_bulk ++ other_half) (b'x' ∷ []) (rw whole_bulk)

decode-Within_example : (0 < 9) × (9 ≤ 10)
decode-Within_example = decode-Within (half_bulk ++ other_half) abc 9 whole_bulk

decode_need_example : (6 < 9) × (9 ≤ 9)
decode_need_example =
    decode_need half_bulk other_half abc 9 9 (omega arith) half_bulk_needs whole_bulk

length-append_encoded_value_example :
    map_ok length (append_encoded_value (b'+' ∷ []) reply) ≡ map_ok (λ n. 1 + n) (encoded_len reply)
length-append_encoded_value_example = length-append_encoded_value (b'+' ∷ []) reply

write_value-append_encoded_value_example :
    completed (write_to_buffer reply []) ≡ to_option (append_encoded_value [] reply)
write_value-append_encoded_value_example = write_value-append_encoded_value reply []

parse_int_bytes-denotes_example :
    to_option (parse_int_bytes (b'-' ∷ b'4' ∷ b'2' ∷ []))
    ≡ int64_only (denotes (b'-' ∷ b'4' ∷ b'2' ∷ []))
parse_int_bytes-denotes_example = parse_int_bytes-denotes (b'-' ∷ b'4' ∷ b'2' ∷ [])

parse_int_bytes-format_int_example : parse_int_bytes (format_int (negsuc 41)) ≡ ok (negsuc 41)
parse_int_bytes-format_int_example = parse_int_bytes-format_int (negsuc 41) (omega arith)

prints : format_int (negsuc 41) ≡ b'-' ∷ b'4' ∷ b'2' ∷ []
unfolding format_int digits_of
prints = refl
