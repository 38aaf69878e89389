-- ===== src/Protocol/Writer/Length.antt =====
-- `EncodedLen` counts the bytes that the encoder writes, and fails where it fails.
use runedb.Base.{
  ℕ, ◌+◌, ◌≡◌, refl, ap, true, false, Bytes, ok, err, ◌>>=◌, map_ok, length, length-append, arith,
}
use runedb.Base.Int.{ℤ}
use runedb.Protocol.Number.{decimal_int_len}
use runedb.Protocol.Value.{
  Value, Values, simple_string, error_value, integer, bulk_string, text_bulk_string, array, boolean,
  null, unknown, nil, cons, Fallible,
}
use runedb.Protocol.Writer.{
  append_prefixed_string_line, append_prefixed_int_line, append_bulk, append_encoded_value,
  append_elements, encoded_len, elements_len,
}

length-append_prefixed_string_line :
    (dst value : Bytes) (prefix : ℕ)
    → length (append_prefixed_string_line dst prefix value) ≡ length dst + (1 + length value + 2)
unfolding append_prefixed_string_line
length-append_prefixed_string_line dst value prefix = omega (arith, length-append {0})

length-append_prefixed_int_line :
    (dst : Bytes) (prefix : ℕ) (value : ℤ)
    → length (append_prefixed_int_line dst prefix value)
      ≡ length dst + (1 + decimal_int_len value + 2)
unfolding append_prefixed_int_line decimal_int_len
length-append_prefixed_int_line dst prefix value = omega (arith, length-append {0})

ruleset lengths = (arith, length-append_prefixed_string_line, length-append_prefixed_int_line)

abbrev Counts : Bytes → Fallible Bytes → Fallible ℕ → Type 0
Counts dst out size = map_ok length out ≡ map_ok (λ n. length dst + n) size

-- Both succeed, with the same count, or both fail with the same error.
cons-Counts :
    (base size : ℕ) (dst : Bytes) (written : Fallible Bytes) (counted : Fallible ℕ)
    (write_rest : Bytes → Fallible Bytes) (count_rest : ℕ → Fallible ℕ)
    → length dst ≡ base + size
    → Counts dst written counted
    → ((out : Bytes) (n : ℕ)
        → length out ≡ base + n
        → map_ok length (write_rest out) ≡ map_ok (λ k. base + k) (count_rest n))
    → map_ok length (written >>= write_rest)
      ≡ map_ok (λ k. base + k) (counted >>= λ k. count_rest (size + k))
cons-Counts base size dst (ok out) (ok n) write_rest count_rest e h later =
    later out (size + n) (ground arith)
cons-Counts base size dst (ok out) (err x) write_rest count_rest e h later = absurd (ground arith)
cons-Counts base size dst (err x) (ok n) write_rest count_rest e h later = absurd (ground arith)
cons-Counts base size dst (err x) (err y) write_rest count_rest e h later = ground arith

mutual
  unfolding append_encoded_value append_elements encoded_len elements_len append_bulk

  append_encoded_value-Counts :
      (dst : Bytes) (v : Value) → Counts dst (append_encoded_value dst v) (encoded_len v)
  append_encoded_value-Counts dst (simple_string value) =
      ap ok (omega (arith, length-append_prefixed_string_line))
  append_encoded_value-Counts dst (error_value message) =
      ap ok (omega (arith, length-append_prefixed_string_line))
  append_encoded_value-Counts dst (integer value) =
      ap ok (omega (arith, length-append_prefixed_int_line))
  append_encoded_value-Counts dst (bulk_string payload true) =
      ap ok (omega (arith, length-append {0}))
  append_encoded_value-Counts dst (bulk_string payload false) =
      ap ok (omega (arith, length-append {0}, length-append_prefixed_int_line))
  append_encoded_value-Counts dst (text_bulk_string value true) =
      ap ok (omega (arith, length-append {0}))
  append_encoded_value-Counts dst (text_bulk_string value false) =
      ap ok (omega (arith, length-append {0}, length-append_prefixed_int_line))
  append_encoded_value-Counts dst (array elements true) = ap ok (omega (arith, length-append {0}))
  append_encoded_value-Counts dst (array elements false) =
      append_elements-Counts (length dst) _ _ elements
        (omega (arith, length-append_prefixed_int_line))
  append_encoded_value-Counts dst (boolean true) = ap ok (omega (arith, length-append {0}))
  append_encoded_value-Counts dst (boolean false) = ap ok (omega (arith, length-append {0}))
  append_encoded_value-Counts dst null = ap ok (omega (arith, length-append {0}))
  append_encoded_value-Counts dst unknown = refl

  append_elements-Counts :
      (base size : ℕ) (dst : Bytes) (vs : Values)
      → length dst ≡ base + size
      → map_ok length (append_elements dst vs) ≡ map_ok (λ k. base + k) (elements_len size vs)
  append_elements-Counts base size dst nil h = ap ok h
  append_elements-Counts base size dst (cons v vs) h =
      cons-Counts base size dst (append_encoded_value dst v) (encoded_len v) _ _ h
        (append_encoded_value-Counts dst v) (λ out n e. append_elements-Counts base n out vs e)

-- `EncodedLen` says how many bytes `AppendValue` adds behind `dst`; where the one fails, so does the
-- other, with the same error.
pub length-append_encoded_value :
    (dst : Bytes) (v : Value)
    → map_ok length (append_encoded_value dst v) ≡ map_ok (λ n. length dst + n) (encoded_len v)
length-append_encoded_value dst v = append_encoded_value-Counts dst v
