-- ===== src/Protocol/Decode/Bounds.antt =====
-- A decoded frame lies within the buffer.
use runedb.Base.{
  ℕ, zero, suc, ◌+◌, ◌≤◌, ◌<◌, ◌≡◌, inl, inr, Result-cases, [], ◌∷◌, Bytes, ok, ◌>>=◌, >>=-eq-ok,
  map_err, length, drop, length-drop, arith,
}
use runedb.Base.Int.{ℤ, pos, negsuc}
use runedb.Protocol.Number.{parse_decimal_int}
use runedb.Protocol.Value.{
  Value, Values, simple_string, error_value, bulk_length, array_length, Fallible,
}
use runedb.Protocol.Decode.{
  decode_line, integer_from_line, boolean_from_marker, null_from_payload, line_frame, bulk_payload,
  decode_bulk_string, decode_elements, array_elements, decode_array, decode_frame, decode_at,
  decode,
}
use runedb.Protocol.Decode.Line.{decode_line-le}

-- Every frame that `dec` returns is not empty and ends within its buffer.
abbrev pub Within : (Bytes → Fallible (Value × ℕ)) → Type 0
Within dec = (buf : Bytes) (v : Value) (n : ℕ) → dec buf ≡ ok (v, n) → (0 < n) × (n ≤ length buf)

line_frame-Within : (make : Bytes → Fallible Value) → Within (line_frame make)
line_frame-Within make buf v n h =
    let ((line, m), e, h') =
      >>=-eq-ok (decode_line (drop 1 buf)) (λ p. make p.0 >>= λ value. ok (value, 1 + p.1)) h in
    let (value, e', h'') = >>=-eq-ok (make line) (λ value. ok (value, 1 + m)) h' in
    ground (arith, decode_line-le (drop 1 buf) line m e, length-drop {0} 1 buf)

bulk_payload-within :
    (buf : Bytes) (consumed : ℕ) (len : ℤ) (v : Value) (n : ℕ)
    → consumed ≤ length buf
    → bulk_payload buf consumed len ≡ ok (v, n)
    → (consumed ≤ n) × (n ≤ length buf)
unfolding bulk_payload
bulk_payload-within buf consumed (pos len) v n c h = ground (arith, length-drop {0} consumed buf)
bulk_payload-within buf consumed (negsuc zero) v n c h = ground arith
bulk_payload-within buf consumed (negsuc (suc k)) v n c h = ground arith

decode_bulk_string-Within : Within decode_bulk_string
unfolding decode_bulk_string
decode_bulk_string-Within buf v n h =
    let ((line, m), e, h') = >>=-eq-ok (decode_line (drop 1 buf)) _ h in
    let (len, e', h'') = >>=-eq-ok (map_err bulk_length (parse_decimal_int line)) _ h' in
    let line_within = decode_line-le (drop 1 buf) line m e in
    let within =
      bulk_payload-within buf (1 + m) len v n (omega (arith, length-drop {0} 1 buf)) h'' in
    (omega arith, within.1)

module _ (dec : Bytes → Fallible (Value × ℕ)) (dec_within : Within dec) where
  pub decode_elements-within :
      (left i : ℕ) (buf : Bytes) (consumed : ℕ) (vs : Values) (n : ℕ)
      → consumed ≤ length buf
      → decode_elements dec left i buf consumed ≡ ok (vs, n)
      → (consumed ≤ n) × (n ≤ length buf)
  unfolding decode_elements
  decode_elements-within zero i buf consumed vs n c h = ground arith
  decode_elements-within (suc left) i buf consumed vs n c h =
      elim (Result-cases (dec (drop consumed buf))) [
        | inr (e, p) ↦ ground arith
        | inl ((v, m), p) ↦
            let within = dec_within (drop consumed buf) v m p in
            let room : consumed + m ≤ length buf = omega (arith, length-drop {0} consumed buf) in
            let ((rest, end), q, h') =
              >>=-eq-ok (decode_elements dec left (suc i) buf (consumed + m)) _
                (rw (p, decode_elements) at h) in
            let later = decode_elements-within left (suc i) buf (consumed + m) rest end room q in
            ground arith
      ]

  array_elements-within :
      (buf : Bytes) (consumed : ℕ) (count : ℤ) (v : Value) (n : ℕ)
      → consumed ≤ length buf
      → array_elements dec buf consumed count ≡ ok (v, n)
      → (consumed ≤ n) × (n ≤ length buf)
  unfolding array_elements
  array_elements-within buf consumed (pos count) v n c h =
      let ((vs, end), p, h') = >>=-eq-ok (decode_elements dec count 0 buf consumed) _ h in
      ground (arith, decode_elements-within count 0 buf consumed vs end c p)
  array_elements-within buf consumed (negsuc zero) v n c h = ground arith
  array_elements-within buf consumed (negsuc (suc k)) v n c h = ground arith

  decode_array-Within : Within (decode_array dec)
  unfolding decode_array
  decode_array-Within buf v n h =
      let ((line, m), e, h') = >>=-eq-ok (decode_line (drop 1 buf)) _ h in
      let (len, e', h'') = >>=-eq-ok (map_err array_length (parse_decimal_int line)) _ h' in
      let line_within = decode_line-le (drop 1 buf) line m e in
      let within =
        array_elements-within buf (1 + m) len v n (omega (arith, length-drop {0} 1 buf)) h'' in
      (omega arith, within.1)

module _ (arrays : Bytes → Fallible (Value × ℕ)) (arrays_within : Within arrays) where
  decode_frame-Within : Within (decode_frame arrays)
  unfolding decode_frame
  decode_frame-Within [] v n h = ground arith
  decode_frame-Within (prefix ∷ body) v n h =
      let buf : Bytes = prefix ∷ body in
      ground (
        arith,
        line_frame-Within (λ line. ok (simple_string line)) buf v n,
        line_frame-Within (λ line. ok (error_value line)) buf v n,
        line_frame-Within integer_from_line buf v n,
        line_frame-Within boolean_from_marker buf v n,
        line_frame-Within null_from_payload buf v n,
        decode_bulk_string-Within buf v n,
        arrays_within buf v n,
      )

pub decode_at-Within : (levels : ℕ) → Within (decode_at levels)
unfolding decode_at
decode_at-Within zero = decode_frame-Within _ (λ buf v n h. cc)
decode_at-Within (suc levels) =
    decode_frame-Within _ (decode_array-Within _ (decode_at-Within levels))

-- A decoded frame is not empty, and the bytes that it takes are in the buffer.
pub decode-Within :
    (buf : Bytes) (v : Value) (n : ℕ) → decode buf ≡ ok (v, n) → (0 < n) × (n ≤ length buf)
unfolding decode
decode-Within buf v n h = decode_at-Within 128 buf v n h
