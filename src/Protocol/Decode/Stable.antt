-- ===== src/Protocol/Decode/Stable.antt =====
-- More bytes behind a frame, or behind an error that is not `ErrIncomplete`, change nothing.
use runedb.Base.{
  none, ℕ, zero, suc, ◌+◌, ◌≤◌, ◌≡◌, refl, inl, inr, Result-cases, Bool, true, false, Bool-cases,
  [], ◌∷◌, ◌++◌, Bytes, ok, err, ◌>>=◌, map_err, length, drop, length-drop, drop-append_le, arith,
  length-append, take-append_le, get_or-append_lt, ltb,
}
use runedb.Base.Int.{ℤ, pos, negsuc}
use runedb.Protocol.Number.{parse_decimal_int}
use runedb.Protocol.Value.{
  Value, Values, simple_string, error_value, bulk_length, array_length, Fallible, Error, incomplete,
}
use runedb.Protocol.Decode.{
  index_byte, decode_line, integer_from_line, boolean_from_marker, null_from_payload, line_frame,
  bulk_payload, decode_bulk_string, decode_elements, array_elements, decode_array, decode_frame,
  decode_at, decode, element_error,
}
use runedb.Protocol.Decode.Line.{decode_line-le, decode_line-append}
use runedb.Protocol.Decode.Bounds.{Within, decode_at-Within}

-- errors.Is(err, ErrIncomplete)
abbrev pub is_incomplete {ℓ} : {A : Type ℓ} → Fallible A → Bool
is_incomplete (err (incomplete need)) = true
is_incomplete _ = false

abbrev pub Stable : (Bytes → Fallible (Value × ℕ)) → Type 0
Stable dec = (buf ext : Bytes) → is_incomplete (dec buf) ≡ false → dec (buf ++ ext) ≡ dec buf

-- A computation on the first line: stable where what it does with the line is.
pub on_line :
    {A : Type 0} (buf ext : Bytes) (f g : Bytes × ℕ → Fallible A)
    → ((line : Bytes) (n : ℕ)
        → 1 + n ≤ length buf
        → is_incomplete (f (line, n)) ≡ false
        → g (line, n) ≡ f (line, n))
    → is_incomplete (decode_line (drop 1 buf) >>= f) ≡ false
    → (decode_line (drop 1 (buf ++ ext)) >>= g) ≡ (decode_line (drop 1 buf) >>= f)
on_line [] ext f g same h = absurd (unfold decode_line index_byte in ground arith)
on_line (c ∷ buf) ext f g same h = elim (Result-cases (decode_line buf)) [
  | inl ((line, n), e) ↦
      rw (decode_line-append buf ext (λ x. ground arith), e)
        (same line n (ground (arith, decode_line-le buf line n e)) (rw e at h))
  | inr (er, e) ↦ rw (decode_line-append buf ext (λ x. ground arith), e)
]

line_frame-Stable : (make : Bytes → Fallible Value) → Stable (line_frame make)
line_frame-Stable make buf ext h =
    on_line buf ext (λ p. make p.0 >>= λ value. ok (value, 1 + p.1)) _ (λ line n _ _. refl) h

bulk_payload-stable :
    (buf ext : Bytes) (consumed : ℕ) (len : ℤ)
    → consumed ≤ length buf
    → is_incomplete (bulk_payload buf consumed len) ≡ false
    → bulk_payload (buf ++ ext) consumed len ≡ bulk_payload buf consumed len
unfolding bulk_payload
bulk_payload-stable buf ext consumed (pos len) c h =
    let remaining = drop consumed buf in
    rw (drop-append_le consumed buf ext c) (elim (Bool-cases (ltb (length remaining) (len + 2))) [
      | inl short ↦ ground arith
      | inr enough ↦
          let room : len + 2 ≤ length remaining = ground arith in
          ground (
            arith,
            length-append {0} remaining ext,
            take-append_le len remaining ext (omega arith),
            get_or-append_lt len remaining ext 0 (omega arith),
            get_or-append_lt (suc len) remaining ext 0 (omega arith),
          )
    ])
bulk_payload-stable buf ext consumed (negsuc zero) c h = refl
bulk_payload-stable buf ext consumed (negsuc (suc k)) c h = refl

is_incomplete-map_err :
    {A B : Type 0} (g : Error → Error) (m : Fallible A) (f : A → Fallible B)
    → is_incomplete (map_err g m >>= f) ≡ false
    → (k : A → Fallible B) → ((a : A) → is_incomplete (f a) ≡ false → k a ≡ f a)
    → (map_err g m >>= k) ≡ (map_err g m >>= f)
is_incomplete-map_err g (ok a) f h k same = same a h
is_incomplete-map_err g (err e) f h k same = refl

decode_bulk_string-Stable : Stable decode_bulk_string
unfolding decode_bulk_string
decode_bulk_string-Stable buf ext h =
    on_line buf ext _ _
      (λ line n room q.
        is_incomplete-map_err bulk_length (parse_decimal_int line) _ q _
          λ len r. bulk_payload-stable buf ext (1 + n) len room r)
      h

ok_of_bind :
    {A B : Type 0} (m : Fallible A) (f : A → Fallible B)
    → is_incomplete (m >>= f) ≡ false
    → is_incomplete m ≡ false
ok_of_bind (ok a) f h = refl
ok_of_bind (err (incomplete need)) f h = h
ok_of_bind (err _) f h = refl

element_error_complete :
    (i consumed : ℕ) (e : Error)
    → is_incomplete {A = Values × ℕ} (err (element_error i consumed e)) ≡ false
    → is_incomplete {A = Value × ℕ} (err e) ≡ false
unfolding element_error
element_error_complete i consumed (incomplete need) h = ground arith
element_error_complete i consumed _ h = refl

module _ (dec : Bytes → Fallible (Value × ℕ)) (dec_within : Within dec)
    (dec_stable : Stable dec) where
  decode_elements-stable :
      (left i : ℕ) (buf ext : Bytes) (consumed : ℕ)
      → consumed ≤ length buf
      → is_incomplete (decode_elements dec left i buf consumed) ≡ false
      → decode_elements dec left i (buf ++ ext) consumed ≡ decode_elements dec left i buf consumed
  unfolding decode_elements
  decode_elements-stable zero i buf ext consumed c h = refl
  decode_elements-stable (suc left) i buf ext consumed c h =
      elim (Result-cases (dec (drop consumed buf))) [
        | inr (e, p) ↦
            let same =
              dec_stable (drop consumed buf) ext
                (rw p (element_error_complete i consumed e (rw (p, decode_elements) at h))) in
            rw (decode_elements, drop-append_le consumed buf ext c, same, p)
        | inl ((v, m), p) ↦
            let same = dec_stable (drop consumed buf) ext (rw p) in
            let within = dec_within (drop consumed buf) v m p in
            let later =
              decode_elements-stable left (suc i) buf ext (consumed + m)
                (omega (arith, length-drop {0} consumed buf))
                (ok_of_bind (decode_elements dec left (suc i) buf (consumed + m)) _
                  (rw (p, decode_elements) at h)) in
            rw (decode_elements, drop-append_le consumed buf ext c, same, p, later)
      ]

  array_elements-stable :
      (buf ext : Bytes) (consumed : ℕ) (count : ℤ)
      → consumed ≤ length buf
      → is_incomplete (array_elements dec buf consumed count) ≡ false
      → array_elements dec (buf ++ ext) consumed count ≡ array_elements dec buf consumed count
  unfolding array_elements
  array_elements-stable buf ext consumed (pos count) c h = rw (
      decode_elements-stable count 0 buf ext consumed c
        (ok_of_bind (decode_elements dec count 0 buf consumed) _ h))
  array_elements-stable buf ext consumed (negsuc zero) c h = refl
  array_elements-stable buf ext consumed (negsuc (suc k)) c h = refl

  decode_array-Stable : Stable (decode_array dec)
  unfolding decode_array
  decode_array-Stable buf ext h =
      on_line buf ext _ _
        (λ line n room q.
          is_incomplete-map_err array_length (parse_decimal_int line) _ q _
            λ len r. array_elements-stable buf ext (1 + n) len room r)
        h

module _ (arrays : Bytes → Fallible (Value × ℕ)) (arrays_stable : Stable arrays) where
  decode_frame-Stable : Stable (decode_frame arrays)
  unfolding decode_frame
  decode_frame-Stable [] ext h = absurd (ground arith)
  decode_frame-Stable (prefix ∷ body) ext h =
      let buf : Bytes = prefix ∷ body in
      ground (
        arith,
        line_frame-Stable (λ line. ok (simple_string line)) buf ext,
        line_frame-Stable (λ line. ok (error_value line)) buf ext,
        line_frame-Stable integer_from_line buf ext,
        line_frame-Stable boolean_from_marker buf ext,
        line_frame-Stable null_from_payload buf ext,
        decode_bulk_string-Stable buf ext,
        arrays_stable buf ext,
      )

pub decode_at-Stable : (levels : ℕ) → Stable (decode_at levels)
unfolding decode_at
decode_at-Stable zero = decode_frame-Stable _ (λ buf ext h. refl)
decode_at-Stable (suc levels) =
    decode_frame-Stable _
      (decode_array-Stable _ (decode_at-Within levels) (decode_at-Stable levels))

-- A frame that was decoded, and an error other than `ErrIncomplete`, stay what they are when more
-- bytes arrive.
pub decode-Stable :
    (buf ext : Bytes) → is_incomplete (decode buf) ≡ false → decode (buf ++ ext) ≡ decode buf
unfolding decode
decode-Stable buf ext h = decode_at-Stable 128 buf ext h

-- An empty buffer waits for its first byte.
pub decode_nil : decode [] ≡ err (incomplete none)
unfolding decode decode_at decode_frame
decode_nil = refl
