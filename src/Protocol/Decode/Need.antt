-- ===== src/Protocol/Decode/Need.antt =====
-- The hint of `IncompleteError`: more than the buffer holds, and no more than the frame takes.
use Prim.Native.Nat.{◌^◌}
use runedb.Base.{
  ℕ, zero, suc, ◌+◌, ◌≤◌, ◌<◌, ◌≡◌, ◌≢◌, refl, ap, ◌∙◌, inl, inr, Result-cases, false, some, [],
  ◌∷◌, ◌++◌, Bytes, ok, err, ◌>>=◌, >>=-eq-ok, map_err, length, drop, length-drop, drop-append_le,
  length-append, arith, >>=-eq-err,
}
use runedb.Base.Int.{ℤ, pos, negsuc, pos_part}
use runedb.Protocol.Number.{parse_decimal_int}
use runedb.Protocol.Value.{
  Value, Values, simple_string, error_value, bulk_length, array_length, Fallible, Error, incomplete,
}
use runedb.Protocol.Decode.{
  index_byte, trim_crlf, incomplete_need, decode_line, integer_from_line, boolean_from_marker,
  null_from_payload, line_frame, bulk_payload, decode_bulk_string, decode_elements, array_elements,
  decode_array, decode_frame, decode_at, decode, element_error,
}
use runedb.Protocol.Decode.Line.{decode_line-le, decode_line-append}
use runedb.Protocol.Decode.Bounds.{Within, decode_at-Within, decode_elements-within}
use runedb.Protocol.Decode.Stable.{is_incomplete, Stable, decode_at-Stable}

-- `need` bytes are more than `size`, a frame of `n` bytes has that many, and they are an `int`.
abbrev pub Lies : ℕ → ℕ → ℕ → Type 0
Lies need size n = (size < need) × (need ≤ n) × (need < 2 ^ 63)

abbrev pub Hinted : (Bytes → Fallible (Value × ℕ)) → Type 0
Hinted dec =
    (buf ext : Bytes) (v : Value) (n need : ℕ)
    → length buf < 2 ^ 63
    → dec buf ≡ err (incomplete (some need))
    → dec (buf ++ ext) ≡ ok (v, n)
    → Lies need (length buf) n

-- A line gives no hint.
decode_line-bare : (buf : Bytes) (need : ℕ) → decode_line buf ≡ err (incomplete (some need)) → ⊥
unfolding decode_line trim_crlf
decode_line-bare buf need h = ground arith

decimal_bound : (line : Bytes) (k : ℕ) → parse_decimal_int line ≡ ok (pos k) → k < 2 ^ 63
unfolding parse_decimal_int
decimal_bound line k h = ground arith

incomplete_need_lem :
    (total need : ℕ)
    → incomplete_need total ≡ incomplete (some need)
    → (need ≤ total) × (need < 2 ^ 63) × (total < 2 ^ 64 → need ≡ total)
unfolding incomplete_need
incomplete_need_lem total need h = (ground arith, ground arith, λ lt. ground arith)

bulk_payload-hint :
    (buf ext : Bytes) (consumed : ℕ) (len : ℤ) (v : Value) (n need : ℕ)
    → pos_part len < 2 ^ 63
    → length buf < 2 ^ 63
    → consumed ≤ length buf
    → bulk_payload buf consumed len ≡ err (incomplete (some need))
    → bulk_payload (buf ++ ext) consumed len ≡ ok (v, n)
    → Lies need (length buf) n
unfolding bulk_payload
bulk_payload-hint buf ext consumed (pos len) v n need small fits c h k =
    ground (arith, length-drop {0} consumed buf, incomplete_need_lem (consumed + len + 2) need)
bulk_payload-hint buf ext consumed (negsuc zero) v n need small fits c h k = ground arith
bulk_payload-hint buf ext consumed (negsuc (suc m)) v n need small fits c h k = ground arith

-- What an incomplete frame with a hint says about the line that its length stands on: it was read.
hint_line :
    {A : Type 0} (buf : Bytes) (f : Bytes × ℕ → Fallible A) (need : ℕ)
    → (decode_line (drop 1 buf) >>= f) ≡ err (incomplete (some need))
    → (line : Bytes) × (n : ℕ) × (decode_line (drop 1 buf) ≡ ok (line, n))
      × (1 + n ≤ length buf)
      × (f (line, n) ≡ err (incomplete (some need)))
hint_line [] f need h = absurd (unfold decode_line index_byte in ground arith)
hint_line (c ∷ buf) f need h = elim (>>=-eq-err (decode_line buf) f h) [
  | inl e ↦ absurd (decode_line-bare buf need e)
  | inr ((line, n), e, q) ↦ (line, n, e, ground (arith, decode_line-le buf line n e), q)
]

decode_line-same :
    (buf ext line : Bytes) (n : ℕ)
    → 1 + n ≤ length buf
    → decode_line (drop 1 buf) ≡ ok (line, n)
    → decode_line (drop 1 (buf ++ ext)) ≡ ok (line, n)
decode_line-same [] ext line n room h = absurd (omega arith)
decode_line-same (c ∷ buf) ext line n room h = decode_line-append buf ext (λ x. ground arith) ∙ h

-- A length that was read, with the wrapping of its error: neither gives a hint.
hint_length :
    {A : Type 0} (line : Bytes) (g : Error → Error) (f : ℤ → Fallible A) (need : ℕ)
    → ((e : Error) → g e ≢ incomplete (some need))
    → (map_err g (parse_decimal_int line) >>= f) ≡ err (incomplete (some need))
    → (len : ℤ) × (parse_decimal_int line ≡ ok len) × (f len ≡ err (incomplete (some need)))
hint_length line g f need other h = elim (Result-cases (parse_decimal_int line)) [
  | inl (len, e) ↦ (len, e, rw e at h)
  | inr (e, q) ↦ absurd (other e (ground arith))
]

len_bound : (line : Bytes) (len : ℤ) → parse_decimal_int line ≡ ok len → pos_part len < 2 ^ 63
len_bound line (pos k) h = decimal_bound line k h
len_bound line (negsuc k) h = omega arith

decode_bulk_string-Hinted : Hinted decode_bulk_string
unfolding decode_bulk_string
decode_bulk_string-Hinted buf ext v n need fits h k =
    let (line, m, e, room, q) = hint_line buf _ need h in
    let (len, p, r) = hint_length line bulk_length _ need (λ er x. cc) q in
    bulk_payload-hint buf ext (1 + m) len v n need (len_bound line len p) fits room r
      (rw (decode_line-same buf ext line m room e, p) at k)

element_hint :
    (i consumed need : ℕ) (e : Error)
    → element_error i consumed e ≡ incomplete (some need)
    → (need' : ℕ) × (e ≡ incomplete (some need'))
      × (incomplete_need (consumed + need') ≡ incomplete (some need))
unfolding element_error
element_hint i consumed need (incomplete (some need')) h = (need', refl, h)
element_hint i consumed need _ h = absurd (cc)

-- What is done with a value that was decoded does not fail.
err_of_bind :
    {A B : Type 0} (m : Fallible A) (f : A → B) {e : Error}
    → (m >>= λ a. ok (f a)) ≡ err e
    → m ≡ err e
err_of_bind (ok a) f h = cc
err_of_bind (err e) f h = cc

err-injective : {A : Type 0} {e e' : Error} → ◌≡◌ {A = Fallible A} (err e) (err e') → e ≡ e'
err-injective h = cc

err-ne-ok : {A : Type 0} {e : Error} {a : A} → ◌≡◌ {A = Fallible A} (err e) (ok a) → ⊥
err-ne-ok h = cc

module _ (dec : Bytes → Fallible (Value × ℕ)) (dec_within : Within dec) (dec_stable : Stable dec)
    (dec_hinted : Hinted dec) where
  -- The first of several elements that were decoded ends before the last.
  decode_elements_first :
      (left i : ℕ) (buf ext : Bytes) (consumed : ℕ) (vs : Values) (n : ℕ)
      → consumed ≤ length buf
      → decode_elements dec (suc left) i (buf ++ ext) consumed ≡ ok (vs, n)
      → (v : Value) × (m : ℕ) × (dec (drop consumed buf ++ ext) ≡ ok (v, m)) × (consumed + m ≤ n)
  unfolding decode_elements
  decode_elements_first left i buf ext consumed vs n c k =
      elim (Result-cases (dec (drop consumed buf ++ ext))) [
        | inr (e, p) ↦
            absurd (err-ne-ok (rw (decode_elements, drop-append_le consumed buf ext c, p) at k))
        | inl ((v, m), p) ↦
            let within = dec_within (drop consumed buf ++ ext) v m p in
            let room : consumed + m ≤ length (buf ++ ext) =
              omega (arith, length-drop {0} consumed buf, length-append {0}) in
            let ((rest, end), q, k') =
              >>=-eq-ok (decode_elements dec left (suc i) (buf ++ ext) (consumed + m)) _
                (rw (decode_elements, drop-append_le consumed buf ext c, p) at k) in
            let later =
              decode_elements-within dec dec_within left (suc i) (buf ++ ext) (consumed + m) rest
                end room q in
            (v, m, p, ground arith)
      ]

  first_later :
      (left i : ℕ) (buf ext : Bytes) (consumed : ℕ) (vs : Values) (n need need' : ℕ)
      → length buf < 2 ^ 63
      → consumed ≤ length buf
      → dec (drop consumed buf) ≡ err (incomplete (some need'))
      → incomplete_need (consumed + need') ≡ incomplete (some need)
      → decode_elements dec (suc left) i (buf ++ ext) consumed ≡ ok (vs, n)
      → Lies need (length buf) n
  unfolding decode_elements
  first_later left i buf ext consumed vs n need need' fits c p w k =
      let (v, m, q, room) = decode_elements_first left i buf ext consumed vs n c k in
      let lies =
        dec_hinted (drop consumed buf) ext v m need' (omega (arith, length-drop {0} consumed buf)) p
          q in
      let (small, int, exact) = incomplete_need_lem (consumed + need') need w in
      let total : need ≡ consumed + need' = exact (omega arith) in
      (omega (arith, length-drop {0} consumed buf), omega arith, int)

  decode_elements-hint :
      (left i : ℕ) (buf ext : Bytes) (consumed : ℕ) (vs : Values) (n need : ℕ)
      → length buf < 2 ^ 63
      → consumed ≤ length buf
      → decode_elements dec left i buf consumed ≡ err (incomplete (some need))
      → decode_elements dec left i (buf ++ ext) consumed ≡ ok (vs, n)
      → Lies need (length buf) n
  unfolding decode_elements
  decode_elements-hint zero i buf ext consumed vs n need fits c h k = absurd (cc)
  decode_elements-hint (suc left) i buf ext consumed vs n need fits c h k =
      elim (Result-cases (dec (drop consumed buf))) [
        | inl ((v, m), p) ↦
            let same = dec_stable (drop consumed buf) ext (rw p) in
            let within = dec_within (drop consumed buf) v m p in
            let room : consumed + m ≤ length buf = omega (arith, length-drop {0} consumed buf) in
            let ((rest, end), q, k') =
              >>=-eq-ok (decode_elements dec left (suc i) (buf ++ ext) (consumed + m)) _
                (rw (decode_elements, drop-append_le consumed buf ext c, same, p) at k) in
            let stuck =
              err_of_bind (decode_elements dec left (suc i) buf (consumed + m)) _
                (rw (p, decode_elements) at h) in
            let later =
              decode_elements-hint left (suc i) buf ext (consumed + m) rest end need fits room stuck
                q in
            ground arith
        | inr (e, p) ↦
            let (need', e', w) =
              element_hint i consumed need e (err-injective (rw (p, decode_elements) at h)) in
            first_later left i buf ext consumed vs n need need' fits c (p ∙ ap err e') w k
      ]

  array_elements-hint :
      (buf ext : Bytes) (consumed : ℕ) (count : ℤ) (v : Value) (n need : ℕ)
      → length buf < 2 ^ 63
      → consumed ≤ length buf
      → array_elements dec buf consumed count ≡ err (incomplete (some need))
      → array_elements dec (buf ++ ext) consumed count ≡ ok (v, n)
      → Lies need (length buf) n
  unfolding array_elements
  array_elements-hint buf ext consumed (pos count) v n need fits c h k =
      let ((vs, end), p, k') = >>=-eq-ok (decode_elements dec count 0 (buf ++ ext) consumed) _ k in
      let lies =
        decode_elements-hint count 0 buf ext consumed vs end need fits c
          (err_of_bind (decode_elements dec count 0 buf consumed) _ h) p in
      ground arith
  array_elements-hint buf ext consumed (negsuc zero) v n need fits c h k = ground arith
  array_elements-hint buf ext consumed (negsuc (suc m)) v n need fits c h k = ground arith

  decode_array-Hinted : Hinted (decode_array dec)
  unfolding decode_array
  decode_array-Hinted buf ext v n need fits h k =
      let (line, m, e, room, q) = hint_line buf _ need h in
      let (len, p, r) = hint_length line array_length _ need (λ er x. cc) q in
      array_elements-hint buf ext (1 + m) len v n need fits room r
        (rw (decode_line-same buf ext line m room e, p) at k)

line_frame-Hinted :
    (make : Bytes → Fallible Value)
    → ((line : Bytes) → is_incomplete (make line) ≡ false)
    → Hinted (line_frame make)
line_frame-Hinted make complete buf ext v n need fits h k =
    let (line, m, e, room, q) = hint_line buf _ need h in
    absurd (made_whole (make line) (complete line) _ q)
  where
    made_whole :
        (r : Fallible Value)
        → is_incomplete r ≡ false
        → (f : Value → Value × ℕ) → (r >>= λ value. ok (f value)) ≡ err (incomplete (some need))
        → ⊥
    made_whole (ok a) c f x = cc
    made_whole (err (incomplete o)) c f x = cc
    made_whole (err _) c f x = cc

integer_from_line_complete : (line : Bytes) → is_incomplete (integer_from_line line) ≡ false
unfolding integer_from_line
integer_from_line_complete line = ground arith

boolean_from_marker_complete : (line : Bytes) → is_incomplete (boolean_from_marker line) ≡ false
unfolding boolean_from_marker
boolean_from_marker_complete [] = refl
boolean_from_marker_complete (c ∷ []) = ground arith
boolean_from_marker_complete (c ∷ d ∷ line) = refl

null_from_payload_complete : (line : Bytes) → is_incomplete (null_from_payload line) ≡ false
unfolding null_from_payload
null_from_payload_complete [] = refl
null_from_payload_complete (c ∷ line) = refl

module _ (arrays : Bytes → Fallible (Value × ℕ)) (arrays_hinted : Hinted arrays) where
  decode_frame-Hinted : Hinted (decode_frame arrays)
  unfolding decode_frame
  decode_frame-Hinted [] ext v n need fits h k = ground arith
  decode_frame-Hinted (prefix ∷ body) ext v n need fits h k =
      let buf : Bytes = prefix ∷ body in
      ground (
        arith,
        line_frame-Hinted (λ line. ok (simple_string line)) (λ line. refl) buf ext v n need,
        line_frame-Hinted (λ line. ok (error_value line)) (λ line. refl) buf ext v n need,
        line_frame-Hinted integer_from_line integer_from_line_complete buf ext v n need,
        line_frame-Hinted boolean_from_marker boolean_from_marker_complete buf ext v n need,
        line_frame-Hinted null_from_payload null_from_payload_complete buf ext v n need,
        decode_bulk_string-Hinted buf ext v n need,
        arrays_hinted buf ext v n need,
      )

decode_at-Hinted : (levels : ℕ) → Hinted (decode_at levels)
unfolding decode_at
decode_at-Hinted zero = decode_frame-Hinted _ (λ buf ext v n need fits h k. cc)
decode_at-Hinted (suc levels) = decode_frame-Hinted _ (
    decode_array-Hinted _ (decode_at-Within levels) (decode_at-Stable levels)
      (decode_at-Hinted levels))

-- Where `Decode` returns `IncompleteError{Need: need}` on a buffer shorter than 2 ^ 63, and the buffer
-- with more bytes behind it decodes to a frame of `n` bytes, then `need` is more than the buffer held
-- and at most `n`.
pub decode_need :
    (buf ext : Bytes) (v : Value) (n need : ℕ)
    → length buf < 2 ^ 63
    → decode buf ≡ err (incomplete (some need))
    → decode (buf ++ ext) ≡ ok (v, n)
    → (length buf < need) × (need ≤ n)
unfolding decode
decode_need buf ext v n need fits h k =
    let lies = decode_at-Hinted 128 buf ext v n need fits h k in (lies.0, lies.1)
