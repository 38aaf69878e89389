-- ===== src/Protocol/Decode/Line.antt =====
-- `decodeLine` finds the first line of a buffer, and more bytes behind it change nothing.
use runedb.Base.{
  ℕ, suc, ◌+◌, ◌-◌, ◌≤◌, ◌<◌, ◌≡◌, ◌≢◌, refl, ap, inl, inr, none, some, Option-cases, [], ◌∷◌, ◌++◌,
  Bytes, ok, err, length, take, get_or, length-append, take-append, take-append_le, length-take,
  arith,
}
use runedb.Protocol.Value.{incomplete, crlf, NoNewline}
use runedb.Protocol.Decode.{index_byte, trim_crlf, decode_line}

pub index_byte-append :
    (c : ℕ) (buf ext : Bytes) {i : ℕ}
    → index_byte c buf ≡ some i
    → index_byte c (buf ++ ext) ≡ some i
unfolding index_byte
index_byte-append c [] ext h = ground arith
index_byte-append c (b ∷ buf) ext {i} h = elim (Option-cases (index_byte c buf)) [
  | inl e ↦ ground arith
  | inr (j, e) ↦ ground (arith, index_byte-append c buf ext e)
]

pub index_byte-lt : (c : ℕ) (buf : Bytes) (i : ℕ) → index_byte c buf ≡ some i → i < length buf
unfolding index_byte
index_byte-lt c [] i h = ground arith
index_byte-lt c (b ∷ buf) i h = elim (Option-cases (index_byte c buf)) [
  | inl e ↦ ground arith
  | inr (j, e) ↦ ground (arith, index_byte-lt c buf j e)
]

-- Once there is a newline, what follows it is not read.
pub decode_line-append :
    (buf ext : Bytes)
    → decode_line buf ≢ err (incomplete none)
    → decode_line (buf ++ ext) ≡ decode_line buf
unfolding decode_line
decode_line-append buf ext h = elim (Option-cases (index_byte b'\n' buf)) [
  | inl e ↦ absurd (h (rw (e, decode_line)))
  | inr (i, e) ↦
      rw (e, decode_line, index_byte-append b'\n' buf ext e)
        (rw (take-append_le (suc i) buf ext (index_byte-lt b'\n' buf i e)))
]

index_byte-content :
    (content rest : Bytes)
    → NoNewline content
    → index_byte b'\n' (content ++ (b'\r' ∷ b'\n' ∷ rest)) ≡ some (suc (length content))
unfolding index_byte
index_byte-content [] rest h = refl
index_byte-content (c ∷ cs) rest h = ground (arith, index_byte-content cs rest h.1)

pub get_or_end : (xs : Bytes) (y : ℕ) (ys : Bytes) → get_or (xs ++ (y ∷ ys)) (length xs) 0 ≡ y
get_or_end [] y ys = refl
get_or_end (x ∷ xs) y ys = get_or_end xs y ys

pub get_or_end_suc :
    (xs : Bytes) (y z : ℕ) (zs : Bytes) → get_or (xs ++ (y ∷ z ∷ zs)) (suc (length xs)) 0 ≡ z
get_or_end_suc [] y z zs = refl
get_or_end_suc (x ∷ xs) y z zs = get_or_end_suc xs y z zs

trim_crlf-content : (content : Bytes) → trim_crlf (content ++ crlf) ≡ ok content
unfolding trim_crlf
trim_crlf-content content = ground (
  arith,
  length-append {0} content crlf,
  get_or_end content (b'\r') (b'\n' ∷ []),
  get_or_end_suc content (b'\r') (b'\n') [],
  take-append content crlf,
)

take_content :
    (content rest : Bytes)
    → take (suc (suc (length content))) (content ++ (b'\r' ∷ b'\n' ∷ rest)) ≡ content ++ crlf
take_content [] rest = refl
take_content (c ∷ cs) rest = ap (◌∷◌ c) (take_content cs rest)

-- A line without a newline in it is read whole, whatever follows.
pub decode_line_lem :
    (content rest : Bytes)
    → NoNewline content
    → decode_line (content ++ (b'\r' ∷ b'\n' ∷ rest)) ≡ ok (content, suc (suc (length content)))
unfolding decode_line
decode_line_lem content rest h = rw (
  decode_line,
  index_byte-content content rest h,
  take_content content rest,
  trim_crlf-content content,
)

trim_crlf-length :
    (line content : Bytes) → trim_crlf line ≡ ok content → length line ≡ length content + 2
unfolding trim_crlf
trim_crlf-length line content h = ground (arith, length-take {0} (length line - 2) line)

-- A line that was read fits in the buffer.
pub decode_line-le :
    (buf line : Bytes) (n : ℕ)
    → decode_line buf ≡ ok (line, n)
    → (n ≤ length buf) × (length line + 2 ≡ n)
unfolding decode_line
decode_line-le buf line n h = elim (Option-cases (index_byte b'\n' buf)) [
  | inl e ↦ ground arith
  | inr (i, e) ↦ ground (
    arith,
    index_byte-lt b'\n' buf i e,
    trim_crlf-length (take (suc i) buf) line,
    length-take {0} (suc i) buf,
  )
]
