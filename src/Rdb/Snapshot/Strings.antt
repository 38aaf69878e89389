-- ===== src/Rdb/Snapshot/Strings.antt =====
-- The loader's readers on the bytes that the writer's parts make.
use runedb.Base.{
  ℕ, ◌^◌, ◌≤◌, ◌<◌, ◌==◌, ◌≡◌, refl, ap, inl, inr, false, Bool-cases, [], ◌∷◌, ◌++◌, append_assoc,
  Bytes, ltb, length, length-append, take-append, drop-append, ok, arith,
}
use runedb.Rdb.Reader.{
  read_byte, read_full, read_uint_le, read_length, read_bytes, read_string, read_string_body,
  max_rdb_object_length,
}
use runedb.Rdb.Snapshot.{append_length, append_string, le_bytes}

append_length_nil : (dst : Bytes) (n : ℕ) → append_length dst n ≡ dst ++ append_length [] n
unfolding append_length
append_length_nil dst n = elim (Bool-cases (ltb n (2 ^ 6))) [
  | inl e ↦ rw e
  | inr e ↦ elim (Bool-cases (ltb n (2 ^ 14))) [ inl f ↦ rw (e, f) | inr f ↦ rw (e, f) ]
]

read_length-append_length :
    (n : ℕ) (rest : Bytes)
    → n < 2 ^ 32
    → read_length (append_length [] n ++ rest) ≡ ok ((n, false), rest)
unfolding read_length append_length read_byte read_full
read_length-append_length n rest h = elim (Bool-cases (ltb n (2 ^ 6))) [
  | inl e ↦ rw e (ground arith)
  | inr e ↦ elim (Bool-cases (ltb n (2 ^ 14))) [
    | inl f ↦ rw (e, f) (ground arith)
    | inr f ↦ rw (e, f) (ground arith)
  ]
]

read_full-append : (v rest : Bytes) → read_full (length v) (v ++ rest) ≡ ok (v, rest)
unfolding read_full
read_full-append v rest =
    let fits : ltb (length (v ++ rest)) (length v) ≡ false = ground (arith, length-append v rest) in
    rw (fits, take-append v rest, drop-append v rest)

read_bytes-append :
    (v rest : Bytes)
    → length v ≤ max_rdb_object_length
    → read_bytes (length v) (v ++ rest) ≡ ok (v, rest)
unfolding read_bytes
read_bytes-append [] rest h = refl
read_bytes-append (b ∷ v) rest h =
    let some_bytes : (length (b ∷ v) == 0) ≡ false = ground arith in
    let small : ltb max_rdb_object_length (length (b ∷ v)) ≡ false = ground arith in
    rw (some_bytes, small) (read_full-append (b ∷ v) rest)

-- What `append_string` adds.
abbrev pub string_bytes : Bytes → Bytes
string_bytes v = append_length [] (length v) ++ v

pub append_string_lem : (dst v : Bytes) → append_string dst v ≡ dst ++ string_bytes v
unfolding append_string
append_string_lem dst v =
    rw (append_length_nil dst (length v)) (append_assoc dst (append_length [] (length v)) v)

pub read_string-string_bytes :
    (v rest : Bytes)
    → length v ≤ max_rdb_object_length
    → read_string (string_bytes v ++ rest) ≡ ok (v, rest)
unfolding read_string read_string_body
read_string-string_bytes v rest h =
    rw
      (
        append_assoc (append_length [] (length v)) v rest,
        read_length-append_length (length v) (v ++ rest) (omega (arith, h)),
      )
      (read_bytes-append v rest h)

pub read_uint_le-le_bytes :
    (n : ℕ) (rest : Bytes) → n < 2 ^ 63 → read_uint_le 8 (le_bytes 8 n ++ rest) ≡ ok (n, rest)
unfolding read_uint_le
read_uint_le-le_bytes n rest h =
    rw (read_full-append (le_bytes 8 n) rest) (ap (λ m. ok (m, rest)) (omega (arith, h)))
