-- ===== src/Rdb/Reader/Shrink.antt =====
-- No reader gives back more than it got, and none of them runs out of fuel.
use runedb.Base.{
  ℕ, ◌≤◌, ◌==◌, ◌/◌, Bool, true, false, [], ◌∷◌, Bytes, ltb, if◌then◌else◌, length, length-drop,
  Result, ok, err, ◌>>=◌, arith,
}
use runedb.Rdb.Lzf
use runedb.Rdb.Lzf.{decompress_lzf}
use runedb.Rdb.Lzf.Total
use runedb.Rdb.Lzf.Total.{decompress_lzf-Ends}
use runedb.Rdb.Reader.{
  RdbError, no_fuel, Read, read_byte, read_full, read_uint_le, read_length, read_bytes,
  plain_length, read_lzf, read_string_body, read_string, max_rdb_object_length, lzf,
}

-- Neither the loop's fuel nor that of a decompression is missing.
abbrev pub HasFuel : RdbError → Type 0
HasFuel no_fuel = ⊥
HasFuel (lzf e) = Total.HasFuel e
HasFuel _ = Unit

-- At most `n` bytes are left after a read.
abbrev pub Shrinks {ℓ} : {A : Type ℓ} → ℕ → Read A → Type 0
Shrinks n (ok (a, rest)) = length rest ≤ n
Shrinks n (err e) = HasFuel e

module _ {ℓ κ} {A : Type ℓ} {B : Type κ} where
  -- A read that is followed by another.
  pub >>=-Shrinks :
      (n : ℕ) (r : Read A) (f : A × Bytes → Read B)
      → Shrinks n r
      → ((a : A) (rest : Bytes) → length rest ≤ n → Shrinks n (f (a, rest)))
      → Shrinks n (r >>= f)
  >>=-Shrinks n (ok (a, rest)) f h k = k a rest h
  >>=-Shrinks n (err e) f h k = h

module _ {ℓ} {A : Type ℓ} where
  pub if_Shrinks :
      (n : ℕ) (b : Bool) (r s : Read A) → Shrinks n r → Shrinks n s → Shrinks n (if b then r else s)
  if_Shrinks n true r s h k = h
  if_Shrinks n false r s h k = k

  pub Shrinks-mono : (m n : ℕ) (r : Read A) → m ≤ n → Shrinks m r → Shrinks n r
  Shrinks-mono m n (ok (a, rest)) l h = omega (arith, h, l)
  Shrinks-mono m n (err e) l h = h

-- A byte that is read is gone.
pub read_byte-Shrinks : (b : ℕ) (bs : Bytes) → Shrinks (length bs) (read_byte (b ∷ bs))
unfolding read_byte
read_byte-Shrinks b bs = omega arith

pub read_byte-Shrinks_all : (bs : Bytes) → Shrinks (length bs) (read_byte bs)
unfolding read_byte
read_byte-Shrinks_all [] = tt
read_byte-Shrinks_all (b ∷ bs) = omega arith

pub read_full-Shrinks : (n : ℕ) (bs : Bytes) → Shrinks (length bs) (read_full n bs)
unfolding read_full
read_full-Shrinks n bs =
    if_Shrinks (length bs) (ltb (length bs) n) _ _ tt (omega (arith, length-drop {0} n bs))

pub read_uint_le-Shrinks : (width : ℕ) (bs : Bytes) → Shrinks (length bs) (read_uint_le width bs)
unfolding read_uint_le
read_uint_le-Shrinks width bs =
    >>=-Shrinks (length bs) (read_full width bs) _ (read_full-Shrinks width bs) (λ raw rest h. h)

pub read_length-Shrinks : (bs : Bytes) → Shrinks (length bs) (read_length bs)
unfolding read_length
read_length-Shrinks bs =
    let n = length bs in
    >>=-Shrinks n (read_byte bs) _ (read_byte-Shrinks_all bs) (λ first rest h.
      if_Shrinks n (first / 64 == 0) _ _ h (
        if_Shrinks n (first / 64 == 1) _ _
          (>>=-Shrinks n (read_byte rest) _
            (Shrinks-mono (length rest) n _ h (read_byte-Shrinks_all rest)) (λ second rest' h'. h'))
          (if_Shrinks n (first / 64 == 2) _ _
            (>>=-Shrinks n (read_full 4 rest) _
              (Shrinks-mono (length rest) n _ h (read_full-Shrinks 4 rest)) (λ raw rest' h'. h'))
            (if_Shrinks n (first / 64 == 3) _ _ h tt))))

read_bytes-Shrinks : (n : ℕ) (bs : Bytes) → Shrinks (length bs) (read_bytes n bs)
unfolding read_bytes
read_bytes-Shrinks n bs =
    if_Shrinks (length bs) (n == 0) _ _ (omega arith)
      (if_Shrinks (length bs) (ltb max_rdb_object_length n) _ _ tt (read_full-Shrinks n bs))

plain_length-Shrinks :
    (n v : ℕ) (encoded : Bool) (rest : Bytes)
    → length rest ≤ n
    → Shrinks n (plain_length ((v, encoded), rest))
plain_length-Shrinks n v true rest h = tt
plain_length-Shrinks n v false rest h = h

length_again :
    (n : ℕ) (rest : Bytes) → length rest ≤ n → Shrinks n (read_length rest >>= plain_length)
length_again n rest h =
    >>=-Shrinks n (read_length rest) plain_length
      (Shrinks-mono (length rest) n _ h (read_length-Shrinks rest))
      (λ a rest' h'. plain_length-Shrinks n a.0 a.1 rest' h')

read_lzf-Shrinks : (bs : Bytes) → Shrinks (length bs) (read_lzf bs)
unfolding read_lzf
read_lzf-Shrinks bs =
    let n = length bs in
    >>=-Shrinks n (read_length bs >>= plain_length) _ (length_again n bs (omega arith)) (λ c rest h.
      >>=-Shrinks n (read_length rest >>= plain_length) _ (length_again n rest h) (λ u rest' h'.
        if_Shrinks n (ltb max_rdb_object_length u) _ _ tt (
          >>=-Shrinks n (read_bytes c rest') _
            (Shrinks-mono (length rest') n _ h' (read_bytes-Shrinks c rest'))
            (λ compressed rest'' h''.
              unpacked n (decompress_lzf compressed u) rest'' (decompress_lzf-Ends compressed u)
                h''))))
  where
    unpacked :
        (n : ℕ) (r : Result Lzf.LzfError Bytes) (rest : Bytes)
        → Total.Ends r
        → length rest ≤ n
        → Shrinks n (elim r as (λ x. Read Bytes) [ ok out ↦ ok (out, rest) | err e ↦ err (lzf e) ])
    unpacked n (ok out) rest u h = h
    unpacked n (err e) rest u h = u

pub read_string-Shrinks : (bs : Bytes) → Shrinks (length bs) (read_string bs)
unfolding read_string read_string_body
read_string-Shrinks bs =
    let n = length bs in
    >>=-Shrinks n (read_length bs) read_string_body (read_length-Shrinks bs)
      (λ a rest h. body n a.0 a.1 rest h)
  where
    body :
        (n v : ℕ) (encoded : Bool) (rest : Bytes)
        → length rest ≤ n
        → Shrinks n (read_string_body ((v, encoded), rest))
    body n v false rest h = Shrinks-mono (length rest) n _ h (read_bytes-Shrinks v rest)
    body n v true rest h =
        if_Shrinks n (v == 0) _ _
          (>>=-Shrinks n (read_byte rest) _
            (Shrinks-mono (length rest) n _ h (read_byte-Shrinks_all rest)) (λ a r h'. h'))
          (if_Shrinks n (v == 1) _ _
            (>>=-Shrinks n (read_uint_le 2 rest) _
              (Shrinks-mono (length rest) n _ h (read_uint_le-Shrinks 2 rest)) (λ a r h'. h'))
            (if_Shrinks n (v == 2) _ _
              (>>=-Shrinks n (read_uint_le 4 rest) _
                (Shrinks-mono (length rest) n _ h (read_uint_le-Shrinks 4 rest)) (λ a r h'. h'))
              (if_Shrinks n (v == 3) _ _ (Shrinks-mono (length rest) n _ h (read_lzf-Shrinks rest))
                tt)))
