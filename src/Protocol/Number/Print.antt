-- ===== src/Protocol/Number/Print.antt =====
-- Printed numbers are read back.
use native.Mathlib.Nat.{pow-suc}
use runedb.Base.{
  ℕ, zero, suc, ◌+◌, ◌-◌, ◌*◌, ◌/◌, ◌%◌, ◌^◌, ◌≤◌, ◌<◌, ◌≡◌, refl, ap, ◌∙◌, inl, inr, Bool, true,
  false, [], ◌∷◌, ◌++◌, Bytes, ltb, ok, ◌>>=◌, Bool-cases, arith,
}
use runedb.Base.Int.{ℤ, pos, negsuc, InInt64}
use runedb.Protocol.Number.{
  parse_digits, limit, signed, parse_magnitude, parse_int_bytes, digits_of, format_int,
  parse_decimal_int, max_abs,
}
use runedb.Protocol.Value.{NoNewline, NoNewline-append}

module _ (cutoff cutlim : ℕ) where
  -- Reading goes on from the value so far.
  parse_digits-append :
      (value : ℕ) (xs ys : Bytes)
      → parse_digits cutoff cutlim value (xs ++ ys)
        ≡ (parse_digits cutoff cutlim value xs >>= λ v. parse_digits cutoff cutlim v ys)
  unfolding parse_digits
  parse_digits-append value [] ys = refl
  parse_digits-append value (x ∷ xs) ys =
      ground (arith, parse_digits-append ((value * 10 + (x - b'0')) % 2 ^ 64) xs ys)

  parse_digits_one :
      (value d : ℕ)
      → d < 10
      → value * 10 + d ≤ cutoff * 10 + cutlim
      → cutlim < 10
      → value * 10 + d < 2 ^ 64
      → parse_digits cutoff cutlim value ((b'0' + d) ∷ []) ≡ ok (value * 10 + d)
  unfolding parse_digits
  parse_digits_one value d hd hl hc hw = ground arith

  -- The digits of a number within the limit are read as that number.
  parse_digits-digits_of :
      (fuel n : ℕ)
      → n < 10 ^ fuel
      → n ≤ cutoff * 10 + cutlim
      → cutlim < 10
      → n < 2 ^ 64
      → parse_digits cutoff cutlim 0 (digits_of fuel n) ≡ ok n
  unfolding digits_of
  parse_digits-digits_of zero n h hl hc hw = unfold parse_digits in ap ok (omega arith)
  parse_digits-digits_of (suc fuel) n h hl hc hw = elim (Bool-cases (ltb n 10)) [
    | inl small ↦
        rw small
          (parse_digits_one 0 n (ground arith) (omega arith) hc (omega arith) ∙ ap ok (omega arith))
    | inr large ↦
        rw
          (
            large,
            parse_digits-append 0 (digits_of fuel (n / 10)) ((b'0' + n % 10) ∷ []),
            parse_digits-digits_of fuel (n / 10) (omega (arith, pow-suc 10 fuel)) (omega arith) hc
                (omega arith),
          )
          (parse_digits_one (n / 10) (n % 10) (omega arith) (omega arith) hc (omega arith)
            ∙ ap ok (omega arith))
  ]

parse_magnitude-digits_of :
    (negative : Bool) (n : ℕ)
    → n ≤ limit negative
    → parse_magnitude negative (digits_of 20 n) ≡ ok (signed negative n)
unfolding parse_magnitude
parse_magnitude-digits_of true n h = rw (
    parse_digits-digits_of (max_abs / 10) (max_abs % 10) 20 n (omega arith) (omega arith)
      (omega arith) (omega arith))
parse_magnitude-digits_of false n h = rw (
    parse_digits-digits_of ((max_abs - 1) / 10) ((max_abs - 1) % 10) 20 n (omega arith)
      (omega arith) (omega arith) (omega arith))

-- Printing gives at least one character, and a digit comes first.
digits_of-cons :
    (fuel n : ℕ)
    → (d : ℕ) × (rest : Bytes) × (digits_of (suc fuel) n ≡ d ∷ rest) × (b'0' ≤ d) × (d ≤ b'9')
unfolding digits_of
digits_of-cons zero n = elim (Bool-cases (ltb n 10)) [
  | inl small ↦ (b'0' + n, [], rw small, omega arith, ground arith)
  | inr large ↦ (b'0' + n % 10, [], rw large, omega arith, omega arith)
]
digits_of-cons (suc fuel) n =
    let (d, rest, e, lo, hi) = digits_of-cons fuel (n / 10) in
    elim (Bool-cases (ltb n 10)) [
      | inl small ↦ (b'0' + n, [], rw small, omega arith, ground arith)
      | inr large ↦ (
        d,
        rest ++ (b'0' + n % 10) ∷ [],
        rw (large, ap (λ r. r ++ (b'0' + n % 10) ∷ []) e),
        lo,
        hi,
      )
    ]

-- A printed int64 is read back.
pub parse_int_bytes-format_int : (z : ℤ) → InInt64 z → parse_int_bytes (format_int z) ≡ ok z
unfolding parse_int_bytes format_int
parse_int_bytes-format_int (pos n) h =
    let (d, rest, e, lo, hi) = digits_of-cons 19 n in
    rw e (ground (arith, rw e at (parse_magnitude-digits_of false n (omega arith))))
parse_int_bytes-format_int (negsuc n) h =
    let (d, rest, e, lo, hi) = digits_of-cons 19 (suc n) in
    rw e (ground (arith, rw e at (parse_magnitude-digits_of true (suc n) (omega arith))))

pub parse_decimal_int-format_int : (z : ℤ) → InInt64 z → parse_decimal_int (format_int z) ≡ ok z
unfolding parse_decimal_int
parse_decimal_int-format_int z h = rw (parse_int_bytes-format_int z h) (ground arith)

digits_of-NoNewline : (fuel n : ℕ) → NoNewline (digits_of fuel n)
unfolding digits_of
digits_of-NoNewline zero n = tt
digits_of-NoNewline (suc fuel) n = elim (Bool-cases (ltb n 10)) [
  | inl small ↦ rw small (omega arith, tt)
  | inr large ↦ rw large (
      NoNewline-append (digits_of fuel (n / 10)) _ (digits_of-NoNewline fuel (n / 10))
        (omega arith, tt))
]

pub format_int-NoNewline : (z : ℤ) → NoNewline (format_int z)
unfolding format_int
format_int-NoNewline (pos n) = digits_of-NoNewline 20 n
format_int-NoNewline (negsuc n) = (omega arith, digits_of-NoNewline 20 (suc n))
