-- ===== src/Protocol/Number/Parse.antt =====
-- What `parseIntBytes` accepts: a sign or none, digits, and a value that fits an int64.
use runedb.Base.{
  ℕ, ◌+◌, ◌-◌, ◌*◌, ◌/◌, ◌%◌, ◌^◌, ◌≤◌, ◌<◌, ◌≡◌, refl, inl, inr, Bool, true, false, ◌&&◌, Option,
  none, some, Option-cases, [], ◌∷◌, Bytes, ltb, leb, ◌==◌, if◌then◌else◌, arith, to_option,
}
use runedb.Base.Int.{ℤ, pos, neg, pos_part, neg_part}
use runedb.Protocol.Number.{parse_digits, parse_magnitude, parse_int_bytes, max_abs}

abbrev is_digit : ℕ → Bool
is_digit d = leb b'0' d && leb d b'9'

-- Plain base-10 reading, with no bound on the value.
unfoldable pub of_digits : ℕ → Bytes → Option ℕ
of_digits value [] = some value
of_digits value (d ∷ rest) = if is_digit d then of_digits (value * 10 + (d - b'0')) rest else none

abbrev of_signed : Bool → Bytes → Option ℤ
of_signed negative [] = none
of_signed negative (d ∷ rest) = elim (of_digits 0 (d ∷ rest)) [
  | none ↦ none
  | some n ↦ some (if negative then neg n else pos n)
]

-- The integer that a text denotes: an optional sign, and at least one digit.
abbrev pub denotes : Bytes → Option ℤ
denotes [] = none
denotes (c ∷ rest) =
    if c == b'-'
    then of_signed true rest
    else if c == b'+'
    then of_signed false rest
    else of_signed false (c ∷ rest)

abbrev pub fits_int64 : ℤ → Bool
fits_int64 z = ltb (pos_part z) (2 ^ 63) && leb (neg_part z) (2 ^ 63)

abbrev pub int64_only : Option ℤ → Option ℤ
int64_only none = none
int64_only (some z) = if fits_int64 z then some z else none

abbrev at_most : ℕ → Option ℕ → Option ℕ
at_most bound none = none
at_most bound (some n) = if leb n bound then some n else none

of_digits-le : (value : ℕ) (raw : Bytes) (n : ℕ) → of_digits value raw ≡ some n → value ≤ n
unfolding of_digits
of_digits-le value [] n h = ground arith
of_digits-le value (d ∷ rest) n h = ground (arith, of_digits-le (value * 10 + (d - b'0')) rest n)

-- Past the bound every reading is refused.
at_most_past :
    (bound value : ℕ) (raw : Bytes) → bound < value → at_most bound (of_digits value raw) ≡ none
at_most_past bound value raw h = elim (Option-cases (of_digits value raw)) [
  | inl e ↦ rw e
  | inr (n, e) ↦ rw e (ground (arith, of_digits-le value raw n e))
]

module _ (bound : ℕ) (small : bound ≤ 2 ^ 63) where
  parse_digits-of_digits :
      (value : ℕ) (raw : Bytes)
      → value ≤ bound
      → to_option (parse_digits (bound / 10) (bound % 10) value raw)
        ≡ at_most bound (of_digits value raw)
  unfolding parse_digits of_digits
  parse_digits-of_digits value [] h = ground arith
  parse_digits-of_digits value (d ∷ rest) h = ground (
    arith,
    parse_digits-of_digits (value * 10 + (d - b'0')) rest,
    at_most_past bound (value * 10 + (d - b'0')) rest,
  )

parse_magnitude-of_digits :
    (negative : Bool) (raw : Bytes)
    → to_option (parse_magnitude negative raw)
      ≡ int64_only (elim (of_digits 0 raw) [
        | none ↦ none
        | some n ↦ some (if negative then neg n else pos n)
      ])
unfolding parse_magnitude
parse_magnitude-of_digits true raw =
    ground (arith, parse_digits-of_digits max_abs (omega arith) 0 raw)
parse_magnitude-of_digits false raw =
    ground (arith, parse_digits-of_digits (max_abs - 1) (omega arith) 0 raw)

-- `parseIntBytes` accepts exactly the texts that denote an int64: a sign or none, at least one digit,
-- nothing else, and a value in range. It returns that value.
pub parse_int_bytes-denotes :
    (raw : Bytes) → to_option (parse_int_bytes raw) ≡ int64_only (denotes raw)
unfolding parse_int_bytes
parse_int_bytes-denotes [] = refl
parse_int_bytes-denotes (c ∷ []) = ground (arith, parse_magnitude-of_digits false (c ∷ []))
parse_int_bytes-denotes (c ∷ d ∷ rest) = ground (
  arith,
  parse_magnitude-of_digits false (c ∷ d ∷ rest),
  parse_magnitude-of_digits false (d ∷ rest),
  parse_magnitude-of_digits true (d ∷ rest),
)
