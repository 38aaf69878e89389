-- ===== src/Protocol/Number.antt =====
-- Decimal numbers: `parseIntBytes` and `parseDecimalInt` of parser.go, `decimalIntLen` of writer.go,
-- and the standard library's `strconv.AppendInt` in base 10.
pub mod Print
pub mod Parse
use runedb.Base.{
  ℕ, zero, suc, ◌+◌, ◌-◌, ◌*◌, ◌/◌, ◌%◌, ◌^◌, Bool, true, false, ◌&&◌, ◌||◌, [], ◌∷◌, ◌++◌, Bytes,
  ltb, ◌==◌, if◌then◌else◌, ok, err, ◌>>=◌, length,
}
use runedb.Base.Int.{ℤ, pos, negsuc, neg, ltb_ℤ, min_int64, max_int64}
use runedb.Protocol.Value.{Error, syntax, out_of_range, out_of_int_range, Fallible}

abbrev pub max_abs : ℕ
max_abs = 2 ^ 63

-- The loop over the digits, on a `uint64`.
unfoldable pub parse_digits : ℕ → ℕ → ℕ → Bytes → Fallible ℕ
parse_digits cutoff cutlim value [] = ok value
parse_digits cutoff cutlim value (digit ∷ rest) =
    if ltb digit b'0' || ltb b'9' digit
    then err syntax
    else if ltb cutoff value || (value == cutoff && ltb cutlim (digit - b'0'))
    then err out_of_range
    else parse_digits cutoff cutlim ((value * 10 + (digit - b'0')) % 2 ^ 64) rest

-- The largest magnitude: one more where the number is negative.
abbrev pub limit : Bool → ℕ
limit negative = if negative then max_abs else max_abs - 1

abbrev pub signed : Bool → ℕ → ℤ
signed negative value =
    if negative then (if value == max_abs then min_int64 else neg value) else pos value

unfoldable pub parse_magnitude : Bool → Bytes → Fallible ℤ
parse_magnitude negative raw = do
  value ← parse_digits (limit negative / 10) (limit negative % 10) 0 raw
  ok (signed negative value)

-- What follows a sign may not be empty.
abbrev pub after_sign : Bool → Bytes → Fallible ℤ
after_sign negative [] = err syntax
after_sign negative (c ∷ rest) = parse_magnitude negative (c ∷ rest)

unfoldable pub parse_int_bytes : Bytes → Fallible ℤ
unfolding parse_magnitude parse_digits
parse_int_bytes [] = err syntax
parse_int_bytes (c ∷ rest) =
    if c == b'-' || c == b'+' then after_sign (c == b'-') rest else parse_magnitude false (c ∷ rest)

-- `int` has 64 bits, as `math.MinInt` and `math.MaxInt` say.
unfoldable pub parse_decimal_int : Bytes → Fallible ℤ
parse_decimal_int raw = do
  value ← parse_int_bytes raw
  if ltb_ℤ value min_int64 || ltb_ℤ max_int64 value then err (out_of_int_range value) else ok value

-- The decimal digits of a number, the most significant first; `fuel` bounds their count.
unfoldable pub digits_of : ℕ → ℕ → Bytes
digits_of zero n = []
digits_of (suc fuel) n =
    let rest = digits_of fuel (n / 10) in
    if ltb n 10 then (b'0' + n) ∷ [] else rest ++ (b'0' + n % 10) ∷ []

-- Each round divides by ten, so twenty digits are enough for what is below 10 ^ 20.
abbrev pub format_uint : ℕ → Bytes
format_uint n = digits_of 20 n

-- strconv.AppendInt(nil, value, 10)
unfoldable pub format_int : ℤ → Bytes
format_int (pos n) = format_uint n
format_int (negsuc n) = b'-' ∷ format_uint (suc n)

unfoldable pub decimal_int_len : ℤ → ℕ
decimal_int_len value = length (format_int value)
