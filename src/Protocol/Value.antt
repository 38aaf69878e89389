-- ===== src/Protocol/Value.antt =====
-- internal/protocol/types.go and the errors of decode.go and parser.go.
use runedb.Base.{ℕ, suc, Bool, Option, Result, Bytes, [], ◌∷◌, ◌++◌, ◌≢◌}
use runedb.Base.Int.{ℤ}

-- The eight frame types. `unknown` is a value of any other type behind the interface, nil included:
-- what the `default` branch of a type switch meets.
mutual
  pub data Value : Type 0 where
    simple_string : Bytes → Value
    error_value : Bytes → Value
    integer : ℤ → Value
    bulk_string : Bytes → Bool → Value
    text_bulk_string : Bytes → Bool → Value
    array : Values → Bool → Value
    boolean : Bool → Value
    null : Value
    unknown : Value

  pub data Values : Type 0 where
    nil : Values
    cons : Value → Values → Values

abbrev pub count : Values → ℕ
count nil = 0
count (cons v vs) = suc (count vs)

-- `incomplete (some n)` is `IncompleteError{Need: n}`, and `incomplete none` the bare
-- `ErrIncomplete`. An error that wraps another holds it.
pub data Error : Type 0 where
  incomplete : Option ℕ → Error
  missing_crlf : Error
  unsupported_prefix : ℕ → Error
  syntax : Error
  out_of_range : Error
  out_of_int_range : ℤ → Error
  parse_integer : Error → Error
  invalid_boolean : Bytes → Error
  invalid_null : Bytes → Error
  bulk_length : Error → Error
  invalid_bulk_length : ℤ → Error
  bulk_missing_crlf : Error → Error
  nesting : Error
  array_length : Error → Error
  invalid_array_length : ℤ → Error
  array_element : ℕ → Error → Error
  unsupported_type : Error
  not_bytes : Error

abbrev pub Fallible {ℓ} : Type ℓ → Type ℓ
Fallible A = Result Error A

abbrev pub crlf : Bytes
crlf = b'\r' ∷ b'\n' ∷ []

-- A text that fits on a line: no newline in it.
abbrev pub NoNewline : Bytes → Type 0
NoNewline [] = Unit
NoNewline (c ∷ cs) = (c ≢ b'\n') × NoNewline cs

pub NoNewline-append : (xs ys : Bytes) → NoNewline xs → NoNewline ys → NoNewline (xs ++ ys)
NoNewline-append [] ys hx hy = hy
NoNewline-append (x ∷ xs) ys hx hy = (hx.0, NoNewline-append xs ys hx.1 hy)
