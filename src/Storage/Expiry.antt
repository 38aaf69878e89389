-- ===== src/Storage/Expiry.antt =====
-- The deadlines of SET: ParseExpiryMillis of store.go. The clock's reading `now` is in nanoseconds; a
-- time.Duration is an int64, whose product wraps around.
pub mod Deadline
use runedb.Base.{
  ℕ, zero, suc, ◌+◌, ◌-◌, ◌*◌, ◌/◌, ◌%◌, ◌^◌, Bool, true, false, ◌&&◌, Option, none, some, List, [],
  ◌∷◌, map, Bytes, ltb, leb, if◌then◌else◌, equal_bytes, Result, ok, err,
}
use runedb.Base.Int.{ℤ, pos, negsuc, neg, wrapped_int64}
use runedb.Storage.IntSet.{parse_int}

pub data ExpiryError : Type 0 where
  syntax invalid_expire_time : ExpiryError

pub data ExpiryUnit : Type 0 where
  seconds milliseconds at_millisecond : ExpiryUnit

-- strings.ToUpper on the letters that the options have
abbrev pub to_upper : ℕ → ℕ
to_upper b = if leb 97 b && leb b 122 then b - 32 else b

abbrev pub unit_named : Bytes → Option ExpiryUnit
unit_named name =
    if equal_bytes name (b'E' ∷ b'X' ∷ [])
    then some seconds
    else if equal_bytes name (b'P' ∷ b'X' ∷ [])
    then some milliseconds
    else if equal_bytes name (b'P' ∷ b'X' ∷ b'A' ∷ b'T' ∷ [])
    then some at_millisecond
    else none

abbrev pub unit_of : Bytes → Option ExpiryUnit
unit_of name = unit_named (map to_upper name)

-- time.Time.Add and UnixMilli, which rounds down
abbrev pub millis_after : ℕ → ℤ → ℤ
millis_after now (pos d) = pos ((now + d) / 10 ^ 6)
millis_after now (negsuc d) =
    if leb (suc d) now then pos ((now - suc d) / 10 ^ 6) else neg ((suc d - now + 999999) / 10 ^ 6)

abbrev pub deadline_of : Option ExpiryUnit → ℕ → ℕ → Result ExpiryError ℤ
deadline_of none n now = err syntax
deadline_of (some seconds) n now = ok (millis_after now (wrapped_int64 (n * 10 ^ 9)))
deadline_of (some milliseconds) n now = ok (millis_after now (wrapped_int64 (n * 10 ^ 6)))
deadline_of (some at_millisecond) n now = ok (pos n)

abbrev pub parse_deadline : Option ℤ → Bytes → ℕ → Result ExpiryError ℤ
parse_deadline none name now = err invalid_expire_time
parse_deadline (some (pos zero)) name now = err invalid_expire_time
parse_deadline (some (pos (suc n))) name now = deadline_of (unit_of name) (suc n) now
parse_deadline (some (negsuc n)) name now = err invalid_expire_time

-- `ParseExpiryMillis`
unfoldable pub parse_expiry_millis : List Bytes → ℕ → Result ExpiryError ℤ
parse_expiry_millis [] now = ok (pos 0)
parse_expiry_millis (name ∷ amount ∷ []) now = parse_deadline (parse_int amount) name now
parse_expiry_millis args now = err syntax
