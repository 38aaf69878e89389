-- ===== src/Storage/Expiry/Deadline.antt =====
-- The deadline that an option asks for.
use runedb.Base.{ℕ, ◌+◌, ◌*◌, ◌/◌, ◌^◌}
use runedb.Storage.Expiry.{ExpiryUnit, seconds, milliseconds, at_millisecond}

-- The nanoseconds of a unit; a point in time is not multiplied.
abbrev pub nanoseconds : ExpiryUnit → ℕ
nanoseconds seconds = 10 ^ 9
nanoseconds milliseconds = 10 ^ 6
nanoseconds at_millisecond = 1

abbrev pub asked_for : ExpiryUnit → ℕ → ℕ → ℕ
asked_for seconds n now = now / 10 ^ 6 + n * 1000
asked_for milliseconds n now = now / 10 ^ 6 + n
asked_for at_millisecond n now = n
