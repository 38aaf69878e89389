-- ===== src/Storage/CompactHash/Arena.antt =====
-- Slices of an arena that is written to or appended to.
use runedb.Base.{
  ℕ, zero, suc, ◌+◌, ◌≤◌, ◌≡◌, refl, ap, [], ◌∷◌, ◌++◌, Bytes, length, take, drop, arith,
  drop-append_le, take-append_le, length-drop, drop-append, take-append,
}
use runedb.Storage.CompactHash.{slice, copy_at}

pub length-copy_at :
    (start : ℕ) (src arena : Bytes) → length (copy_at start src arena) ≡ length arena
unfolding copy_at
length-copy_at start src [] = refl
length-copy_at zero [] (b ∷ arena) = refl
length-copy_at zero (c ∷ src) (b ∷ arena) = ap suc (length-copy_at zero src arena)
length-copy_at (suc start) src (b ∷ arena) = ap suc (length-copy_at start src arena)

take-copy_at :
    (n start : ℕ) (src arena : Bytes) → n ≤ start → take n (copy_at start src arena) ≡ take n arena
unfolding copy_at
take-copy_at zero start src arena h = refl
take-copy_at (suc n) start src [] h = refl
take-copy_at (suc n) zero src (b ∷ arena) h = absurd (omega arith)
take-copy_at (suc n) (suc start) src (b ∷ arena) h =
    ap (◌∷◌ b) (take-copy_at n start src arena (omega arith))

-- In front of what is written, nothing changes.
pub slice_before :
    (s n start : ℕ) (src arena : Bytes)
    → s + n ≤ start
    → slice s n (copy_at start src arena) ≡ slice s n arena
unfolding copy_at
slice_before zero n start src arena h = take-copy_at n start src arena (omega arith)
slice_before (suc s) n start src [] h = refl
slice_before (suc s) n zero src (b ∷ arena) h = absurd (omega arith)
slice_before (suc s) n (suc start) src (b ∷ arena) h =
    slice_before s n start src arena (omega arith)

drop-copy_at :
    (s start : ℕ) (src arena : Bytes)
    → start + length src ≤ s
    → drop s (copy_at start src arena) ≡ drop s arena
unfolding copy_at
drop-copy_at s start src [] h = refl
drop-copy_at s zero [] (b ∷ arena) h = refl
drop-copy_at zero zero (c ∷ src) (b ∷ arena) h = absurd (omega arith)
drop-copy_at (suc s) zero (c ∷ src) (b ∷ arena) h = drop-copy_at s zero src arena (omega arith)
drop-copy_at zero (suc start) src (b ∷ arena) h = absurd (omega arith)
drop-copy_at (suc s) (suc start) src (b ∷ arena) h = drop-copy_at s start src arena (omega arith)

-- Nor behind it.
pub slice_behind :
    (s n start : ℕ) (src arena : Bytes)
    → start + length src ≤ s
    → slice s n (copy_at start src arena) ≡ slice s n arena
slice_behind s n start src arena h = ap (take n) (drop-copy_at s start src arena h)

-- What was written is read.
pub slice_written :
    (start : ℕ) (src arena : Bytes)
    → start + length src ≤ length arena
    → slice start (length src) (copy_at start src arena) ≡ src
unfolding copy_at
slice_written zero [] arena h = refl
slice_written (suc start) [] [] h = refl
slice_written (suc start) [] (b ∷ arena) h = slice_written start [] arena (omega arith)
slice_written zero (c ∷ src) [] h = absurd (omega arith)
slice_written zero (c ∷ src) (b ∷ arena) h = ap (◌∷◌ c) (slice_written zero src arena (omega arith))
slice_written (suc start) (c ∷ src) [] h = absurd (omega arith)
slice_written (suc start) (c ∷ src) (b ∷ arena) h =
    slice_written start (c ∷ src) arena (omega arith)

-- Appending changes no slice that lies in the arena.
pub slice-append :
    (s n : ℕ) (arena more : Bytes)
    → s + n ≤ length arena
    → slice s n (arena ++ more) ≡ slice s n arena
slice-append s n arena more h =
    rw (drop-append_le s arena more (omega arith))
      (take-append_le n (drop s arena) more (omega (arith, length-drop {0} s arena)))

pub slice_appended :
    (arena more rest : Bytes) → slice (length arena) (length more) (arena ++ (more ++ rest)) ≡ more
slice_appended arena more rest = rw (drop-append arena (more ++ rest)) (take-append more rest)
