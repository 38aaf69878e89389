-- ===== src/Rdb/Lzf/Unpacking.antt =====
-- Decompression is unpacking as the format says.
use runedb.Base.{
  ℕ, zero, suc, ◌+◌, ◌≤◌, ◌==◌, ◌≡◌, refl, inl, inr, false, Bool-cases, [], Bytes, ltb, ltb→lt,
  if◌then◌else◌, length, take, drop, replicate, length-replicate, length-take, Result, ok, err,
  ◌>>=◌, arith,
}
use runedb.Rdb.Lzf.{LzfError, length_mismatch, LzfState, lzf_step, lzf_loop, decompress_lzf}
use runedb.Rdb.Lzf.Format.{Unpacks, finished, unfilled}
use runedb.Rdb.Lzf.Writes.{take_all, drop_all}
use runedb.Rdb.Lzf.Rounds.{Fits, lzf_step-Unpacks}

-- The test at the end of the input.
whole_output : LzfState → Result LzfError Bytes
whole_output s = if s.op == length s.output then ok s.output else err length_mismatch

whole_output-Unpacks :
    (n : ℕ) (s : LzfState) → Fits n s → Unpacks n [] (take s.op s.output) (whole_output s)
unfolding whole_output
whole_output-Unpacks n s fits =
    let size : length (take s.op s.output) ≡ s.op =
      omega (arith, fits, length-take s.op s.output) in
    elim (Bool-cases (s.op == length s.output)) [
      | inl e ↦
          let full : s.op ≡ length s.output = ground arith in
          rw (e, take_all s.op s.output (omega (arith, full))) (finished fits.1)
      | inr e ↦ rw e (unfilled (λ h. ground (arith, fits, size)))
    ]

>>=_assoc :
    (r : Result LzfError LzfState) (f : LzfState → Result LzfError LzfState)
    (g : LzfState → Result LzfError Bytes)
    → r >>= f >>= g ≡ r >>= λ s. f s >>= g
>>=_assoc (ok s) f g = refl
>>=_assoc (err e) f g = refl

lzf_loop-Unpacks :
    (fuel : ℕ) (input : Bytes) (n : ℕ) (s : LzfState)
    → length input ≤ fuel + s.ip
    → Fits n s
    → Unpacks n (drop s.ip input) (take s.op s.output) (lzf_loop fuel input s >>= whole_output)
unfolding lzf_loop
lzf_loop-Unpacks zero input n s h fits =
    let e : ltb s.ip (length input) ≡ false = ground arith in
    rw (e, drop_all s.ip input (omega arith)) (whole_output-Unpacks n s fits)
lzf_loop-Unpacks (suc fuel) input n s h fits = elim (Bool-cases (ltb s.ip (length input))) [
  | inl e ↦
      rw (e, >>=_assoc (lzf_step input s) (lzf_loop fuel input) whole_output)
        (lzf_step-Unpacks input n (λ t. lzf_loop fuel input t >>= whole_output) s fits
          (ltb→lt s.ip (length input) e)
          (λ t on. lzf_loop-Unpacks fuel input n t (omega (arith, h, on))))
  | inr e ↦ rw (e, drop_all s.ip input (ground arith)) (whole_output-Unpacks n s fits)
]

-- Decompression ends on every input, and the result is the format's: the bytes that the literals and
-- the matches of the whole input stand for, of exactly the length that was asked for, or the error for
-- the first of them that is cut, points in front of the output or does not fit, or for an output that
-- is not full at the end.
pub decompress_lzf-Unpacks : (input : Bytes) (n : ℕ) → Unpacks n input [] (decompress_lzf input n)
unfolding decompress_lzf whole_output
decompress_lzf-Unpacks input n =
    lzf_loop-Unpacks (length input) input n (record { ip = 0; op = 0; output = replicate n 0 })
      (omega arith) (omega arith, length-replicate n 0)
