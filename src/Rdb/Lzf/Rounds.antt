-- ===== src/Rdb/Lzf/Rounds.antt =====
-- A round of the loop by positions is a step of the format, on the bytes behind the input position and
-- the bytes in front of the output position.
use runedb.Base.{
  ℕ, ◌+◌, ◌-◌, ◌≤◌, ◌<◌, ◌==◌, ◌/◌, ◌≡◌, sym, ap, ◌∙◌, inl, inr, Bool-cases, ◌∷◌, ◌++◌, Bytes, ltb,
  leb, length, take, drop, get_or, length-take, length-drop, drop-drop, Result, ◌>>=◌, arith,
}
use runedb.Storage.CompactHash.{slice, copy_at}
use runedb.Storage.CompactHash.Arena.{length-copy_at}
use runedb.Rdb.Lzf.{
  LzfError, LzfState, decode_lzf_literal, copy_match, finish_match, decode_lzf_match, lzf_step,
}
use runedb.Rdb.Lzf.Format.{
  extend, distance_of, Measured, short, long, Unpacks, literal, cut_literal, large_literal, match,
  cut_length, cut_offset, far_match, large_match,
}
use runedb.Rdb.Lzf.Writes.{drop_all, drop_one, take-copy_at, length-copy_match, take-copy_match}

-- The output position is in the output, which has its full length from the start.
abbrev pub Fits : ℕ → LzfState → Type 0
Fits n t = (t.op ≤ n) × (length t.output ≡ n)

-- `f` unpacks the rest from each state that goes on in the input.
abbrev GoesOn : Bytes → ℕ → ℕ → (LzfState → Result LzfError Bytes) → Type 0
GoesOn input n from f =
    (t : LzfState) → from ≤ t.ip → Fits n t → Unpacks n (drop t.ip input) (take t.op t.output) (f t)

module _ (input : Bytes) (n : ℕ) (f : LzfState → Result LzfError Bytes) (s : LzfState) (control : ℕ)
    (fits : Fits n s) where
  length_done : length (take s.op s.output) ≡ s.op
  length_done = omega (arith, fits, length-take s.op s.output)

  decode_lzf_literal-Unpacks :
      control < 32
      → GoesOn input n s.ip f
      → Unpacks n
          (control ∷ drop s.ip input)
          (take s.op s.output)
          (decode_lzf_literal input s control >>= f)
  unfolding decode_lzf_literal
  decode_lzf_literal-Unpacks low goes_on =
      let left : length (drop s.ip input) ≡ length input - s.ip = length-drop s.ip input in
      elim (Bool-cases (ltb (length input) (s.ip + (control + 1)))) [
        | inl e ↦ rw e (cut_literal low (ground (arith, left)))
        | inr e ↦
            let whole : control + 1 ≤ length (drop s.ip input) = ground (arith, left) in
            elim (Bool-cases (ltb (length s.output) (s.op + (control + 1)))) [
              | inl g ↦ rw (e, g) (large_literal low whole (ground (arith, length_done, fits)))
              | inr g ↦
                  rw (e, g)
                    (literal low whole (ground (arith, length_done, fits))
                      (literal_written (ground arith) (ground (arith, fits))))
            ]
      ]
    where
      literal_written :
          s.ip + (control + 1) ≤ length input
          → s.op + (control + 1) ≤ n
          → Unpacks n
              (drop (control + 1) (drop s.ip input))
              (take s.op s.output ++ take (control + 1) (drop s.ip input))
              (f (record {
                ip = s.ip + (control + 1);
                op = s.op + (control + 1);
                output = copy_at s.op (slice s.ip (control + 1) input) s.output;
              }))
      literal_written inside room =
          let src = slice s.ip (control + 1) input in
          let size : length src ≡ control + 1 =
            omega (
              arith,
              length-take (control + 1) (drop s.ip input),
              length-drop s.ip input,
              inside,
            ) in
          rw
            (
              drop-drop s.ip (control + 1) input,
              ← take-copy_at (s.op + (control + 1)) s.op src s.output (omega (arith, size))
                  (omega (arith, fits, room)),
            )
            (goes_on _ (omega arith) (room, length-copy_at s.op src s.output ∙ fits.1))

  -- The match whose length field has been read.
  finish_match-Unpacks :
      (rest : Bytes) (count : ℕ)
      → 32 ≤ control
      → Measured control rest count (drop s.ip input)
      → GoesOn input n s.ip f
      → Unpacks n (control ∷ rest) (take s.op s.output) (finish_match input s control count >>= f)
  unfolding finish_match
  finish_match-Unpacks rest count high measured goes_on =
      elim (Bool-cases (leb (length input) s.ip)) [
        | inl e ↦ rw e (cut_offset high (rw (drop_all s.ip input (ground arith)) at measured))
        | inr e ↦
            let offset = get_or input s.ip 0 in
            let distance = distance_of control offset in
            let split : drop s.ip input ≡ offset ∷ drop (s.ip + 1) input =
              drop_one s.ip input (ground arith) in
            let field : Measured control rest count (offset ∷ drop (s.ip + 1) input) =
              rw split at measured in
            elim (Bool-cases (ltb s.op distance)) [
              | inl g ↦ rw (e, g) (far_match high field (ground (arith, length_done)))
              | inr g ↦
                  let near : distance ≤ length (take s.op s.output) = ground (arith, length_done) in
                  elim (Bool-cases (ltb (length s.output) (s.op + (count + 2)))) [
                    | inl k ↦
                        rw (e, g, k)
                          (large_match high field near (ground (arith, length_done, fits)))
                    | inr k ↦
                        rw (e, g, k)
                          (match high field near (ground (arith, length_done, fits))
                            (copied distance (omega arith) (ground arith) (ground (arith, fits))))
                  ]
            ]
      ]
    where
      copied :
          (distance : ℕ)
          → 0 < distance
          → distance ≤ s.op
          → s.op + (count + 2) ≤ n
          → Unpacks n (drop (s.ip + 1) input) (extend (count + 2) distance (take s.op s.output)) (
              f (record {
                ip = s.ip + 1;
                op = s.op + (count + 2);
                output = copy_match (count + 2) (s.op - distance) s.op s.output;
              }))
      copied distance some near room =
          let reference = s.op - distance in
          let done = take s.op s.output in
          let unpacked : extend (count + 2) distance done
              ≡ take (s.op + (count + 2)) (copy_match (count + 2) reference s.op s.output) =
            ap (λ d. extend (count + 2) d done) (omega (arith, near))
            ∙ sym (
                take-copy_match (count + 2) reference s.op s.output (omega (arith, some, near))
                  (omega (arith, fits, room))) in
          rw unpacked (
            goes_on _ (omega arith)
              (room, length-copy_match (count + 2) reference s.op s.output ∙ fits.1))

module _ (input : Bytes) (n : ℕ) (f : LzfState → Result LzfError Bytes) where
  decode_lzf_match-Unpacks :
      (s : LzfState) (control : ℕ)
      → Fits n s
      → 32 ≤ control
      → GoesOn input n s.ip f
      → Unpacks n
          (control ∷ drop s.ip input)
          (take s.op s.output)
          (decode_lzf_match input s control >>= f)
  unfolding decode_lzf_match
  decode_lzf_match-Unpacks s control fits high goes_on = elim (Bool-cases (control / 32 == 7)) [
    | inl e ↦ elim (Bool-cases (leb (length input) s.ip)) [
      | inl g ↦ rw (e, g, drop_all s.ip input (ground arith)) (cut_length high (ground arith))
      | inr g ↦
          let more = get_or input s.ip 0 in
          rw (e, g, drop_one s.ip input (ground arith))
            (finish_match-Unpacks input n f (record s { ip = s.ip + 1 }) control fits
              (more ∷ drop (s.ip + 1) input) (7 + more) high (long more (ground arith))
              (λ t h. goes_on t (omega (arith, h))))
    ]
    | inr e ↦ rw e (
        finish_match-Unpacks input n f s control fits (drop s.ip input) (control / 32) high
          (short (λ h. ground arith)) goes_on)
  ]

  pub lzf_step-Unpacks :
      (s : LzfState)
      → Fits n s
      → s.ip < length input
      → GoesOn input n (s.ip + 1) f
      → Unpacks n (drop s.ip input) (take s.op s.output) (lzf_step input s >>= f)
  unfolding lzf_step
  lzf_step-Unpacks s fits inside goes_on =
      let control = get_or input s.ip 0 in
      let next : LzfState = record s { ip = s.ip + 1 } in
      elim (Bool-cases (ltb control 32)) [
        | inl e ↦
            rw (e, drop_one s.ip input inside)
              (decode_lzf_literal-Unpacks input n f next control fits (ground arith) goes_on)
        | inr e ↦
            rw (e, drop_one s.ip input inside)
              (decode_lzf_match-Unpacks next control fits (ground arith) goes_on)
      ]
