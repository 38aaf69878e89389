-- ===== src/Server/ConnMachine/Frames.antt =====
-- The frames at the front of a buffer, independent of how it arrived.
use runedb.Base.{
  ℕ, ◌≤◌, ◌≡◌, refl, sym, ap₂, ◌∙◌, Bool, true, false, List, [], ◌∷◌, ◌++◌, Bytes, length,
  length-drop, drop, drop-append_le, ok, err, arith,
}
use runedb.Protocol.Value.{Value, Fallible}
use runedb.Protocol.Decode.{decode}
use runedb.Protocol.Decode.Stable.{decode-Stable}
use runedb.Protocol.Decode.Bounds.{decode-Within}

-- `buf` starts with the frames of `vs`, and `rest` is behind them.
pub data Parses : Bytes → List Value → Bytes → Type 0 where
  done : (buf : Bytes) → Parses buf [] buf
  next :
      (buf : Bytes) (v : Value) (n : ℕ) (vs : List Value) (rest : Bytes)
      → decode buf ≡ ok (v, n)
      → Parses (drop n buf) vs rest
      → Parses buf (v ∷ vs) rest

-- Whether a frame was decoded.
abbrev pub is_frame : Fallible (Value × ℕ) → Bool
is_frame (ok frame) = true
is_frame (err e) = false

pub Parses-length :
    {buf rest : Bytes} {vs : List Value} → Parses buf vs rest → length rest ≤ length buf
Parses-length (done buf) = omega arith
Parses-length (next buf v n vs rest e p) = omega (arith, Parses-length p, length-drop {0} n buf)

-- More bytes behind the buffer are more bytes behind the frames.
pub Parses-append :
    (more : Bytes) {buf rest : Bytes} {vs : List Value}
    → Parses buf vs rest
    → Parses (buf ++ more) vs (rest ++ more)
Parses-append more (done buf) = done (buf ++ more)
Parses-append more (next buf v n vs rest e p) =
    let within = decode-Within buf v n e in
    let stable : decode (buf ++ more) ≡ ok (v, n) = decode-Stable buf more (rw e) ∙ e in
    let tail : Parses (drop n (buf ++ more)) vs (rest ++ more) =
      rw (drop-append_le n buf more within.1) (Parses-append more p) in
    next (buf ++ more) v n vs (rest ++ more) stable tail

pub Parses-trans :
    {buf mid rest : Bytes} {vs ws : List Value}
    → Parses buf vs mid
    → Parses mid ws rest
    → Parses buf (vs ++ ws) rest
Parses-trans (done buf) q = q
Parses-trans (next buf v n vs mid e p) q = next buf v n _ _ e (Parses-trans p q)

frame_only :
    (buf : Bytes) {v : Value} {n : ℕ} → decode buf ≡ ok (v, n) → is_frame (decode buf) ≡ false → ⊥
frame_only buf e h = true_false (rw e at h)
  where
    true_false : true ≡ false → ⊥
    true_false x = ground arith

frame_same :
    {v v' : Value} {n n' : ℕ}
    → Path (Fallible (Value × ℕ)) (ok (v, n)) (ok (v', n'))
    → (v ≡ v') × (n ≡ n')
frame_same h = (cc, cc)

-- Where no frame is left, the frames and the rest are determined.
pub Parses-unique :
    {buf rest rest' : Bytes} {vs vs' : List Value}
    → Parses buf vs rest
    → Parses buf vs' rest'
    → is_frame (decode rest) ≡ false
    → is_frame (decode rest') ≡ false
    → (vs ≡ vs') × (rest ≡ rest')
Parses-unique (done buf) (done _) h k = (refl, refl)
Parses-unique (done buf) (next _ v n vs rest e p) h k = absurd (frame_only buf e h)
Parses-unique (next buf v n vs rest e p) (done _) h k = absurd (frame_only buf e k)
Parses-unique (next buf v n vs rest e p) (next _ v' n' vs' rest' e' p') h k =
    let (same_v, same_n) = frame_same (sym e ∙ e') in
    let (same_vs, same_rest) = Parses-unique p (rw (← same_n) at p') h k in
    (ap₂ (◌∷◌) same_v same_vs, same_rest)
