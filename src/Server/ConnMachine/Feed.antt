-- ===== src/Server/ConnMachine/Feed.antt =====
-- Feeding a machine in chunks finds the frames of the whole.
use runedb.Base.{
  ℕ, zero, suc, ◌+◌, ◌^◌, ◌<◌, ◌≡◌, ◌⊎◌, refl, sym, ap, ◌∙◌, inl, inr, false, ◌&&◌, ◌||◌,
  Bool-cases, Option, none, some, List, [], ◌∷◌, ◌++◌, append_assoc, append-nil, Bytes, ltb, ltb→lt,
  length, length-append, length-drop, drop, ok, err, Result, Result-cases, arith,
}
use runedb.Protocol.Value.{Value, Error, incomplete}
use runedb.Protocol.Decode.{decode}
use runedb.Protocol.Decode.Stable.{decode_nil}
use runedb.Protocol.Decode.Bounds.{decode-Within}
use runedb.Protocol.Decode.Need.{decode_need}
use runedb.Server.ConnMachine.{
  ConnMachineState, active, closing, closed, ConnEvent, request, proto_err, ConnMachine, ParseEnd,
  waiting, failed, end_of, hint_of, new_conn_machine, enter_protocol_error, parse_loop, after_parse,
  feed_active, feed_in, feed,
}
use runedb.Server.ConnMachine.Frames.{
  Parses, done, next, is_frame, Parses-length, Parses-append, Parses-trans, Parses-unique,
}

module _ {ℓ} {R : Type ℓ} where
  -- The requests among the pending events.
  abbrev pub requests_of : List (ConnEvent R) → List Value
  requests_of [] = []
  requests_of (request v ∷ es) = v ∷ requests_of es
  requests_of (proto_err e ∷ es) = requests_of es

  requests_of-append :
      (es fs : List (ConnEvent R)) → requests_of (es ++ fs) ≡ requests_of es ++ requests_of fs
  requests_of-append [] fs = refl
  requests_of-append (request v ∷ es) fs = ap (◌∷◌ v) (requests_of-append es fs)
  requests_of-append (proto_err e ∷ es) fs = requests_of-append es fs

closing_active : closing ≡ active → ⊥
closing_active h = cc

hinted : (need : Option ℕ) (n : ℕ) → n < hint_of need → need ≡ some (hint_of need)
hinted none n h = absurd (omega (arith, h))
hinted (some x) n h = refl

-- Why the loop stopped at `rest`.
abbrev pub Stops : Bytes → ParseEnd → Type 0
Stops rest (waiting need) = decode rest ≡ err (incomplete need)
Stops rest (failed e) = decode rest ≡ err e

stops : (rest : Bytes) (e : Error) → decode rest ≡ err e → Stops rest (end_of e)
stops rest (incomplete need) h = h
stops rest e h = h

module _ {ℓ} {R : Type ℓ} where
  -- The loop takes frames from the front of the buffer until none is left.
  abbrev pub Takes : Bytes → List (ConnEvent R) → List (ConnEvent R) × Bytes × ParseEnd → Type 0
  Takes buf pending (pending', rest, end) =
      (vs : List Value) × Parses buf vs rest
      × (requests_of pending' ≡ requests_of pending ++ vs)
      × Stops rest end

  parse_loop-Takes :
      (fuel : ℕ) (buf : Bytes) (pending : List (ConnEvent R))
      → length buf < fuel
      → Takes buf pending (parse_loop fuel buf pending)
  unfolding parse_loop
  parse_loop-Takes zero buf pending h = absurd (omega arith)
  parse_loop-Takes (suc fuel) buf pending h = elim (Result-cases (decode buf)) [
    | inr (e, stop) ↦
        rw (stop, parse_loop)
          ([], done buf, sym (append-nil (requests_of pending)), stops buf e stop)
    | inl ((v, n), frame) ↦
        let within = decode-Within buf v n frame in
        let (vs, p, q, r) =
          parse_loop-Takes fuel (drop n buf) (pending ++ request v ∷ [])
            (omega (arith, h, within, length-drop {0} n buf)) in
        rw (frame, parse_loop)
          (
            v ∷ vs,
            next buf v n vs _ frame p,
            q
                ∙ rw (requests_of-append pending (request v ∷ []))
                    (append_assoc (requests_of pending) (v ∷ []) vs),
            r,
          )
  ]

  -- The frame at the front of the read buffer is not complete: the decoder said so of the first bytes of
  -- it, and the hint that it gave is kept.
  record Awaits (m : ConnMachine R) : Type 0 where
    base : Bytes
    more : Bytes
    need : Option ℕ
    split : m.read_buf ≡ base ++ more
    stop : decode base ≡ err (incomplete need)
    hint : m.resume_at ≡ hint_of need
    short : (more ≡ []) ⊎ (length m.read_buf < m.resume_at)

  -- What a machine knows of the bytes that it was fed.
  record Knows (fed : Bytes) (m : ConnMachine R) : Type 0 where
    parses : Parses fed (requests_of m.pending) m.read_buf
    awaits : Awaits m

  new-Knows : (client : ℕ) → Knows [] (new_conn_machine client)
  unfolding new_conn_machine
  new-Knows client = record {
    parses = done [];
    awaits = record {
      base = [];
      more = [];
      need = none;
      split = refl;
      stop = decode_nil;
      hint = refl;
      short = inl refl;
    };
  }

  -- No frame can be decoded from the read buffer.
  no_frame :
      (fed : Bytes) (m : ConnMachine R)
      → length fed < 2 ^ 63
      → Knows fed m
      → is_frame (decode m.read_buf) ≡ false
  no_frame fed m small k = elim (Result-cases (decode m.read_buf)) [
    | inr (e, failure) ↦ rw failure
    | inl ((v, n), frame) ↦ absurd (refute v n frame k.awaits.short)
  ]
    where
      whole :
          (v : Value) (n : ℕ)
          → decode m.read_buf ≡ ok (v, n)
          → decode (k.awaits.base ++ k.awaits.more) ≡ ok (v, n)
      whole v n frame = ap decode (sym k.awaits.split) ∙ frame

      refute :
          (v : Value) (n : ℕ)
          → decode m.read_buf ≡ ok (v, n)
          → (k.awaits.more ≡ []) ⊎ (length m.read_buf < m.resume_at)
          → ⊥
      refute v n frame (inl nothing) =
          let only : decode k.awaits.base ≡ ok (v, n) =
            ap decode (sym (rw nothing (append-nil k.awaits.base))) ∙ whole v n frame in
          ok_err (sym only ∙ k.awaits.stop)
        where
          ok_err : {a : Value × ℕ} {e : Error} → Path (Result Error (Value × ℕ)) (ok a) (err e) → ⊥
          ok_err h = cc
      refute v n frame (inr short) =
          let below : length m.read_buf < hint_of k.awaits.need = rw (← k.awaits.hint) short in
          let size : length m.read_buf ≡ length k.awaits.base + length k.awaits.more =
            ap length k.awaits.split ∙ length-append k.awaits.base k.awaits.more in
          let bound =
            decode_need k.awaits.base k.awaits.more v n (hint_of k.awaits.need)
              (omega (arith, size, Parses-length k.parses, small))
              (k.awaits.stop
                ∙ ap (λ o. err (incomplete o)) (hinted k.awaits.need (length m.read_buf) below))
              (whole v n frame) in
          let inside = decode-Within m.read_buf v n frame in omega (arith, bound.1, inside.1, below)

  after_parse-Knows :
      (fed : Bytes) (m : ConnMachine R) (buf : Bytes) (o : List (ConnEvent R) × Bytes × ParseEnd)
      → Parses fed (requests_of m.pending) buf
      → Takes buf m.pending o
      → (after_parse m o).state ≡ active
      → Knows fed (after_parse m o)
  unfolding after_parse enter_protocol_error
  after_parse-Knows fed m buf (pending, rest, failed e) p t a = absurd (closing_active a)
  after_parse-Knows fed m buf (pending, rest, waiting need) p (vs, q, r, stop) a =
      elim (Bool-cases
        (ltb m.max_read_buffer (length rest) || ltb m.max_read_buffer (hint_of need))) [
          | inl over ↦ absurd (closing_active (rw over at a))
          | inr within ↦ rw within (record {
            parses = rw r (Parses-trans p q);
            awaits = record {
              base = rest;
              more = [];
              need = need;
              split = sym (append-nil rest);
              stop = stop;
              hint = refl;
              short = inl refl;
            };
          })
        ]

  feed_active-Knows :
      (fed chunk : Bytes) (m : ConnMachine R)
      → Knows fed m
      → (feed_active chunk m).state ≡ active
      → Knows (fed ++ chunk) (feed_active chunk m)
  unfolding feed_active
  feed_active-Knows fed chunk m k a =
      let buf = m.read_buf ++ chunk in
      let longer : Parses (fed ++ chunk) (requests_of m.pending) buf =
        Parses-append chunk k.parses in
      elim (Bool-cases (ltb 0 m.resume_at && ltb (length buf) m.resume_at)) [
        | inl deferred ↦ rw deferred (record {
          parses = longer;
          awaits = record {
            base = k.awaits.base;
            more = k.awaits.more ++ chunk;
            need = k.awaits.need;
            split =
                ap (λ b. b ++ chunk) k.awaits.split
                ∙ append_assoc k.awaits.base k.awaits.more chunk;
            stop = k.awaits.stop;
            hint = k.awaits.hint;
            short = inr (ltb→lt (length buf) m.resume_at (ground arith));
          };
        })
        | inr parse ↦ rw parse (
            after_parse-Knows (fed ++ chunk) m buf (parse_loop (suc (length buf)) buf m.pending)
              longer (parse_loop-Takes (suc (length buf)) buf m.pending (omega arith))
              (rw parse at a))
      ]

  feed_in-active :
      (t : ConnMachineState) (chunk : Bytes) (m : ConnMachine R)
      → t ≡ m.state
      → (feed_in t chunk m).0.state ≡ active
      → t ≡ active
  feed_in-active active chunk m e a = refl
  feed_in-active closing chunk m e a = e ∙ a
  feed_in-active closed chunk m e a = e ∙ a

  -- Only an active machine is active after it was fed.
  feed-active :
      (chunk : Bytes) (m : ConnMachine R) → (feed chunk m).0.state ≡ active → m.state ≡ active
  feed-active chunk m a = feed_in-active m.state chunk m refl a

  feed-feed_active :
      (chunk : Bytes) (m : ConnMachine R)
      → m.state ≡ active
      → (feed chunk m).0 ≡ feed_active chunk m
  feed-feed_active chunk m h = ap (λ t. (feed_in t chunk m).0) h

  -- The chunks, one after the other.
  abbrev pub feed_all : List Bytes → ConnMachine R → ConnMachine R
  feed_all [] m = m
  feed_all (chunk ∷ chunks) m = feed_all chunks (feed chunk m).0

  feed_all_active :
      (chunks : List Bytes) (m : ConnMachine R)
      → (feed_all chunks m).state ≡ active
      → m.state ≡ active
  feed_all_active [] m a = a
  feed_all_active (chunk ∷ chunks) m a =
      feed-active chunk m (feed_all_active chunks (feed chunk m).0 a)

abbrev pub concat : List Bytes → Bytes
concat [] = []
concat (chunk ∷ chunks) = chunk ++ concat chunks

module _ {ℓ} {R : Type ℓ} where
  feed_all-Knows :
      (chunks : List Bytes) (fed : Bytes) (m : ConnMachine R)
      → Knows fed m
      → (feed_all chunks m).state ≡ active
      → Knows (fed ++ concat chunks) (feed_all chunks m)
  feed_all-Knows [] fed m k a = rw (append-nil fed) k
  feed_all-Knows (chunk ∷ chunks) fed m k a =
      let after : (feed chunk m).0.state ≡ active = feed_all_active chunks (feed chunk m).0 a in
      let before : m.state ≡ active = feed-active chunk m after in
      let e : (feed chunk m).0 ≡ feed_active chunk m = feed-feed_active chunk m before in
      let k' : Knows (fed ++ chunk) (feed chunk m).0 =
        rw e (feed_active-Knows fed chunk m k (sym (ap (λ n. n.state) e) ∙ after)) in
      rw (← append_assoc fed chunk (concat chunks))
        (feed_all-Knows chunks (fed ++ chunk) (feed chunk m).0 k' a)

module _ {ℓ} (R : Type ℓ) where
  -- A new machine that is fed fewer than 2 ^ 63 bytes in chunks and is still active has pending exactly
  -- the requests whose frames stand at the front of those bytes, and buffers the rest, which starts with
  -- no complete frame.
  pub feed_all-Parses :
      (client : ℕ) (chunks : List Bytes)
      → length (concat chunks) < 2 ^ 63
      → (feed_all chunks (new_conn_machine {R = R} client)).state ≡ active
      → Parses
          (concat chunks)
          (requests_of (feed_all chunks (new_conn_machine {R = R} client)).pending)
          (feed_all chunks (new_conn_machine {R = R} client)).read_buf
        × (is_frame (decode (feed_all chunks (new_conn_machine {R = R} client)).read_buf) ≡ false)
  feed_all-Parses client chunks small a =
      let k : Knows (concat chunks) (feed_all chunks (new_conn_machine {R = R} client)) =
        feed_all-Knows chunks [] (new_conn_machine {R = R} client) (new-Knows client) a in
      (
        k.parses,
        no_frame (concat chunks) (feed_all chunks (new_conn_machine {R = R} client)) small k,
      )

  -- Two new machines that are fed the same bytes, fewer than 2 ^ 63, in whatever chunks, and are both
  -- still active have the same requests pending and the same bytes buffered.
  pub feed_all_chunks :
      (client : ℕ) (chunks chunks' : List Bytes)
      → concat chunks ≡ concat chunks'
      → length (concat chunks) < 2 ^ 63
      → (feed_all chunks (new_conn_machine {R = R} client)).state ≡ active
      → (feed_all chunks' (new_conn_machine {R = R} client)).state ≡ active
      → (requests_of (feed_all chunks (new_conn_machine {R = R} client)).pending
          ≡ requests_of (feed_all chunks' (new_conn_machine {R = R} client)).pending)
        × ((feed_all chunks (new_conn_machine {R = R} client)).read_buf
            ≡ (feed_all chunks' (new_conn_machine {R = R} client)).read_buf)
  feed_all_chunks client chunks chunks' same small a b =
      let (p, h) = feed_all-Parses client chunks small a in
      let (q, k) = feed_all-Parses client chunks' (rw (← same) small) b in
      Parses-unique p (rw (← same) at q) h k
