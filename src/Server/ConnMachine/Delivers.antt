-- ===== src/Server/ConnMachine/Delivers.antt =====
-- What went out is the front of what was accepted: how the calls keep it.
use runedb.Base.{
  ℕ, suc, ◌+◌, ◌≡◌, refl, sym, ap, ◌∙◌, inl, inr, false, not, ◌&&◌, ◌||◌, Bool-cases, Option, none,
  some, List, [], ◌∷◌, ◌++◌, append_assoc, append-nil, Bytes, ltb, length, take, is_empty, arith,
}
use runedb.Protocol.Value.{Value}
use runedb.Protocol.Writer.Prefix.{wire_list}
use runedb.Server.Clients.{World}
use runedb.Server.ConnMachine.{
  ConnMachineState, active, closing, closed, ConnError, ConnEvent, ConnMachine, ParseEnd, waiting,
  failed, hint_of, enter_protocol_error, parse_loop, after_parse, feed_active, feed_in,
  has_pending_output, pending_output_bytes,
}
use runedb.Server.ConnMachine.Reply.{
  close_in, compact_write_buf, buffer_responses, buffer_open, buffer_in, finish_responses, written,
  finish_in, after_write, flush_open, flush_in,
}
use runedb.Server.ConnMachine.Output.{
  drop_past, take_nil, pending_output, IsPlaced, compact_write_buf-IsPlaced,
  pending_output-compact_write_buf, pending_output-written, written-IsPlaced,
  buffer_responses_state, buffer_responses-Grows, grown,
}
use runedb.Server.ConnMachine.Calls.{IsOpen, granted, error_of, sent_in}

module _ {ℓ} {R : Type ℓ} where
  -- `out` went out of what was accepted, `into`: the rest is pending, or it was dropped by a close.
  pub data Delivers (out into : Bytes) (m : ConnMachine R) : Type 0 where
    holding : IsPlaced m → out ++ pending_output m ≡ into → Delivers out into m
    dropped : (rest : Bytes) → m.state ≡ closed → out ++ rest ≡ into → Delivers out into m

  pub close_in-dropped :
      (t : ConnMachineState) (e : Option (ConnError R)) (m : ConnMachine R) (w : World)
      (out rest into : Bytes)
      → IsOpen t
      → out ++ rest ≡ into
      → Delivers out into (close_in t e m w).0
  close_in-dropped active e m w out rest into o h = dropped rest refl h
  close_in-dropped closing e m w out rest into o h = dropped rest refl h
  close_in-dropped closed e m w out rest into o h = absurd o

  pub close_in-Delivers :
      (t : ConnMachineState) (e : Option (ConnError R)) (m : ConnMachine R) (w : World)
      {out into : Bytes}
      → Delivers out into m
      → Delivers out into (close_in t e m w).0
  close_in-Delivers active e m w (holding p h) = dropped (pending_output m) refl h
  close_in-Delivers active e m w (dropped rest c h) = dropped rest refl h
  close_in-Delivers closing e m w (holding p h) = dropped (pending_output m) refl h
  close_in-Delivers closing e m w (dropped rest c h) = dropped rest refl h
  close_in-Delivers closed e m w d = d

  finish_in-Delivers :
      (t : ConnMachineState) (m : ConnMachine R) (w : World) {out into : Bytes}
      → Delivers out into m
      → Delivers out into (finish_in t m w).0
  finish_in-Delivers active m w d = d
  finish_in-Delivers closing m w d =
      elim (Bool-cases (not (has_pending_output m) && is_empty m.pending)) [
        | inl finished ↦ rw finished (close_in-Delivers m.state none m w d)
        | inr more ↦ rw more d
      ]
  finish_in-Delivers closed m w d = d

  -- The bytes that a writer took of a buffer that is placed.
  written-Delivers :
      (n : ℕ) (m : ConnMachine R) (out into : Bytes)
      → out ++ pending_output m ≡ into
      → Delivers (out ++ take n (pending_output m)) into (written n m)
  written-Delivers n m out into h = holding (written-IsPlaced n m) (
      append_assoc out (take n (pending_output m)) (pending_output (written n m))
      ∙ ap (λ b. out ++ b) (pending_output-written n m)
      ∙ h)

  after_write-Delivers :
      (n : ℕ) (e : Option R) (m : ConnMachine R) (w : World) (out into : Bytes)
      → out ++ pending_output m ≡ into
      → Delivers (out ++ take n (pending_output m)) into (after_write n e m w).0
  after_write-Delivers n (some e) m w out into h = written-Delivers n m out into h
  after_write-Delivers n none m w out into h =
      finish_in-Delivers (written n m).state (written n m) w (written-Delivers n m out into h)

  empty_output :
      (m : ConnMachine R)
      → ltb m.write_off (length m.write_buf) ≡ false
      → IsPlaced m
      → pending_output m ≡ []
  empty_output m h p = drop_past m.write_off m.write_buf (ground (arith, h))

  flush_open-Delivers :
      (n : ℕ) (e : Option R) (m : ConnMachine R) (w : World) (out into : Bytes)
      → IsPlaced m
      → out ++ pending_output m ≡ into
      → Delivers (out ++ take n (pending_output m)) into (flush_open n e m w).0
  flush_open-Delivers n e m w out into p h =
      elim (Bool-cases (ltb m.write_off (length m.write_buf))) [
        | inl more ↦ rw more (after_write-Delivers n e m w out into h)
        | inr nothing ↦
            let empty = empty_output m nothing p in
            rw nothing (
              finish_in-Delivers m.state m w (
                holding p (
                  append_assoc out (take n (pending_output m)) (pending_output m)
                  ∙ ap (λ b. out ++ b) (ap (λ b. take n b ++ b) empty ∙ rw (take_nil n) (sym empty))
                  ∙ h)))
      ]

  pub flush_in-Delivers :
      (t : ConnMachineState) (n : ℕ) (e : Option R) (m : ConnMachine R) (w : World)
      (out into : Bytes)
      → IsPlaced m
      → out ++ pending_output m ≡ into
      → Delivers (out ++ sent_in t n m) into (flush_in t n e m w).0
  flush_in-Delivers active n e m w out into p h = flush_open-Delivers n e m w out into p h
  flush_in-Delivers closing n e m w out into p h = flush_open-Delivers n e m w out into p h
  flush_in-Delivers closed n e m w out into p h = rw (append-nil out) (holding p h)

  buffer_open-Delivers :
      (payload : Bytes) (m : ConnMachine R) (out into : Bytes)
      → IsPlaced m
      → out ++ pending_output m ≡ into
      → Delivers out (into ++ granted (buffer_open payload m).1 payload) (buffer_open payload m).0
  unfolding buffer_open
  buffer_open-Delivers [] m out into p h = rw (append-nil into) (holding p h)
  buffer_open-Delivers (b ∷ bs) m out into p h =
      elim (Bool-cases (ltb m.max_write_buffer (pending_output_bytes m + length (b ∷ bs)))) [
        | inl over ↦ rw (over, append-nil into) (holding p h)
        | inr within ↦
            let (q, r) = grown (compact_write_buf m) (b ∷ bs) (compact_write_buf-IsPlaced m p) in
            rw within (
              holding q (
                ap (λ x. out ++ x) (r ∙ ap (λ x. x ++ b ∷ bs) (pending_output-compact_write_buf m))
                ∙ sym (append_assoc out (pending_output m) (b ∷ bs))
                ∙ ap (λ x. x ++ b ∷ bs) h))
      ]

  pub buffer_in-Delivers :
      (t : ConnMachineState) (payload : Bytes) (m : ConnMachine R) (out into : Bytes)
      → IsPlaced m
      → out ++ pending_output m ≡ into
      → Delivers out (into ++ granted (buffer_in t payload m).1 payload) (buffer_in t payload m).0
  buffer_in-Delivers active payload m out into p h = buffer_open-Delivers payload m out into p h
  buffer_in-Delivers closing payload m out into p h = buffer_open-Delivers payload m out into p h
  buffer_in-Delivers closed payload m out into p h = rw (append-nil into) (holding p h)

  finish_responses-Delivers :
      (o : ConnMachine R × Option (ConnError R)) (w : World) (out rest into bytes : Bytes)
      → IsOpen o.0.state
      → out ++ rest ≡ into
      → (o.1 ≡ none → Delivers out (into ++ bytes) o.0)
      → Delivers out
          (into ++ granted (error_of (finish_responses o w)) bytes)
          (finish_responses o w).0
  finish_responses-Delivers (m, none) w out rest into bytes o h d = d refl
  finish_responses-Delivers (m, some e) w out rest into bytes o h d =
      rw (append-nil into) (close_in-dropped m.state (some e) m w out rest into o h)

  -- Replies that are buffered, or an error that closes the machine.
  pub answered :
      (vs : List Value) (m : ConnMachine R) (w : World) (out into : Bytes)
      → IsOpen m.state
      → IsPlaced m
      → out ++ pending_output m ≡ into
      → Delivers out
          (into ++ granted (error_of (finish_responses (buffer_responses vs m) w)) (wire_list vs))
          (finish_responses (buffer_responses vs m) w).0
  answered vs m w out into o p h =
      finish_responses-Delivers (buffer_responses vs m) w out (pending_output m) into (wire_list vs)
        (rw (buffer_responses_state vs m) o) h
        (λ fine.
          let (q, r) = buffer_responses-Grows vs m p fine in
          holding q (
            ap (λ x. out ++ x) r
            ∙ sym (append_assoc out (pending_output m) (wire_list vs))
            ∙ ap (λ x. x ++ wire_list vs) h))

  -- Feeding leaves the output alone.
  unfoldable pub Quiet : ConnMachine R → ConnMachine R → Type 0
  Quiet m m' = (m'.write_buf ≡ m.write_buf) × (m'.write_off ≡ m.write_off)

  after_parse-Quiet :
      (m : ConnMachine R) (o : List (ConnEvent R) × Bytes × ParseEnd) → Quiet m (after_parse m o)
  unfolding Quiet after_parse enter_protocol_error
  after_parse-Quiet m (pending, rest, failed e) = (refl, refl)
  after_parse-Quiet m (pending, rest, waiting need) =
      elim (Bool-cases
        (ltb m.max_read_buffer (length rest) || ltb m.max_read_buffer (hint_of need))) [
          | inl over ↦ rw over (refl, refl)
          | inr within ↦ rw within (refl, refl)
        ]

  pub feed_in-Quiet :
      (t : ConnMachineState) (bytes : Bytes) (m : ConnMachine R) → Quiet m (feed_in t bytes m).0
  unfolding Quiet feed_active
  feed_in-Quiet active bytes m =
      let buf = m.read_buf ++ bytes in
      elim (Bool-cases (ltb 0 m.resume_at && ltb (length buf) m.resume_at)) [
        | inl deferred ↦ rw deferred (refl, refl)
        | inr parse ↦ rw parse (after_parse-Quiet m (parse_loop (suc (length buf)) buf m.pending))
      ]
  feed_in-Quiet closing bytes m = (refl, refl)
  feed_in-Quiet closed bytes m = (refl, refl)

  pub Quiet-Delivers :
      (m m' : ConnMachine R) (out into : Bytes)
      → Quiet m m'
      → IsPlaced m
      → out ++ pending_output m ≡ into
      → Delivers out into m'
  unfolding Quiet
  Quiet-Delivers m m' out into (b, o) p h =
      holding (rw (b, o) p) (ap (λ x. out ++ x) (rw (b, o)) ∙ h)
