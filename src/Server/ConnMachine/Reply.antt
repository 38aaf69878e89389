-- ===== src/Server/ConnMachine/Reply.antt =====
-- The output of a machine and its close: conn_machine.go from ProcessPending on.
use runedb.Base.{
  ℕ, zero, suc, ◌+◌, ◌/◌, ◌==◌, true, false, not, ◌&&◌, ◌||◌, Option, none, some, List, [], ◌∷◌,
  ◌++◌, Bytes, ltb, if◌then◌else◌, length, drop, is_empty,
}
use runedb.Protocol.Value.{Value, Error, error_value}
use runedb.Protocol.Writer.{append_values}
use runedb.Server.Clients.{World, disconnect}
use runedb.Server.ConnMachine.{
  ConnMachineState, active, closing, closed, ConnError, conn_machine_closed, write_limit, protocol,
  outside, ConnEvent, request, proto_err, ConnMachine, Stepped, pending_output_bytes,
  has_pending_output,
}

module _ {ℓ} {R : Type ℓ} where
  abbrev pub first_error : Option (ConnError R) → Option (ConnError R) → Option (ConnError R)
  first_error none e = e
  first_error (some old) e = some old

  abbrev pub closed_machine : Option (ConnError R) → ConnMachine R → ConnMachine R
  closed_machine e m = record m {
    failure = first_error m.failure e;
    state = closed;
    read_buf = [];
    resume_at = 0;
    pending = [];
    write_buf = [];
    write_off = 0;
  }

  abbrev pub close_in :
      ConnMachineState → Option (ConnError R) → ConnMachine R → World → ConnMachine R × World
  close_in active e m w = (closed_machine e m, disconnect m.client w)
  close_in closing e m w = (closed_machine e m, disconnect m.client w)
  close_in closed e m w = (m, w)

  -- `Close`
  abbrev pub close : Option (ConnError R) → ConnMachine R → World → ConnMachine R × World
  close e m w = close_in m.state e m w

  -- `compactWriteBuf`
  unfoldable pub compact_write_buf : ConnMachine R → ConnMachine R
  compact_write_buf m =
      if m.write_off == 0 || ltb m.write_off (length m.write_buf / 2)
      then m
      else record m { write_buf = drop m.write_off m.write_buf; write_off = 0 }

  -- What `bufferResponses` does with what was appended.
  abbrev pub appended : ConnMachine R → Bytes × Option Error → ConnMachine R × Option (ConnError R)
  appended m (dst, some e) = (m, some (protocol e))
  appended m (dst, none) =
      let m' : ConnMachine R = record m { write_buf = dst } in
      if ltb m.max_write_buffer (pending_output_bytes m')
      then (m', some write_limit)
      else (m', none)

  -- `bufferResponses`: a payload past the limit is an error that leaves it in the buffer.
  unfoldable pub buffer_responses :
      List Value → ConnMachine R → ConnMachine R × Option (ConnError R)
  unfolding compact_write_buf
  buffer_responses [] m = (m, none)
  buffer_responses (v ∷ vs) m =
      appended (compact_write_buf m) (append_values (compact_write_buf m).write_buf (v ∷ vs))

  unfoldable pub buffer_open : Bytes → ConnMachine R → ConnMachine R × Option (ConnError R)
  unfolding compact_write_buf
  buffer_open payload m =
      if is_empty payload
      then (m, none)
      else if ltb m.max_write_buffer (pending_output_bytes m + length payload)
      then (m, some write_limit)
      else (
        record (compact_write_buf m) { write_buf = (compact_write_buf m).write_buf ++ payload },
        none,
      )

  abbrev pub buffer_in :
      ConnMachineState → Bytes → ConnMachine R → ConnMachine R × Option (ConnError R)
  buffer_in closed payload m = (m, some conn_machine_closed)
  buffer_in active payload m = buffer_open payload m
  buffer_in closing payload m = buffer_open payload m

  -- `BufferEncoded`
  abbrev pub buffer_encoded : Bytes → ConnMachine R → ConnMachine R × Option (ConnError R)
  buffer_encoded payload m = buffer_in m.state payload m

  abbrev pub finish_responses : ConnMachine R × Option (ConnError R) → World → Stepped R
  finish_responses (m, some e) w = let (m', w') = close (some e) m w in (m', w', (false, some e))
  finish_responses (m, none) w = (m, w, (not (is_empty m.pending), none))

  module _ (error_text : ConnError R → Bytes)
      (runner : Value → World → World × (List Value × Option R)) where
    abbrev pub after_run : ConnMachine R → World × (List Value × Option R) → Stepped R
    after_run m (w, (responses, some e)) =
        let (m', w') = close (some (outside e)) m w in (m', w', (false, some (outside e)))
    after_run m (w, (responses, none)) = finish_responses (buffer_responses responses m) w

    -- `ProcessNext`, on the machine without the event that it took
    abbrev pub process_event : ConnEvent R → ConnMachine R → World → Stepped R
    process_event (proto_err e) m w =
        finish_responses
          (buffer_responses (error_value (b'E' ∷ b'R' ∷ b'R' ∷ b' ' ∷ error_text e) ∷ []) m) w
    process_event (request v) m w = after_run m (runner v w)

    abbrev pub process_first : List (ConnEvent R) → ConnMachine R → World → Stepped R
    process_first [] m w = (m, w, (false, none))
    process_first (e ∷ es) m w = process_event e (record m { pending = es }) w

    abbrev pub process_in : ConnMachineState → ConnMachine R → World → Stepped R
    process_in closed m w = (m, w, (false, some conn_machine_closed))
    process_in active m w = process_first m.pending m w
    process_in closing m w = process_first m.pending m w

    -- `ProcessNext`
    abbrev pub process_next : ConnMachine R → World → Stepped R
    process_next m w = process_in m.state m w

    abbrev pub then_more :
        Stepped R
        → (ConnMachine R → World → ConnMachine R × World × Option (ConnError R))
        → ConnMachine R × World × Option (ConnError R)
    then_more (m, w, (more, some e)) rest = (m, w, some e)
    then_more (m, w, (false, none)) rest = (m, w, none)
    then_more (m, w, (true, none)) rest = rest m w

    -- `ProcessPending`; each round takes an event, so `fuel` is the events.
    unfoldable pub process_pending :
        ℕ → ConnMachine R → World → ConnMachine R × World × Option (ConnError R)
    process_pending zero m w = (m, w, none)
    process_pending (suc fuel) m w = then_more (process_next m w) (process_pending fuel)

  -- The bytes that a writer took are gone; behind the last of them the buffer is empty again.
  unfoldable pub written : ℕ → ConnMachine R → ConnMachine R
  written n m =
      if ltb (m.write_off + n) (length m.write_buf)
      then record m { write_off = m.write_off + n }
      else record m { write_buf = []; write_off = 0 }

  abbrev pub finish_in : ConnMachineState → ConnMachine R → World → ConnMachine R × World
  finish_in active m w = (m, w)
  finish_in closing m w =
      if not (has_pending_output m) && is_empty m.pending then close none m w else (m, w)
  finish_in closed m w = (m, w)

  -- A closing machine that has nothing left to do closes.
  abbrev pub finish_closing : ConnMachine R → World → ConnMachine R × World
  finish_closing m w = finish_in m.state m w

  abbrev pub after_write :
      ℕ → Option R → ConnMachine R → World → ConnMachine R × World × Option (ConnError R)
  after_write n (some e) m w = (written n m, w, some (outside e))
  after_write n none m w = let (m', w') = finish_closing (written n m) w in (m', w', none)

  abbrev pub flush_open :
      ℕ → Option R → ConnMachine R → World → ConnMachine R × World × Option (ConnError R)
  flush_open n failed_write m w =
      if ltb m.write_off (length m.write_buf)
      then after_write n failed_write m w
      else (let (m', w') = finish_closing m w in (m', w', none))

  abbrev pub flush_in :
      ConnMachineState
      → ℕ
      → Option R
      → ConnMachine R
      → World
      → ConnMachine R × World × Option (ConnError R)
  flush_in closed n failed_write m w = (m, w, some conn_machine_closed)
  flush_in active n failed_write m w = flush_open n failed_write m w
  flush_in closing n failed_write m w = flush_open n failed_write m w

  -- `Flush`, into a writer that takes `n` of the bytes that it is given and returns `failed_write`.
  abbrev pub flush :
      ℕ → Option R → ConnMachine R → World → ConnMachine R × World × Option (ConnError R)
  flush n failed_write m w = flush_in m.state n failed_write m w
