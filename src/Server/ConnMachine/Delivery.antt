-- ===== src/Server/ConnMachine/Delivery.antt =====
-- What a machine writes over its life, against what it accepted for writing.
use runedb.Base.{
  ℕ, ◌≡◌, refl, ap, Option, none, some, List, [], ◌∷◌, ◌++◌, append_assoc, append-nil, Bytes, arith,
}
use runedb.Protocol.Value.{Value, error_value}
use runedb.Protocol.Writer.Prefix.{wire_list}
use runedb.Server.Clients.{World}
use runedb.Server.ConnMachine.{
  ConnMachineState, active, closing, closed, ConnError, outside, ConnEvent, request, proto_err,
  ConnMachine, new_conn_machine, feed_in, feed,
}
use runedb.Server.ConnMachine.Reply.{
  close_in, buffer_in, after_run, process_event, process_first, process_in, flush_in,
}
use runedb.Server.ConnMachine.Output.{pending_output, IsPlaced}
use runedb.Server.ConnMachine.Calls.{
  Call, feeding, answering, pushing, sending, shutting, IsOpen, granted, error_of, sent_in, sent,
  event_replies, replies, accepted, call, calls, sent_all, accepted_all,
}
use runedb.Server.ConnMachine.Delivers.{
  Delivers, holding, dropped, close_in-Delivers, close_in-dropped, flush_in-Delivers,
  buffer_in-Delivers, answered, feed_in-Quiet, Quiet-Delivers,
}

closed_open : (t : ConnMachineState) → t ≡ closed → IsOpen t → ⊥
closed_open active h o = cc
closed_open closing h o = cc
closed_open closed h o = o

module _ {ℓ} {R : Type ℓ} (error_text : ConnError R → Bytes)
    (runner : Value → World → World × (List Value × Option R)) where
  ran :
      (m : ConnMachine R) (r : World × (List Value × Option R)) (out into : Bytes)
      → IsOpen m.state
      → IsPlaced m
      → out ++ pending_output m ≡ into
      → Delivers out
          (into ++ granted (error_of (after_run error_text runner m r)) (wire_list r.1.0))
          (after_run error_text runner m r).0
  ran m (w, (vs, some e)) out into o p h =
      rw (append-nil into)
        (close_in-dropped m.state (some (outside e)) m w out (pending_output m) into o h)
  ran m (w, (vs, none)) out into o p h = answered vs m w out into o p h

  event-Delivers :
      (e : ConnEvent R) (m : ConnMachine R) (w : World) (out into : Bytes)
      → IsOpen m.state
      → IsPlaced m
      → out ++ pending_output m ≡ into
      → Delivers out
          (into
            ++ granted
                (error_of (process_event error_text runner e m w))
                (wire_list (event_replies error_text runner e w)))
          (process_event error_text runner e m w).0
  event-Delivers (proto_err e) m w out into o p h =
      answered (error_value (b'E' ∷ b'R' ∷ b'R' ∷ b' ' ∷ error_text e) ∷ []) m w out into o p h
  event-Delivers (request v) m w out into o p h = ran m (runner v w) out into o p h

  first-Delivers :
      (es : List (ConnEvent R)) (m : ConnMachine R) (w : World) (out into : Bytes)
      → IsOpen m.state
      → IsPlaced m
      → out ++ pending_output m ≡ into
      → Delivers out
          (into
            ++ granted
                (error_of (process_first error_text runner es m w))
                (wire_list (replies error_text runner es w)))
          (process_first error_text runner es m w).0
  unfolding wire_list
  first-Delivers [] m w out into o p h = rw (append-nil into) (holding p h)
  first-Delivers (e ∷ es) m w out into o p h =
      event-Delivers e (record m { pending = es }) w out into o p h

  process_in-Delivers :
      (t : ConnMachineState) (m : ConnMachine R) (w : World) (out into : Bytes)
      → m.state ≡ t
      → IsPlaced m
      → out ++ pending_output m ≡ into
      → Delivers out
          (into
            ++ granted
                (error_of (process_in error_text runner t m w))
                (wire_list (replies error_text runner m.pending w)))
          (process_in error_text runner t m w).0
  process_in-Delivers active m w out into e p h =
      first-Delivers m.pending m w out into (rw e tt) p h
  process_in-Delivers closing m w out into e p h =
      first-Delivers m.pending m w out into (rw e tt) p h
  process_in-Delivers closed m w out into e p h = rw (append-nil into) (holding p h)

  open-Delivers :
      (c : Call R) (m : ConnMachine R) (w : World) (out into : Bytes)
      → IsPlaced m
      → out ++ pending_output m ≡ into
      → Delivers
          (out ++ sent c m)
          (into ++ accepted error_text runner c m w)
          (call error_text runner c m w).0
  open-Delivers (feeding bytes) m w out into p h =
      rw (append-nil out, append-nil into)
        (Quiet-Delivers m (feed bytes m).0 out into (feed_in-Quiet m.state bytes m) p h)
  open-Delivers answering m w out into p h =
      rw (append-nil out) (process_in-Delivers m.state m w out into refl p h)
  open-Delivers (pushing payload) m w out into p h =
      rw (append-nil out) (buffer_in-Delivers m.state payload m out into p h)
  open-Delivers (sending n e) m w out into p h =
      rw (append-nil into) (flush_in-Delivers m.state n e m w out into p h)
  open-Delivers (shutting e) m w out into p h =
      rw (append-nil out, append-nil into) (close_in-Delivers m.state e m w (holding p h))

  -- A closed machine does nothing.
  call_closed :
      (c : Call R) (m : ConnMachine R) (w : World)
      → m.state ≡ closed
      → ((call error_text runner c m w).0 ≡ m)
        × (sent c m ≡ [])
        × (accepted error_text runner c m w ≡ [])
  call_closed (feeding bytes) m w h = (ap (λ t. (feed_in t bytes m).0) h, refl, refl)
  call_closed answering m w h = (
    ap (λ t. (process_in error_text runner t m w).0) h,
    refl,
    ap
        (λ t.
          granted (error_of (process_in error_text runner t m w))
            (wire_list (replies error_text runner m.pending w)))
        h,
  )
  call_closed (pushing payload) m w h = (
    ap (λ t. (buffer_in t payload m).0) h,
    refl,
    ap (λ t. granted (buffer_in t payload m).1 payload) h,
  )
  call_closed (sending n e) m w h =
      (ap (λ t. (flush_in t n e m w).0) h, ap (λ t. sent_in t n m) h, refl)
  call_closed (shutting e) m w h = (ap (λ t. (close_in t e m w).0) h, refl, refl)

  call-Delivers :
      (c : Call R) (m : ConnMachine R) (w : World) {out into : Bytes}
      → Delivers out into m
      → Delivers
          (out ++ sent c m)
          (into ++ accepted error_text runner c m w)
          (call error_text runner c m w).0
  call-Delivers c m w {out = out} {into = into} (holding p h) = open-Delivers c m w out into p h
  call-Delivers c m w {out = out} {into = into} (dropped rest d h) =
      let (same, s, a) = call_closed c m w d in
      rw (same, s, a, append-nil out, append-nil into) (dropped rest d h)

  calls-Delivers :
      (cs : List (Call R)) (m : ConnMachine R) (w : World) {out into : Bytes}
      → Delivers out into m
      → Delivers
          (out ++ sent_all error_text runner cs m w)
          (into ++ accepted_all error_text runner cs m w)
          (calls error_text runner cs m w).0
  calls-Delivers [] m w {out = out} {into = into} d = rw (append-nil out, append-nil into) d
  calls-Delivers (c ∷ cs) m w {out = out} {into = into} d =
      let later =
        calls-Delivers cs (call error_text runner c m w).0 (call error_text runner c m w).1
          (call-Delivers c m w d) in
      rw
        (
          ← append_assoc out (sent c m) (
              sent_all error_text runner cs (call error_text runner c m w).0
                (call error_text runner c m w).1),
          ← append_assoc into (accepted error_text runner c m w) (
              accepted_all error_text runner cs (call error_text runner c m w).0
                (call error_text runner c m w).1),
        )
        later

  front :
      {out into : Bytes} {m : ConnMachine R}
      → Delivers out into m
      → (rest : Bytes) × (out ++ rest ≡ into)
  front {m = m} (holding p h) = (pending_output m, h)
  front (dropped rest c h) = (rest, h)

  whole :
      {out into : Bytes} {m : ConnMachine R}
      → IsOpen m.state
      → Delivers out into m
      → out ++ pending_output m ≡ into
  whole o (holding p h) = h
  whole {m = m} o (dropped rest c h) = absurd (closed_open m.state c o)

  new-Delivers : (client : ℕ) → Delivers [] [] (new_conn_machine {R = R} client)
  unfolding new_conn_machine
  new-Delivers client = holding (omega arith) refl

  -- Whatever calls are made on a new machine, in whatever order, the bytes that its writers took are the
  -- first of the bytes that it accepted for the client: the replies to its requests as they were
  -- processed and the payloads pushed, each where its call gave no error.
  pub sent_all-accepted_all :
      (client : ℕ) (cs : List (Call R)) (w : World)
      → (rest : Bytes) × (sent_all error_text runner cs (new_conn_machine client) w ++ rest
          ≡ accepted_all error_text runner cs (new_conn_machine client) w)
  sent_all-accepted_all client cs w =
      front (calls-Delivers cs (new_conn_machine client) w (new-Delivers client))

  -- And while the machine is not closed, the accepted bytes that were not taken are still pending.
  pub sent_all-pending_output :
      (client : ℕ) (cs : List (Call R)) (w : World)
      → IsOpen (calls error_text runner cs (new_conn_machine client) w).0.state
      → sent_all error_text runner cs (new_conn_machine client) w
          ++ pending_output (calls error_text runner cs (new_conn_machine client) w).0
        ≡ accepted_all error_text runner cs (new_conn_machine client) w
  sent_all-pending_output client cs w o =
      whole o (calls-Delivers cs (new_conn_machine client) w (new-Delivers client))
