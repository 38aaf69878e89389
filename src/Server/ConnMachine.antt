-- ===== src/Server/ConnMachine.antt =====
-- The connection state machine of the event loop: conn_machine.go. One loop drives a machine, so its
-- operations run one after the other. The state of its client lies in the world of Server/Clients.
pub mod Reply
pub mod Frames
pub mod Feed
pub mod Output
pub mod Calls
pub mod Delivers
pub mod Delivery
pub mod Drain
pub mod Failure
use runedb.Base.{
  ℕ, zero, suc, ◌+◌, ◌-◌, ◌*◌, ◌/◌, ◌==◌, Bool, true, false, not, ◌&&◌, ◌||◌, Option, none, some,
  List, [], ◌∷◌, ◌++◌, Bytes, ltb, if◌then◌else◌, length, drop, is_empty, ok, err,
}
use runedb.Protocol.Value.{Value, Error, incomplete, error_value}
use runedb.Protocol.Decode.{decode}
use runedb.Protocol.Writer.{append_values}
use runedb.Server.Clients.{World, disconnect}

pub data ConnMachineState : Type 0 where
  active closing closed : ConnMachineState

-- Why a machine goes toward its close; `R` are the errors of the command runner and of the socket.
pub data ConnError {ℓ} (R : Type ℓ) : Type ℓ where
  conn_machine_closed read_limit write_limit : ConnError R
  protocol : Error → ConnError R
  outside : R → ConnError R

pub data ConnEvent {ℓ} (R : Type ℓ) : Type ℓ where
  request : Value → ConnEvent R
  proto_err : ConnError R → ConnEvent R

pub record ConnMachine {ℓ} (R : Type ℓ) : Type ℓ where
  pub client : ℕ
  pub state : ConnMachineState
  pub failure : Option (ConnError R)
  pub read_buf : Bytes
  pub resume_at : ℕ
  pub max_read_buffer : ℕ
  pub max_write_buffer : ℕ
  pub pending : List (ConnEvent R)
  pub write_buf : Bytes
  pub write_off : ℕ

-- How the loop of `Feed` ends: it waits for more bytes, or a permanent error stops it.
pub data ParseEnd : Type 0 where
  waiting : Option ℕ → ParseEnd
  failed : Error → ParseEnd

abbrev pub end_of : Error → ParseEnd
end_of (incomplete need) = waiting need
end_of e = failed e

abbrev pub hint_of : Option ℕ → ℕ
hint_of none = 0
hint_of (some need) = need

-- What a step that may close returns: whether more is pending, or the error.
abbrev pub Stepped {ℓ} : Type ℓ → Type ℓ
Stepped R = ConnMachine R × World × (Bool × Option (ConnError R))

module _ {ℓ} {R : Type ℓ} where
  unfoldable pub new_conn_machine : ℕ → ConnMachine R
  new_conn_machine client = record {
    client = client;
    state = active;
    failure = none;
    read_buf = [];
    resume_at = 0;
    max_read_buffer = 512 * 1024 * 1024;
    max_write_buffer = 512 * 1024 * 1024;
    pending = [];
    write_buf = [];
    write_off = 0;
  }

  abbrev pub is_request : ConnEvent R → Bool
  is_request (request v) = true
  is_request (proto_err e) = false

  -- `PendingRequests`
  abbrev pub count_requests : List (ConnEvent R) → ℕ
  count_requests [] = 0
  count_requests (e ∷ es) = if is_request e then suc (count_requests es) else count_requests es

  abbrev pub pending_requests : ConnMachine R → ℕ
  pending_requests m = count_requests m.pending

  -- `PendingOutputBytes` and `HasPendingOutput`
  abbrev pub pending_output_bytes : ConnMachine R → ℕ
  pending_output_bytes m = length m.write_buf - m.write_off

  abbrev pub has_pending_output : ConnMachine R → Bool
  has_pending_output m = ltb 0 (pending_output_bytes m)

  unfoldable pub enter_protocol_error : ConnError R → ConnMachine R → ConnMachine R
  enter_protocol_error e m = record m {
    pending = m.pending ++ proto_err e ∷ [];
    failure = some e;
    state = closing;
    read_buf = [];
    resume_at = 0;
  }

  -- The loop of `Feed` on what is not consumed; each round consumes a byte, so `fuel` is the bytes.
  unfoldable pub parse_loop : ℕ → Bytes → List (ConnEvent R) → List (ConnEvent R) × Bytes × ParseEnd
  parse_loop zero rest pending = (pending, rest, waiting none)
  parse_loop (suc fuel) rest pending = elim (decode rest) [
    | ok (v, n) ↦ parse_loop fuel (drop n rest) (pending ++ request v ∷ [])
    | err e ↦ (pending, rest, end_of e)
  ]

  -- What `Feed` does when its loop has ended.
  unfoldable pub after_parse : ConnMachine R → List (ConnEvent R) × Bytes × ParseEnd → ConnMachine R
  unfolding enter_protocol_error
  after_parse m (pending, rest, failed e) =
      enter_protocol_error (protocol e) (record m { pending = pending })
  after_parse m (pending, rest, waiting need) =
      let m' : ConnMachine R = record m {
        pending = pending;
        read_buf = rest;
        resume_at = hint_of need;
      } in
      if ltb m.max_read_buffer (length rest) || ltb m.max_read_buffer (hint_of need)
      then enter_protocol_error read_limit m'
      else m'

  -- `Feed`, where the machine is active.
  unfoldable pub feed_active : Bytes → ConnMachine R → ConnMachine R
  unfolding parse_loop after_parse
  feed_active data_ m =
      let buf = m.read_buf ++ data_ in
      if ltb 0 m.resume_at && ltb (length buf) m.resume_at
      then record m { read_buf = buf }
      else after_parse m (parse_loop (suc (length buf)) buf m.pending)

  abbrev pub feed_in :
      ConnMachineState → Bytes → ConnMachine R → ConnMachine R × Option (ConnError R)
  feed_in active data_ m = (feed_active data_ m, none)
  feed_in closing data_ m = (m, some conn_machine_closed)
  feed_in closed data_ m = (m, some conn_machine_closed)

  -- `Feed`; an error leaves the machine as it is.
  abbrev pub feed : Bytes → ConnMachine R → ConnMachine R × Option (ConnError R)
  feed data_ m = feed_in m.state data_ m
