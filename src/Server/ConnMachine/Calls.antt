-- ===== src/Server/ConnMachine/Calls.antt =====
-- The calls on a machine, with the bytes that they accept for the client and hand to the writer.
use runedb.Base.{ℕ, Option, none, some, List, [], ◌∷◌, ◌++◌, Bytes, take}
use runedb.Protocol.Value.{Value, error_value}
use runedb.Protocol.Writer.Prefix.{wire_list}
use runedb.Server.Clients.{World}
use runedb.Server.ConnMachine.{
  ConnMachineState, active, closing, closed, ConnError, ConnEvent, request, proto_err, ConnMachine,
  Stepped, feed,
}
use runedb.Server.ConnMachine.Reply.{close, buffer_encoded, process_next, flush}
use runedb.Server.ConnMachine.Output.{pending_output}

-- The calls on a machine; the writer of `sending` takes so many bytes and returns that error.
pub data Call {ℓ} (R : Type ℓ) : Type ℓ where
  feeding : Bytes → Call R
  answering : Call R
  pushing : Bytes → Call R
  sending : ℕ → Option R → Call R
  shutting : Option (ConnError R) → Call R

abbrev pub IsOpen : ConnMachineState → Type 0
IsOpen active = Unit
IsOpen closing = Unit
IsOpen closed = ⊥

module _ {ℓ} {R : Type ℓ} where
  -- A payload counts as accepted when no error came back.
  abbrev pub granted : Option (ConnError R) → Bytes → Bytes
  granted none bytes = bytes
  granted (some e) bytes = []

  abbrev pub error_of : Stepped R → Option (ConnError R)
  error_of (m, w, (more, e)) = e

  abbrev pub sent_in : ConnMachineState → ℕ → ConnMachine R → Bytes
  sent_in active n m = take n (pending_output m)
  sent_in closing n m = take n (pending_output m)
  sent_in closed n m = []

  -- The bytes that a call hands to the writer and that it takes.
  abbrev pub sent : Call R → ConnMachine R → Bytes
  sent (sending n e) m = sent_in m.state n m
  sent (feeding bytes) m = []
  sent answering m = []
  sent (pushing payload) m = []
  sent (shutting e) m = []

module _ {ℓ} {R : Type ℓ} (error_text : ConnError R → Bytes)
    (runner : Value → World → World × (List Value × Option R)) where
  abbrev pub event_replies : ConnEvent R → World → List Value
  event_replies (proto_err e) w = error_value (b'E' ∷ b'R' ∷ b'R' ∷ b' ' ∷ error_text e) ∷ []
  event_replies (request v) w = (runner v w).1.0

  -- The replies to the first pending event.
  abbrev pub replies : List (ConnEvent R) → World → List Value
  replies [] w = []
  replies (e ∷ es) w = event_replies e w

  -- The bytes that a call accepts for the client.
  abbrev pub accepted : Call R → ConnMachine R → World → Bytes
  accepted (feeding bytes) m w = []
  accepted answering m w =
      granted (error_of (process_next error_text runner m w)) (wire_list (replies m.pending w))
  accepted (pushing payload) m w = granted (buffer_encoded payload m).1 payload
  accepted (sending n e) m w = []
  accepted (shutting e) m w = []

  abbrev pub call : Call R → ConnMachine R → World → ConnMachine R × World
  call (feeding bytes) m w = ((feed bytes m).0, w)
  call answering m w = let (m', w', out) = process_next error_text runner m w in (m', w')
  call (pushing payload) m w = ((buffer_encoded payload m).0, w)
  call (sending n e) m w = let (m', w', out) = flush n e m w in (m', w')
  call (shutting e) m w = close e m w

  abbrev pub calls : List (Call R) → ConnMachine R → World → ConnMachine R × World
  calls [] m w = (m, w)
  calls (c ∷ cs) m w = calls cs (call c m w).0 (call c m w).1

  abbrev pub sent_all : List (Call R) → ConnMachine R → World → Bytes
  sent_all [] m w = []
  sent_all (c ∷ cs) m w = sent c m ++ sent_all cs (call c m w).0 (call c m w).1

  abbrev pub accepted_all : List (Call R) → ConnMachine R → World → Bytes
  accepted_all [] m w = []
  accepted_all (c ∷ cs) m w = accepted c m w ++ accepted_all cs (call c m w).0 (call c m w).1
