-- ===== src/Tests/Machine.antt =====
-- internal/server/conn_machine.go at concrete inputs.
use runedb.Base.{
  some, suc, ◌+◌, ◌≡◌, refl, false, none, List, [], ◌∷◌, ◌++◌, Bytes, Option, ℕ, arith,
}
use runedb.Protocol.Value.{simple_string, unsupported_prefix, Value, integer}
use runedb.Protocol.Decode.{decode, trim_crlf, integer_from_line}
use runedb.Protocol.Number.{parse_int_bytes, parse_magnitude, parse_digits}
use runedb.Server.Clients.{World, new_world}
use runedb.Server.ConnMachine.{
  feed, protocol, ConnError, closing, closed, new_conn_machine, feed_active, parse_loop,
  after_parse, enter_protocol_error, ConnMachine, request, proto_err, write_limit,
}
use runedb.Server.ConnMachine.Reply.{buffer_responses, compact_write_buf, buffer_open, written}
use runedb.Protocol.Writer.{
  append_values, append_loop, append_encoded_value, append_prefixed_string_line,
}
use runedb.Base.Int.{pos}
use runedb.Server.ConnMachine.Frames.{done, next, Parses, is_frame}
use runedb.Server.ConnMachine.Feed.{requests_of, feed_all, concat, feed_all-Parses, feed_all_chunks}
use runedb.Server.ConnMachine.Failure.{feed-malformed}
use runedb.Server.ConnMachine.Calls.{
  Call, feeding, answering, pushing, sending, calls, sent_all, accepted_all,
}
use runedb.Server.ConnMachine.Output.{pending_output}
use runedb.Server.ConnMachine.Delivery.{sent_all-accepted_all, sent_all-pending_output}
use runedb.Server.ConnMachine.Drain.{rounds, rounds_closing}

-- Two frames, of which the first is split, and the start of a third.
abbrev chunks : List Bytes
chunks = (b'+' ∷ []) ∷ (b'O' ∷ b'K' ∷ 13 ∷ []) ∷ (10 ∷ b':' ∷ b'7' ∷ 13 ∷ 10 ∷ b'$' ∷ []) ∷ []

abbrev at_once : List Bytes
at_once = concat chunks ∷ []

feed_all-Parses_example :
    Parses
      (concat chunks)
      (requests_of (feed_all chunks (new_conn_machine {R = ℕ} 1)).pending)
      (feed_all chunks (new_conn_machine {R = ℕ} 1)).read_buf
    × (is_frame (decode (feed_all chunks (new_conn_machine {R = ℕ} 1)).read_buf) ≡ false)
unfolding feed_active parse_loop after_parse new_conn_machine decode trim_crlf integer_from_line
    parse_int_bytes parse_magnitude parse_digits
feed_all-Parses_example = feed_all-Parses ℕ 1 chunks (omega arith) refl

feed_all_chunks_example :
    (requests_of (feed_all chunks (new_conn_machine {R = ℕ} 1)).pending
      ≡ requests_of (feed_all at_once (new_conn_machine {R = ℕ} 1)).pending)
    × ((feed_all chunks (new_conn_machine {R = ℕ} 1)).read_buf
        ≡ (feed_all at_once (new_conn_machine {R = ℕ} 1)).read_buf)
unfolding feed_active parse_loop after_parse new_conn_machine decode trim_crlf integer_from_line
    parse_int_bytes parse_magnitude parse_digits
feed_all_chunks_example = feed_all_chunks ℕ 1 chunks at_once refl (omega arith) refl refl

abbrev no_text : ConnError ℕ → Bytes
no_text e = []

-- A runner that echoes its request.
abbrev echo : Value → World → World × (List Value × Option ℕ)
echo v w = (w, (v ∷ [], none))

-- Two requests and a malformed one; the writer takes three bytes, then all.
abbrev session : List (Call ℕ)
session =
    feeding (b'+' ∷ b'a' ∷ 13 ∷ 10 ∷ b'+' ∷ [])
    ∷ answering
    ∷ sending 3 none
    ∷ pushing (1 ∷ 2 ∷ [])
    ∷ feeding (b'b' ∷ 13 ∷ 10 ∷ b'!' ∷ [])
    ∷ answering
    ∷ sending 2 none
    ∷ []

sent_all-accepted_all_example :
    (rest : Bytes) × (sent_all no_text echo session (new_conn_machine 1) new_world ++ rest
      ≡ accepted_all no_text echo session (new_conn_machine 1) new_world)
sent_all-accepted_all_example = sent_all-accepted_all no_text echo 1 session new_world

sent_all-pending_output_example :
    sent_all no_text echo session (new_conn_machine 1) new_world
      ++ pending_output (calls no_text echo session (new_conn_machine 1) new_world).0
    ≡ accepted_all no_text echo session (new_conn_machine 1) new_world
unfolding feed_active parse_loop after_parse enter_protocol_error new_conn_machine decode trim_crlf
    integer_from_line parse_int_bytes parse_magnitude parse_digits buffer_responses
    compact_write_buf append_values append_loop append_encoded_value append_prefixed_string_line
    buffer_open written
sent_all-pending_output_example = sent_all-pending_output no_text echo 1 session new_world tt

-- A machine that a malformed frame has closed to input, with its error reply and one request pending.
abbrev malformed : ConnMachine ℕ
malformed = record (new_conn_machine 1) {
  state = closing;
  pending = request (integer (pos 7)) ∷ proto_err write_limit ∷ [];
}

rounds_closing_example : (rounds no_text echo (suc 2 + 0) malformed new_world).0.state ≡ closed
rounds_closing_example = rounds_closing no_text echo 2 0 malformed new_world refl (omega arith)

-- A frame, and then a byte that starts none.
abbrev half_good : Bytes
half_good = b'+' ∷ b'a' ∷ 13 ∷ 10 ∷ b'!' ∷ b'x' ∷ 13 ∷ 10 ∷ []

abbrev bad_rest : Bytes
bad_rest = b'!' ∷ b'x' ∷ 13 ∷ 10 ∷ []

half_good-Parses : Parses half_good (simple_string (b'a' ∷ []) ∷ []) bad_rest
unfolding decode trim_crlf
half_good-Parses = next half_good (simple_string (b'a' ∷ [])) 4 [] bad_rest refl (done bad_rest)

feed-malformed_example : feed half_good (new_conn_machine {R = ℕ} 1) ≡ (
  record (new_conn_machine {R = ℕ} 1) {
    state = closing;
    failure = some (protocol (unsupported_prefix b'!'));
    pending =
        request (simple_string (b'a' ∷ [])) ∷ proto_err (protocol (unsupported_prefix b'!')) ∷ [];
  },
  none,
)
unfolding decode trim_crlf
feed-malformed_example =
    feed-malformed ℕ 1 half_good bad_rest (simple_string (b'a' ∷ []) ∷ []) (unsupported_prefix b'!')
      half_good-Parses refl refl
