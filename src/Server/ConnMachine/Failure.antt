-- ===== src/Server/ConnMachine/Failure.antt =====
-- Malformed input.
use runedb.Base.{
  ℕ, zero, suc, ◌<◌, ◌≡◌, ap, ◌∙◌, List, [], ◌∷◌, ◌++◌, map, append_assoc, append-nil, some, none,
  Bytes, length, length-drop, err, arith,
}
use runedb.Protocol.Value.{Value, Error}
use runedb.Protocol.Decode.{decode}
use runedb.Protocol.Decode.Bounds.{decode-Within}
use runedb.Server.ConnMachine.{
  closing, protocol, ConnEvent, request, proto_err, failed, end_of, new_conn_machine,
  enter_protocol_error, parse_loop, after_parse, feed_active, feed,
}
use runedb.Server.ConnMachine.Frames.{Parses, done, next}

module _ {ℓ} {R : Type ℓ} where
  parse_loop-stops :
      {buf rest : Bytes} {vs : List Value} (p : Parses buf vs rest) (e : Error) (fuel : ℕ)
      (pending : List (ConnEvent R))
      → decode rest ≡ err e
      → length buf < fuel
      → parse_loop fuel buf pending ≡ (pending ++ map request vs, rest, end_of e)
  unfolding parse_loop
  parse_loop-stops p e zero pending stop h = absurd (omega (arith, h))
  parse_loop-stops (done buf) e (suc fuel) pending stop h =
      rw (stop, parse_loop, append-nil pending)
  parse_loop-stops (next buf v n vs rest frame p) e (suc fuel) pending stop h =
      let within = decode-Within buf v n frame in
      rw (frame, parse_loop)
        (parse_loop-stops p e fuel (pending ++ request v ∷ []) stop
            (omega (arith, h, within, length-drop {0} n buf))
          ∙ ap (λ es. (es, rest, end_of e))
              (append_assoc pending (request v ∷ []) (map request vs)))

module _ {ℓ} (R : Type ℓ) where
  -- Bytes that are some frames and then something that can be no frame, fed to a new machine, leave it
  -- closing to input, without buffered bytes, with the requests of those frames pending in order and
  -- the error's reply behind them.
  pub feed-malformed :
      (client : ℕ) (bytes rest : Bytes) (vs : List Value) (e : Error)
      → Parses bytes vs rest
      → decode rest ≡ err e
      → end_of e ≡ failed e
      → feed bytes (new_conn_machine {R = R} client) ≡ (
        record (new_conn_machine {R = R} client) {
          state = closing;
          failure = some (protocol e);
          pending = map request vs ++ proto_err (protocol e) ∷ [];
        },
        none,
      )
  unfolding new_conn_machine feed_active after_parse enter_protocol_error
  feed-malformed client bytes rest vs e p stop permanent =
      let found : parse_loop (suc (length bytes)) bytes [] ≡ (map request vs, rest, failed e) =
        parse_loop-stops p e (suc (length bytes)) [] stop (omega arith)
        ∙ ap (λ end. (map request vs, rest, end)) permanent in
      ap (λ o. (after_parse (record (new_conn_machine {R = R} client) { read_buf = [] }) o, none))
        found
