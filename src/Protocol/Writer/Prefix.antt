-- ===== src/Protocol/Writer/Prefix.antt =====
-- What the encoder appended, whenever it succeeded.
use runedb.Base.{
  ℕ, ◌≡◌, refl, sym, ap, ◌∙◌, inl, inr, true, false, none, some, List, [], ◌∷◌, ◌++◌, Bytes,
  append_assoc, append-nil, Result, ok, Result-cases, >>=-eq-ok,
}
use runedb.Protocol.Value.{
  Value, Values, simple_string, error_value, integer, bulk_string, text_bulk_string, array, boolean,
  null, unknown, nil, cons, Error,
}
use runedb.Protocol.Writer.{
  append_prefixed_string_line, append_prefixed_int_line, append_encoded_value, append_elements,
  append_loop, append_values,
}
use runedb.Protocol.Writer.Wire.{wire, wires, append_bulk-bulk}

ok_out : {a b c : Bytes} → Path (Result Error Bytes) (ok a) (ok b) → a ≡ c → b ≡ c
ok_out h e = cc

mutual
  unfolding append_encoded_value append_elements wire wires append_prefixed_string_line
      append_prefixed_int_line

  wrote :
      (dst : Bytes) (v : Value) {out : Bytes}
      → append_encoded_value dst v ≡ ok out
      → out ≡ dst ++ wire v
  wrote dst (simple_string value) h = ok_out h (simp append_assoc)
  wrote dst (error_value message) h = ok_out h (simp append_assoc)
  wrote dst (integer value) h = ok_out h (simp append_assoc)
  wrote dst (bulk_string payload true) h = ok_out h refl
  wrote dst (bulk_string payload false) h = ok_out h (append_bulk-bulk dst payload)
  wrote dst (text_bulk_string value true) h = ok_out h refl
  wrote dst (text_bulk_string value false) h = ok_out h (append_bulk-bulk dst value)
  wrote dst (array elements true) h = ok_out h refl
  wrote dst (array elements false) h = wrote_all _ elements h ∙ simp append_assoc
  wrote dst (boolean value) h = ok_out h refl
  wrote dst null h = ok_out h refl
  wrote dst unknown h = cc

  wrote_all :
      (dst : Bytes) (vs : Values) {out : Bytes}
      → append_elements dst vs ≡ ok out
      → out ≡ dst ++ wires vs
  wrote_all dst nil h = ok_out h (sym (append-nil dst))
  wrote_all dst (cons v vs) {out = out} h =
      let (mid, first, rest) =
        >>=-eq-ok (append_encoded_value dst v) (λ next. append_elements next vs) h in
      wrote_all mid vs rest
      ∙ ap (λ front. front ++ wires vs) (wrote dst v first)
      ∙ append_assoc dst (wire v) (wires vs)

-- The bytes of the values, one after the other.
unfoldable pub wire_list : List Value → Bytes
wire_list [] = []
wire_list (v ∷ vs) = wire v ++ wire_list vs

append_loop-wire_list :
    (original : ℕ) (dst : Bytes) (vs : List Value)
    → (append_loop original dst vs).1 ≡ none
    → (append_loop original dst vs).0 ≡ dst ++ wire_list vs
unfolding append_loop wire_list
append_loop-wire_list original dst [] h = sym (append-nil dst)
append_loop-wire_list original dst (v ∷ vs) h = elim (Result-cases (append_encoded_value dst v)) [
  | inr (e, stop) ↦ absurd (some_none (rw (stop, append_loop) at h))
  | inl (next, out) ↦
      rw (out, append_loop)
        (append_loop-wire_list original next vs (rw (out, append_loop) at h)
          ∙ ap (λ front. front ++ wire_list vs) (wrote dst v out)
          ∙ append_assoc dst (wire v) (wire_list vs))
]
  where
    some_none : {e : Error} → some e ≡ none → ⊥
    some_none h = cc

-- AppendValues without an error has appended the bytes of all values.
pub append_values-wire_list :
    (dst : Bytes) (vs : List Value)
    → (append_values dst vs).1 ≡ none
    → (append_values dst vs).0 ≡ dst ++ wire_list vs
unfolding append_values
append_values-wire_list dst vs h = append_loop-wire_list _ dst vs h
