-- ===== src/Protocol/Writer/Stream.antt =====
-- `WriteValue` and its helpers over an `io.Writer`. The writer is a parameter: what `Write` does to its
-- state and whether it fails, and `WriteByte` where the writer has it.
use runedb.Base.{
  ℕ, ◌≡◌, refl, true, false, Option, none, some, [], ◌∷◌, ◌++◌, Bytes, ok, err, length, to_option,
  ◌>>=◌, arith,
}
use runedb.Base.Int.{ℤ, pos}
use runedb.Protocol.Number.{format_int}
use runedb.Protocol.Value.{
  Value, Values, simple_string, error_value, integer, bulk_string, text_bulk_string, array, boolean,
  null, unknown, nil, cons, count, Fallible, crlf,
}
use runedb.Protocol.Writer.{
  null_bulk, null_array, null_line, boolean_line, append_prefixed_string_line,
  append_prefixed_int_line, append_bulk, append_encoded_value, append_elements,
}

-- An error of the writer, or that of a value of another type.
pub data WriteError (E : Type 0) : Type 0 where
  io : E → WriteError E
  unsupported : WriteError E

-- A write changes the writer, and may fail.
abbrev pub Action : Type 0 → Type 0 → Type 0
Action S E = S → S × Option (WriteError E)

module _ {S E : Type 0} where
  -- The first error ends the sequence.
  abbrev pub continue : S × Option (WriteError E) → Action S E → S × Option (WriteError E)
  continue (s, none) k = k s
  continue (s, some e) k = (s, some e)

  infixl 5 ◌>>◌
  abbrev pub ◌>>◌ : Action S E → Action S E → Action S E
  ◌>>◌ m k s = continue (m s) k

  abbrev pub skip : Action S E
  skip s = (s, none)

  abbrev pub refuse : Action S E
  refuse s = (s, some unsupported)

module _ {S E : Type 0} (write : Bytes → Action S E) (byte_writer : Option (ℕ → Action S E)) where
  unfoldable pub write_byte : ℕ → Action S E
  write_byte value = elim byte_writer [ none ↦ write (value ∷ []) | some put ↦ put value ]

  unfoldable pub write_prefixed_string_line : ℕ → Bytes → Action S E
  unfolding write_byte
  write_prefixed_string_line prefix value = write_byte prefix >> write value >> write crlf

  unfoldable pub write_prefixed_int_line : ℕ → ℤ → Action S E
  unfolding write_byte
  write_prefixed_int_line prefix value = write_byte prefix >> write (format_int value) >> write crlf

  unfoldable pub write_bulk : Bytes → Action S E
  unfolding write_prefixed_int_line
  write_bulk payload =
      write_prefixed_int_line b'$' (pos (length payload)) >> write payload >> write crlf

  -- `WriteValue`
  unfoldable mutual
    pub write_value : Value → Action S E
    write_value (simple_string value) = write_prefixed_string_line b'+' value
    write_value (error_value message) = write_prefixed_string_line b'-' message
    write_value (integer value) = write_prefixed_int_line b':' value
    write_value (bulk_string payload true) = write null_bulk
    write_value (bulk_string payload false) = write_bulk payload
    write_value (text_bulk_string value true) = write null_bulk
    write_value (text_bulk_string value false) = write_bulk value
    write_value (array elements true) = write null_array
    write_value (array elements false) =
        write_prefixed_int_line b'*' (pos (count elements)) >> write_elements elements
    write_value (boolean value) = write (boolean_line value)
    write_value null = write null_line
    write_value unknown = refuse

    pub write_elements : Values → Action S E
    write_elements nil = skip
    write_elements (cons element elements) = write_value element >> write_elements elements

-- `bytes.Buffer`: a write appends and never fails.
abbrev pub buffer_write : Bytes → Action Bytes ⊥
buffer_write payload s = (s ++ payload, none)

abbrev pub buffer_write_byte : Option (ℕ → Action Bytes ⊥)
buffer_write_byte = some (λ c s. (s ++ c ∷ [], none))

abbrev pub write_to_buffer : Value → Action Bytes ⊥
write_to_buffer = write_value buffer_write buffer_write_byte

-- What a write without an error has made of the buffer.
abbrev pub completed : Bytes × Option (WriteError ⊥) → Option Bytes
completed (s, none) = some s
completed (s, some e) = none

line_to_buffer :
    (dst value : Bytes) (prefix : ℕ)
    → write_prefixed_string_line buffer_write buffer_write_byte prefix value dst
      ≡ (append_prefixed_string_line dst prefix value, none)
unfolding write_prefixed_string_line append_prefixed_string_line
line_to_buffer dst value prefix = refl

int_line_to_buffer :
    (dst : Bytes) (prefix : ℕ) (value : ℤ)
    → write_prefixed_int_line buffer_write buffer_write_byte prefix value dst
      ≡ (append_prefixed_int_line dst prefix value, none)
unfolding write_prefixed_int_line append_prefixed_int_line
int_line_to_buffer dst prefix value = refl

bulk_to_buffer :
    (dst payload : Bytes)
    → write_bulk buffer_write buffer_write_byte payload dst ≡ (append_bulk dst payload, none)
unfolding write_bulk append_bulk
bulk_to_buffer dst payload = refl

-- One element, then the rest.
then_completed :
    (first : Bytes × Option (WriteError ⊥)) (rest : Action Bytes ⊥) (written : Fallible Bytes)
    (more : Bytes → Fallible Bytes)
    → completed first ≡ to_option written
    → ((dst : Bytes) → completed (rest dst) ≡ to_option (more dst))
    → completed (continue first rest) ≡ to_option (written >>= more)
then_completed (s, none) rest (ok out) more h k = let e : s ≡ out = cc in rw e (k out)
then_completed (s, none) rest (err x) more h k = absurd (ground arith)
then_completed (s, some e) rest (ok out) more h k = absurd (ground arith)
then_completed (s, some e) rest (err x) more h k = refl

mutual
  unfolding write_value append_encoded_value

  value_to_buffer :
      (v : Value) (dst : Bytes)
      → completed (write_to_buffer v dst) ≡ to_option (append_encoded_value dst v)
  value_to_buffer (simple_string value) dst = rw (line_to_buffer dst value b'+')
  value_to_buffer (error_value message) dst = rw (line_to_buffer dst message b'-')
  value_to_buffer (integer value) dst = rw (int_line_to_buffer dst b':' value)
  value_to_buffer (bulk_string payload true) dst = refl
  value_to_buffer (bulk_string payload false) dst = rw (bulk_to_buffer dst payload)
  value_to_buffer (text_bulk_string value true) dst = refl
  value_to_buffer (text_bulk_string value false) dst = rw (bulk_to_buffer dst value)
  value_to_buffer (array elements true) dst = refl
  value_to_buffer (array elements false) dst =
      rw (int_line_to_buffer dst b'*' (pos (count elements))) (elements_to_buffer elements _)
  value_to_buffer (boolean value) dst = refl
  value_to_buffer null dst = refl
  value_to_buffer unknown dst = refl

  elements_to_buffer :
      (vs : Values) (dst : Bytes)
      → completed (write_elements buffer_write buffer_write_byte vs dst)
        ≡ to_option (append_elements dst vs)
  elements_to_buffer nil dst = refl
  elements_to_buffer (cons v vs) dst =
      then_completed (write_to_buffer v dst) _ (append_encoded_value dst v) _
        (value_to_buffer v dst) (λ d. elements_to_buffer vs d)

-- Into a `bytes.Buffer`, `WriteValue` writes what `AppendValue` appends, and fails where it fails.
pub write_value-append_encoded_value :
    (v : Value) (dst : Bytes)
    → completed (write_to_buffer v dst) ≡ to_option (append_encoded_value dst v)
write_value-append_encoded_value v dst = value_to_buffer v dst
