-- ===== src/Server/ConnMachine/Drain.antt =====
-- A closing machine: its loop answers what is pending, flushes, and reaches the close.
use runedb.Base.{
  ℕ, zero, suc, ◌+◌, ◌-◌, ◌≤◌, ◌<◌, ◌==◌, ◌≡◌, ◌⊎◌, refl, ap, ◌∙◌, inl, inr, false, ◌||◌,
  Bool-cases, Option, none, some, List, [], ◌∷◌, Bytes, ltb, ◌/◌, length, is_empty, suc_add, arith,
}
use runedb.Protocol.Value.{Value, Error, error_value}
use runedb.Protocol.Writer.{append_values}
use runedb.Server.Clients.{World}
use runedb.Server.ConnMachine.{
  closing, closed, ConnError, outside, ConnEvent, request, proto_err, ConnMachine,
  pending_output_bytes,
}
use runedb.Server.ConnMachine.Reply.{
  close_in, compact_write_buf, appended, buffer_responses, finish_responses, after_run,
  process_event, process_first, process_in, process_next, written, finish_in, flush_open, flush_in,
  flush,
}
use runedb.Server.ConnMachine.Output.{buffer_responses_state}

module _ {ℓ} {R : Type ℓ} where
  -- Closed, or on the way to it with at most `k` events to answer.
  abbrev Near : ℕ → ConnMachine R → Type 0
  Near k m = (m.state ≡ closed) ⊎ ((m.state ≡ closing) × (length m.pending ≤ k))

  compact_pending : (m : ConnMachine R) → (compact_write_buf m).pending ≡ m.pending
  unfolding compact_write_buf
  compact_pending m =
      elim (Bool-cases (m.write_off == 0 || ltb m.write_off (length m.write_buf / 2))) [
        | inl stay ↦ rw stay
        | inr move ↦ rw move
      ]

  appended_pending :
      (m : ConnMachine R) (o : Bytes × Option Error) → (appended m o).0.pending ≡ m.pending
  appended_pending m (dst, some e) = refl
  appended_pending m (dst, none) =
      elim (Bool-cases (ltb m.max_write_buffer (length dst - m.write_off))) [
        | inl over ↦ rw over
        | inr within ↦ rw within
      ]

  buffer_responses_pending :
      (vs : List Value) (m : ConnMachine R) → (buffer_responses vs m).0.pending ≡ m.pending
  unfolding buffer_responses
  buffer_responses_pending [] m = refl
  buffer_responses_pending (v ∷ vs) m =
      appended_pending (compact_write_buf m)
        (append_values (compact_write_buf m).write_buf (v ∷ vs))
      ∙ compact_pending m

  close_in_closing :
      (e : Option (ConnError R)) (m : ConnMachine R) (w : World)
      → m.state ≡ closing
      → (close_in m.state e m w).0.state ≡ closed
  close_in_closing e m w h = rw h

  finish_responses-Near :
      (k : ℕ) (o : ConnMachine R × Option (ConnError R)) (w : World)
      → o.0.state ≡ closing
      → length o.0.pending ≤ k
      → Near k (finish_responses o w).0
  finish_responses-Near k (m, none) w h p = inr (h, p)
  finish_responses-Near k (m, some e) w h p = inl (close_in_closing (some e) m w h)

  answered-Near :
      (k : ℕ) (vs : List Value) (m : ConnMachine R) (w : World)
      → m.state ≡ closing
      → length m.pending ≤ k
      → Near k (finish_responses (buffer_responses vs m) w).0
  answered-Near k vs m w h p =
      finish_responses-Near k (buffer_responses vs m) w (buffer_responses_state vs m ∙ h)
        (rw (buffer_responses_pending vs m) p)

  -- A writer that takes all there is.
  abbrev pub flush_all : ConnMachine R → World → ConnMachine R × World
  flush_all m w = let (m', w', out) = flush (length m.write_buf) none m w in (m', w')

  written_all :
      (m : ConnMachine R)
      → written (length m.write_buf) m ≡ record m { write_buf = []; write_off = 0 }
  unfolding written
  written_all m =
      let all : ltb (m.write_off + length m.write_buf) (length m.write_buf) ≡ false =
        ground arith in
      rw all

  -- Closed, or with at least one and at most `k` events to answer.
  abbrev Busy : ℕ → ConnMachine R → Type 0
  Busy k m =
      (m.state ≡ closed) ⊎ ((m.state ≡ closing) × (0 < length m.pending) × (length m.pending ≤ k))

  finish_in-Busy :
      (k : ℕ) (m : ConnMachine R) (w : World)
      → m.state ≡ closing
      → pending_output_bytes m ≡ 0
      → length m.pending ≤ k
      → Busy k (finish_in m.state m w).0
  finish_in-Busy k m w h silent p = elim (Bool-cases (is_empty m.pending)) [
    | inl nothing ↦
        inl (
          ap (λ t. (finish_in t m w).0.state) h
          ∙ rw (silent, nothing) (close_in_closing none m w h))
    | inr more ↦
        let stays : (finish_in m.state m w).0 ≡ m =
          ap (λ t. (finish_in t m w).0) h ∙ rw (silent, more) in
        rw stays (inr (h, some_left m.pending more, p))
  ]
    where
      some_left : (es : List (ConnEvent R)) → is_empty es ≡ false → 0 < length es
      some_left [] e = cc
      some_left (x ∷ xs) e = omega arith

  flush_all-Busy :
      (k : ℕ) (m : ConnMachine R) (w : World)
      → m.state ≡ closing
      → length m.pending ≤ k
      → Busy k (flush_all m w).0
  flush_all-Busy k m w h p =
      let opened : (flush (length m.write_buf) none m w).0
          ≡ (flush_open (length m.write_buf) none m w).0 =
        ap (λ t. (flush_in t (length m.write_buf) none m w).0) h in
      elim (Bool-cases (ltb m.write_off (length m.write_buf))) [
        | inl more ↦
            rw (opened, more, written_all m)
              (finish_in-Busy k (record m { write_buf = []; write_off = 0 }) w h (omega arith) p)
        | inr nothing ↦ rw (opened, nothing) (finish_in-Busy k m w h (ground (arith, nothing)) p)
      ]

  flush_all_closed :
      (m : ConnMachine R) (w : World) → m.state ≡ closed → (flush_all m w).0.state ≡ closed
  flush_all_closed m w h = ap (λ t. (flush_in t (length m.write_buf) none m w).0.state) h ∙ h

module _ {ℓ} {R : Type ℓ} (error_text : ConnError R → Bytes)
    (runner : Value → World → World × (List Value × Option R)) where
  ran-Near :
      (k : ℕ) (m : ConnMachine R) (r : World × (List Value × Option R))
      → m.state ≡ closing
      → length m.pending ≤ k
      → Near k (after_run error_text runner m r).0
  ran-Near k m (w, (vs, some e)) h p = inl (close_in_closing (some (outside e)) m w h)
  ran-Near k m (w, (vs, none)) h p = answered-Near k vs m w h p

  event-Near :
      (k : ℕ) (e : ConnEvent R) (m : ConnMachine R) (w : World)
      → m.state ≡ closing
      → length m.pending ≤ k
      → Near k (process_event error_text runner e m w).0
  event-Near k (proto_err e) m w h p =
      answered-Near k (error_value (b'E' ∷ b'R' ∷ b'R' ∷ b' ' ∷ error_text e) ∷ []) m w h p
  event-Near k (request v) m w h p = ran-Near k m (runner v w) h p

  first-Near :
      (k : ℕ) (es : List (ConnEvent R)) (m : ConnMachine R) (w : World)
      → m.pending ≡ es
      → m.state ≡ closing
      → length es ≤ k
      → Near (k - 1) (process_first error_text runner es m w).0
  first-Near k [] m w e h p = inr (h, rw e (omega arith))
  first-Near k (x ∷ xs) m w e h p =
      event-Near (k - 1) x (record m { pending = xs }) w h (omega (arith, p))

  process_next-Near :
      (k : ℕ) (m : ConnMachine R) (w : World)
      → m.state ≡ closing
      → length m.pending ≤ k
      → Near (k - 1) (process_next error_text runner m w).0
  process_next-Near k m w h p =
      let same : (process_next error_text runner m w).0
          ≡ (process_first error_text runner m.pending m w).0 =
        ap (λ t. (process_in error_text runner t m w).0) h in
      rw same (first-Near k m.pending m w refl h p)

  -- One round of the loop: an event is answered, and all output is written.
  abbrev pub round : ConnMachine R → World → ConnMachine R × World
  round m w = let (m', w', out) = process_next error_text runner m w in flush_all m' w'

  abbrev pub rounds : ℕ → ConnMachine R → World → ConnMachine R × World
  rounds zero m w = (m, w)
  rounds (suc k) m w = rounds k (round m w).0 (round m w).1

  round_closed : (m : ConnMachine R) (w : World) → m.state ≡ closed → (round m w).0.state ≡ closed
  round_closed m w h =
      let same : (process_next error_text runner m w).0 ≡ m =
        ap (λ t. (process_in error_text runner t m w).0) h in
      flush_all_closed (process_next error_text runner m w).0 (process_next error_text runner m w).1
        (rw same h)

  round-Busy :
      (k : ℕ) (m : ConnMachine R) (w : World)
      → m.state ≡ closing
      → length m.pending ≤ k
      → Busy (k - 1) (round m w).0
  round-Busy k m w h p = elim (process_next-Near k m w h p) [
    | inl done ↦ inl (
        flush_all_closed (process_next error_text runner m w).0
          (process_next error_text runner m w).1 done)
    | inr (h', p') ↦
        flush_all-Busy (k - 1) (process_next error_text runner m w).0
          (process_next error_text runner m w).1 h' p'
  ]

  rounds_closed :
      (k : ℕ) (m : ConnMachine R) (w : World) → m.state ≡ closed → (rounds k m w).0.state ≡ closed
  rounds_closed zero m w h = h
  rounds_closed (suc k) m w h = rounds_closed k (round m w).0 (round m w).1 (round_closed m w h)

  -- A closing machine with at most `k` pending events, whose writer takes all that it is given without
  -- an error, is closed after `k + 1` rounds of answering an event and flushing, and stays closed in
  -- later ones, whatever the requests do.
  pub rounds_closing :
      (k extra : ℕ) (m : ConnMachine R) (w : World)
      → m.state ≡ closing
      → length m.pending ≤ k
      → (rounds (suc k + extra) m w).0.state ≡ closed
  rounds_closing k extra m w h p =
      rw (suc_add k extra) (go k (round m w).0 (round m w).1 (round-Busy k m w h p))
    where
      go :
          (k : ℕ) (m : ConnMachine R) (w : World)
          → Busy (k - 1) m
          → (rounds (k + extra) m w).0.state ≡ closed
      go k m w (inl done) = rounds_closed (k + extra) m w done
      go zero m w (inr (h, some_left, p)) = absurd (omega (arith, some_left, p))
      go (suc k) m w (inr (h, some_left, p)) =
          let p' : length m.pending ≤ k = omega (arith, p) in
          rw (suc_add k extra) (go k (round m w).0 (round m w).1 (round-Busy k m w h p'))
