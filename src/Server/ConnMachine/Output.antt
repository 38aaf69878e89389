-- ===== src/Server/ConnMachine/Output.antt =====
-- The bytes that a machine writes: what it has buffered goes out in order.
use runedb.Base.{
  ℕ, zero, suc, ◌+◌, ◌-◌, ◌/◌, drop-drop, drop-append_le, ◌≤◌, ◌==◌, ◌≡◌, refl, sym, ap, ◌∙◌, inl,
  inr, ◌||◌, Bool-cases, Option, none, some, List, [], ◌∷◌, ◌++◌, append-nil, Bytes, ltb, length,
  length-append, take, drop, arith,
}
use runedb.Protocol.Value.{Value, Error}
use runedb.Protocol.Writer.{append_values}
use runedb.Protocol.Writer.Prefix.{wire_list, append_values-wire_list}
use runedb.Server.ConnMachine.{ConnError, ConnMachine}
use runedb.Server.ConnMachine.Reply.{compact_write_buf, appended, buffer_responses, written}

pub drop_past : (n : ℕ) (xs : Bytes) → length xs ≤ n → drop n xs ≡ []
drop_past zero [] h = refl
drop_past zero (x ∷ xs) h = absurd (omega (arith, h))
drop_past (suc n) [] h = refl
drop_past (suc n) (x ∷ xs) h = drop_past n xs (omega (arith, h))

pub take_nil : (n : ℕ) → take {A = ℕ} n [] ≡ []
take_nil zero = refl
take_nil (suc n) = refl

take-drop : (n : ℕ) (xs : Bytes) → take n xs ++ drop n xs ≡ xs
take-drop zero xs = refl
take-drop (suc n) [] = refl
take-drop (suc n) (x ∷ xs) = ap (◌∷◌ x) (take-drop n xs)

module _ {ℓ} {R : Type ℓ} where
  -- The bytes behind the write offset.
  abbrev pub pending_output : ConnMachine R → Bytes
  pending_output m = drop m.write_off m.write_buf

  -- The write offset lies in the buffer.
  abbrev pub IsPlaced : ConnMachine R → Type 0
  IsPlaced m = m.write_off ≤ length m.write_buf

  pub compact_write_buf-IsPlaced : (m : ConnMachine R) → IsPlaced m → IsPlaced (compact_write_buf m)
  unfolding compact_write_buf
  compact_write_buf-IsPlaced m p =
      elim (Bool-cases (m.write_off == 0 || ltb m.write_off (length m.write_buf / 2))) [
        | inl stay ↦ rw stay p
        | inr move ↦ rw move (omega arith)
      ]

  pub pending_output-compact_write_buf :
      (m : ConnMachine R) → pending_output (compact_write_buf m) ≡ pending_output m
  unfolding compact_write_buf
  pending_output-compact_write_buf m =
      elim (Bool-cases (m.write_off == 0 || ltb m.write_off (length m.write_buf / 2))) [
        | inl stay ↦ rw stay
        | inr move ↦ rw move
      ]

  -- What a writer took and what is left.
  pub pending_output-written :
      (n : ℕ) (m : ConnMachine R)
      → take n (pending_output m) ++ pending_output (written n m) ≡ pending_output m
  unfolding written
  pending_output-written n m = elim (Bool-cases (ltb (m.write_off + n) (length m.write_buf))) [
    | inl more ↦ rw more (
        ap (λ left. take n (pending_output m) ++ left) (sym (drop-drop m.write_off n m.write_buf))
        ∙ take-drop n (pending_output m))
    | inr all ↦
        let none_left : drop n (pending_output m) ≡ [] =
          sym (sym (drop-drop m.write_off n m.write_buf))
          ∙ drop_past (m.write_off + n) m.write_buf (ground (arith, all)) in
        rw all (
          ap (λ left. take n (pending_output m) ++ left) (sym none_left)
          ∙ take-drop n (pending_output m))
  ]

  pub written-IsPlaced : (n : ℕ) (m : ConnMachine R) → IsPlaced (written n m)
  unfolding written
  written-IsPlaced n m = elim (Bool-cases (ltb (m.write_off + n) (length m.write_buf))) [
    | inl more ↦ rw more (ground (arith, more))
    | inr all ↦ rw all (omega arith)
  ]

  appended-none :
      (m : ConnMachine R) (o : Bytes × Option Error)
      → (appended m o).1 ≡ none
      → (o.1 ≡ none) × ((appended m o).0 ≡ record m { write_buf = o.0 })
  appended-none m (dst, some e) h = cc
  appended-none m (dst, none) h =
      elim (Bool-cases (ltb m.max_write_buffer (length dst - m.write_off))) [
        | inl over ↦ absurd (some_none (rw over at h))
        | inr within ↦ rw within (refl, refl)
      ]
    where
      some_none : {e : ConnError R} → some e ≡ none → ⊥
      some_none h = cc

  appended_state : (m : ConnMachine R) (o : Bytes × Option Error) → (appended m o).0.state ≡ m.state
  appended_state m (dst, some e) = refl
  appended_state m (dst, none) =
      elim (Bool-cases (ltb m.max_write_buffer (length dst - m.write_off))) [
        | inl over ↦ rw over
        | inr within ↦ rw within
      ]

  pub compact_write_buf_state : (m : ConnMachine R) → (compact_write_buf m).state ≡ m.state
  unfolding compact_write_buf
  compact_write_buf_state m =
      elim (Bool-cases (m.write_off == 0 || ltb m.write_off (length m.write_buf / 2))) [
        | inl stay ↦ rw stay
        | inr move ↦ rw move
      ]

  pub buffer_responses_state :
      (vs : List Value) (m : ConnMachine R) → (buffer_responses vs m).0.state ≡ m.state
  unfolding buffer_responses
  buffer_responses_state [] m = refl
  buffer_responses_state (v ∷ vs) m =
      appended_state (compact_write_buf m) (append_values (compact_write_buf m).write_buf (v ∷ vs))
      ∙ compact_write_buf_state m

  -- Bytes that are appended to a machine whose buffer is placed.
  pub grown :
      (m : ConnMachine R) (bytes : Bytes)
      → IsPlaced m
      → let m' : ConnMachine R = record m { write_buf = m.write_buf ++ bytes } in
        IsPlaced m' × (pending_output m' ≡ pending_output m ++ bytes)
  grown m bytes p = (
    omega (arith, p, length-append m.write_buf bytes),
    drop-append_le m.write_off m.write_buf bytes p,
  )

  pub buffer_responses-Grows :
      (vs : List Value) (m : ConnMachine R)
      → IsPlaced m
      → (buffer_responses vs m).1 ≡ none
      → IsPlaced (buffer_responses vs m).0
        × (pending_output (buffer_responses vs m).0 ≡ pending_output m ++ wire_list vs)
  unfolding buffer_responses wire_list
  buffer_responses-Grows [] m p h = (p, sym (append-nil (pending_output m)))
  buffer_responses-Grows (v ∷ vs) m p h =
      let c = compact_write_buf m in
      let (fine, e) = appended-none c (append_values c.write_buf (v ∷ vs)) h in
      let (q, r) = grown c (wire_list (v ∷ vs)) (compact_write_buf-IsPlaced m p) in
      let same : (appended c (append_values c.write_buf (v ∷ vs))).0
          ≡ record c { write_buf = c.write_buf ++ wire_list (v ∷ vs) } =
        e
        ∙ ap (λ b. record c { write_buf = b })
            (append_values-wire_list c.write_buf (v ∷ vs) fine) in
      rw same (q, r ∙ ap (λ b. b ++ wire_list (v ∷ vs)) (pending_output-compact_write_buf m))
