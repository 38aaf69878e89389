-- ===== src/Rdb/Load/Items.antt =====
-- One marker: the loader accepts exactly the records of the format.
use runedb.Base.{
  ℕ, ◌*◌, ◌^◌, ◌==◌, ◌≡◌, sym, ap, ◌∙◌, inl, inr, false, Bool-cases, Option, some, ◌∷◌, Bytes,
  if◌then◌else◌, length, take, drop, ok, err, >>=-eq-ok, arith, leb, ltb,
}
use runedb.Base.Int.{ℤ, pos}
use runedb.Rdb.Reader.{
  unsupported_opcode, little_endian, read_full, read_length, read_string, read_uint_le,
}
use runedb.Rdb.Load.{
  LoadState, read_entry, process_marker, skip_aux_field, skip_resize_db_metadata,
  read_database_selection, validated_expiry_millis, is_value_type,
}
use runedb.Rdb.Load.Format.{
  Item, ignored, entry, ItemAt, aux, sizes, database, plain, expires_seconds, expires_millis,
  load_item,
}
use runedb.Rdb.Load.Entries.{
  ok_pair, read_entry-Entered, Entered-read_entry, read_expiring_entry-Entered,
  Entered-read_expiring_entry,
}

module _ {ℓ} {S : Type ℓ} (put : S → Bytes → Bytes → ℤ → Option S) (clock : ℕ → ℤ) where
  -- A record at the marker that is loaded.
  abbrev pub Loaded : LoadState S → ℕ → Bytes → LoadState S → Bytes → Type ℓ
  Loaded s marker bs s' rest =
      (item : Item) × ItemAt (marker ∷ bs) item rest × (load_item put clock s item ≡ some s')

  aux_Loaded :
      (s s' : LoadState S) (bs rest : Bytes)
      → process_marker put clock s 250 bs ≡ ok (s', rest)
      → Loaded s 250 bs s' rest
  unfolding process_marker skip_aux_field load_item
  aux_Loaded s s' bs rest h =
      let (a, p, h1) = >>=-eq-ok (read_string bs) _ h in
      let (b, q, h2) = >>=-eq-ok (read_string a.1) _ h1 in
      let (same, left) = ok_pair s s' b.1 rest h2 in
      (ignored, aux a.0 b.0 (a.1, p, q ∙ ap (λ x. ok (b.0, x)) left), ap some same)

  sizes_Loaded :
      (s s' : LoadState S) (bs rest : Bytes)
      → process_marker put clock s 251 bs ≡ ok (s', rest)
      → Loaded s 251 bs s' rest
  unfolding process_marker skip_resize_db_metadata load_item
  sizes_Loaded s s' bs rest h =
      let (a, p, h1) = >>=-eq-ok (read_length bs) _ h in
      let (b, q, h2) = >>=-eq-ok (read_length a.1) _ h1 in
      let (same, left) = ok_pair s s' b.1 rest h2 in
      (ignored, sizes a.0 b.0 a.1 p (q ∙ ap (λ x. ok (b.0, x)) left), ap some same)

  database_Loaded :
      (s s' : LoadState S) (bs rest : Bytes)
      → process_marker put clock s 254 bs ≡ ok (s', rest)
      → Loaded s 254 bs s' rest
  unfolding process_marker read_database_selection load_item
  database_Loaded s s' bs rest h =
      let (a, p, h1) = >>=-eq-ok (read_length bs) _ h in
      elim (Bool-cases (a.0.0 == 0)) [
        | inl e ↦
            let zero_index : a.0.0 ≡ 0 = ground arith in
            let (same, left) = ok_pair s s' a.1 rest (rw e at h1) in
            (
              ignored,
              database a.0.1 (
                  p
                  ∙ (ap (λ i. ok ((i, a.0.1), a.1)) zero_index
                      ∙ ap (λ x. ok ((0, a.0.1), x)) left)),
              ap some same,
            )
        | inr e ↦ let h2 = rw e at h1 in absurd cc
      ]

  seconds_Loaded :
      (s s' : LoadState S) (bs rest : Bytes)
      → process_marker put clock s 253 bs ≡ ok (s', rest)
      → Loaded s 253 bs s' rest
  unfolding process_marker read_uint_le read_full
  seconds_Loaded s s' bs rest h = elim (Bool-cases (ltb (length bs) 4)) [
    | inl e ↦ let h1 = rw e at h in absurd cc
    | inr e ↦
        let seconds = little_endian (take 4 bs) in
        let (behind, split, (key, content, strings, loaded)) =
          read_expiring_entry-Entered put clock s s' (pos (seconds * 1000)) (drop 4 bs) rest
            (rw e at h) in
        (
          entry (pos (seconds * 1000)) key content,
          expires_seconds (ground arith) split strings,
          loaded,
        )
  ]

  millis_Loaded :
      (s s' : LoadState S) (bs rest : Bytes)
      → process_marker put clock s 252 bs ≡ ok (s', rest)
      → Loaded s 252 bs s' rest
  unfolding process_marker read_uint_le read_full validated_expiry_millis
  millis_Loaded s s' bs rest h = elim (Bool-cases (ltb (length bs) 8)) [
    | inl e ↦ let h1 = rw e at h in absurd cc
    | inr e ↦
        let millis = little_endian (take 8 bs) in
        let h1 = rw e at h in
        elim (Bool-cases (leb (2 ^ 63) millis)) [
          | inl g ↦ let h2 = rw g at h1 in absurd cc
          | inr g ↦
              let (behind, split, (key, content, strings, loaded)) =
                read_expiring_entry-Entered put clock s s' (pos millis) (drop 8 bs) rest
                  (rw g at h1) in
              (
                entry (pos millis) key content,
                expires_millis (ground arith) (ground arith) split strings,
                loaded,
              )
        ]
  ]

  plain_Loaded :
      (s s' : LoadState S) (marker : ℕ) (bs rest : Bytes)
      → read_entry put clock s marker (pos 0) bs ≡ ok (s', rest)
      → Loaded s marker bs s' rest
  plain_Loaded s s' marker bs rest h =
      let (e, (key, content, strings, loaded)) =
        read_entry-Entered put clock s s' marker (pos 0) bs rest h in
      rw e (entry (pos 0) key content, plain strings, loaded)

  other_Loaded :
      (s s' : LoadState S) (marker : ℕ) (bs rest : Bytes)
      → (if is_value_type marker
          then read_entry put clock s marker (pos 0) bs
          else err (unsupported_opcode marker))
        ≡ ok (s', rest)
      → Loaded s marker bs s' rest
  other_Loaded s s' marker bs rest h = elim (Bool-cases (is_value_type marker)) [
    | inl e ↦ plain_Loaded s s' marker bs rest (rw e at h)
    | inr e ↦ let h1 = rw e at h in absurd cc
  ]

  no_opcode :
      (s : LoadState S) (marker : ℕ) (bs : Bytes)
      → (marker == 250) ≡ false
      → (marker == 251) ≡ false
      → (marker == 254) ≡ false
      → (marker == 253) ≡ false
      → (marker == 252) ≡ false
      → process_marker put clock s marker bs ≡ (
          if is_value_type marker
          then read_entry put clock s marker (pos 0) bs
          else err (unsupported_opcode marker))
  unfolding process_marker
  no_opcode s marker bs a b c d g = rw (a, b, c, d, g)

  -- What the loader accepts at a marker is a record of the format.
  pub process_marker-Loaded :
      (s s' : LoadState S) (marker : ℕ) (bs rest : Bytes)
      → process_marker put clock s marker bs ≡ ok (s', rest)
      → Loaded s marker bs s' rest
  process_marker-Loaded s s' marker bs rest h = elim (Bool-cases (marker == 250)) [
    | inl e ↦ let e' : marker ≡ 250 = ground arith in rw e' (aux_Loaded s s' bs rest (rw e' at h))
    | inr a ↦ elim (Bool-cases (marker == 251)) [
      | inl e ↦
          let e' : marker ≡ 251 = ground arith in rw e' (sizes_Loaded s s' bs rest (rw e' at h))
      | inr b ↦ elim (Bool-cases (marker == 254)) [
        | inl e ↦
            let e' : marker ≡ 254 = ground arith in
            rw e' (database_Loaded s s' bs rest (rw e' at h))
        | inr c ↦ elim (Bool-cases (marker == 253)) [
          | inl e ↦
              let e' : marker ≡ 253 = ground arith in
              rw e' (seconds_Loaded s s' bs rest (rw e' at h))
          | inr d ↦ elim (Bool-cases (marker == 252)) [
            | inl e ↦
                let e' : marker ≡ 252 = ground arith in
                rw e' (millis_Loaded s s' bs rest (rw e' at h))
            | inr g ↦ other_Loaded s s' marker bs rest (sym (no_opcode s marker bs a b c d g) ∙ h)
          ]
        ]
      ]
    ]
  ]

  -- And each record of the format is accepted.
  pub ItemAt-process_marker :
      {marker : ℕ} {bs : Bytes} {item : Item} {rest : Bytes} (s s' : LoadState S)
      → ItemAt (marker ∷ bs) item rest
      → load_item put clock s item ≡ some s'
      → process_marker put clock s marker bs ≡ ok (s', rest)
  unfolding process_marker skip_aux_field skip_resize_db_metadata read_database_selection
      read_uint_le read_full validated_expiry_millis is_value_type load_item
  ItemAt-process_marker s s' (aux key content (middle, p, q)) h = rw (p, q) cc
  ItemAt-process_marker s s' (sizes keys expires middle p q) h = rw (p, q) cc
  ItemAt-process_marker s s' (database encoded p) h = rw p cc
  ItemAt-process_marker s s' (plain {bs} {rest} {key} {content} strings) h =
      Entered-read_entry put clock s s' (pos 0) bs rest key content strings h
  ItemAt-process_marker s s'
        (expires_seconds {bs} {behind} {rest} {key} {content} long split strings) h =
      let e : ltb (length bs) 4 ≡ false = ground arith in
      rw e (
        Entered-read_expiring_entry put clock s s' (pos (little_endian (take 4 bs) * 1000))
          (drop 4 bs) behind rest key content split strings h)
  ItemAt-process_marker s s'
        (expires_millis {bs} {behind} {rest} {key} {content} long small split strings) h =
      let e : ltb (length bs) 8 ≡ false = ground arith in
      let g : leb (2 ^ 63) (little_endian (take 8 bs)) ≡ false = ground arith in
      rw (e, g)
        (Entered-read_expiring_entry put clock s s' (pos (little_endian (take 8 bs))) (drop 8 bs)
          behind rest key content split strings h)
