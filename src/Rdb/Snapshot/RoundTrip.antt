-- ===== src/Rdb/Snapshot/RoundTrip.antt =====
-- The loader reads back what the writer wrote.
use runedb.Base.{
  ℕ, zero, suc, ◌^◌, ◌≤◌, ◌<◌, ◌≡◌, refl, sym, ap, ◌∙◌, inl, inr, Bool, true, false, Bool-cases,
  Option, List, [], ◌∷◌, ◌++◌, append_assoc, append-nil, Bytes, ltb, leb, if◌then◌else◌, length,
  length-append, Result, ok, err, ◌>>=◌, arith,
}
use runedb.Base.Int.{ℤ, pos, negsuc, pos_part, ltb_ℤ}
use runedb.Protocol.Number.Parse.{of_digits}
use runedb.Storage.IntSet.{parse_int}
use runedb.Rdb.Reader.{RdbError, Read, read_byte, read_full, read_length, max_rdb_object_length}
use runedb.Rdb.Load.{
  file_header, LoadState, opcode_eof, opcode_select_db, opcode_expire_time_ms, validate_header,
  validated_expiry_millis, read_database_selection, store_entry, read_entry, read_expiring_entry,
  process_marker, consume_checksum, load_loop, load_reader,
}
use runedb.Rdb.Snapshot.{
  StringSnapshotEntry, SnapshotStats, zeros, sort_entries, insert_entry, less, append_length,
  append_string, le_bytes, append_entry_bytes, is_dead, write_entries, build_snapshot,
}
use runedb.Rdb.Snapshot.Strings.{
  string_bytes, append_string_lem, read_string-string_bytes, read_uint_le-le_bytes,
}

-- An entry that the loader can read back: no string is longer than its limit, and the deadline is an
-- int64.
abbrev pub IsWritable : StringSnapshotEntry → Type 0
IsWritable e =
    (length e.key ≤ max_rdb_object_length)
    × (length e.content ≤ max_rdb_object_length)
    × (pos_part e.expires_at < 2 ^ 63)

abbrev pub AllWritable : List StringSnapshotEntry → Type 0
AllWritable [] = Unit
AllWritable (e ∷ es) = IsWritable e × AllWritable es

-- The deadline that the loader sees: none where it is not positive.
abbrev pub deadline : StringSnapshotEntry → ℤ
deadline e = if ltb_ℤ (pos 0) e.expires_at then e.expires_at else pos 0

abbrev value_bytes : StringSnapshotEntry → Bytes
value_bytes e = 0 ∷ (string_bytes e.key ++ string_bytes e.content)

abbrev deadline_bytes : StringSnapshotEntry → Bytes
deadline_bytes e =
    if ltb_ℤ (pos 0) e.expires_at
    then opcode_expire_time_ms ∷ le_bytes 8 (pos_part e.expires_at)
    else []

abbrev entry_bytes : StringSnapshotEntry → Bytes
entry_bytes e = deadline_bytes e ++ value_bytes e

append_entry_bytes_lem :
    (payload : Bytes) (e : StringSnapshotEntry)
    → append_entry_bytes payload e ≡ payload ++ entry_bytes e
unfolding append_entry_bytes
append_entry_bytes_lem payload e =
    rw
      (
        append_string_lem (append_string (with_deadline ++ 0 ∷ []) e.key) e.content,
        append_string_lem (with_deadline ++ 0 ∷ []) e.key,
      )
      (append_assoc (with_deadline ++ 0 ∷ []) (string_bytes e.key) (string_bytes e.content)
        ∙ append_assoc with_deadline (0 ∷ []) (string_bytes e.key ++ string_bytes e.content)
        ∙ split (ltb_ℤ (pos 0) e.expires_at))
  where
    with_deadline : Bytes
    with_deadline =
        if ltb_ℤ (pos 0) e.expires_at
        then payload ++ opcode_expire_time_ms ∷ le_bytes 8 (pos_part e.expires_at)
        else payload

    split :
        (b : Bool)
        → (if b
              then payload ++ opcode_expire_time_ms ∷ le_bytes 8 (pos_part e.expires_at)
              else payload)
            ++ value_bytes e
          ≡ payload
            ++ ((if b then opcode_expire_time_ms ∷ le_bytes 8 (pos_part e.expires_at) else [])
                ++ value_bytes e)
    split true = append_assoc payload _ (value_bytes e)
    split false = refl

abbrev body : List StringSnapshotEntry → Bytes
body [] = []
body (e ∷ es) = entry_bytes e ++ body es

abbrev pair {ℓ} : {S : Type ℓ} → S → Bytes → Read S
pair s rest = ok (s, rest)

module _ {ℓ} {S : Type ℓ} (put : S → Bytes → Bytes → ℤ → Option S) (clock : ℕ → ℤ) where
  read_entry-value_bytes :
      (s : LoadState S) (e : StringSnapshotEntry) (at : ℤ) (rest : Bytes)
      → IsWritable e
      → read_entry put clock s 0 at ((string_bytes e.key ++ string_bytes e.content) ++ rest)
        ≡ (store_entry put clock s e.key e.content at >>= λ s'. ok (s', rest))
  unfolding read_entry
  read_entry-value_bytes s e at rest h = rw (
    append_assoc (string_bytes e.key) (string_bytes e.content) rest,
    read_string-string_bytes e.key (string_bytes e.content ++ rest) h.0,
    read_string-string_bytes e.content rest h.1,
  )

  bind_pair :
      (r : Result RdbError (LoadState S)) (rest : Bytes)
      (f : LoadState S → Bytes → Result RdbError (LoadState S))
      → ((r >>= λ s'. pair s' rest) >>= λ (s', rest'). f s' rest') ≡ (r >>= λ s'. f s' rest)
  bind_pair (ok a) rest f = refl
  bind_pair (err e) rest f = refl

  load_loop-value_bytes :
      (fuel : ℕ) (s : LoadState S) (e : StringSnapshotEntry) (rest : Bytes)
      → IsWritable e
      → load_loop put clock (suc fuel) s (value_bytes e ++ rest) ≡ (
          store_entry put clock s e.key e.content (pos 0) >>= λ s'.
          load_loop put clock fuel s' rest)
  unfolding load_loop read_byte process_marker
  load_loop-value_bytes fuel s e rest h =
      rw (read_entry-value_bytes s e (pos 0) rest h) (
        bind_pair (store_entry put clock s e.key e.content (pos 0)) rest (load_loop put clock fuel))

  load_loop-deadline_bytes :
      (fuel : ℕ) (s : LoadState S) (e : StringSnapshotEntry) (n : ℕ) (rest : Bytes)
      → IsWritable e
      → n < 2 ^ 63
      → load_loop put clock
          (suc fuel)
          s
          ((opcode_expire_time_ms ∷ le_bytes 8 n ++ value_bytes e) ++ rest)
        ≡ (store_entry put clock s e.key e.content (pos n) >>= λ s'.
            load_loop put clock fuel s' rest)
  unfolding load_loop read_byte process_marker read_expiring_entry validated_expiry_millis
  load_loop-deadline_bytes fuel s e n rest h small =
      let valid : leb (2 ^ 63) n ≡ false = ground arith in
      rw
        (
          read_uint_le-le_bytes n (value_bytes e ++ rest) small,
          valid,
          read_entry-value_bytes s e (pos n) rest h,
        )
        (bind_pair (store_entry put clock s e.key e.content (pos n)) rest
          (load_loop put clock fuel))

  load_loop-entry_bytes :
      (fuel : ℕ) (s : LoadState S) (e : StringSnapshotEntry) (rest : Bytes)
      → IsWritable e
      → load_loop put clock (suc fuel) s (entry_bytes e ++ rest) ≡ (
          store_entry put clock s e.key e.content (deadline e) >>= λ s'.
          load_loop put clock fuel s' rest)
  load_loop-entry_bytes fuel s e rest h = by_deadline e.expires_at h.2
    where
      by_deadline :
          (z : ℤ)
          → pos_part z < 2 ^ 63
          → load_loop put clock (suc fuel) s (
              ((if ltb_ℤ (pos 0) z then opcode_expire_time_ms ∷ le_bytes 8 (pos_part z) else [])
                ++ value_bytes e)
              ++ rest)
            ≡ (store_entry put clock s e.key e.content (if ltb_ℤ (pos 0) z then z else pos 0)
                >>= λ s'. load_loop put clock fuel s' rest)
      by_deadline (negsuc n) small =
          let none_set : ltb_ℤ (pos 0) (negsuc n) ≡ false = ground arith in
          rw none_set (load_loop-value_bytes fuel s e rest h)
      by_deadline (pos zero) small = load_loop-value_bytes fuel s e rest h
      by_deadline (pos (suc n)) small =
          let positive : ltb_ℤ (pos 0) (pos (suc n)) ≡ true = ground arith in
          rw positive (load_loop-deadline_bytes fuel s e (suc n) rest h small)

  -- What loading some entries one after the other makes of a state.
  abbrev pub replay : List StringSnapshotEntry → LoadState S → Result RdbError (LoadState S)
  replay [] s = ok s
  replay (e ∷ es) s = store_entry put clock s e.key e.content (deadline e) >>= replay es

  load_loop-body :
      (es : List StringSnapshotEntry) (fuel : ℕ) (s : LoadState S)
      → AllWritable es
      → length es < fuel
      → load_loop put clock fuel s (body es ++ opcode_eof ∷ zeros) ≡ replay es s
  unfolding load_loop read_byte consume_checksum
  load_loop-body es zero s h l = absurd (omega arith)
  load_loop-body [] (suc fuel) s h l = refl
  load_loop-body (e ∷ es) (suc fuel) s h l =
      rw
        (
          append_assoc (entry_bytes e) (body es) (opcode_eof ∷ zeros),
          load_loop-entry_bytes fuel s e (body es ++ opcode_eof ∷ zeros) h.0,
        )
        (under (store_entry put clock s e.key e.content (deadline e))
          (λ s'. load_loop-body es fuel s' h.1 (omega arith)))
    where
      under :
          (r : Result RdbError (LoadState S))
          → ((s' : LoadState S)
              → load_loop put clock fuel s' (body es ++ opcode_eof ∷ zeros) ≡ replay es s')
          → (r >>= λ s'. load_loop put clock fuel s' (body es ++ opcode_eof ∷ zeros))
            ≡ (r >>= replay es)
      under (ok s') rest_read = rest_read s'
      under (err x) rest_read = refl

-- The entries that are written.
abbrev pub live : ℤ → List StringSnapshotEntry → List StringSnapshotEntry
live now [] = []
live now (e ∷ es) = if is_dead now e then live now es else e ∷ live now es

write_entries_lem :
    (now : ℤ) (es : List StringSnapshotEntry) (payload : Bytes) (stats : SnapshotStats)
    → (write_entries now payload stats es).0 ≡ payload ++ body (live now es)
unfolding write_entries
write_entries_lem now [] payload stats = sym (append-nil payload)
write_entries_lem now (e ∷ es) payload stats = elim (Bool-cases (is_dead now e)) [
  | inl d ↦ rw d (write_entries_lem now es payload _)
  | inr d ↦ rw d (
      write_entries_lem now es (append_entry_bytes payload e) _
      ∙ rw (append_entry_bytes_lem payload e)
          (append_assoc payload (entry_bytes e) (body (live now es))))
]

length-body : (es : List StringSnapshotEntry) → length es ≤ length (body es)
length-body [] = omega arith
length-body (e ∷ es) = omega (
  arith,
  length-body es,
  length-append {0} (entry_bytes e) (body es),
  length-append {0} (deadline_bytes e) (value_bytes e),
)

insert_entry-AllWritable :
    (e : StringSnapshotEntry) (es : List StringSnapshotEntry)
    → IsWritable e
    → AllWritable es
    → AllWritable (insert_entry e es)
insert_entry-AllWritable e [] h k = (h, tt)
insert_entry-AllWritable e (f ∷ fs) h k = elim (Bool-cases (less f.key e.key)) [
  | inl l ↦ rw l (k.0, insert_entry-AllWritable e fs h k.1)
  | inr l ↦ rw l (h, k)
]

sort_entries-AllWritable :
    (es : List StringSnapshotEntry) → AllWritable es → AllWritable (sort_entries es)
sort_entries-AllWritable [] h = h
sort_entries-AllWritable (e ∷ es) h =
    insert_entry-AllWritable e (sort_entries es) h.0 (sort_entries-AllWritable es h.1)

live-AllWritable :
    (now : ℤ) (es : List StringSnapshotEntry) → AllWritable es → AllWritable (live now es)
live-AllWritable now [] h = h
live-AllWritable now (e ∷ es) h = elim (Bool-cases (is_dead now e)) [
  | inl d ↦ rw d (live-AllWritable now es h.1)
  | inr d ↦ rw d (h.0, live-AllWritable now es h.1)
]

validate_header-file_header : validate_header file_header ≡ ok tt
unfolding validate_header parse_int of_digits
validate_header-file_header = refl

module _ {ℓ} {S : Type ℓ} (put : S → Bytes → Bytes → ℤ → Option S) (clock : ℕ → ℤ) where
  selected_loop :
      (es : List StringSnapshotEntry) (store : S)
      → AllWritable es
      → load_reader put clock store
          (file_header ++ opcode_select_db ∷ 0 ∷ (body es ++ opcode_eof ∷ zeros))
        ≡ replay put clock es (record { store = store; loaded = 0; skipped = 0 })
  unfolding load_reader read_full load_loop read_byte process_marker read_database_selection
      read_length
  selected_loop es store h =
      let rest = body es ++ opcode_eof ∷ zeros in
      let start : LoadState S = record { store = store; loaded = 0; skipped = 0 } in
      let whole : ltb (length (file_header ++ opcode_select_db ∷ 0 ∷ rest)) 9 ≡ false =
        ground arith in
      rw (whole, validate_header-file_header)
        (load_loop-body put clock es (suc (suc (length rest))) start h
          (omega (arith, length-body es, length-append {0} (body es) (opcode_eof ∷ zeros))))

  -- Loading the snapshot of entries whose strings are at most 512 MiB long, at any readings of the clock and into
  -- any store, has the effect of setting the entries that were live when it was written one after the
  -- other in the order of their keys, each with its deadline, and passing over those that have run out
  -- by then; it fails only where the store fails.
  pub load_reader-build_snapshot :
      (now : ℤ) (es : List StringSnapshotEntry) (store : S)
      → AllWritable es
      → load_reader put clock store (build_snapshot now es).0
        ≡ replay put clock
            (live now (sort_entries es))
            (record { store = store; loaded = 0; skipped = 0 })
  unfolding build_snapshot append_length load_reader read_full load_loop read_byte consume_checksum
  load_reader-build_snapshot now [] store h = rw validate_header-file_header
  load_reader-build_snapshot now (e ∷ es) store h =
      let sorted = sort_entries (e ∷ es) in
      let kept = live now sorted in
      let front = file_header ++ opcode_select_db ∷ 0 ∷ [] in
      let written : (write_entries now front (record { written_keys = 0; skipped_expired_keys = 0 })
            sorted).0
          ≡ front ++ body kept =
        write_entries_lem now sorted front _ in
      ap (λ payload. load_reader put clock store (payload ++ opcode_eof ∷ zeros)) written
      ∙ selected_loop kept store (live-AllWritable now sorted (sort_entries-AllWritable (e ∷ es) h))
