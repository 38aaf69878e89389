-- ===== src/Rdb/Load/Accepts.antt =====
-- The loader accepts exactly the files of the format.
use runedb.Base.{
  ℕ, zero, suc, ◌≤◌, ◌<◌, ◌==◌, ◌≡◌, ◌⊎◌, ◌↔◌, refl, ap, inl, inr, true, false, Bool-cases, not,
  ◌&&◌, ◌||◌, Option, Option-cases, some, List, [], ◌∷◌, Bytes, length, take, drop, ok, >>=-eq-ok,
  arith, ltb, equal_bytes, equal_bytes_iff, length-take,
}
use runedb.Base.Int.{ℤ, pos, ltb_ℤ}
use runedb.Storage.IntSet.{parse_int}
use runedb.Rdb.Reader.{read_byte, read_full}
use runedb.Rdb.Load.{
  LoadState, file_header, validate_header, process_marker, consume_checksum, load_loop, load_reader,
}
use runedb.Rdb.Load.Format.{
  Item, ItemAt, aux, sizes, database, plain, expires_seconds, expires_millis, ItemsIn, end_marker,
  next_item, IsHeader, load_item, load_items, and_then, Accepts,
}
use runedb.Rdb.Load.Items.{process_marker-Loaded, ItemAt-process_marker}
use runedb.Rdb.Load.Total.{Ends, load_reader-Ends, process_marker-Shrinks}

validate_header-IsHeader : (header : Bytes) → validate_header header ≡ ok tt → IsHeader header
unfolding validate_header
validate_header-IsHeader header h =
    let bad = not (length header == 9) || not (equal_bytes (take 5 header) (take 5 file_header)) in
    elim (Bool-cases bad) [
      | inl e ↦ let h1 = rw e at h in absurd cc
      | inr e ↦
          let h1 = rw e at h in
          elim (Option-cases (parse_int (drop 5 header))) [
            | inl p ↦ let h2 = rw p at h1 in absurd cc
            | inr (version, p) ↦
                let h2 = rw p at h1 in
                elim (Bool-cases (ltb_ℤ version (pos 1) || ltb_ℤ (pos 11) version)) [
                  | inl g ↦ let h3 = rw g at h2 in absurd cc
                  | inr g ↦ (same e, (version, p, ground arith, ground arith))
                ]
          ]
    ]
  where
    same :
        (not (length header == 9) || not (equal_bytes (take 5 header) (take 5 file_header))) ≡ false
        → take 5 header ≡ take 5 file_header
    same e = (equal_bytes_iff (take 5 header) (take 5 file_header)).0 (ground arith)

IsHeader-validate_header :
    (header : Bytes) → length header ≡ 9 → IsHeader header → validate_header header ≡ ok tt
unfolding validate_header
IsHeader-validate_header header size (name, (version, p, low, high)) =
    let e : (length header == 9) ≡ true = ground arith in
    let g : (ltb_ℤ version (pos 1) || ltb_ℤ (pos 11) version) ≡ false = ground arith in
    rw (e, name, p, g)

-- A record starts with a marker that is not that of the end.
split_marker :
    {bs rest : Bytes} {item : Item}
    → ItemAt bs item rest
    → (marker : ℕ) × (behind : Bytes) × (bs ≡ marker ∷ behind)
      × ((marker == 255) ≡ false)
      × ItemAt (marker ∷ behind) item rest
split_marker (aux {bs} key content strings) = (250, bs, refl, refl, aux key content strings)
split_marker (sizes {bs} keys expires middle p q) =
    (251, bs, refl, refl, sizes keys expires middle p q)
split_marker (database {bs} encoded p) = (254, bs, refl, refl, database encoded p)
split_marker (plain {bs} strings) = (0, bs, refl, refl, plain strings)
split_marker (expires_seconds {bs} long split strings) =
    (253, bs, refl, refl, expires_seconds long split strings)
split_marker (expires_millis {bs} long small split strings) =
    (252, bs, refl, refl, expires_millis long small split strings)

module _ {ℓ} {S : Type ℓ} (put : S → Bytes → Bytes → ℤ → Option S) (clock : ℕ → ℤ) where
  -- The records of the rest of a file give the state.
  abbrev LoadsTo : LoadState S → Bytes → LoadState S → Type ℓ
  LoadsTo s bs st =
      (items : List Item) × ItemsIn bs items × (load_items put clock items s ≡ some st)

  consume_checksum_iff :
      (s st : LoadState S) (rest : Bytes)
      → consume_checksum put clock s rest ≡ ok st
      → (s ≡ st) × ((length rest ≡ 0) ⊎ (length rest ≡ 8))
  unfolding consume_checksum
  consume_checksum_iff s st rest h =
      elim (Bool-cases (not (length rest == 0) && not (length rest == 8))) [
        | inl e ↦ let h1 = rw e at h in absurd cc
        | inr e ↦ let h1 = rw e at h in (cc, ground arith)
      ]

  load_loop-LoadsTo :
      (fuel : ℕ) (s st : LoadState S) (bs : Bytes)
      → load_loop put clock fuel s bs ≡ ok st
      → LoadsTo s bs st
  unfolding load_loop read_byte load_items and_then
  load_loop-LoadsTo zero s st bs h = absurd cc
  load_loop-LoadsTo (suc fuel) s st [] h = absurd cc
  load_loop-LoadsTo (suc fuel) s st (marker ∷ rest) h = elim (Bool-cases (marker == 255)) [
    | inl e ↦
        let e' : marker ≡ 255 = ground arith in
        let (same, size) = consume_checksum_iff s st rest (rw e at h) in
        rw e' ([], end_marker size, ap some same)
    | inr e ↦
        let (a, p, h1) = >>=-eq-ok (process_marker put clock s marker rest) _ (rw e at h) in
        let (item, at, loaded) = process_marker-Loaded put clock s a.0 marker rest a.1 p in
        let (items, inside, all) = load_loop-LoadsTo fuel a.0 st a.1 h1 in
        (item ∷ items, next_item at inside, rw loaded all)
  ]

  LoadsTo-load_loop :
      (fuel : ℕ) (s st : LoadState S) {bs : Bytes} {items : List Item}
      → length bs < fuel
      → ItemsIn bs items
      → load_items put clock items s ≡ some st
      → load_loop put clock fuel s bs ≡ ok st
  unfolding load_loop read_byte load_items and_then consume_checksum
  LoadsTo-load_loop zero s st h inside all = absurd (omega arith)
  LoadsTo-load_loop (suc fuel) s st h (end_marker {checksum} size) all =
      let e : (not (length checksum == 0) && not (length checksum == 8)) ≡ false = ground arith in
      rw e cc
  LoadsTo-load_loop (suc fuel) s st h (next_item {bs} {rest} {item} {items} at inside) all =
      let (marker, behind, split, e, at') = split_marker at in
      let h' : length behind < fuel = ground (arith, split) in
      elim (Option-cases (load_item put clock s item)) [
        | inl none_there ↦ let all' = rw none_there at all in absurd cc
        | inr (s1, loaded) ↦
            let p = ItemAt-process_marker put clock s s1 at' loaded in
            let shorter : length rest ≤ length behind =
              rw p at (process_marker-Shrinks put clock s marker behind) in
            rw split (
              rw (e, p)
                (LoadsTo-load_loop fuel s1 st (omega (arith, h', shorter)) inside
                  (rw loaded at all)))
      ]

  accepted :
      (store : S) (bs : Bytes) (st : LoadState S)
      → load_reader put clock store bs ≡ ok st
      → Accepts put clock store bs st
  unfolding load_reader read_full
  accepted store bs st h = elim (Bool-cases (ltb (length bs) 9)) [
    | inl e ↦ let h1 = rw e at h in absurd cc
    | inr e ↦
        let (u, p, h1) = >>=-eq-ok (validate_header (take 9 bs)) _ (rw e at h) in
        let (items, inside, all) =
          load_loop-LoadsTo (suc (length (drop 9 bs))) _ st (drop 9 bs) h1 in
        (items, (ground arith, validate_header-IsHeader (take 9 bs) p, inside), all)
  ]

  loaded_of :
      (store : S) (bs : Bytes) (st : LoadState S)
      → Accepts put clock store bs st
      → load_reader put clock store bs ≡ ok st
  unfolding load_reader read_full
  loaded_of store bs st (items, (long, header, inside), all) =
      let e : ltb (length bs) 9 ≡ false = ground arith in
      let size : length (take 9 bs) ≡ 9 = omega (arith, long, length-take 9 bs) in
      rw (e, IsHeader-validate_header (take 9 bs) size header)
        (LoadsTo-load_loop (suc (length (drop 9 bs))) _ st (omega arith) inside all)

  -- The loader ends on every input with a state or with an error of the format, of the input's end or of
  -- the store; it never lacks fuel, neither in its own loop nor in a decompression. It ends with a state
  -- exactly for a file of the format (header and version, records of strings in database 0, deadlines
  -- in range, an end marker, and nothing or eight bytes behind it, with lengths and strings as the
  -- readers of them take them), and the state is that of setting its strings in their order, those
  -- passed over whose deadlines have come.
  pub load_reader-Accepts :
      (store : S) (bs : Bytes)
      → Ends (load_reader put clock store bs)
        × ((st : LoadState S)
            → (load_reader put clock store bs ≡ ok st) ↔ Accepts put clock store bs st)
  load_reader-Accepts store bs =
      (load_reader-Ends put clock store bs, λ st. (accepted store bs st, loaded_of store bs st))
