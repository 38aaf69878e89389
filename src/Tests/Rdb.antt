-- ===== src/Tests/Rdb.antt =====
-- internal/rdb at concrete inputs.
use runedb.Base.{◌++◌, ◌↔◌, ℕ, ◌≡◌, refl, Option, some, List, [], ◌∷◌, Bytes, length, ok, arith}
use runedb.Base.Int.{ℤ, pos}
use runedb.Rdb.Lzf.{
  decompress_lzf, lzf_loop, lzf_step, decode_lzf_literal, decode_lzf_match, finish_match,
  copy_match,
}
use runedb.Rdb.Lzf.Format.{Unpacks}
use runedb.Rdb.Lzf.Unpacking.{decompress_lzf-Unpacks}
use runedb.Rdb.Load.{LoadState, load_reader, file_header}
use runedb.Rdb.Restore.{set_now, frozen, saved_value, load_reader-saved_value}
use runedb.Storage.Keyspace.{Store, new_store, stored}
use runedb.Rdb.Load.Format.{Accepts}
use runedb.Rdb.Load.Total.{Ends}
use runedb.Rdb.Load.Accepts.{load_reader-Accepts}
use runedb.Rdb.Snapshot.{StringSnapshotEntry, build_snapshot, sort_entries}
use runedb.Rdb.Snapshot.RoundTrip.{live, replay, load_reader-build_snapshot}
use runedb.Storage.CompactHash.{copy_at}

-- Three literal bytes, then a match of three bytes from two back, which overlaps itself.
abbrev packed : Bytes
packed = 2 ∷ 97 ∷ 98 ∷ 99 ∷ 32 ∷ 1 ∷ []

unpacked : decompress_lzf packed 6 ≡ ok (97 ∷ 98 ∷ 99 ∷ 98 ∷ 99 ∷ 98 ∷ [])
unfolding decompress_lzf lzf_loop lzf_step decode_lzf_literal decode_lzf_match finish_match
    copy_match copy_at
unpacked = refl

decompress_lzf-Unpacks_example : Unpacks 6 packed [] (decompress_lzf packed 6)
decompress_lzf-Unpacks_example = decompress_lzf-Unpacks packed 6

-- A store that logs its writes.
abbrev log_put : List (Bytes × Bytes) → Bytes → Bytes → ℤ → Option (List (Bytes × Bytes))
log_put log key v expires_at = some ((key, v) ∷ log)

abbrev at_noon : ℕ → ℤ
at_noon n = pos 12

-- The header of version 11, the key "k" with "v" and the end marker.
abbrev one_key : Bytes
one_key = file_header ++ 0 ∷ 1 ∷ 107 ∷ 1 ∷ 118 ∷ 255 ∷ []

load_reader-Accepts_example :
    Ends (load_reader log_put at_noon [] one_key)
    × ((st : LoadState (List (Bytes × Bytes)))
        → (load_reader log_put at_noon [] one_key ≡ ok st) ↔ Accepts log_put at_noon [] one_key st)
load_reader-Accepts_example = load_reader-Accepts log_put at_noon [] one_key

-- "b" without a deadline, "a" with a late one and "c" with one that has passed.
abbrev three_entries : List StringSnapshotEntry
three_entries =
    (record { key = 98 ∷ []; content = 1 ∷ []; expires_at = pos 0 })
    ∷ (record { key = 97 ∷ []; content = 2 ∷ []; expires_at = pos 20 })
    ∷ (record { key = 99 ∷ []; content = 3 ∷ []; expires_at = pos 5 })
    ∷ []

load_reader-build_snapshot_example :
    load_reader log_put at_noon [] (build_snapshot (pos 10) three_entries).0
    ≡ replay log_put at_noon
        (live (pos 10) (sort_entries three_entries))
        (record { store = []; loaded = 0; skipped = 0 })
load_reader-build_snapshot_example =
    load_reader-build_snapshot log_put at_noon (pos 10) three_entries [] (
      (omega arith, omega arith, omega arith),
      ((omega arith, omega arith, omega arith), ((omega arith, omega arith, omega arith), tt)),
    )

abbrev by_length : Bytes → ℕ
by_length key = length key

load_reader-saved_value_example :
    (st : LoadState (Store ℕ)) × (load_reader
        (set_now by_length (pos 10) (pos 12))
        (frozen (pos 12))
        new_store
        (build_snapshot (pos 10) three_entries).0
      ≡ ok st)
    × ((k : Bytes) → stored by_length k st.store ≡ saved_value (pos 10) (pos 12) k three_entries)
load_reader-saved_value_example =
    load_reader-saved_value by_length (pos 10) (pos 12) three_entries
      (
        (omega arith, omega arith, omega arith),
        ((omega arith, omega arith, omega arith), ((omega arith, omega arith, omega arith), tt)),
      )
      ((refl, (refl, tt)), ((refl, tt), (tt, tt)))
