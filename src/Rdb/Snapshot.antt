-- ===== src/Rdb/Snapshot.antt =====
-- The snapshot writer of internal/rdb/snapshot.go. `sort.Slice` by key is an insertion sort here; the
-- keys of a store are different, so there is only one order.
pub mod Strings
pub mod RoundTrip
use runedb.Base.{
  ℕ, zero, suc, ◌+◌, ◌*◌, ◌/◌, ◌%◌, ◌^◌, ◌==◌, Bool, true, false, not, ◌&&◌, List, [], ◌∷◌, ◌++◌,
  Bytes, ltb, if◌then◌else◌, length,
}
use runedb.Base.Int.{ℤ, pos, pos_part, ltb_ℤ}
use runedb.Rdb.Load.{file_header, opcode_select_db, opcode_eof, opcode_expire_time_ms}

-- `StringSnapshotEntry`
pub record StringSnapshotEntry : Type 0 where
  pub key : Bytes
  pub content : Bytes
  pub expires_at : ℤ

pub record SnapshotStats : Type 0 where
  pub written_keys : ℕ
  pub skipped_expired_keys : ℕ

abbrev pub zeros : Bytes
zeros = 0 ∷ 0 ∷ 0 ∷ 0 ∷ 0 ∷ 0 ∷ 0 ∷ 0 ∷ []

abbrev pub empty_snapshot : Bytes
empty_snapshot = file_header ++ opcode_eof ∷ zeros

-- The order of Go's strings.
abbrev pub less : Bytes → Bytes → Bool
less [] [] = false
less [] (y ∷ ys) = true
less (x ∷ xs) [] = false
less (x ∷ xs) (y ∷ ys) = if x == y then less xs ys else ltb x y

abbrev pub insert_entry : StringSnapshotEntry → List StringSnapshotEntry → List StringSnapshotEntry
insert_entry e [] = e ∷ []
insert_entry e (f ∷ fs) = if less f.key e.key then f ∷ insert_entry e fs else e ∷ f ∷ fs

abbrev pub sort_entries : List StringSnapshotEntry → List StringSnapshotEntry
sort_entries [] = []
sort_entries (e ∷ es) = insert_entry e (sort_entries es)

unfoldable pub append_length : Bytes → ℕ → Bytes
append_length dst n =
    if ltb n (2 ^ 6)
    then dst ++ n ∷ []
    else if ltb n (2 ^ 14)
    then dst ++ (n / 256 % 64 + 64) ∷ n % 256 ∷ []
    else dst ++ 128 ∷ n / 2 ^ 24 % 256 ∷ n / 2 ^ 16 % 256 ∷ n / 2 ^ 8 % 256 ∷ n % 256 ∷ []

unfoldable pub append_string : Bytes → Bytes → Bytes
unfolding append_length
append_string dst v = append_length dst (length v) ++ v

-- binary.LittleEndian, in so many bytes
abbrev pub le_bytes : ℕ → ℕ → Bytes
le_bytes zero n = []
le_bytes (suc width) n = n % 256 ∷ le_bytes width (n / 256)

-- The bytes of one live entry; a deadline is written where there is one.
unfoldable pub append_entry_bytes : Bytes → StringSnapshotEntry → Bytes
unfolding append_string
append_entry_bytes payload e =
    let with_deadline =
      if ltb_ℤ (pos 0) e.expires_at
      then payload ++ opcode_expire_time_ms ∷ le_bytes 8 (pos_part e.expires_at)
      else payload in
    append_string (append_string (with_deadline ++ 0 ∷ []) e.key) e.content

abbrev pub is_dead : ℤ → StringSnapshotEntry → Bool
is_dead now e = ltb_ℤ (pos 0) e.expires_at && not (ltb_ℤ now e.expires_at)

unfoldable pub write_entries :
    ℤ → Bytes → SnapshotStats → List StringSnapshotEntry → Bytes × SnapshotStats
unfolding append_entry_bytes
write_entries now payload stats [] = (payload, stats)
write_entries now payload stats (e ∷ es) =
    if is_dead now e
    then write_entries now payload
        (record stats { skipped_expired_keys = stats.skipped_expired_keys + 1 }) es
    else write_entries now (append_entry_bytes payload e)
        (record stats { written_keys = stats.written_keys + 1 }) es

unfoldable pub build_snapshot : ℤ → List StringSnapshotEntry → Bytes × SnapshotStats
unfolding write_entries append_length
build_snapshot now [] = (empty_snapshot, record { written_keys = 0; skipped_expired_keys = 0 })
build_snapshot now (e ∷ es) =
    let (payload, stats) =
      write_entries now (append_length (file_header ++ opcode_select_db ∷ []) 0)
        (record { written_keys = 0; skipped_expired_keys = 0 }) (sort_entries (e ∷ es)) in
    (payload ++ opcode_eof ∷ zeros, stats)
