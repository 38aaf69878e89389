-- ===== src/Server/Slowlog.antt =====
-- The slow log of slowlog.go: a ring of entries. `Record` takes its identifier from an atomic counter
-- before it waits for the mutex, so a call is two steps, and other calls may run between them. Times,
-- durations and addresses are an abstract payload.
pub mod Slots
pub mod Runs
pub mod Ring
pub mod History
use Prim.Native.Nat.{◌^◌}
use runedb.Base.{
  ℕ, zero, suc, ◌+◌, ◌-◌, ◌%◌, Bool, ◌&&◌, Option, none, some, List, [], ◌∷◌, ltb, leb, ◌==◌,
  if◌then◌else◌, length, get_or, set, replicate,
}
use runedb.Base.Int.{ℤ, pos, negsuc, wrapped_int64}

-- `payload` stands for the timestamp, the duration, the command and the client of an entry.
pub record SlowlogEntry {ℓ} (P : Type ℓ) : Type ℓ where
  pub id : ℤ
  pub payload : P

-- `next_id` is the 64-bit word of the counter.
pub record SlowlogRegistry {ℓ} (P : Type ℓ) : Type ℓ where
  pub entries : List (SlowlogEntry P)
  pub start : ℕ
  pub count : ℕ
  pub next_id : ℕ

abbrev pub default_slowlog_capacity : ℕ
default_slowlog_capacity = 128

module _ {ℓ} {P : Type ℓ} (empty : SlowlogEntry P) where
  -- `NewSlowlogRegistry` with a capacity; `empty` is the zero value of an entry.
  unfoldable pub make_registry : ℕ → SlowlogRegistry P
  make_registry capacity = record {
    entries = replicate capacity empty;
    start = 0;
    count = 0;
    next_id = 0;
  }

  unfoldable pub new_slowlog_registry : SlowlogRegistry P
  unfolding make_registry
  new_slowlog_registry = make_registry default_slowlog_capacity

  clear : List (SlowlogEntry P) → List (SlowlogEntry P)
  clear [] = []
  clear (e ∷ es) = empty ∷ clear es

  -- `Reset`
  unfoldable pub reset : SlowlogRegistry P → SlowlogRegistry P
  unfolding clear
  reset r = record r { entries = clear r.entries; start = 0; count = 0 }

  -- The loop of `Entries`: entry `i` from the newest, `left` rounds to go.
  entries_loop : SlowlogRegistry P → ℕ → ℕ → List (SlowlogEntry P)
  entries_loop r i zero = []
  entries_loop r i (suc left) =
      let n = length r.entries in
      let idx = (r.start + r.count - 1 - i + n) % n in
      get_or r.entries idx empty ∷ entries_loop r (i + 1) left

  -- `Entries`; a negative limit is no limit.
  unfoldable pub entries_of : SlowlogRegistry P → ℤ → List (SlowlogEntry P)
  unfolding entries_loop
  entries_of r (negsuc k) = entries_loop r 0 r.count
  entries_of r (pos limit) = entries_loop r 0 (if ltb limit r.count then limit else r.count)

module _ {ℓ} {P : Type ℓ} where
  -- `r.nextID.Add(1) - 1`, an int64
  unfoldable pub take_id : SlowlogRegistry P → SlowlogRegistry P × ℤ
  take_id r =
      let word = (r.next_id + 1) % 2 ^ 64 in
      (record r { next_id = word }, wrapped_int64 (word + 2 ^ 64 - 1))

  -- `Record` up to its lock: the entry it goes on with, unless the log has no room at all.
  unfoldable pub reserve : SlowlogRegistry P → P → SlowlogRegistry P × Option (SlowlogEntry P)
  unfolding take_id
  reserve r p =
      if length r.entries == 0
      then (r, none)
      else ((take_id r).0, some (record { id = (take_id r).1; payload = p }))

  -- `Record` under its lock.
  unfoldable pub insert_locked : SlowlogRegistry P → SlowlogEntry P → SlowlogRegistry P
  insert_locked r entry =
      let n = length r.entries in
      if r.count == n
      then record r { entries = set r.entries r.start entry; start = (r.start + 1) % n }
      else record r { entries = set r.entries ((r.start + r.count) % n) entry; count = r.count + 1 }

  insert_reserved : SlowlogRegistry P × Option (SlowlogEntry P) → SlowlogRegistry P
  insert_reserved (r, none) = r
  insert_reserved (r, some entry) = insert_locked r entry

  -- `Record`, on an entry with the payload `p`, when no other call runs meanwhile.
  unfoldable pub record_entry : SlowlogRegistry P → P → SlowlogRegistry P
  unfolding reserve insert_reserved insert_locked
  record_entry r p = insert_reserved (reserve r p)

  -- `Len`
  unfoldable pub len : SlowlogRegistry P → ℕ
  len r = r.count
