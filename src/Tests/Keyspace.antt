-- ===== src/Tests/Keyspace.antt =====
-- internal/storage/store.go and internal/storage/list_waiters.go at concrete inputs.
use runedb.Storage.IntSet.{parse_int}
use runedb.Protocol.Number.Parse.{of_digits}
use runedb.Storage.Expiry.{parse_expiry_millis}
use runedb.Storage.ListWaiters.{
  ListWaiters, new_list_waiters, subscribe_push, unsubscribe_push, notify_one,
}
use runedb.Storage.ListWaiters.Order.{
  WaiterCall, subscribing, notifying, unsubscribing, waiter_calls, Waiting, notify_one-oldest,
}
use runedb.Base.{
  ok, ◌==◌, true, false, refl, ℕ, ◌&&◌, ◌≡◌, List, [], ◌∷◌, Bytes, length, if◌then◌else◌,
  equal_bytes,
}
use runedb.Base.Int.{pos, negsuc}
use runedb.Storage.Keyspace.{Store, stored, resident, total_keys, len}
use runedb.Storage.Keyspace.Ops.{slice_of, normalize_list_range}
use runedb.Storage.Keyspace.Effect.{
  setting, incrementing, pushing, popping, Reply, outcome, operate,
}
use runedb.Storage.Keyspace.Simulates.{operate-outcome}
use runedb.Storage.Keyspace.Range.{from_start, to_stop, selected, normalize_list_range-selected}
use runedb.Storage.Keyspace.Stats.{
  History, opened, operating, replacing, store_after, total_keys-len,
}

-- Two clients wait for "q" and one for "r"; the first leaves, a push comes to "r".
abbrev waiting_calls : List WaiterCall
waiting_calls =
    subscribing (b'q' ∷ [])
    ∷ subscribing (b'q' ∷ [])
    ∷ subscribing (b'r' ∷ [])
    ∷ subscribing (b'q' ∷ [])
    ∷ unsubscribing (b'q' ∷ []) 0
    ∷ notifying (b'r' ∷ [])
    ∷ []

notify_one-oldest_example :
    let w : ListWaiters = waiter_calls waiting_calls new_list_waiters in
    (w.signalled 1 ≡ false)
    × ((c : ℕ) → (notify_one (b'q' ∷ []) w).signalled c ≡ (if 1 == c then true else w.signalled c))
    × ((k : Bytes)
        → (notify_one (b'q' ∷ []) w).waiters k
          ≡ (if equal_bytes (b'q' ∷ []) k then 3 ∷ [] else w.waiters k))
    × Waiting (λ c. w.signalled c ≡ false) 2 w.next_channel (3 ∷ [])
unfolding subscribe_push unsubscribe_push notify_one
notify_one-oldest_example = notify_one-oldest waiting_calls (b'q' ∷ []) 1 (3 ∷ []) refl

-- Keys of one length share a shard.
abbrev by_length : Bytes → ℕ
by_length key = length key

-- A list of three under "l", a counter under "n" and a string with a deadline under "s".
abbrev history : History
history = operating (setting (b'x' ∷ []) (pos 20)) (b's' ∷ []) (pos 3) (
    operating incrementing (b'n' ∷ []) (pos 2) (
      operating (pushing false ((b'a' ∷ []) ∷ (b'b' ∷ []) ∷ (b'c' ∷ []) ∷ [])) (b'l' ∷ []) (pos 1)
        opened))

operate-outcome_example :
    let before : Store ℕ = store_after ℕ by_length history in
    let after : Store ℕ × Reply =
      operate by_length (popping true (pos 2)) (b'l' ∷ []) (pos 9) before in
    let expected = outcome (popping true (pos 2)) (pos 9) (stored by_length (b'l' ∷ []) before) in
    ((k : Bytes)
      → stored by_length k after.0
        ≡ (if equal_bytes (b'l' ∷ []) k then expected.0 else stored by_length k before))
    × (after.1 ≡ expected.1)
operate-outcome_example =
    operate-outcome by_length (b'l' ∷ []) (pos 9) (popping true (pos 2))
      (store_after ℕ by_length history)

total_keys-len_example :
    ((i : ℕ)
      → (store_after ℕ by_length (replacing by_length history opened)).key_kind_counts i
        ≡ pos (resident i (store_after ℕ by_length (replacing by_length history opened))))
    × (total_keys (store_after ℕ by_length (replacing by_length history opened))
        ≡ pos (len (store_after ℕ by_length (replacing by_length history opened))))
total_keys-len_example = total_keys-len ℕ by_length (replacing by_length history opened)

abbrev letters : List Bytes
letters = (b'a' ∷ []) ∷ (b'b' ∷ []) ∷ (b'c' ∷ []) ∷ []

-- From the last but one to a position far beyond the end.
normalize_list_range-selected_example :
    slice_of (normalize_list_range (length letters) (negsuc 1) (pos 100)) letters
    ≡ selected
        (λ i. from_start (length letters) (negsuc 1) i && to_stop (length letters) (pos 100) i)
        0
        letters
normalize_list_range-selected_example = normalize_list_range-selected (negsuc 1) (pos 100) letters

last_two :
    slice_of (normalize_list_range (length letters) (negsuc 1) (pos 100)) letters
    ≡ (b'b' ∷ []) ∷ (b'c' ∷ []) ∷ []
unfolding normalize_list_range
last_two = refl

-- EX 10000000000: the product wraps around to a deadline below zero, which is none.
wrapped_deadline :
    parse_expiry_millis
      ((b'E' ∷ b'X' ∷ [])
        ∷ (b'1' ∷ b'0' ∷ b'0' ∷ b'0' ∷ b'0' ∷ b'0' ∷ b'0' ∷ b'0' ∷ b'0' ∷ b'0' ∷ b'0' ∷ [])
        ∷ [])
      0
    ≡ ok (negsuc 8446744073709)
unfolding parse_expiry_millis parse_int of_digits
wrapped_deadline = refl
