-- ===== src/Storage/ListWaiters/Order.antt =====
-- A push wakes the client that has waited longest.
use runedb.Base.{
  ℕ, suc, ◌<◌, ◌≤◌, ◌==◌, ◌≡◌, refl, sym, ap, ◌∙◌, inl, inr, Bool, true, false, Bool-cases, List,
  [], ◌∷◌, ◌++◌, Bytes, if◌then◌else◌, equal_bytes, equal_bytes_refl, equal_bytes_iff, ==_iff,
  arith,
}
use runedb.Storage.ListWaiters.{
  ListWaiters, new_list_waiters, subscribe_push, without, unsubscribe_push, notify_front,
  notify_one,
}

pub data WaiterCall : Type 0 where
  subscribing notifying : Bytes → WaiterCall
  unsubscribing : Bytes → ℕ → WaiterCall

abbrev pub waiter_call : WaiterCall → ListWaiters → ListWaiters
waiter_call (subscribing key) w = (subscribe_push key w).0
waiter_call (notifying key) w = notify_one key w
waiter_call (unsubscribing key ch) w = unsubscribe_push key ch w

abbrev pub waiter_calls : List WaiterCall → ListWaiters → ListWaiters
waiter_calls [] w = w
waiter_calls (c ∷ cs) w = waiter_calls cs (waiter_call c w)

-- Channels in ascending order, from `low` to below `high`, each of which is `fine`.
abbrev pub Waiting : (ℕ → Type 0) → ℕ → ℕ → List ℕ → Type 0
Waiting fine low high [] = Unit
Waiting fine low high (c ∷ cs) = (low ≤ c) × (c < high) × fine c × Waiting fine (suc c) high cs

-- A channel was not signalled and was handed out for the key.
abbrev Due : (ℕ → Bool) → (ℕ → Bytes) → Bytes → ℕ → Type 0
Due signalled owner key c = (signalled c ≡ false) × (owner c ≡ key)

-- Channels that were not handed out yet were not signalled, and every queue waits in order.
abbrev IsOrdered : ListWaiters → Type 0
IsOrdered w =
    (owner : ℕ → Bytes) × ((c : ℕ) → w.next_channel ≤ c → w.signalled c ≡ false)
    × ((key : Bytes) → Waiting (Due w.signalled owner key) 0 w.next_channel (w.waiters key))

Waiting-map :
    (fine fine' : ℕ → Type 0) (low high : ℕ) (cs : List ℕ)
    → ((d : ℕ) → low ≤ d → d < high → fine d → fine' d)
    → Waiting fine low high cs
    → Waiting fine' low high cs
Waiting-map fine fine' low high [] h w = tt
Waiting-map fine fine' low high (c ∷ cs) h (a, b, f, rest) = (
  a,
  b,
  h c a b f,
  Waiting-map fine fine' (suc c) high cs (λ d l. h d (omega (arith, l, a))) rest,
)

Waiting-wider :
    (fine : ℕ → Type 0) (low low' high high' : ℕ) (cs : List ℕ)
    → low' ≤ low
    → high ≤ high'
    → Waiting fine low high cs
    → Waiting fine low' high' cs
Waiting-wider fine low low' high high' [] l h w = tt
Waiting-wider fine low low' high high' (c ∷ cs) l h (a, b, f, rest) = (
  omega (arith, a, l),
  omega (arith, b, h),
  f,
  Waiting-wider fine (suc c) (suc c) high high' cs (omega arith) h rest,
)

Waiting-append :
    (fine : ℕ → Type 0) (low high : ℕ) (cs : List ℕ)
    → low ≤ high
    → fine high
    → Waiting fine low high cs
    → Waiting fine low (suc high) (cs ++ high ∷ [])
Waiting-append fine low high [] l f w = (l, omega arith, f, tt)
Waiting-append fine low high (c ∷ cs) l f (a, b, g, rest) =
    (a, omega (arith, b), g, Waiting-append fine (suc c) high cs (omega (arith, b)) f rest)

Waiting-without :
    (fine : ℕ → Type 0) (low high ch : ℕ) (cs : List ℕ)
    → Waiting fine low high cs
    → Waiting fine low high (without ch cs)
Waiting-without fine low high ch [] w = tt
Waiting-without fine low high ch (c ∷ cs) (a, b, f, rest) = elim (Bool-cases (c == ch)) [
  | inl same ↦
      rw same (Waiting-wider fine (suc c) low high high cs (omega (arith, a)) (omega arith) rest)
  | inr other ↦ rw other (a, b, f, Waiting-without fine (suc c) high ch cs rest)
]

Waiting-same :
    (fine : ℕ → Type 0) (low high : ℕ) {cs ds : List ℕ}
    → cs ≡ ds
    → Waiting fine low high cs
    → Waiting fine low high ds
Waiting-same fine low high e w = rw (← e) w

new-IsOrdered : IsOrdered new_list_waiters
new-IsOrdered = ((λ c. []), (λ c h. refl), (λ key. tt))

-- A property of the queues, of which one is written.
with_queue-All :
    (P : Bytes → List ℕ → Type 0) (key : Bytes) (queue : List ℕ) (waiters : Bytes → List ℕ)
    → P key queue
    → ((k : Bytes) → equal_bytes key k ≡ false → P k (waiters k))
    → (k : Bytes) → P k (if equal_bytes key k then queue else waiters k)
with_queue-All P key queue waiters here there k = elim (Bool-cases (equal_bytes key k)) [
  | inl same ↦ rw (same, ← (equal_bytes_iff key k).0 same) here
  | inr other ↦ rw other (there k other)
]

subscribe-IsOrdered :
    (key : Bytes) (w : ListWaiters) → IsOrdered w → IsOrdered (subscribe_push key w).0
unfolding subscribe_push
subscribe-IsOrdered key w (owner, unused, queues) = (
  owner',
  (λ c h. unused c (omega (arith, h))),
  with_queue-All (λ k queue. Waiting (Due w.signalled owner' k) 0 (suc w.next_channel) queue) key
      (w.waiters key ++ w.next_channel ∷ []) w.waiters
      (Waiting-append (Due w.signalled owner' key) 0 w.next_channel (w.waiters key) (omega arith)
        (unused w.next_channel (omega arith), own) (kept key))
      (λ k other.
        Waiting-wider (Due w.signalled owner' k) 0 0 w.next_channel (suc w.next_channel)
          (w.waiters k) (omega arith) (omega arith) (kept k)),
)
  where
    owner' : ℕ → Bytes
    owner' d = if d == w.next_channel then key else owner d

    own : owner' w.next_channel ≡ key
    own = let same : (w.next_channel == w.next_channel) ≡ true = ground arith in rw same

    kept : (k : Bytes) → Waiting (Due w.signalled owner' k) 0 w.next_channel (w.waiters k)
    kept k =
        Waiting-map (Due w.signalled owner k) (Due w.signalled owner' k) 0 w.next_channel
          (w.waiters k)
          (λ d l h (a, b).
            (a, (let old : (d == w.next_channel) ≡ false = ground (arith, h) in rw old b)))
          (queues k)

unsubscribe-IsOrdered :
    (key : Bytes) (ch : ℕ) (w : ListWaiters) → IsOrdered w → IsOrdered (unsubscribe_push key ch w)
unfolding unsubscribe_push
unsubscribe-IsOrdered key ch w (owner, unused, queues) = (
  owner,
  unused,
  with_queue-All (λ k queue. Waiting (Due w.signalled owner k) 0 w.next_channel queue) key
      (without ch (w.waiters key)) w.waiters
      (Waiting-without (Due w.signalled owner key) 0 w.next_channel ch (w.waiters key) (queues key))
      (λ k other. queues k),
)

clash : true ≡ false → ⊥
clash h = cc

front-IsOrdered :
    (queue : List ℕ) (key : Bytes) (w : ListWaiters)
    → w.waiters key ≡ queue
    → IsOrdered w
    → IsOrdered (notify_front queue key w)
front-IsOrdered [] key w e ordered = ordered
front-IsOrdered (ch ∷ queue) key w e (owner, unused, queues) = (
  owner,
  (λ c h. silent c (omega (arith, h, first.1)) (unused c h)),
  with_queue-All (λ k q. Waiting (Due after owner k) 0 w.next_channel q) key queue w.waiters
      (Waiting-wider (Due after owner key) (suc ch) 0 w.next_channel w.next_channel queue
        (omega arith) (omega arith)
        (Waiting-map (Due w.signalled owner key) (Due after owner key) (suc ch) w.next_channel queue
          (λ d l h (a, b). (silent d l a, b)) first.3))
      (λ k other.
        Waiting-map (Due w.signalled owner k) (Due after owner k) 0 w.next_channel (w.waiters k)
          (λ d l h (a, b). (elsewhere k other d b a, b)) (queues k)),
)
  where
    after : ℕ → Bool
    after c = if ch == c then true else w.signalled c

    first : Waiting (Due w.signalled owner key) 0 w.next_channel (ch ∷ queue)
    first = Waiting-same (Due w.signalled owner key) 0 w.next_channel e (queues key)

    silent : (c : ℕ) → ch < c → w.signalled c ≡ false → after c ≡ false
    silent c l h = let apart : (ch == c) ≡ false = ground (arith, l) in rw apart h

    elsewhere :
        (k : Bytes)
        → equal_bytes key k ≡ false
        → (d : ℕ) → owner d ≡ k
        → w.signalled d ≡ false
        → after d ≡ false
    elsewhere k other d o h = elim (Bool-cases (ch == d)) [
      | inl same ↦ absurd (
          clash (
            sym (equal_bytes_refl key)
            ∙ ap (equal_bytes key) (sym first.2.1 ∙ ap owner ((==_iff ch d).0 same) ∙ o)
            ∙ other))
      | inr apart ↦ rw apart h
    ]

waiter_calls-IsOrdered :
    (calls : List WaiterCall) (w : ListWaiters) → IsOrdered w → IsOrdered (waiter_calls calls w)
unfolding notify_one
waiter_calls-IsOrdered [] w o = o
waiter_calls-IsOrdered (subscribing key ∷ cs) w o =
    waiter_calls-IsOrdered cs (subscribe_push key w).0 (subscribe-IsOrdered key w o)
waiter_calls-IsOrdered (notifying key ∷ cs) w o =
    waiter_calls-IsOrdered cs (notify_one key w) (front-IsOrdered (w.waiters key) key w refl o)
waiter_calls-IsOrdered (unsubscribing key ch ∷ cs) w o =
    waiter_calls-IsOrdered cs (unsubscribe_push key ch w) (unsubscribe-IsOrdered key ch w o)

-- After any calls on new waiters, a notification of a key with waiting channels signals the first, which
-- was not signalled before, and no other; the rest of its queue keeps waiting, in the order of their
-- subscription, which was after the first's, and unsignalled; no other queue changes.
pub notify_one-oldest :
    (calls : List WaiterCall) (key : Bytes) (ch : ℕ) (queue : List ℕ)
    → (waiter_calls calls new_list_waiters).waiters key ≡ ch ∷ queue
    → let w : ListWaiters = waiter_calls calls new_list_waiters in
      (w.signalled ch ≡ false)
      × ((c : ℕ) → (notify_one key w).signalled c ≡ (if ch == c then true else w.signalled c))
      × ((k : Bytes)
          → (notify_one key w).waiters k ≡ (if equal_bytes key k then queue else w.waiters k))
      × Waiting (λ c. w.signalled c ≡ false) (suc ch) w.next_channel queue
unfolding notify_one
notify_one-oldest calls key ch queue e =
    let w : ListWaiters = waiter_calls calls new_list_waiters in
    let (owner, unused, queues) = waiter_calls-IsOrdered calls new_list_waiters new-IsOrdered in
    let first : Waiting (Due w.signalled owner key) 0 w.next_channel (ch ∷ queue) =
      Waiting-same (Due w.signalled owner key) 0 w.next_channel e (queues key) in
    (
      first.2.0,
      (λ c. ap (λ q. (notify_front q key w).signalled c) e),
      (λ k. ap (λ q. (notify_front q key w).waiters k) e),
      Waiting-map (Due w.signalled owner key) (λ c. w.signalled c ≡ false) (suc ch) w.next_channel
          queue (λ d l h (a, b). a) first.3,
    )
