-- ===== src/Server/Clients/Monitors.antt =====
-- The MONITOR registry: who is in it, and its counter.
use runedb.Base.{
  ℕ, suc, ◌+◌, ◌-◌, ◌==◌, ==_iff, ◌≡◌, refl, sym, ◌∙◌, inl, inr, true, false, Bool-cases, List, [],
  ◌∷◌, length, if◌then◌else◌, arith,
}
use runedb.Server.Topics.{mem_id, insert_id, delete_id}
use runedb.Server.Client.{ClientState}
use runedb.Server.Clients.{at}
use runedb.Server.Clients.Sets.{mem_id-insert_id, mem_id-delete_id}
use runedb.Server.Clients.Mirror.{at_lem}

abbrev pub Unique : List ℕ → Type 0
Unique [] = Unit
Unique (x ∷ xs) = (mem_id x xs ≡ false) × Unique xs

pub insert_id-Unique : (id : ℕ) (ids : List ℕ) → Unique ids → Unique (insert_id id ids)
insert_id-Unique id ids u = elim (Bool-cases (mem_id id ids)) [
  | inl h ↦ rw h u
  | inr h ↦ rw h (h, u)
]

pub delete_id-Unique : (id : ℕ) (ids : List ℕ) → Unique ids → Unique (delete_id id ids)
delete_id-Unique id [] u = u
delete_id-Unique id (x ∷ xs) u = elim (Bool-cases (x == id)) [
  | inl e ↦ rw e (delete_id-Unique id xs u.1)
  | inr e ↦ rw e (rw (mem_id-delete_id x id xs, u.0) (ground arith), delete_id-Unique id xs u.1)
]

delete_id_absent : (id : ℕ) (ids : List ℕ) → mem_id id ids ≡ false → delete_id id ids ≡ ids
delete_id_absent id [] h = refl
delete_id_absent id (x ∷ xs) h = ground (arith, delete_id_absent id xs)

pub length-insert_id :
    (id : ℕ) (ids : List ℕ)
    → length (insert_id id ids) ≡ (if mem_id id ids then length ids else length ids + 1)
length-insert_id id ids = elim (Bool-cases (mem_id id ids)) [
  | inl h ↦ rw h
  | inr h ↦ rw h (omega arith)
]

pub length-delete_id :
    (id : ℕ) (ids : List ℕ)
    → Unique ids
    → length (delete_id id ids) ≡ (if mem_id id ids then length ids - 1 else length ids)
length-delete_id id [] u = refl
length-delete_id id (x ∷ xs) u = elim (Bool-cases (x == id)) [
  | inl e ↦
      let same : x ≡ id = (==_iff x id).0 e in
      let absent : mem_id id xs ≡ false = rw (← same) u.0 in
      rw (e, delete_id_absent id xs absent) (omega arith)
  | inr e ↦ elim (Bool-cases (mem_id id xs)) [
    | inl h ↦ rw (e, length-delete_id id xs u.1, h) (present xs h)
    | inr h ↦ rw (e, length-delete_id id xs u.1, h)
  ]
]
  where
    present : (ys : List ℕ) → mem_id id ys ≡ true → suc (length ys - 1) ≡ suc (length ys) - 1
    present [] h = ground arith
    present (y ∷ ys) h = omega arith

-- The registry lists the monitoring clients, once each, and each of them has the registry.
abbrev pub Monitored : List ℕ → ℕ → (ℕ → ClientState) → Type 0
Monitored ids count clients =
    ((i : ℕ)
      → (mem_id i ids ≡ (clients i).monitoring)
        × (mem_id i ids ≡ true → (clients i).has_monitor_registry ≡ true))
    × Unique ids
    × (count ≡ length ids)

module _ (ids : List ℕ) (count id : ℕ) (s : ClientState) (clients : ℕ → ClientState)
    (m : Monitored ids count clients) where
  pub Monitored-at :
      s.monitoring ≡ (clients id).monitoring
      → ((clients id).monitoring ≡ true
          → (clients id).has_monitor_registry ≡ true
          → s.has_monitor_registry ≡ true)
      → Monitored ids count (at id s clients)
  Monitored-at k b = (
    at_lem
        (λ i c.
          (mem_id i ids ≡ c.monitoring) × (mem_id i ids ≡ true → c.has_monitor_registry ≡ true))
        id s clients (rw k ((m.0 id).0), (λ h. b (sym (m.0 id).0 ∙ h) ((m.0 id).1 h)))
        (λ i e. m.0 i),
    m.1,
    m.2,
  )

  pub Monitored-insert_id :
      s.monitoring ≡ true
      → s.has_monitor_registry ≡ true
      → Monitored (insert_id id ids) (if mem_id id ids then count else count + 1) (at id s clients)
  Monitored-insert_id k b = (
    at_lem
        (λ i c.
          (mem_id i (insert_id id ids) ≡ c.monitoring)
          × (mem_id i (insert_id id ids) ≡ true → c.has_monitor_registry ≡ true))
        id s clients (rw (k, mem_id-insert_id id id ids) (ground arith), (λ h. b))
        (λ i e. rw (mem_id-insert_id i id ids, e) (m.0 i)),
    insert_id-Unique id ids m.1,
    rw (length-insert_id id ids, m.2),
  )

  pub Monitored-delete_id :
      s.monitoring ≡ false
      → Monitored (delete_id id ids) (if mem_id id ids then count - 1 else count) (at id s clients)
  Monitored-delete_id k = (
    at_lem
        (λ i c.
          (mem_id i (delete_id id ids) ≡ c.monitoring)
          × (mem_id i (delete_id id ids) ≡ true → c.has_monitor_registry ≡ true))
        id s clients
        (let gone : mem_id id (delete_id id ids) ≡ false =
            ground (arith, mem_id-delete_id id id ids) in
          (rw (k, gone), (λ h. ground arith)))
        (λ i e. rw (mem_id-delete_id i id ids, e) (m.0 i)),
    delete_id-Unique id ids m.1,
    rw (length-delete_id id ids m.1, m.2),
  )
