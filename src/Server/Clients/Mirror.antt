-- ===== src/Server/Clients/Mirror.antt =====
-- A registry and the key sets of its clients name the same memberships, through each operation.
use runedb.Base.{
  ℕ, ◌==◌, ==_iff, ◌≡◌, inl, inr, Bool, true, false, Bool-cases, List, [], Bytes, arith,
}
use runedb.Server.Topics.{
  Topics, mem_id, mem_key, insert_key, delete_key, members, join, leave, leave_all,
}
use runedb.Server.Client.{ClientState}
use runedb.Server.Clients.{at}
use runedb.Server.Clients.Sets.{
  mem_key-insert_key, mem_key-delete_key, members-join, members-leave, members-leave_all,
}

pub id_refl : (id : ℕ) → (id == id) ≡ true
id_refl id = ground arith

-- What holds of the new state of one client and of the old states of the others holds of all.
pub at_lem :
    (P : ℕ → ClientState → Type 0) (id : ℕ) (s : ClientState) (clients : ℕ → ClientState)
    → P id s
    → ((i : ℕ) → (id == i) ≡ false → P i (clients i))
    → (i : ℕ) → P i (at id s clients i)
at_lem P id s clients here there i = elim (Bool-cases (id == i)) [
  | inl e ↦ let same : id ≡ i = (==_iff id i).0 e in rw e (rw (← same) here)
  | inr e ↦ rw e (there i e)
]

module _ (keys : ClientState → List Bytes) (bound : ClientState → Bool) where
  -- Client `i` is under `key` in the registry when the key is in its own set, and then it has the registry.
  abbrev pub Agrees : Topics → Bytes → ℕ → ClientState → Type 0
  Agrees r key i c =
      (mem_id i (members r key) ≡ mem_key key (keys c))
      × (mem_id i (members r key) ≡ true → bound c ≡ true)

  abbrev pub Linked : Topics → (ℕ → ClientState) → Type 0
  Linked r clients = (i : ℕ) (key : Bytes) → Agrees r key i (clients i)

  module _ (r : Topics) (id : ℕ) (s : ClientState) (clients : ℕ → ClientState)
      (linked : Linked r clients) where
    pub Linked-at :
        keys s ≡ keys (clients id)
        → (¬ (keys (clients id) ≡ []) → bound (clients id) ≡ true → bound s ≡ true)
        → Linked r (at id s clients)
    Linked-at k b =
        at_lem (λ i c. (key : Bytes) → Agrees r key i c) id s clients
          (λ key. rw k (((linked id key).0), (λ h. b (used key h) ((linked id key).1 h))))
          (λ i e. linked i)
      where
        used : (key : Bytes) → mem_id id (members r key) ≡ true → ¬ (keys (clients id) ≡ [])
        used key h e = ground (arith, (linked id key).0)

    pub Linked-join :
        (channel : Bytes)
        → keys s ≡ insert_key channel (keys (clients id))
        → bound s ≡ true
        → Linked (join channel id r) (at id s clients)
    Linked-join channel k b =
        at_lem (λ i c. (key : Bytes) → Agrees (join channel id r) key i c) id s clients
          (λ key. (
            rw
                (
                  k,
                  members-join r channel key id id,
                  mem_key-insert_key key channel (keys (clients id)),
                  (linked id key).0,
                  id_refl id,
                )
                (ground arith),
            (λ h. b),
          ))
          (λ i e key. rw (members-join r channel key id i, e) (ground (arith, linked i key)))

    pub Linked-leave :
        (channel : Bytes)
        → keys s ≡ delete_key channel (keys (clients id))
        → bound s ≡ bound (clients id)
        → Linked (leave channel id r) (at id s clients)
    Linked-leave channel k b =
        at_lem (λ i c. (key : Bytes) → Agrees (leave channel id r) key i c) id s clients
          (λ key. (
            rw
                (
                  k,
                  members-leave r channel key id id,
                  mem_key-delete_key key channel (keys (clients id)),
                  (linked id key).0,
                  id_refl id,
                )
                (ground arith),
            (λ h. rw b ((linked id key).1 (was_there key channel h))),
          ))
          (λ i e key. rw (members-leave r channel key id i, e) (ground (arith, linked i key)))
      where
        was_there :
            (key channel : Bytes)
            → mem_id id (members (leave channel id r) key) ≡ true
            → mem_id id (members r key) ≡ true
        was_there key channel h = ground (arith, members-leave r channel key id id)

    pub Linked-leave_all :
        keys s ≡ []
        → bound s ≡ bound (clients id)
        → Linked (leave_all (keys (clients id)) id r) (at id s clients)
    Linked-leave_all k b =
        at_lem (λ i c. (key : Bytes) → Agrees (leave_all (keys (clients id)) id r) key i c) id s
          clients
          (λ key.
            let gone : mem_id id (members (leave_all (keys (clients id)) id r) key) ≡ false =
              ground (
                arith,
                members-leave_all r (keys (clients id)) key id id,
                id_refl id,
                (linked id key).0,
              ) in
            (rw (k, gone), (λ h. ground arith)))
          (λ i e key.
            rw (members-leave_all r (keys (clients id)) key id i, e) (ground (arith, linked i key)))
