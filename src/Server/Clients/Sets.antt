-- ===== src/Server/Clients/Sets.antt =====
-- Membership after each of the operations on sets of clients and of keys.
use runedb.Base.{
  ℕ, ◌==◌, ==_iff, ◌≡◌, refl, inl, inr, Bool, true, not, ◌||◌, ◌&&◌, Bool-cases, Option, none, some,
  List, [], ◌∷◌, Bytes, if◌then◌else◌, equal_bytes, equal_bytes_iff, equal_bytes_sym, is_empty,
  arith,
}
use runedb.Server.Topics.{
  Topics, mem_id, insert_id, delete_id, mem_key, insert_key, delete_key, ids_of, members, join,
  without, leave, leave_all,
}

or_same : (a b : Bool) → b ≡ true → b ≡ (a || b)
or_same a b h = ground arith

pub mem_id-insert_id :
    (i id : ℕ) (ids : List ℕ) → mem_id i (insert_id id ids) ≡ ((id == i) || mem_id i ids)
mem_id-insert_id i id ids = elim (Bool-cases (mem_id id ids)) [
  | inl h ↦ elim (Bool-cases (id == i)) [
    | inl e ↦ let same : id ≡ i = (==_iff id i).0 e in rw (h, e) (rw (← same) h)
    | inr e ↦ rw (h, e)
  ]
  | inr h ↦ rw h
]

pub mem_id-delete_id :
    (i id : ℕ) (ids : List ℕ) → mem_id i (delete_id id ids) ≡ (not (id == i) && mem_id i ids)
mem_id-delete_id i id [] = ground arith
mem_id-delete_id i id (x ∷ xs) = ground (arith, mem_id-delete_id i id xs)

equal_bytes_cong :
    (k key other : Bytes) → equal_bytes k key ≡ true → equal_bytes k other ≡ equal_bytes key other
equal_bytes_cong k key other e = rw ((equal_bytes_iff k key).0 e)

mem_key_cong :
    (a b : Bytes) (ks : List Bytes) → equal_bytes a b ≡ true → mem_key a ks ≡ mem_key b ks
mem_key_cong a b ks e = rw ((equal_bytes_iff a b).0 e)

pub mem_key-insert_key :
    (key k : Bytes) (ks : List Bytes)
    → mem_key key (insert_key k ks) ≡ (equal_bytes k key || mem_key key ks)
mem_key-insert_key key k ks = elim (Bool-cases (mem_key k ks)) [
  | inl h ↦ elim (Bool-cases (equal_bytes k key)) [
    | inl e ↦ rw (h, e) (rw (← mem_key_cong k key ks e) h)
    | inr e ↦ rw (h, e)
  ]
  | inr h ↦ rw h
]

pub mem_key-delete_key :
    (key k : Bytes) (ks : List Bytes)
    → mem_key key (delete_key k ks) ≡ (not (equal_bytes k key) && mem_key key ks)
mem_key-delete_key key k [] = ground arith
mem_key-delete_key key k (x ∷ xs) = elim (Bool-cases (equal_bytes x k)) [
  | inl e ↦ rw (e, equal_bytes_cong x k key e, mem_key-delete_key key k xs) (ground arith)
  | inr e ↦ elim (Bool-cases (equal_bytes x key)) [
    | inl f ↦ rw (e, f, equal_bytes_sym k key, ← equal_bytes_cong x key k f, e)
    | inr f ↦ rw (e, f, mem_key-delete_key key k xs)
  ]
]

pub members-join :
    (r : Topics) (channel key : Bytes) (id i : ℕ)
    → mem_id i (members (join channel id r) key)
      ≡ ((equal_bytes channel key && (id == i)) || mem_id i (members r key))
unfolding join
members-join r channel key id i = elim (Bool-cases (equal_bytes channel key)) [
  | inl e ↦ rw (e, mem_id-insert_id i id (members r channel), (equal_bytes_iff channel key).0 e)
  | inr e ↦ rw e
]

mem_id-without :
    (i id : ℕ) (ids : Option (List ℕ))
    → mem_id i (ids_of (without id ids)) ≡ (not (id == i) && mem_id i (ids_of ids))
mem_id-without i id none = ground arith
mem_id-without i id (some ids) = rw (← mem_id-delete_id i id ids) (kept (delete_id id ids))
  where
    kept : (xs : List ℕ) → mem_id i (ids_of (if is_empty xs then none else some xs)) ≡ mem_id i xs
    kept [] = refl
    kept (x ∷ xs) = refl

pub members-leave :
    (r : Topics) (channel key : Bytes) (id i : ℕ)
    → mem_id i (members (leave channel id r) key)
      ≡ (not (equal_bytes channel key && (id == i)) && mem_id i (members r key))
unfolding leave
members-leave r channel key id i = elim (Bool-cases (equal_bytes channel key)) [
  | inl e ↦ rw (e, mem_id-without i id (r channel), (equal_bytes_iff channel key).0 e)
  | inr e ↦ rw e
]

pub members-leave_all :
    (r : Topics) (channels : List Bytes) (key : Bytes) (id i : ℕ)
    → mem_id i (members (leave_all channels id r) key)
      ≡ (not (mem_key key channels && (id == i)) && mem_id i (members r key))
members-leave_all r [] key id i = refl
members-leave_all r (channel ∷ channels) key id i =
    rw (members-leave_all (leave channel id r) channels key id i, members-leave r channel key id i)
      (ground arith)
