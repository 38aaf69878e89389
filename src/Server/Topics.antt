-- ===== src/Server/Topics.antt =====
-- The shape that watch_registry.go and pubsub_registry.go share: `map[string]map[uint64]*ClientState`,
-- with the inner map deleted when its last client leaves. A client is named by its ID.
use runedb.Base.{
  ℕ, ◌==◌, Bool, false, ◌||◌, Option, none, some, List, [], ◌∷◌, Bytes, if◌then◌else◌, equal_bytes,
  is_empty,
}

-- The keys of a `map[uint64]*ClientState`.
abbrev pub mem_id : ℕ → List ℕ → Bool
mem_id i [] = false
mem_id i (id ∷ ids) = (id == i) || mem_id i ids

abbrev pub insert_id : ℕ → List ℕ → List ℕ
insert_id id ids = if mem_id id ids then ids else id ∷ ids

abbrev pub delete_id : ℕ → List ℕ → List ℕ
delete_id id [] = []
delete_id id (x ∷ xs) = if x == id then delete_id id xs else x ∷ delete_id id xs

-- The keys of a `map[string]struct{}`.
abbrev pub mem_key : Bytes → List Bytes → Bool
mem_key key [] = false
mem_key key (k ∷ ks) = equal_bytes k key || mem_key key ks

abbrev pub insert_key : Bytes → List Bytes → List Bytes
insert_key key ks = if mem_key key ks then ks else key ∷ ks

abbrev pub delete_key : Bytes → List Bytes → List Bytes
delete_key key [] = []
delete_key key (k ∷ ks) = if equal_bytes k key then delete_key key ks else k ∷ delete_key key ks

-- A registry: the clients of a key, `none` where the map has no entry.
abbrev pub Topics : Type 0
Topics = Bytes → Option (List ℕ)

abbrev pub no_topics : Topics
no_topics key = none

-- r[key], with nil for a missing entry
abbrev pub ids_of : Option (List ℕ) → List ℕ
ids_of none = []
ids_of (some ids) = ids

abbrev pub members : Topics → Bytes → List ℕ
members r key = ids_of (r key)

abbrev pub put : Bytes → Option (List ℕ) → Topics → Topics
put key ids r k = if equal_bytes key k then ids else r k

unfoldable pub join : Bytes → ℕ → Topics → Topics
join key id r = put key (some (insert_id id (members r key))) r

-- What an inner map becomes when a client leaves it.
abbrev pub without : ℕ → Option (List ℕ) → Option (List ℕ)
without id none = none
without id (some ids) = if is_empty (delete_id id ids) then none else some (delete_id id ids)

unfoldable pub leave : Bytes → ℕ → Topics → Topics
leave key id r = put key (without id (r key)) r

abbrev pub leave_all : List Bytes → ℕ → Topics → Topics
leave_all [] id r = r
leave_all (key ∷ keys) id r = leave_all keys id (leave key id r)
