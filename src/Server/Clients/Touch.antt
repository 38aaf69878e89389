-- ===== src/Server/Clients/Touch.antt =====
-- Which clients a change of watched keys reaches.
use runedb.Base.{
  ℕ, ◌==◌, ◌≡◌, refl, ◌∙◌, inl, inr, Bool, true, false, ◌||◌, Bool-cases, List, [], ◌∷◌, Bytes,
  if◌then◌else◌, equal_bytes, equal_bytes_refl, equal_bytes_iff, is_empty, arith,
}
use runedb.Server.Topics.{Topics, mem_id, mem_key, members, join, insert_id}
use runedb.Server.Client.{mark_transaction_failed, add_watched_key}
use runedb.Server.Clients.{
  World, with_client, watch, watch_keys, mark_failed, insert_ids, collect, touch,
}
use runedb.Server.Clients.Sets.{mem_id-insert_id, mem_key-insert_key}
use runedb.Server.Clients.Mirror.{id_refl}
use runedb.Server.Clients.Ops.{run, watch_op}
use runedb.Server.Clients.Consistent.{IsConsistent, run-IsConsistent}

mark_failed_lem :
    (ids : List ℕ) (w : World) (i : ℕ)
    → ((mark_failed ids w).clients i).tx_failed ≡ (mem_id i ids || (w.clients i).tx_failed)
mark_failed_lem [] w i = refl
mark_failed_lem (id ∷ ids) w i =
    mark_failed_lem ids (with_client id mark_transaction_failed w) i ∙ one (id == i) (mem_id i ids)
  where
    one :
        (b c : Bool)
        → (c || (if b then mark_transaction_failed (w.clients id) else w.clients i).tx_failed)
          ≡ ((b || c) || (w.clients i).tx_failed)
    one true c = ground arith
    one false c = refl

mem_id-insert_ids :
    (i : ℕ) (ids states : List ℕ)
    → mem_id i (insert_ids ids states) ≡ (mem_id i ids || mem_id i states)
mem_id-insert_ids i [] states = refl
mem_id-insert_ids i (id ∷ ids) states =
    rw (mem_id-insert_ids i ids (insert_id id states), mem_id-insert_id i id states) (ground arith)

-- Client `i` is under one of the keys.
abbrev is_under_any : Topics → ℕ → List Bytes → Bool
is_under_any r i [] = false
is_under_any r i (key ∷ keys) = mem_id i (members r key) || is_under_any r i keys

mem_id-collect :
    (i : ℕ) (r : Topics) (keys : List Bytes) (states : List ℕ)
    → mem_id i (collect r keys states) ≡ (is_under_any r i keys || mem_id i states)
unfolding collect
mem_id-collect i r [] states = refl
mem_id-collect i r (key ∷ keys) states =
    rw
      (
        mem_id-collect i r keys (insert_ids (members r key) states),
        mem_id-insert_ids i (members r key) states,
      )
      (ground arith)

touch_registry :
    (keys : List Bytes) (w : World) (i : ℕ)
    → ((touch keys w).clients i).tx_failed
      ≡ (is_under_any w.watchers i keys || (w.clients i).tx_failed)
unfolding touch
touch_registry [] w i = refl
touch_registry (key ∷ []) w i = rw (mark_failed_lem (members w.watchers key) w i) (ground arith)
touch_registry (key ∷ key' ∷ keys) w i =
    rw
      (
        mark_failed_lem (collect w.watchers (key ∷ key' ∷ keys) []) w i,
        mem_id-collect i w.watchers (key ∷ key' ∷ keys) [],
      )
      (ground arith)

-- One of the keys is in the set `ks`.
abbrev pub any_key : List Bytes → List Bytes → Bool
any_key ks [] = false
any_key ks (key ∷ keys) = mem_key key ks || any_key ks keys

under_any :
    (keys : List Bytes) (w : World) (i : ℕ)
    → IsConsistent w
    → is_under_any w.watchers i keys ≡ any_key (w.clients i).watched_keys keys
under_any [] w i k = refl
under_any (key ∷ keys) w i k = rw ((k.0 i key).0, under_any keys w i k)

-- Among consistent clients and registries, touching some keys marks the transaction of exactly those
-- clients as failed that watch one of the keys; a transaction that has failed stays so.
pub touch_lem :
    (keys : List Bytes) (w : World) (i : ℕ)
    → IsConsistent w
    → ((touch keys w).clients i).tx_failed
      ≡ (any_key (w.clients i).watched_keys keys || (w.clients i).tx_failed)
touch_lem keys w i k = rw (touch_registry keys w i, under_any keys w i k)

-- A watched key stays watched while the client watches more keys.
watch_more :
    (keys : List Bytes) (id : ℕ) (key : Bytes) (w : World)
    → mem_key key (w.clients id).watched_keys ≡ true
    → mem_key key ((watch id keys w).clients id).watched_keys ≡ true
unfolding watch
watch_more [] id key w h = h
watch_more (k ∷ keys) id key w h = elim (Bool-cases (is_empty k)) [
  | inl e ↦ rw e (watch_more keys id key w h)
  | inr e ↦ rw e (
      watch_more keys id key
        (with_client id (add_watched_key k) (record w { watchers = join k id w.watchers }))
        (rw (id_refl id, mem_key-insert_key key k (w.clients id).watched_keys, h) (ground arith)))
]

watch_lem :
    (keys : List Bytes) (id : ℕ) (key : Bytes) (w : World)
    → is_empty key ≡ false
    → mem_key key keys ≡ true
    → mem_key key ((watch id keys w).clients id).watched_keys ≡ true
unfolding watch
watch_lem [] id key w n h = ground arith
watch_lem (k ∷ keys) id key w n h = elim (Bool-cases (equal_bytes k key)) [
  | inl e ↦
      let same : k ≡ key = (equal_bytes_iff k key).0 e in
      rw (same, n)
        (watch_more keys id key
          (with_client id (add_watched_key key) (record w { watchers = join key id w.watchers }))
          (rw
            (
              id_refl id,
              mem_key-insert_key key key (w.clients id).watched_keys,
              equal_bytes_refl key,
            )
            (ground arith)))
  | inr e ↦
      let rest : mem_key key keys ≡ true = ground arith in
      elim (Bool-cases (is_empty k)) [
        | inl f ↦ rw f (watch_lem keys id key w n rest)
        | inr f ↦ rw f (
            watch_lem keys id key
              (with_client id (add_watched_key k) (record w { watchers = join k id w.watchers })) n
              rest)
      ]
]

-- A client with a watch registry that watches some keys has a failed transaction once any of them, the
-- empty key excepted, is touched.
pub touch-watch_keys :
    (id : ℕ) (keys : List Bytes) (key : Bytes) (w : World)
    → IsConsistent w
    → (w.clients id).has_watch_registry ≡ true
    → is_empty key ≡ false
    → mem_key key keys ≡ true
    → ((touch (key ∷ []) (watch_keys id keys w)).clients id).tx_failed ≡ true
unfolding run watch_keys
touch-watch_keys id keys key w k b n h =
    let found : mem_key key ((watch id keys w).clients id).watched_keys ≡ true =
      watch_lem keys id key w n h in
    let k' : IsConsistent (watch_keys id keys w) = run-IsConsistent (watch_op id keys) w tt k in
    touch_lem (key ∷ []) (watch_keys id keys w) id k' ∙ rw (b, found)
