-- ===== src/Server/Clients/Gone.antt =====
-- A client that has been disconnected.
use runedb.Base.{
  ℕ, ◌≡◌, refl, sym, ap, ◌∙◌, inl, inr, Bool, true, false, Bool-cases, List, [], Bytes,
  if◌then◌else◌, arith,
}
use runedb.Server.Topics.{mem_id, mem_key, members, leave_all}
use runedb.Server.Client.{
  ClientState, clear_transaction_failure, reset_transaction, close_writer, set_monitoring,
  has_active_response_writer,
}
use runedb.Server.Clients.{
  World, at, with_client, unwatch_registry, unwatch_all, unsubscribe_all, stop_monitoring,
  disconnect,
}
use runedb.Server.Clients.Mirror.{id_refl}
use runedb.Server.Clients.Consistent.{IsConsistent, disconnect-IsConsistent}

at_self : (id : ℕ) (s : ClientState) (clients : ℕ → ClientState) → at id s clients id ≡ s
at_self id s clients = rw (id_refl id)

if_client :
    (b : Bool) (x y : World) (id : ℕ)
    → (if b then x else y).clients id ≡ (if b then x.clients id else y.clients id)
if_client true x y id = refl
if_client false x y id = refl

stop_monitoring_state :
    (id : ℕ) (w : World) → (stop_monitoring id w).clients id ≡ set_monitoring false (w.clients id)
stop_monitoring_state id w = elim (Bool-cases (w.clients id).has_monitor_registry) [
  | inl h ↦ if_client (w.clients id).has_monitor_registry _ _ id ∙ rw (h, id_refl id)
  | inr h ↦ if_client (w.clients id).has_monitor_registry _ _ id ∙ rw (h, id_refl id)
]

abbrev unsubscribed : ClientState → ClientState
unsubscribed c = record c {
  subscribed_channels = if c.has_pub_sub_registry then [] else c.subscribed_channels;
}

unsubscribe_all_state :
    (id : ℕ) (w : World) → (unsubscribe_all id w).clients id ≡ unsubscribed (w.clients id)
unsubscribe_all_state id w = go (w.clients id).has_pub_sub_registry
  where
    go :
        (b : Bool)
        → (if b
              then record w {
                clients = at id (record (w.clients id) { subscribed_channels = [] }) w.clients;
                subscribers = leave_all (w.clients id).subscribed_channels id w.subscribers;
              }
              else w).clients
            id
          ≡ record (w.clients id) {
            subscribed_channels = if b then [] else (w.clients id).subscribed_channels;
          }
    go true = at_self id _ w.clients
    go false = refl

abbrev unwatched : ClientState → ClientState
unwatched c = record c {
  watched_keys = if c.has_watch_registry then [] else c.watched_keys;
  tx_failed = false;
}

unwatch_all_state : (id : ℕ) (w : World) → (unwatch_all id w).clients id ≡ unwatched (w.clients id)
unwatch_all_state id w =
    let w1 : World = if (w.clients id).has_watch_registry then unwatch_registry id w else w in
    at_self id (clear_transaction_failure (w1.clients id)) w1.clients
    ∙ ap clear_transaction_failure (go (w.clients id).has_watch_registry)
  where
    go :
        (b : Bool)
        → (if b then unwatch_registry id w else w).clients id
          ≡ record (w.clients id) { watched_keys = if b then [] else (w.clients id).watched_keys }
    go true = at_self id _ w.clients
    go false = refl

disconnect_state :
    (id : ℕ) (w : World)
    → (disconnect id w).clients id
      ≡ unwatched
          (unsubscribed (set_monitoring false (reset_transaction (close_writer (w.clients id)))))
unfolding disconnect
disconnect_state id w =
    let w1 = with_client id close_writer w in
    let w2 = with_client id reset_transaction w1 in
    let w3 = stop_monitoring id w2 in
    let e1 : w1.clients id ≡ close_writer (w.clients id) = at_self id _ w.clients in
    let e2 : w2.clients id ≡ reset_transaction (w1.clients id) = at_self id _ w1.clients in
    unwatch_all_state id (unsubscribe_all id w3)
    ∙ ap unwatched (
        unsubscribe_all_state id w3
        ∙ ap unsubscribed (
            stop_monitoring_state id w2 ∙ ap (set_monitoring false) (e2 ∙ ap reset_transaction e1)))

-- Nothing is left of the client.
abbrev pub IsGone : ℕ → World → Type 0
IsGone id w =
    ((key : Bytes)
      → (mem_id id (members w.watchers key) ≡ false)
        × (mem_id id (members w.subscribers key) ≡ false))
    × (mem_id id w.monitors ≡ false)
    × ((w.clients id).in_transaction ≡ false)
    × ((w.clients id).tx_failed ≡ false)
    × ((w.clients id).tx_queue ≡ [])
    × (has_active_response_writer (w.clients id) ≡ false)

empty_or_unbound :
    (b : Bool) (member : Bool) (key : Bytes) (ks : List Bytes)
    → member ≡ mem_key key (if b then [] else ks)
    → (member ≡ true → b ≡ true)
    → member ≡ false
empty_or_unbound true member key ks e f = e
empty_or_unbound false member key ks e f = ground arith

-- Among consistent clients and registries, a client that is disconnected is in no registry any more, it
-- is in no transaction, its queue is empty and its failure flag clear, and it has no active writer.
pub disconnect-IsGone : (id : ℕ) (w : World) → IsConsistent w → IsGone id (disconnect id w)
disconnect-IsGone id w k =
    let (x, y, z) = disconnect-IsConsistent id w k in
    let e = disconnect_state id w in
    let c = w.clients id in
    (
      (λ key. (
        empty_or_unbound c.has_watch_registry _ key c.watched_keys
            ((x id key).0 ∙ ap (λ s. mem_key key s.watched_keys) e)
            (λ h. (sym (ap (λ s. s.has_watch_registry) e)) ∙ (x id key).1 h),
        empty_or_unbound c.has_pub_sub_registry _ key c.subscribed_channels
            ((y id key).0 ∙ ap (λ s. mem_key key s.subscribed_channels) e)
            (λ h. (sym (ap (λ s. s.has_pub_sub_registry) e)) ∙ (y id key).1 h),
      )),
      (z.0 id).0 ∙ ap (λ s. s.monitoring) e,
      ap (λ s. s.in_transaction) e,
      ap (λ s. s.tx_failed) e,
      ap (λ s. s.tx_queue) e,
      ap has_active_response_writer e,
    )
