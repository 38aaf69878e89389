-- ===== src/Server/Clients.antt =====
-- The clients and the registries that refer to them: watch_registry.go, pubsub_registry.go,
-- monitor_registry.go and the operations of client_state.go that go through a registry. Clients have
-- different IDs, so a `*ClientState` is its ID, and the states are a function of the IDs.
pub mod Sets
pub mod Mirror
pub mod Monitors
pub mod Ops
pub mod Consistent
pub mod Touch
pub mod Gone
use runedb.Base.{
  ℕ, ◌+◌, ◌-◌, ◌==◌, Bool, true, false, ltb, List, [], ◌∷◌, ◌++◌, Bytes, if◌then◌else◌, is_empty,
}
use runedb.Server.Topics.{
  Topics, no_topics, members, join, leave, leave_all, mem_id, insert_id, delete_id,
}
use runedb.Server.Client.{
  ClientState, new_client, add_watched_key, add_subscribed_channel, remove_subscribed_channel,
  set_monitoring, drain_watched_keys, drain_subscribed_channels, mark_transaction_failed,
  clear_transaction_failure, reset_transaction, close_writer,
}

pub record World : Type 0 where
  pub clients : ℕ → ClientState
  pub watchers : Topics
  pub subscribers : Topics
  pub monitors : List ℕ
  pub subscriber_count : ℕ

abbrev pub new_world : World
new_world = record {
  clients = λ id. new_client;
  watchers = no_topics;
  subscribers = no_topics;
  monitors = [];
  subscriber_count = 0;
}

abbrev pub at : ℕ → ClientState → (ℕ → ClientState) → ℕ → ClientState
at id s clients i = if id == i then s else clients i

-- An operation on one client's state.
abbrev pub with_client : ℕ → (ClientState → ClientState) → World → World
with_client id f w = record w { clients = at id (f (w.clients id)) w.clients }

-- `WatchRegistry.Watch`
unfoldable pub watch : ℕ → List Bytes → World → World
watch id [] w = w
watch id (key ∷ keys) w =
    if is_empty key
    then watch id keys w
    else watch id keys
        (with_client id (add_watched_key key) (record w { watchers = join key id w.watchers }))

-- `WatchRegistry.UnwatchAll`
abbrev pub unwatch_registry : ℕ → World → World
unwatch_registry id w =
    let (s, keys) = drain_watched_keys (w.clients id) in
    record w { clients = at id s w.clients; watchers = leave_all keys id w.watchers }

-- MarkTransactionFailed for each of the clients.
abbrev pub mark_failed : List ℕ → World → World
mark_failed [] w = w
mark_failed (id ∷ ids) w = mark_failed ids (with_client id mark_transaction_failed w)

-- The watchers of any of the keys, the map `states` of `Touch`.
abbrev pub insert_ids : List ℕ → List ℕ → List ℕ
insert_ids [] states = states
insert_ids (id ∷ ids) states = insert_ids ids (insert_id id states)

unfoldable pub collect : Topics → List Bytes → List ℕ → List ℕ
collect r [] states = states
collect r (key ∷ keys) states = collect r keys (insert_ids (members r key) states)

-- `Touch`
unfoldable pub touch : List Bytes → World → World
unfolding collect
touch [] w = w
touch (key ∷ []) w = mark_failed (members w.watchers key) w
touch (key ∷ key' ∷ keys) w = mark_failed (collect w.watchers (key ∷ key' ∷ keys) []) w

-- `WatchKeys` and `UnwatchAll` of a client
unfoldable pub watch_keys : ℕ → List Bytes → World → World
unfolding watch
watch_keys id keys w = if (w.clients id).has_watch_registry then watch id keys w else w

abbrev pub unwatch_all : ℕ → World → World
unwatch_all id w =
    with_client id clear_transaction_failure
      (if (w.clients id).has_watch_registry then unwatch_registry id w else w)

-- `PubSubRegistry.Subscribe`
abbrev pub subscribe : ℕ → Bytes → World → World
subscribe id channel w =
    with_client id (add_subscribed_channel channel)
      (record w { subscribers = join channel id w.subscribers })

-- `PubSubRegistry.Unsubscribe`
abbrev pub unsubscribe : ℕ → Bytes → World → World
unsubscribe id channel w =
    with_client id (remove_subscribed_channel channel)
      (record w { subscribers = leave channel id w.subscribers })

-- `PubSubRegistry.UnsubscribeAll`
abbrev pub unsubscribe_registry : ℕ → World → World
unsubscribe_registry id w =
    let (s, channels) = drain_subscribed_channels (w.clients id) in
    record w { clients = at id s w.clients; subscribers = leave_all channels id w.subscribers }

-- `SubscribeChannel`, `UnsubscribeChannel` and `UnsubscribeAll` of a client
abbrev pub subscribe_channel : ℕ → Bytes → World → World
subscribe_channel id channel w =
    if (w.clients id).has_pub_sub_registry then subscribe id channel w else w

abbrev pub unsubscribe_channel : ℕ → Bytes → World → World
unsubscribe_channel id channel w =
    if (w.clients id).has_pub_sub_registry then unsubscribe id channel w else w

abbrev pub unsubscribe_all : ℕ → World → World
unsubscribe_all id w = if (w.clients id).has_pub_sub_registry then unsubscribe_registry id w else w

-- `MonitorRegistry.Subscribe`
abbrev pub monitor : ℕ → World → World
monitor id w = with_client id (set_monitoring true) (record w {
  monitors = insert_id id w.monitors;
  subscriber_count = if mem_id id w.monitors then w.subscriber_count else w.subscriber_count + 1;
})

-- `MonitorRegistry.Unsubscribe`
abbrev pub unmonitor : ℕ → World → World
unmonitor id w = with_client id (set_monitoring false) (record w {
  monitors = delete_id id w.monitors;
  subscriber_count = if mem_id id w.monitors then w.subscriber_count - 1 else w.subscriber_count;
})

-- `StartMonitoring` and `StopMonitoring` of a client
abbrev pub start_monitoring : ℕ → World → World
start_monitoring id w = if (w.clients id).has_monitor_registry then monitor id w else w

abbrev pub stop_monitoring : ℕ → World → World
stop_monitoring id w =
    if (w.clients id).has_monitor_registry
    then unmonitor id w
    else with_client id (set_monitoring false) w

-- `HasSubscribers` of the monitor registry
abbrev pub has_subscribers : World → Bool
has_subscribers w = ltb 0 w.subscriber_count

-- `Disconnect`
unfoldable pub disconnect : ℕ → World → World
disconnect id w = unwatch_all id (
    unsubscribe_all id
      (stop_monitoring id (with_client id reset_transaction (with_client id close_writer w))))
