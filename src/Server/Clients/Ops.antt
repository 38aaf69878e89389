-- ===== src/Server/Clients/Ops.antt =====
-- The operations of the clients, as data, and the runs of them.
use runedb.Base.{◌≡◌, ◌⊎◌, true, false, ℕ, Bool, List, [], ◌∷◌, Bytes}
use runedb.Base.Int.{ℤ}
use runedb.Server.Client.{
  ClientState, begin_transaction, enqueue_command, drain_transaction, reset_transaction,
  clear_transaction_failure, mark_transaction_dirty, set_watch_registry, set_pub_sub_registry,
  set_monitor_registry, bind_response_writer, bind_response_conn, set_authenticated,
  set_remote_addr, set_replica_listening_port, promote_to_replica,
  set_last_write_replication_offset,
}
use runedb.Server.Clients.{
  World, with_client, touch, watch_keys, unwatch_all, subscribe_channel, unsubscribe_channel,
  unsubscribe_all, start_monitoring, stop_monitoring, disconnect,
}

-- The operations that stay inside one client's state.
pub data ClientOp : Type 0 where
  begin : ClientOp
  enqueue : Bytes → List Bytes → ClientOp
  drain : ClientOp
  reset : ClientOp
  dirty : ClientOp
  clear : ClientOp
  use_watch : Bool → ClientOp
  use_pub_sub : Bool → ClientOp
  use_monitor : Bool → ClientOp
  writer : Bool → ClientOp
  conn : Bool → ClientOp
  authenticate : Bool → ClientOp
  address : Bytes → ClientOp
  port : ℤ → ClientOp
  promote : ClientOp
  offset : ℤ → ClientOp

abbrev pub apply : ClientOp → ClientState → ClientState
apply begin s = (begin_transaction s).0
apply (enqueue name args) s = enqueue_command name args s
apply drain s = (drain_transaction s).0
apply reset s = reset_transaction s
apply dirty s = mark_transaction_dirty s
apply clear s = clear_transaction_failure s
apply (use_watch registry) s = set_watch_registry registry s
apply (use_pub_sub registry) s = set_pub_sub_registry registry s
apply (use_monitor registry) s = set_monitor_registry registry s
apply (writer b) s = bind_response_writer b s
apply (conn b) s = bind_response_conn b s
apply (authenticate b) s = set_authenticated b s
apply (address a) s = set_remote_addr a s
apply (port p) s = set_replica_listening_port p s
apply promote s = promote_to_replica s
apply (offset o) s = set_last_write_replication_offset o s

-- The operations of the clients and of the executor, each under its locks.
pub data Op : Type 0 where
  local : ℕ → ClientOp → Op
  watch_op : ℕ → List Bytes → Op
  unwatch_op : ℕ → Op
  touch_op : List Bytes → Op
  subscribe_op : ℕ → Bytes → Op
  unsubscribe_op : ℕ → Bytes → Op
  unsubscribe_all_op : ℕ → Op
  monitor_op : ℕ → Op
  unmonitor_op : ℕ → Op
  disconnect_op : ℕ → Op

unfoldable pub run : Op → World → World
run (local id o) = with_client id (apply o)
run (watch_op id keys) = watch_keys id keys
run (unwatch_op id) = unwatch_all id
run (touch_op keys) = touch keys
run (subscribe_op id channel) = subscribe_channel id channel
run (unsubscribe_op id channel) = unsubscribe_channel id channel
run (unsubscribe_all_op id) = unsubscribe_all id
run (monitor_op id) = start_monitoring id
run (unmonitor_op id) = stop_monitoring id
run (disconnect_op id) = disconnect id

abbrev pub run_all : List Op → World → World
run_all [] w = w
run_all (o ∷ ops) w = run_all ops (run o w)

-- Nil is given for a registry only where the client has nothing in it.
abbrev pub SparesIn : ClientOp → ClientState → Type 0
SparesIn begin s = Unit
SparesIn (enqueue name args) s = Unit
SparesIn drain s = Unit
SparesIn reset s = Unit
SparesIn dirty s = Unit
SparesIn clear s = Unit
SparesIn (use_watch registry) s = (registry ≡ true) ⊎ (s.watched_keys ≡ [])
SparesIn (use_pub_sub registry) s = (registry ≡ true) ⊎ (s.subscribed_channels ≡ [])
SparesIn (use_monitor registry) s = (registry ≡ true) ⊎ (s.monitoring ≡ false)
SparesIn (writer b) s = Unit
SparesIn (conn b) s = Unit
SparesIn (authenticate b) s = Unit
SparesIn (address a) s = Unit
SparesIn (port p) s = Unit
SparesIn promote s = Unit
SparesIn (offset o) s = Unit

abbrev pub Spares : Op → World → Type 0
Spares (local id o) w = SparesIn o (w.clients id)
Spares (watch_op id keys) w = Unit
Spares (unwatch_op id) w = Unit
Spares (touch_op keys) w = Unit
Spares (subscribe_op id channel) w = Unit
Spares (unsubscribe_op id channel) w = Unit
Spares (unsubscribe_all_op id) w = Unit
Spares (monitor_op id) w = Unit
Spares (unmonitor_op id) w = Unit
Spares (disconnect_op id) w = Unit

-- It is so at each operation of a run.
abbrev pub SparesAll : List Op → World → Type 0
SparesAll [] w = Unit
SparesAll (o ∷ ops) w = Spares o w × SparesAll ops (run o w)
