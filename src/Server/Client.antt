-- ===== src/Server/Client.antt =====
-- The connection-scoped state of a client: client_state.go. The locks only serialise the operations; a
-- registry pointer is a flag that says whether it is bound, and the writer and the connection are flags too.
pub mod Transaction
use runedb.Base.{
  ℕ, ◌&&◌, Bool, true, false, not, List, [], ◌∷◌, ◌++◌, Bytes, ltb, if◌then◌else◌, length,
}
use runedb.Base.Int.{ℤ, pos}
use runedb.Server.Topics.{insert_key, delete_key}

pub record QueuedCommand : Type 0 where
  pub name : Bytes
  pub args : List Bytes

pub record ClientState : Type 0 where
  pub remote_addr : Bytes
  pub has_watch_registry : Bool
  pub watched_keys : List Bytes
  pub has_pub_sub_registry : Bool
  pub subscribed_channels : List Bytes
  pub has_monitor_registry : Bool
  pub has_response_writer : Bool
  pub has_response_conn : Bool
  pub writer_closed : Bool
  pub authenticated : Bool
  pub replica : Bool
  pub monitoring : Bool
  pub replica_listen_port : ℤ
  pub last_write_offset : ℤ
  pub in_transaction : Bool
  pub tx_failed : Bool
  pub tx_dirty : Bool
  pub tx_queue : List QueuedCommand

abbrev pub new_client : ClientState
new_client = record {
  remote_addr = [];
  has_watch_registry = false;
  watched_keys = [];
  has_pub_sub_registry = false;
  subscribed_channels = [];
  has_monitor_registry = false;
  has_response_writer = false;
  has_response_conn = false;
  writer_closed = false;
  authenticated = false;
  replica = false;
  monitoring = false;
  replica_listen_port = pos 0;
  last_write_offset = pos 0;
  in_transaction = false;
  tx_failed = false;
  tx_dirty = false;
  tx_queue = [];
}

-- `BeginTransaction`; the flag is its result.
abbrev pub begin_transaction : ClientState → ClientState × Bool
begin_transaction s =
    if s.in_transaction
    then (s, false)
    else (record s { in_transaction = true; tx_dirty = false; tx_queue = [] }, true)

abbrev pub enqueue_command : Bytes → List Bytes → ClientState → ClientState
enqueue_command name args s = record s {
  tx_queue = s.tx_queue ++ (record { name = name; args = args }) ∷ [];
}

abbrev pub drain_transaction : ClientState → ClientState × List QueuedCommand
drain_transaction s =
    (record s { in_transaction = false; tx_dirty = false; tx_queue = [] }, s.tx_queue)

abbrev pub reset_transaction : ClientState → ClientState
reset_transaction s = record s {
  in_transaction = false;
  tx_failed = false;
  tx_dirty = false;
  tx_queue = [];
}

abbrev pub mark_transaction_failed : ClientState → ClientState
mark_transaction_failed s = record s { tx_failed = true }

abbrev pub clear_transaction_failure : ClientState → ClientState
clear_transaction_failure s = record s { tx_failed = false }

abbrev pub mark_transaction_dirty : ClientState → ClientState
mark_transaction_dirty s = record s { tx_dirty = true }

-- The three setters take the given pointer as a flag: `false` is nil, which unbinds.
abbrev pub set_watch_registry : Bool → ClientState → ClientState
set_watch_registry registry s = record s { has_watch_registry = registry }

abbrev pub set_pub_sub_registry : Bool → ClientState → ClientState
set_pub_sub_registry registry s = record s { has_pub_sub_registry = registry }

abbrev pub set_monitor_registry : Bool → ClientState → ClientState
set_monitor_registry registry s = record s { has_monitor_registry = registry }

-- `BindResponseWriter`, for a writer that is there or nil.
abbrev pub bind_response_writer : Bool → ClientState → ClientState
bind_response_writer writer s = record s {
  has_response_writer = writer;
  writer_closed = not writer;
}

abbrev pub bind_response_conn : Bool → ClientState → ClientState
bind_response_conn conn s = record s { has_response_conn = conn }

abbrev pub has_active_response_writer : ClientState → Bool
has_active_response_writer s = not s.writer_closed && s.has_response_writer

-- The first part of `Disconnect`.
abbrev pub close_writer : ClientState → ClientState
close_writer s = record s {
  writer_closed = true;
  has_response_writer = false;
  has_response_conn = false;
}

abbrev pub set_authenticated : Bool → ClientState → ClientState
set_authenticated authenticated s = record s { authenticated = authenticated }

abbrev pub set_remote_addr : Bytes → ClientState → ClientState
set_remote_addr addr s = record s { remote_addr = addr }

abbrev pub set_replica_listening_port : ℤ → ClientState → ClientState
set_replica_listening_port port s = record s { replica_listen_port = port }

abbrev pub promote_to_replica : ClientState → ClientState
promote_to_replica s = record s { replica = true }

abbrev pub set_last_write_replication_offset : ℤ → ClientState → ClientState
set_last_write_replication_offset offset s = record s { last_write_offset = offset }

abbrev pub add_watched_key : Bytes → ClientState → ClientState
add_watched_key key s = record s { watched_keys = insert_key key s.watched_keys }

abbrev pub add_subscribed_channel : Bytes → ClientState → ClientState
add_subscribed_channel channel s = record s {
  subscribed_channels = insert_key channel s.subscribed_channels;
}

abbrev pub remove_subscribed_channel : Bytes → ClientState → ClientState
remove_subscribed_channel channel s = record s {
  subscribed_channels = delete_key channel s.subscribed_channels;
}

abbrev pub set_monitoring : Bool → ClientState → ClientState
set_monitoring monitoring s = record s { monitoring = monitoring }

abbrev pub drain_watched_keys : ClientState → ClientState × List Bytes
drain_watched_keys s = (record s { watched_keys = [] }, s.watched_keys)

abbrev pub drain_subscribed_channels : ClientState → ClientState × List Bytes
drain_subscribed_channels s = (record s { subscribed_channels = [] }, s.subscribed_channels)

abbrev pub subscription_count : ClientState → ℕ
subscription_count s = length s.subscribed_channels

abbrev pub is_subscribed : ClientState → Bool
is_subscribed s = ltb 0 (subscription_count s)
