-- ===== src/Lib.antt =====
-- A verification library for Stash (repository runedb), a Redis-compatible server in Go.
--
-- The server reads RESP frames from its clients, executes the commands on a sharded keyspace and
-- writes RESP replies; a slow log and registries of clients stand beside it.
--
-- Modelled here, file by file:
-- - Protocol/Value: internal/protocol/types.go, the RESP values, and the errors of the package. An
--   int64 is the integer that it stands for, a string or a byte slice a list of bytes.
-- - Protocol/Number: parseIntBytes and parseDecimalInt of internal/protocol/parser.go, and
--   strconv.AppendInt. The digits are printed with fuel 20, which is enough below 10 ^ 20, so for
--   every int64.
-- - Protocol/Decode: internal/protocol/decode.go and grammar.go. decode_at takes the nesting levels
--   left, maxNestingDepth - depth, and so needs no fuel; the element loop recurs on the elements left.
-- - Protocol/Writer: internal/protocol/writer.go. AppendValue and EncodedLen are functions of the
--   value; WriteValue is an action on an abstract io.Writer (Protocol/Writer/Stream).
-- - Protocol/Coerce: internal/protocol/coerce.go.
-- - Server/Slowlog: internal/server/slowlog.go, the ring of slow commands. Record is two steps, as other
--   calls run between its atomic counter and its mutex; Slowlog/Runs has the runs of such steps.
-- - Server/Client: the state of internal/server/client_state.go with the operations that stay inside it;
--   a pointer or a socket is a flag that says whether it is bound, so a client has the server's one
--   registry of a kind or none (nil). Server/Topics is the map from keys to
--   clients of internal/server/watch_registry.go and internal/server/pubsub_registry.go, and
--   Server/Clients puts them together with internal/server/monitor_registry.go: a client is its ID,
--   and IDs are different, as internal/server/registry.go hands them out. Server/Clients/Ops lists
--   the operations as data, so that a run is a list of them.
-- - Server/Registry: the connections and their IDs of internal/server/registry.go.
-- - Storage/CompactHash: internal/storage/compact_hash.go, the compact encoding of a hash in one arena.
--   set and rebuild call each other; set has fuel for one rebuild, which inserts different fields into
--   an empty hash.
-- - Storage/Stream: the identifiers of internal/storage/stream.go and XADD on one stream, with the clock's
--   reading as an argument.
-- - Storage/IntSet: internal/storage/intset.go, the compact encoding of a set of integers.
-- - Server/ConnMachine: internal/server/conn_machine.go, the connection of the event loop: its state and
--   Feed, and in Reply the operations from ProcessPending on. Feed takes
--   frames with fuel for each byte, since a frame takes one at least, and ProcessPending for each
--   pending event. A writer is a count of the bytes that it takes and its error; the command runner is a
--   parameter. Frames says what it is to parse a frame after the other, Calls lists the calls with the
--   bytes that they accept for the client and hand to the writer.
-- - Rdb/Reader, Rdb/Lzf and Rdb/Load: internal/rdb/loader.go over the bytes that its reader has left. The
--   loops have fuel for each byte of the input, and each round takes one. Store.Set and the clock are
--   parameters. Rdb/Lzf/Format and Rdb/Load/Format describe the two formats without positions and
--   loops.
-- - Rdb/Snapshot: BuildSnapshot of internal/rdb/snapshot.go.
-- - Storage/Keyspace: internal/storage/store.go with internal/storage/shard.go, internal/storage/stats.go
--   and internal/storage/types.go, and the deletion of internal/storage/memory.go, for a store without a
--   memory limit (maxmemory 0). A shard is a list of keys and values; maphash is a parameter; hashes,
--   sets, sorted sets and streams are a payload that strings and lists pass on. An operation reads the
--   clock once. Keyspace/Ops has the operations, Keyspace/Effect what they do to one value.
-- - Storage/ListWaiters: internal/storage/list_waiters.go, the clients that wait for a push to a list.
-- - Storage/Expiry: ParseExpiryMillis of internal/storage/store.go, with the wrap-around of a
--   time.Duration; the clock's reading in nanoseconds is an argument.
-- - Rdb/Restore puts the snapshot, the loader and the keyspace together.
-- Base holds the shared vocabulary: Boolean tests, lists over native numbers, results, integers. Tests
-- has the theorems at concrete inputs.
--
-- Not modelled: sockets, files, goroutines and clocks, floating point (geo commands, HyperLogLog
-- estimates), and the parts of the keyspace, the commands and the persistence layer that have no file
-- here. A method runs to its end before the next one starts, as the mutex around it makes it, but for
-- Record of the slow log, which is split at its lock; Touch and
-- Disconnect, which take several locks one after the other, are one step too, so what another
-- goroutine does between those locks is not modelled.
pub mod Base
pub mod Protocol
pub mod Rdb
pub mod Server
pub mod Storage
mod Tests
