-- ===== src/Tests/Server.antt =====
-- internal/server at concrete inputs.
use runedb.Base.{
  inl, inr, false, suc, none, some, ◌==◌, ℕ, ◌≡◌, refl, true, ◌||◌, if◌then◌else◌, List, [], ◌∷◌,
  length, take, min, arith,
}
use runedb.Server.Registry.{new_client_registry, conn_of, count_clients}
use runedb.Server.Registry
use runedb.Server.Registry.Fresh.{RegistryOp, adding, removing, registry_run, add_lem}
use runedb.Base.Int.{pos, negsuc}
use runedb.Server.Client.{new_client, QueuedCommand, drain_transaction}
use runedb.Server.Client.Transaction.{
  TxStep, queue, refuse, invalidate, at_exec, queued, refused, invalidated,
  drain_transaction-queued,
}
use runedb.Server.Clients.{new_world, touch, disconnect, watch_keys}
use runedb.Server.Clients.Ops.{
  Op, run, run_all, local, use_watch, use_pub_sub, use_monitor, watch_op, subscribe_op, monitor_op,
  begin, SparesAll,
}
use runedb.Server.Clients.Consistent.{IsConsistent, run_all-IsConsistent}
use runedb.Server.Clients.Touch.{any_key, touch_lem, touch-watch_keys}
use runedb.Server.Clients.Gone.{IsGone, disconnect-IsGone}
use runedb.Server.Slowlog.{SlowlogEntry, make_registry, entries_of, reset, reserve, insert_locked}
use runedb.Server.Slowlog.Runs
use runedb.Server.Slowlog.Runs.{Step, commit, wipe, log_steps, no_log, step, steps, idle}
use runedb.Server.Slowlog.Ring.{limited}
use runedb.Server.Slowlog.History.{entries_of-steps}

abbrev no_entry : SlowlogEntry ℕ
no_entry = record { id = pos 0; payload = 0 }

-- Entries into a ring of three, behind a reset: the second call overtakes the first.
abbrev script : List (Step ℕ)
script =
    Runs.begin 7
    ∷ commit 0
    ∷ wipe
    ∷ Runs.begin 1
    ∷ Runs.begin 2
    ∷ commit 1
    ∷ commit 0
    ∷ Runs.begin 3
    ∷ commit 0
    ∷ []

newest_three :
    entries_of no_entry (steps no_entry (idle no_entry 3) script).registry (negsuc 0)
    ≡ (record { id = pos 3; payload = 3 })
      ∷ (record { id = pos 1; payload = 1 })
      ∷ (record { id = pos 2; payload = 2 })
      ∷ []
unfolding make_registry entries_of step reset reserve insert_locked
newest_three = refl

entries_of-steps_example :
    entries_of no_entry (steps no_entry (idle no_entry 3) script).registry (pos 2)
    ≡ take
        (limited (min (length (log_steps no_log script).log) 3) (pos 2))
        (log_steps no_log script).log
entries_of-steps_example = entries_of-steps no_entry 3 script (pos 2) (omega arith)

-- Two clients with every registry: both watch "a", the first watches "b" and monitors, the second
-- subscribes to "c".
abbrev two_clients : List Op
two_clients =
    local 1 (use_watch true)
    ∷ local 1 (use_monitor true)
    ∷ local 2 (use_monitor false)
    ∷ local 2 (use_watch true)
    ∷ local 2 (use_pub_sub true)
    ∷ watch_op 1 ((97 ∷ []) ∷ (98 ∷ []) ∷ [])
    ∷ watch_op 2 ((97 ∷ []) ∷ [])
    ∷ subscribe_op 2 (99 ∷ [])
    ∷ monitor_op 1
    ∷ local 1 begin
    ∷ []

two_clients-SparesAll : SparesAll two_clients new_world
unfolding run
two_clients-SparesAll =
    (inl refl, (inl refl, (inr refl, (inl refl, (inl refl, (tt, (tt, (tt, (tt, (tt, tt))))))))))

run_all-IsConsistent_example : IsConsistent (run_all two_clients new_world)
run_all-IsConsistent_example = run_all-IsConsistent two_clients two_clients-SparesAll

touch_lem_example :
    ((touch ((98 ∷ []) ∷ (99 ∷ []) ∷ []) (run_all two_clients new_world)).clients 1).tx_failed ≡ (
      any_key ((run_all two_clients new_world).clients 1).watched_keys ((98 ∷ []) ∷ (99 ∷ []) ∷ [])
      || ((run_all two_clients new_world).clients 1).tx_failed)
touch_lem_example =
    touch_lem ((98 ∷ []) ∷ (99 ∷ []) ∷ []) (run_all two_clients new_world) 1
      (run_all-IsConsistent two_clients two_clients-SparesAll)

touch-watch_keys_example :
    ((touch ((100 ∷ []) ∷ []) (
        watch_keys 1
          ([] ∷ (100 ∷ []) ∷ [])
          (run_all (local 1 (use_watch true) ∷ []) new_world))).clients
      1).tx_failed
    ≡ true
unfolding run
touch-watch_keys_example =
    touch-watch_keys 1 ([] ∷ (100 ∷ []) ∷ []) (100 ∷ [])
      (run_all (local 1 (use_watch true) ∷ []) new_world)
      (run_all-IsConsistent (local 1 (use_watch true) ∷ []) (inl refl, tt)) refl refl refl

disconnect-IsGone_example : IsGone 1 (disconnect 1 (run_all two_clients new_world))
disconnect-IsGone_example =
    disconnect-IsGone 1 (run_all two_clients new_world)
      (run_all-IsConsistent two_clients two_clients-SparesAll)

abbrev set_x : QueuedCommand
set_x = record { name = 83 ∷ []; args = (120 ∷ []) ∷ [] }

abbrev tx_steps : List TxStep
tx_steps = queue set_x ∷ invalidate ∷ queue set_x ∷ refuse ∷ []

drain_transaction-queued_example :
    ((at_exec tx_steps new_client).in_transaction ≡ true)
    × ((at_exec tx_steps new_client).tx_dirty ≡ refused tx_steps)
    × ((at_exec tx_steps new_client).tx_failed
        ≡ (if invalidated tx_steps then true else new_client.tx_failed))
    × ((drain_transaction (at_exec tx_steps new_client)).1 ≡ queued tx_steps)
drain_transaction-queued_example = drain_transaction-queued tx_steps new_client refl

-- Two connections, of which the first is removed.
abbrev calls_before : List (RegistryOp ℕ)
calls_before = adding 70 ∷ adding 80 ∷ removing 1 ∷ []

add_lem_example :
    (conn_of
        (Registry.add 90 (registry_run calls_before new_client_registry)).1
        (registry_run calls_before new_client_registry).conns
      ≡ none)
    × ((i : ℕ)
        → conn_of i (Registry.add 90 (registry_run calls_before new_client_registry)).0.conns ≡ (
            if (Registry.add 90 (registry_run calls_before new_client_registry)).1 == i
            then some 90
            else conn_of i (registry_run calls_before new_client_registry).conns))
    × (count_clients (Registry.add 90 (registry_run calls_before new_client_registry)).0
        ≡ suc (count_clients (registry_run calls_before new_client_registry)))
add_lem_example = add_lem calls_before 90 (omega arith)
