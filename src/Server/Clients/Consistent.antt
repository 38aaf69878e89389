-- ===== src/Server/Clients/Consistent.antt =====
-- Every operation on the clients and the registries keeps them consistent.
use runedb.Base.{
  ℕ, ◌≡◌, refl, inl, inr, Bool, true, false, Bool-cases, List, [], ◌∷◌, Bytes, if◌then◌else◌,
  is_empty, arith,
}
use runedb.Server.Topics.{members, join}
use runedb.Server.Client.{
  ClientState, reset_transaction, mark_transaction_failed, clear_transaction_failure, close_writer,
  add_watched_key, add_subscribed_channel, remove_subscribed_channel, set_monitoring,
}
use runedb.Server.Clients.{
  World, new_world, with_client, watch, unwatch_registry, mark_failed, touch, collect, watch_keys,
  unwatch_all, subscribe_channel, unsubscribe_channel, unsubscribe_all, start_monitoring,
  stop_monitoring, disconnect,
}
use runedb.Server.Clients.Mirror.{
  Linked, Linked-at, Linked-join, Linked-leave, Linked-leave_all, id_refl,
}
use runedb.Server.Clients.Monitors.{
  Monitored, Monitored-at, Monitored-insert_id, Monitored-delete_id,
}
use runedb.Server.Clients.Ops.{
  ClientOp, Op, SparesIn, Spares, SparesAll, apply, run, run_all, begin, enqueue, drain, reset,
  dirty, clear, use_watch, use_pub_sub, use_monitor, writer, conn, authenticate, address, port,
  promote, offset, local, watch_op, unwatch_op, touch_op, subscribe_op, unsubscribe_op,
  unsubscribe_all_op, monitor_op, unmonitor_op, disconnect_op,
}

abbrev pub watched : ClientState → List Bytes
watched c = c.watched_keys

abbrev pub watching : ClientState → Bool
watching c = c.has_watch_registry

abbrev pub channels : ClientState → List Bytes
channels c = c.subscribed_channels

abbrev pub publishing : ClientState → Bool
publishing c = c.has_pub_sub_registry

abbrev pub WatchLinked : World → Type 0
WatchLinked w = Linked watched watching w.watchers w.clients

abbrev pub ChannelLinked : World → Type 0
ChannelLinked w = Linked channels publishing w.subscribers w.clients

abbrev pub MonitorLinked : World → Type 0
MonitorLinked w = Monitored w.monitors w.subscriber_count w.clients

-- Both directions of every membership agree.
abbrev pub IsConsistent : World → Type 0
IsConsistent w = WatchLinked w × ChannelLinked w × MonitorLinked w

-- A change of one client that keeps its key sets, its monitoring and the registries it is in.
abbrev Keeps : ClientState → ClientState → Type 0
Keeps old new =
    (new.watched_keys ≡ old.watched_keys)
    × (¬ (old.watched_keys ≡ []) → old.has_watch_registry ≡ true → new.has_watch_registry ≡ true)
    × (new.subscribed_channels ≡ old.subscribed_channels)
    × (¬ (old.subscribed_channels ≡ [])
        → old.has_pub_sub_registry ≡ true
        → new.has_pub_sub_registry ≡ true)
    × (new.monitoring ≡ old.monitoring)
    × (old.monitoring ≡ true → old.has_monitor_registry ≡ true → new.has_monitor_registry ≡ true)

-- Both branches of a test are consistent.
if_IsConsistent :
    (b : Bool) (x y : World)
    → (b ≡ true → IsConsistent x)
    → (b ≡ false → IsConsistent y)
    → IsConsistent (if b then x else y)
if_IsConsistent true x y f g = f refl
if_IsConsistent false x y f g = g refl

with_client-IsConsistent :
    (id : ℕ) (f : ClientState → ClientState) (w : World)
    → Keeps (w.clients id) (f (w.clients id))
    → IsConsistent w
    → IsConsistent (with_client id f w)
with_client-IsConsistent id f w (a, b, c, d, e, g) (x, y, z) =
    let s = f (w.clients id) in
    (
      Linked-at watched watching w.watchers id s w.clients x a b,
      Linked-at channels publishing w.subscribers id s w.clients y c d,
      Monitored-at w.monitors w.subscriber_count id s w.clients z e g,
    )

apply-Keeps : (o : ClientOp) (s : ClientState) → SparesIn o s → Keeps s (apply o s)
apply-Keeps begin s p = elim (Bool-cases s.in_transaction) [
  | inl h ↦ rw h (refl, (λ k a. a), refl, (λ k a. a), refl, (λ k a. a))
  | inr h ↦ rw h (refl, (λ k a. a), refl, (λ k a. a), refl, (λ k a. a))
]
apply-Keeps (enqueue name args) s p = (refl, (λ k a. a), refl, (λ k a. a), refl, (λ k a. a))
apply-Keeps drain s p = (refl, (λ k a. a), refl, (λ k a. a), refl, (λ k a. a))
apply-Keeps reset s p = (refl, (λ k a. a), refl, (λ k a. a), refl, (λ k a. a))
apply-Keeps dirty s p = (refl, (λ k a. a), refl, (λ k a. a), refl, (λ k a. a))
apply-Keeps clear s p = (refl, (λ k a. a), refl, (λ k a. a), refl, (λ k a. a))
apply-Keeps (use_watch registry) s (inl e) = (refl, (λ k a. e), refl, (λ k a. a), refl, (λ k a. a))
apply-Keeps (use_watch registry) s (inr e) =
    (refl, (λ k a. absurd (k e)), refl, (λ k a. a), refl, (λ k a. a))
apply-Keeps (use_pub_sub registry) s (inl e) =
    (refl, (λ k a. a), refl, (λ k a. e), refl, (λ k a. a))
apply-Keeps (use_pub_sub registry) s (inr e) =
    (refl, (λ k a. a), refl, (λ k a. absurd (k e)), refl, (λ k a. a))
apply-Keeps (use_monitor registry) s (inl e) =
    (refl, (λ k a. a), refl, (λ k a. a), refl, (λ k a. e))
apply-Keeps (use_monitor registry) s (inr e) =
    (refl, (λ k a. a), refl, (λ k a. a), refl, (λ k a. ground arith))
apply-Keeps (writer b) s p = (refl, (λ k a. a), refl, (λ k a. a), refl, (λ k a. a))
apply-Keeps (conn b) s p = (refl, (λ k a. a), refl, (λ k a. a), refl, (λ k a. a))
apply-Keeps (authenticate b) s p = (refl, (λ k a. a), refl, (λ k a. a), refl, (λ k a. a))
apply-Keeps (address a) s p = (refl, (λ k a. a), refl, (λ k a. a), refl, (λ k a. a))
apply-Keeps (port n) s p = (refl, (λ k a. a), refl, (λ k a. a), refl, (λ k a. a))
apply-Keeps promote s p = (refl, (λ k a. a), refl, (λ k a. a), refl, (λ k a. a))
apply-Keeps (offset o) s p = (refl, (λ k a. a), refl, (λ k a. a), refl, (λ k a. a))

watch_one : ℕ → Bytes → World → World
watch_one id key w =
    with_client id (add_watched_key key) (record w { watchers = join key id w.watchers })

watch_one-IsConsistent :
    (id : ℕ) (key : Bytes) (w : World)
    → (w.clients id).has_watch_registry ≡ true
    → IsConsistent w
    → IsConsistent (watch_one id key w)
      × (((watch_one id key w).clients id).has_watch_registry ≡ true)
unfolding watch_one
watch_one-IsConsistent id key w h (x, y, z) =
    let s = add_watched_key key (w.clients id) in
    (
      (
        Linked-join watched watching w.watchers id s w.clients x key refl h,
        Linked-at channels publishing w.subscribers id s w.clients y refl (λ k a. a),
        Monitored-at w.monitors w.subscriber_count id s w.clients z refl (λ k a. a),
      ),
      rw (id_refl id) h,
    )

watch-IsConsistent :
    (keys : List Bytes) (id : ℕ) (w : World)
    → (w.clients id).has_watch_registry ≡ true
    → IsConsistent w
    → IsConsistent (watch id keys w)
unfolding watch watch_one
watch-IsConsistent [] id w h k = k
watch-IsConsistent (key ∷ keys) id w h k = elim (Bool-cases (is_empty key)) [
  | inl e ↦ rw e (watch-IsConsistent keys id w h k)
  | inr e ↦
      let (k', h') = watch_one-IsConsistent id key w h k in
      rw e (watch-IsConsistent keys id (watch_one id key w) h' k')
]

mark_failed-IsConsistent :
    (ids : List ℕ) (w : World) → IsConsistent w → IsConsistent (mark_failed ids w)
mark_failed-IsConsistent [] w k = k
mark_failed-IsConsistent (id ∷ ids) w k =
    mark_failed-IsConsistent ids (with_client id mark_transaction_failed w) (
      with_client-IsConsistent id mark_transaction_failed w
        (refl, (λ k a. a), refl, (λ k a. a), refl, (λ k a. a)) k)

touch-IsConsistent : (keys : List Bytes) (w : World) → IsConsistent w → IsConsistent (touch keys w)
unfolding touch collect
touch-IsConsistent [] w k = k
touch-IsConsistent (key ∷ []) w k = mark_failed-IsConsistent (members w.watchers key) w k
touch-IsConsistent (key ∷ key' ∷ keys) w k =
    mark_failed-IsConsistent (collect w.watchers (key ∷ key' ∷ keys) []) w k

unwatch_registry-IsConsistent :
    (id : ℕ) (w : World) → IsConsistent w → IsConsistent (unwatch_registry id w)
unwatch_registry-IsConsistent id w (x, y, z) =
    let s : ClientState = record (w.clients id) { watched_keys = [] } in
    (
      Linked-leave_all watched watching w.watchers id s w.clients x refl refl,
      Linked-at channels publishing w.subscribers id s w.clients y refl (λ k a. a),
      Monitored-at w.monitors w.subscriber_count id s w.clients z refl (λ k a. a),
    )

unwatch_all-IsConsistent : (id : ℕ) (w : World) → IsConsistent w → IsConsistent (unwatch_all id w)
unwatch_all-IsConsistent id w k =
    with_client-IsConsistent id clear_transaction_failure
      (if (w.clients id).has_watch_registry then unwatch_registry id w else w)
      (refl, (λ k a. a), refl, (λ k a. a), refl, (λ k a. a))
      (if_IsConsistent _ _ _ (λ h. unwatch_registry-IsConsistent id w k) (λ h. k))

subscribe_channel-IsConsistent :
    (id : ℕ) (channel : Bytes) (w : World)
    → IsConsistent w
    → IsConsistent (subscribe_channel id channel w)
subscribe_channel-IsConsistent id channel w (x, y, z) =
    let s = add_subscribed_channel channel (w.clients id) in
    if_IsConsistent _ _ _
      (λ h. (
        Linked-at watched watching w.watchers id s w.clients x refl (λ k a. a),
        Linked-join channels publishing w.subscribers id s w.clients y channel refl h,
        Monitored-at w.monitors w.subscriber_count id s w.clients z refl (λ k a. a),
      ))
      (λ h. (x, y, z))

unsubscribe_channel-IsConsistent :
    (id : ℕ) (channel : Bytes) (w : World)
    → IsConsistent w
    → IsConsistent (unsubscribe_channel id channel w)
unsubscribe_channel-IsConsistent id channel w (x, y, z) =
    let s = remove_subscribed_channel channel (w.clients id) in
    if_IsConsistent _ _ _
      (λ h. (
        Linked-at watched watching w.watchers id s w.clients x refl (λ k a. a),
        Linked-leave channels publishing w.subscribers id s w.clients y channel refl refl,
        Monitored-at w.monitors w.subscriber_count id s w.clients z refl (λ k a. a),
      ))
      (λ h. (x, y, z))

unsubscribe_all-IsConsistent :
    (id : ℕ) (w : World) → IsConsistent w → IsConsistent (unsubscribe_all id w)
unsubscribe_all-IsConsistent id w (x, y, z) =
    let s : ClientState = record (w.clients id) { subscribed_channels = [] } in
    if_IsConsistent _ _ _
      (λ h. (
        Linked-at watched watching w.watchers id s w.clients x refl (λ k a. a),
        Linked-leave_all channels publishing w.subscribers id s w.clients y refl refl,
        Monitored-at w.monitors w.subscriber_count id s w.clients z refl (λ k a. a),
      ))
      (λ h. (x, y, z))

start_monitoring-IsConsistent :
    (id : ℕ) (w : World) → IsConsistent w → IsConsistent (start_monitoring id w)
start_monitoring-IsConsistent id w (x, y, z) =
    let s = set_monitoring true (w.clients id) in
    if_IsConsistent _ _ _
      (λ h. (
        Linked-at watched watching w.watchers id s w.clients x refl (λ k a. a),
        Linked-at channels publishing w.subscribers id s w.clients y refl (λ k a. a),
        Monitored-insert_id w.monitors w.subscriber_count id s w.clients z refl h,
      ))
      (λ h. (x, y, z))

stop_monitoring-IsConsistent :
    (id : ℕ) (w : World) → IsConsistent w → IsConsistent (stop_monitoring id w)
stop_monitoring-IsConsistent id w (x, y, z) =
    let s = set_monitoring false (w.clients id) in
    if_IsConsistent _ _ _
      (λ h. (
        Linked-at watched watching w.watchers id s w.clients x refl (λ k a. a),
        Linked-at channels publishing w.subscribers id s w.clients y refl (λ k a. a),
        Monitored-delete_id w.monitors w.subscriber_count id s w.clients z refl,
      ))
      (λ h.
        let absent : (w.clients id).monitoring ≡ false = ground (arith, z.0 id) in
        (with_client-IsConsistent id (set_monitoring false) w
          (refl, (λ k a. a), refl, (λ k a. a), rw absent, (λ k a. a)) (x, y, z)))

pub disconnect-IsConsistent : (id : ℕ) (w : World) → IsConsistent w → IsConsistent (disconnect id w)
unfolding disconnect
disconnect-IsConsistent id w k =
    let w1 = with_client id close_writer w in
    let w2 = with_client id reset_transaction w1 in
    let w3 = stop_monitoring id w2 in
    let k1 =
      with_client-IsConsistent id close_writer w
        (refl, (λ k a. a), refl, (λ k a. a), refl, (λ k a. a)) k in
    let k2 =
      with_client-IsConsistent id reset_transaction w1
        (refl, (λ k a. a), refl, (λ k a. a), refl, (λ k a. a)) k1 in
    let k3 = stop_monitoring-IsConsistent id w2 k2 in
    unwatch_all-IsConsistent id (unsubscribe_all id w3) (unsubscribe_all-IsConsistent id w3 k3)

pub run-IsConsistent : (o : Op) (w : World) → Spares o w → IsConsistent w → IsConsistent (run o w)
unfolding run watch_keys
run-IsConsistent (local id o) w p k =
    with_client-IsConsistent id (apply o) w (apply-Keeps o (w.clients id) p) k
run-IsConsistent (watch_op id keys) w p k =
    if_IsConsistent _ _ _ (λ h. watch-IsConsistent keys id w h k) (λ h. k)
run-IsConsistent (unwatch_op id) w p k = unwatch_all-IsConsistent id w k
run-IsConsistent (touch_op keys) w p k = touch-IsConsistent keys w k
run-IsConsistent (subscribe_op id channel) w p k = subscribe_channel-IsConsistent id channel w k
run-IsConsistent (unsubscribe_op id channel) w p k = unsubscribe_channel-IsConsistent id channel w k
run-IsConsistent (unsubscribe_all_op id) w p k = unsubscribe_all-IsConsistent id w k
run-IsConsistent (monitor_op id) w p k = start_monitoring-IsConsistent id w k
run-IsConsistent (unmonitor_op id) w p k = stop_monitoring-IsConsistent id w k
run-IsConsistent (disconnect_op id) w p k = disconnect-IsConsistent id w k

run_all-keeps :
    (ops : List Op) (w : World) → SparesAll ops w → IsConsistent w → IsConsistent (run_all ops w)
run_all-keeps [] w p k = k
run_all-keeps (o ∷ ops) w (p, ps) k = run_all-keeps ops (run o w) ps (run-IsConsistent o w p k)

-- After any sequence of operations from the start in which nil is given for a registry only to a
-- client that has nothing in it (no watched key, no channel, no monitoring), each client is in a
-- registry under exactly the keys and channels of its own state, and in the MONITOR registry, once,
-- exactly when it monitors; only a client that has a registry is in it; and the MONITOR counter is the
-- number of the monitoring clients.
pub run_all-IsConsistent :
    (ops : List Op) → SparesAll ops new_world → IsConsistent (run_all ops new_world)
run_all-IsConsistent ops p = run_all-keeps ops new_world p (
  (λ i key. (refl, (λ h. ground arith))),
  (λ i key. (refl, (λ h. ground arith))),
  ((λ i. (refl, (λ h. ground arith))), tt, refl),
)
