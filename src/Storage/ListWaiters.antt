-- ===== src/Storage/ListWaiters.antt =====
-- Clients that wait for a push to a list: list_waiters.go. A channel is the number of its subscription,
-- and a channel that was sent its one message is signalled. A queue is the list of its channels, oldest
-- first; an empty queue stands for one that the map does not have.
pub mod Order
use runedb.Base.{
  ℕ, suc, ◌==◌, Bool, true, false, List, [], ◌∷◌, ◌++◌, Bytes, if◌then◌else◌, equal_bytes,
}

pub record ListWaiters : Type 0 where
  pub waiters : Bytes → List ℕ
  pub next_channel : ℕ
  pub signalled : ℕ → Bool

abbrev pub new_list_waiters : ListWaiters
new_list_waiters = record { waiters = λ key. []; next_channel = 0; signalled = λ ch. false }

abbrev pub with_queue : Bytes → List ℕ → ListWaiters → ListWaiters
with_queue key queue w = record w {
  waiters = λ k. if equal_bytes key k then queue else w.waiters k;
}

unfoldable pub subscribe_push : Bytes → ListWaiters → ListWaiters × ℕ
subscribe_push key w = (
  record (with_queue key (w.waiters key ++ w.next_channel ∷ []) w) {
    next_channel = suc w.next_channel;
  },
  w.next_channel,
)

abbrev pub without : ℕ → List ℕ → List ℕ
without ch [] = []
without ch (c ∷ queue) = if c == ch then queue else c ∷ without ch queue

unfoldable pub unsubscribe_push : Bytes → ℕ → ListWaiters → ListWaiters
unsubscribe_push key ch w = with_queue key (without ch (w.waiters key)) w

abbrev pub notify_front : List ℕ → Bytes → ListWaiters → ListWaiters
notify_front [] key w = w
notify_front (ch ∷ queue) key w = record (with_queue key queue w) {
  signalled = λ c. if ch == c then true else w.signalled c;
}

-- `notifyOne`: a channel's message that is there already is not sent again.
unfoldable pub notify_one : Bytes → ListWaiters → ListWaiters
notify_one key w = notify_front (w.waiters key) key w
