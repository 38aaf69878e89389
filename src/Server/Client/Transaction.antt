-- ===== src/Server/Client/Transaction.antt =====
-- MULTI and EXEC on one client's state.
use runedb.Base.{
  ◌≡◌, refl, sym, ◌∙◌, append-nil, arith, Bool, true, false, List, [], ◌∷◌, ◌++◌, append_assoc,
  if◌then◌else◌,
}
use runedb.Server.Client.{
  QueuedCommand, ClientState, begin_transaction, enqueue_command, drain_transaction,
  mark_transaction_failed, mark_transaction_dirty,
}

-- What may happen to a client between MULTI and EXEC: a command is queued, a queued command is refused,
-- or a watched key changes.
pub data TxStep : Type 0 where
  queue : QueuedCommand → TxStep
  refuse : TxStep
  invalidate : TxStep

abbrev pub tx_run : List TxStep → ClientState → ClientState
tx_run [] s = s
tx_run (queue c ∷ steps) s = tx_run steps (enqueue_command c.name c.args s)
tx_run (refuse ∷ steps) s = tx_run steps (mark_transaction_dirty s)
tx_run (invalidate ∷ steps) s = tx_run steps (mark_transaction_failed s)

abbrev pub queued : List TxStep → List QueuedCommand
queued [] = []
queued (queue c ∷ steps) = c ∷ queued steps
queued (refuse ∷ steps) = queued steps
queued (invalidate ∷ steps) = queued steps

abbrev pub refused : List TxStep → Bool
refused [] = false
refused (queue c ∷ steps) = refused steps
refused (refuse ∷ steps) = true
refused (invalidate ∷ steps) = refused steps

abbrev pub invalidated : List TxStep → Bool
invalidated [] = false
invalidated (queue c ∷ steps) = invalidated steps
invalidated (refuse ∷ steps) = invalidated steps
invalidated (invalidate ∷ steps) = true

tx_run-queue :
    (steps : List TxStep) (s : ClientState) → (tx_run steps s).tx_queue ≡ s.tx_queue ++ queued steps
tx_run-queue [] s = sym (append-nil s.tx_queue)
tx_run-queue (queue c ∷ steps) s =
    tx_run-queue steps (enqueue_command c.name c.args s)
    ∙ append_assoc s.tx_queue (c ∷ []) (queued steps)
tx_run-queue (refuse ∷ steps) s = tx_run-queue steps (mark_transaction_dirty s)
tx_run-queue (invalidate ∷ steps) s = tx_run-queue steps (mark_transaction_failed s)

tx_run-dirty :
    (steps : List TxStep) (s : ClientState)
    → (tx_run steps s).tx_dirty ≡ (if refused steps then true else s.tx_dirty)
tx_run-dirty [] s = refl
tx_run-dirty (queue c ∷ steps) s = tx_run-dirty steps (enqueue_command c.name c.args s)
tx_run-dirty (refuse ∷ steps) s =
    tx_run-dirty steps (mark_transaction_dirty s) ∙ same (refused steps)
  where
    same : (b : Bool) → (if b then true else true) ≡ true
    same true = refl
    same false = refl
tx_run-dirty (invalidate ∷ steps) s = tx_run-dirty steps (mark_transaction_failed s)

tx_run-failed :
    (steps : List TxStep) (s : ClientState)
    → (tx_run steps s).tx_failed ≡ (if invalidated steps then true else s.tx_failed)
tx_run-failed [] s = refl
tx_run-failed (queue c ∷ steps) s = tx_run-failed steps (enqueue_command c.name c.args s)
tx_run-failed (refuse ∷ steps) s = tx_run-failed steps (mark_transaction_dirty s)
tx_run-failed (invalidate ∷ steps) s =
    tx_run-failed steps (mark_transaction_failed s) ∙ same (invalidated steps)
  where
    same : (b : Bool) → (if b then true else true) ≡ true
    same true = refl
    same false = refl

tx_run-in_transaction :
    (steps : List TxStep) (s : ClientState) → (tx_run steps s).in_transaction ≡ s.in_transaction
tx_run-in_transaction [] s = refl
tx_run-in_transaction (queue c ∷ steps) s =
    tx_run-in_transaction steps (enqueue_command c.name c.args s)
tx_run-in_transaction (refuse ∷ steps) s = tx_run-in_transaction steps (mark_transaction_dirty s)
tx_run-in_transaction (invalidate ∷ steps) s =
    tx_run-in_transaction steps (mark_transaction_failed s)

-- The state when EXEC comes.
abbrev pub at_exec : List TxStep → ClientState → ClientState
at_exec steps s = tx_run steps (begin_transaction s).0

-- A transaction that is begun outside of one, through any commands queued or refused and any
-- invalidations: it is open, it is dirty exactly when a command was refused, it has failed exactly when
-- it had before or was invalidated, and draining it gives the queued commands in their order, whatever
-- was queued before it began.
pub drain_transaction-queued :
    (steps : List TxStep) (s : ClientState)
    → s.in_transaction ≡ false
    → ((at_exec steps s).in_transaction ≡ true)
      × ((at_exec steps s).tx_dirty ≡ refused steps)
      × ((at_exec steps s).tx_failed ≡ (if invalidated steps then true else s.tx_failed))
      × ((drain_transaction (at_exec steps s)).1 ≡ queued steps)
drain_transaction-queued steps s h =
    let s1 : ClientState = record s { in_transaction = true; tx_dirty = false; tx_queue = [] } in
    let e : (begin_transaction s).0 ≡ s1 = outside s.in_transaction h in
    rw e (
      tx_run-in_transaction steps s1,
      tx_run-dirty steps s1 ∙ same (refused steps),
      tx_run-failed steps s1,
      tx_run-queue steps s1,
    )
  where
    outside :
        (b : Bool)
        → b ≡ false
        → (if◌then◌else◌ {A = ClientState × Bool} b
            (s, false)
            (record s { in_transaction = true; tx_dirty = false; tx_queue = [] }, true)).0
          ≡ record s { in_transaction = true; tx_dirty = false; tx_queue = [] }
    outside true h = ground arith
    outside false h = refl

    same : (b : Bool) → (if b then true else false) ≡ b
    same true = refl
    same false = refl
