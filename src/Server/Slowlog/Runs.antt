-- ===== src/Server/Slowlog/Runs.antt =====
-- Runs of concurrent `Record` and `Reset` calls of slowlog.go, and the log that a run stands for.
use runedb.Base.{◌++◌, get_elem?, Option, none, some, ℕ, zero, suc, ◌+◌, ◌≡◌, refl, List, [], ◌∷◌}
use runedb.Base.Int.{wrapped_int64}
use runedb.Server.Slowlog.{
  SlowlogEntry, SlowlogRegistry, make_registry, reset, record_entry, reserve, insert_locked,
  insert_reserved,
}

-- A step of the calls that change the log: a `Record` takes its identifier; the `Record` that is the
-- `i`-th of those that wait for the lock stores its entry; a `Reset` runs.
pub data Step {ℓ} (P : Type ℓ) : Type ℓ where
  begin : P → Step P
  commit : ℕ → Step P
  wipe : Step P

-- The registry, and the entries of the `Record` calls that wait for the lock.
pub record Running {ℓ} (P : Type ℓ) : Type ℓ where
  pub registry : SlowlogRegistry P
  pub waiting : List (SlowlogEntry P)

-- What the log stands for: every entry stored since the last `Reset`, newest first, the entries that
-- wait, and how many identifiers were taken.
pub record Log {ℓ} (P : Type ℓ) : Type ℓ where
  pub log : List (SlowlogEntry P)
  pub in_flight : List (SlowlogEntry P)
  pub next : ℕ

-- The list without its `i`-th item.
abbrev pub without {ℓ} : {A : Type ℓ} → List A → ℕ → List A
without [] i = []
without (x ∷ xs) zero = xs
without (x ∷ xs) (suc i) = x ∷ without xs i

module _ {ℓ} {P : Type ℓ} where
  unfoldable pub log_stored : Log P → ℕ → Option (SlowlogEntry P) → Log P
  log_stored l i none = l
  log_stored l i (some e) = record l { log = e ∷ l.log; in_flight = without l.in_flight i }

  unfoldable pub log_step : Log P → Step P → Log P
  unfolding log_stored
  log_step l (begin p) = record l {
    in_flight = l.in_flight ++ (record { id = wrapped_int64 l.next; payload = p }) ∷ [];
    next = l.next + 1;
  }
  log_step l (commit i) = log_stored l i (get_elem? l.in_flight i)
  log_step l wipe = record l { log = [] }

  abbrev pub log_steps : Log P → List (Step P) → Log P
  log_steps l [] = l
  log_steps l (c ∷ cs) = log_steps (log_step l c) cs

  abbrev pub no_log : Log P
  no_log = record { log = []; in_flight = []; next = 0 }

  unfoldable pub reserved :
      List (SlowlogEntry P) → SlowlogRegistry P × Option (SlowlogEntry P) → Running P
  reserved waiting (r, none) = record { registry = r; waiting = waiting }
  reserved waiting (r, some e) = record { registry = r; waiting = waiting ++ e ∷ [] }

  unfoldable pub stored : Running P → ℕ → Option (SlowlogEntry P) → Running P
  stored s i none = s
  stored s i (some e) = record {
    registry = insert_locked s.registry e;
    waiting = without s.waiting i;
  }

module _ {ℓ} {P : Type ℓ} (empty : SlowlogEntry P) where
  unfoldable pub step : Running P → Step P → Running P
  unfolding reserved stored
  step s (begin p) = reserved s.waiting (reserve s.registry p)
  step s (commit i) = stored s i (get_elem? s.waiting i)
  step s wipe = record s { registry = reset empty s.registry }

  abbrev pub steps : Running P → List (Step P) → Running P
  steps s [] = s
  steps s (c ∷ cs) = steps (step s c) cs

  abbrev pub idle : ℕ → Running P
  idle n = record { registry = make_registry empty n; waiting = [] }

  -- A `Record` that nothing interrupts is its two steps.
  steps-record_entry :
      (r : SlowlogRegistry P) (p : P)
      → steps (record { registry = r; waiting = [] }) (begin p ∷ commit 0 ∷ [])
        ≡ record { registry = record_entry r p; waiting = [] }
  unfolding step reserved stored record_entry insert_reserved
  steps-record_entry r p = whole (reserve r p)
    where
      whole :
          (o : SlowlogRegistry P × Option (SlowlogEntry P))
          → stored (reserved [] o) 0 (get_elem? (reserved [] o).waiting 0)
            ≡ record { registry = insert_reserved o; waiting = [] }
      whole (r', none) = refl
      whole (r', some e) = refl
