-- ===== src/Server/Slowlog/History.antt =====
-- The ring shows the newest entries that the calls stored, newest first, however they interleave.
use Prim.Native.Nat.{min}
use runedb.Base.{
  false, ◌++◌, ◌-◌, ◌^◌, get_elem?, Option, none, some, ℕ, ◌+◌, ◌%◌, ◌<◌, ◌≡◌, inl, inr, refl, ap,
  ◌∙◌, Bool-cases, List, [], ◌∷◌, ltb, ◌==◌, if◌then◌else◌, length, take, length-replicate, arith,
}
use runedb.Base.Int.{ℤ, pos, wrapped_int64, neg}
use runedb.Server.Slowlog.{
  SlowlogEntry, SlowlogRegistry, make_registry, reset, entries_of, reserve, take_id, insert_locked,
}
use runedb.Server.Slowlog.Runs
use runedb.Server.Slowlog.Runs.{
  Step, commit, wipe, Running, Log, without, log_stored, log_step, log_steps, no_log, reserved,
  stored, step, steps, idle,
}
use runedb.Server.Slowlog.Ring.{limited, Shows, Shows-reset, Shows-insert_locked, entries_of-Shows}

next_id_kept {ℓ} :
    {P : Type ℓ} (r : SlowlogRegistry P) (e : SlowlogEntry P)
    → (insert_locked r e).next_id ≡ r.next_id
unfolding insert_locked
next_id_kept r e = elim (Bool-cases (r.count == length r.entries)) [ inl h ↦ rw h | inr h ↦ rw h ]

-- The identifier does not depend on the wraps of the counter.
taken : (next : ℕ) → wrapped_int64 ((next % 2 ^ 64 + 1) % 2 ^ 64 + 2 ^ 64 - 1) ≡ wrapped_int64 next
taken next =
    ap (λ n. if ltb n (2 ^ 63) then pos n else neg (2 ^ 64 - n))
      (let same : ((next % 2 ^ 64 + 1) % 2 ^ 64 + 2 ^ 64 - 1) % 2 ^ 64 ≡ next % 2 ^ 64 =
          omega arith in
        same)

module _ {ℓ} {P : Type ℓ} (empty : SlowlogEntry P) where
  -- The running calls and the log that they stand for.
  record Follows (n : ℕ) (s : Running P) (l : Log P) : Type ℓ where
    shows : Shows empty n s.registry l.log
    waits : s.waiting ≡ l.in_flight
    ids : s.registry.next_id ≡ l.next % 2 ^ 64

  Follows-begin :
      (n : ℕ) (s : Running P) (l : Log P) (p : P)
      → 0 < n
      → Follows n s l
      → Follows n (step empty s (Runs.begin p)) (log_step l (Runs.begin p))
  unfolding step log_step reserve take_id reserved
  Follows-begin n s l p h f =
      let room : (length s.registry.entries == 0) ≡ false = ground (arith, f.shows.size) in
      rw (room, f.ids, f.waits)
        (record {
          shows = record {
            size = f.shows.size;
            in_ring = f.shows.in_ring;
            held = f.shows.held;
            same = f.shows.same;
          };
          waits = ap (λ z. l.in_flight ++ (record { id = z; payload = p }) ∷ []) (taken l.next);
          ids = omega arith;
        })

  Follows-stored :
      (n : ℕ) (s : Running P) (l : Log P) (i : ℕ)
      → Follows n s l
      → (o : Option (SlowlogEntry P)) → Follows n (stored s i o) (log_stored l i o)
  unfolding stored log_stored
  Follows-stored n s l i f none = f
  Follows-stored n s l i f (some e) = record {
    shows = Shows-insert_locked empty n s.registry l.log f.shows e;
    waits = ap (λ es. without es i) f.waits;
    ids = next_id_kept s.registry e ∙ f.ids;
  }

  Follows-commit :
      (n : ℕ) (s : Running P) (l : Log P) (i : ℕ)
      → Follows n s l
      → Follows n (step empty s (commit i)) (log_step l (commit i))
  unfolding step log_step
  Follows-commit n s l i f =
      rw (ap (λ ws. get_elem? ws i) f.waits) (Follows-stored n s l i f (get_elem? l.in_flight i))

  Follows-wipe :
      (n : ℕ) (s : Running P) (l : Log P)
      → Follows n s l
      → Follows n (step empty s wipe) (log_step l wipe)
  unfolding step log_step reset
  Follows-wipe n s l f = record {
    shows = Shows-reset empty n s.registry l.log f.shows;
    waits = f.waits;
    ids = f.ids;
  }

  Follows-steps :
      (n : ℕ) (s : Running P) (l : Log P) (cs : List (Step P))
      → 0 < n
      → Follows n s l
      → Follows n (steps empty s cs) (log_steps l cs)
  Follows-steps n s l [] h f = f
  Follows-steps n s l (Runs.begin p ∷ cs) h f =
      Follows-steps n (step empty s (Runs.begin p)) (log_step l (Runs.begin p)) cs h
        (Follows-begin n s l p h f)
  Follows-steps n s l (commit i ∷ cs) h f =
      Follows-steps n (step empty s (commit i)) (log_step l (commit i)) cs h
        (Follows-commit n s l i f)
  Follows-steps n s l (wipe ∷ cs) h f =
      Follows-steps n (step empty s wipe) (log_step l wipe) cs h (Follows-wipe n s l f)

  Follows-idle : (n : ℕ) → 0 < n → Follows n (idle empty n) no_log
  unfolding make_registry
  Follows-idle n h = record {
    shows = record {
      size = length-replicate n empty;
      in_ring = h;
      held = omega arith;
      same = λ j k. absurd (omega arith);
    };
    waits = refl;
    ids = refl;
  }

-- After any steps of concurrent `Record` and `Reset` calls on a new slow log of a positive capacity
-- `n`, `Entries` returns the newest of the entries stored since the last `Reset`, in the order in which
-- they were stored, last first: as many as there are, at most `n`, and at most the limit where that is
-- not negative. The identifiers are those of the taking order, from 0 on, wrapped to an int64, and go
-- on across resets; a call that took its identifier first may store its entry last.
pub entries_of-steps {ℓ} :
    {P : Type ℓ} (empty : SlowlogEntry P) (n : ℕ) (cs : List (Step P)) (limit : ℤ)
    → 0 < n
    → entries_of empty (steps empty (idle empty n) cs).registry limit
      ≡ take (limited (min (length (log_steps no_log cs).log) n) limit) (log_steps no_log cs).log
entries_of-steps empty n cs limit h =
    entries_of-Shows empty n _ _ limit
      (Follows-steps empty n _ _ cs h (Follows-idle empty n h)).shows
