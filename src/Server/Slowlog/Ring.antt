-- ===== src/Server/Slowlog/Ring.antt =====
-- The ring of slowlog.go shows the newest entries that were stored, newest first.
use Prim.Native.Nat.{min}
use runedb.Base.{
  ℕ, zero, suc, ◌+◌, ◌%◌, ◌≤◌, ◌<◌, ◌≡◌, ◌≢◌, inl, inr, refl, sym, ap, ◌∙◌, Bool-cases, List, [],
  ◌∷◌, ltb, ◌==◌, if◌then◌else◌, length, get_or, set, take, drop, length-set, get_or-set_self,
  get_or-set_ne, take-drop_one, arith,
}
use runedb.Base.Int.{ℤ, pos, negsuc}
use runedb.Server.Slowlog.{
  SlowlogEntry, SlowlogRegistry, clear, reset, entries_loop, entries_of, insert_locked,
}
use runedb.Server.Slowlog.Slots.{
  slot, slot_overwritten, slot_kept, slot_ne_start, slot_added, slot_later, slot_ne_added,
}

-- How many entries a limit asks for.
abbrev pub limited : ℕ → ℤ → ℕ
limited count (negsuc k) = count
limited count (pos limit) = min limit count

module _ {ℓ} {P : Type ℓ} (empty : SlowlogEntry P) where
  pub record Shows (n : ℕ) (r : SlowlogRegistry P) (log : List (SlowlogEntry P)) : Type ℓ where
    pub size : length r.entries ≡ n
    pub in_ring : r.start < n
    pub held : r.count ≡ min (length log) n
    pub same :
        (j : ℕ)
        → j < r.count
        → get_or r.entries (slot r.start r.count n j) empty ≡ get_or log j empty

  length-clear : (es : List (SlowlogEntry P)) → length (clear empty es) ≡ length es
  unfolding clear
  length-clear [] = refl
  length-clear (e ∷ es) = ap suc (length-clear es)

  pub Shows-reset :
      (n : ℕ) (r : SlowlogRegistry P) (log : List (SlowlogEntry P))
      → Shows n r log
      → Shows n (reset empty r) []
  unfolding reset
  Shows-reset n r log s = record {
    size = length-clear r.entries ∙ s.size;
    in_ring = omega (arith, s.in_ring);
    held = omega arith;
    same = λ j h. absurd (omega arith);
  }

  module _ (n : ℕ) (r : SlowlogRegistry P) (log : List (SlowlogEntry P)) (s : Shows n r log)
      (added : SlowlogEntry P) where
    same_full :
        r.count ≡ n
        → (j : ℕ) → j < n
        → get_or (set r.entries r.start added) (slot ((r.start + 1) % n) n n j) empty
          ≡ get_or (added ∷ log) j empty
    same_full full zero h =
        rw (slot_overwritten r.start n s.in_ring)
          (get_or-set_self r.entries r.start added empty (omega (arith, s.size, s.in_ring)))
    same_full full (suc j) h = rw (slot_kept r.start n s.in_ring j h) (
        get_or-set_ne r.entries r.start (slot r.start n n j) added empty
          (λ e. slot_ne_start r.start n s.in_ring j h (sym e))
        ∙ (rw full at (s.same j (omega arith))))

    same_room :
        r.count < n
        → (j : ℕ) → j < r.count + 1
        → get_or
            (set r.entries ((r.start + r.count) % n) added)
            (slot r.start (r.count + 1) n j)
            empty
          ≡ get_or (added ∷ log) j empty
    same_room room zero h = rw (slot_added r.start n s.in_ring r.count room) (
        get_or-set_self r.entries ((r.start + r.count) % n) added empty
          (omega (arith, s.size, s.in_ring)))
    same_room room (suc j) h = rw (slot_later r.start n s.in_ring r.count room j (omega arith)) (
        get_or-set_ne r.entries ((r.start + r.count) % n) (slot r.start r.count n j) added empty
          (λ e. slot_ne_added r.start n s.in_ring r.count room j (omega arith) (sym e))
        ∙ s.same j (omega arith))

    insert_full :
        r.count ≡ n
        → insert_locked r added
          ≡ record r { entries = set r.entries r.start added; start = (r.start + 1) % n }
    unfolding insert_locked
    insert_full full = ground (arith, s.size, s.in_ring)

    insert_room :
        r.count ≢ n
        → insert_locked r added ≡ record r {
          entries = set r.entries ((r.start + r.count) % n) added;
          count = r.count + 1;
        }
    unfolding insert_locked
    insert_room room = ground (arith, s.size, s.in_ring)

    Shows-full : r.count ≡ n → Shows n (insert_locked r added) (added ∷ log)
    Shows-full full = rw (insert_full full) (record {
      size = length-set r.entries r.start added ∙ s.size;
      in_ring = omega (arith, s.in_ring);
      held = omega (arith, s.held);
      same = λ j h. rw full (same_full full j (omega arith));
    })

    Shows-room : r.count ≢ n → Shows n (insert_locked r added) (added ∷ log)
    Shows-room room = rw (insert_room room) (record {
      size = length-set r.entries ((r.start + r.count) % n) added ∙ s.size;
      in_ring = s.in_ring;
      held = omega (arith, s.held);
      same = λ j h. same_room (omega (arith, s.held)) j h;
    })

    pub Shows-insert_locked : Shows n (insert_locked r added) (added ∷ log)
    Shows-insert_locked = elim (Bool-cases (r.count == n)) [
      | inl full ↦ Shows-full (ground arith)
      | inr room ↦ Shows-room (ground arith)
    ]

  entries_loop-take :
      (n : ℕ) (r : SlowlogRegistry P) (log : List (SlowlogEntry P)) (i left : ℕ)
      → Shows n r log
      → i + left ≤ r.count
      → entries_loop empty r i left ≡ take left (drop i log)
  unfolding entries_loop
  entries_loop-take n r log i zero s h = refl
  entries_loop-take n r log i (suc left) s h =
      rw
        (
          s.size,
          s.same i (omega arith),
          entries_loop-take n r log (i + 1) left s (omega arith),
          take-drop_one left i log empty (omega (arith, s.held)),
        )
        (let next : i + 1 ≡ suc i = omega arith in rw next)

  pub entries_of-Shows :
      (n : ℕ) (r : SlowlogRegistry P) (log : List (SlowlogEntry P)) (limit : ℤ)
      → Shows n r log
      → entries_of empty r limit ≡ take (limited (min (length log) n) limit) log
  unfolding entries_of
  entries_of-Shows n r log (negsuc k) s =
      rw (← s.held) (entries_loop-take n r log 0 r.count s (omega arith))
  entries_of-Shows n r log (pos limit) s = rw (← s.held) (
      entries_loop-take n r log 0 (if ltb limit r.count then limit else r.count) s (ground arith)
      ∙ ap (λ k. take k log) (ground arith))
