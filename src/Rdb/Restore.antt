-- ===== src/Rdb/Restore.antt =====
-- A snapshot loaded into a keyspace: internal/rdb with internal/storage/store.go, whose Set the loader
-- calls.
use runedb.Base.{
  ℕ, ◌+◌, ◌≡◌, refl, sym, ap, ◌∙◌, inl, inr, Bool, true, false, not, ◌&&◌, Bool-cases, Option, none,
  some, List, [], ◌∷◌, Bytes, if◌then◌else◌, equal_bytes, equal_bytes_iff, ok, arith,
}
use runedb.Base.Int.{ℤ, pos, ltb_ℤ}
use runedb.Storage.Keyspace.{ValueObject, string_value, Store, new_store, new_value, stored}
use runedb.Storage.Keyspace.Ops.{set_string}
use runedb.Storage.Keyspace.Effect.{setting}
use runedb.Storage.Keyspace.Simulates.{operate-outcome}
use runedb.Rdb.Load.{LoadState, store_entry, load_reader}
use runedb.Rdb.Snapshot.{
  StringSnapshotEntry, less, insert_entry, sort_entries, is_dead, build_snapshot,
}
use runedb.Rdb.Snapshot.RoundTrip.{AllWritable, deadline, replay, live, load_reader-build_snapshot}

-- No entry has the key.
abbrev pub Lacks : Bytes → List StringSnapshotEntry → Type 0
Lacks k [] = Unit
Lacks k (e ∷ es) = (equal_bytes e.key k ≡ false) × Lacks k es

abbrev pub AreDistinct : List StringSnapshotEntry → Type 0
AreDistinct [] = Unit
AreDistinct (e ∷ es) = Lacks e.key es × AreDistinct es

Lacks-insert_entry :
    (k : Bytes) (e : StringSnapshotEntry) (es : List StringSnapshotEntry)
    → equal_bytes e.key k ≡ false
    → Lacks k es
    → Lacks k (insert_entry e es)
Lacks-insert_entry k e [] h l = (h, tt)
Lacks-insert_entry k e (f ∷ fs) h l = elim (Bool-cases (less f.key e.key)) [
  | inl before ↦ rw before (l.0, Lacks-insert_entry k e fs h l.1)
  | inr after ↦ rw after (h, l)
]

Lacks-sort_entries :
    (k : Bytes) (es : List StringSnapshotEntry) → Lacks k es → Lacks k (sort_entries es)
Lacks-sort_entries k [] l = tt
Lacks-sort_entries k (e ∷ es) l =
    Lacks-insert_entry k e (sort_entries es) l.0 (Lacks-sort_entries k es l.1)

module _ {ℓ} {C : Type ℓ} (saved now : ℤ) (k : Bytes) where
  -- What an entry makes of the value under the key: it was saved if it was live then, and is set if it
  -- is live now.
  abbrev pub restored : StringSnapshotEntry → Option (ValueObject C) → Option (ValueObject C)
  restored e old =
      if equal_bytes e.key k
      then (if is_dead saved e
          then old
          else if is_dead now e
          then old
          else some (new_value (string_value e.content) (deadline e) now))
      else old

  abbrev pub restored_all :
      List StringSnapshotEntry → Option (ValueObject C) → Option (ValueObject C)
  restored_all [] old = old
  restored_all (e ∷ es) old = restored_all es (restored e old)

  -- The value that a list of entries with different keys has for the key.
  abbrev pub saved_value : List StringSnapshotEntry → Option (ValueObject C)
  saved_value [] = none
  saved_value (e ∷ es) = if equal_bytes e.key k then restored e none else saved_value es

  restored_absent :
      (es : List StringSnapshotEntry) (old : Option (ValueObject C))
      → Lacks k es
      → restored_all es old ≡ old
  restored_absent [] old l = refl
  restored_absent (e ∷ es) old l = ap (restored_all es) (rw l.0) ∙ restored_absent es old l.1

  restored_swap :
      (e f : StringSnapshotEntry) (old : Option (ValueObject C))
      → equal_bytes f.key e.key ≡ false
      → restored e (restored f old) ≡ restored f (restored e old)
  restored_swap e f old h = elim (Bool-cases (equal_bytes e.key k)) [
    | inl same ↦
        let apart : equal_bytes f.key k ≡ false =
          ap (equal_bytes f.key) (sym ((equal_bytes_iff e.key k).0 same)) ∙ h in
        rw (same, apart)
    | inr other ↦ rw other
  ]

  restored_insert :
      (e : StringSnapshotEntry) (es : List StringSnapshotEntry) (old : Option (ValueObject C))
      → Lacks e.key es
      → restored_all (insert_entry e es) old ≡ restored_all es (restored e old)
  restored_insert e [] old l = refl
  restored_insert e (f ∷ fs) old l = elim (Bool-cases (less f.key e.key)) [
    | inl before ↦ rw before (
        restored_insert e fs (restored f old) l.1
        ∙ ap (restored_all fs) (restored_swap e f old l.0))
    | inr after ↦ rw after
  ]

  restored_sort :
      (es : List StringSnapshotEntry) (old : Option (ValueObject C))
      → AreDistinct es
      → restored_all (sort_entries es) old ≡ restored_all es old
  restored_sort [] old d = refl
  restored_sort (e ∷ es) old d =
      restored_insert e (sort_entries es) old (Lacks-sort_entries e.key es d.0)
      ∙ restored_sort es (restored e old) d.1

  restored_saved :
      (es : List StringSnapshotEntry) → AreDistinct es → restored_all es none ≡ saved_value es
  restored_saved [] d = refl
  restored_saved (e ∷ es) d = elim (Bool-cases (equal_bytes e.key k)) [
    | inl same ↦
        let l : Lacks k es = rw (← (equal_bytes_iff e.key k).0 same) d.0 in
        restored_absent es (restored e none) l
        ∙ sym (ap (λ b. if b then restored e none else saved_value es) same)
    | inr other ↦ rw other (restored_saved es d.1)
  ]

-- The clock, at one time.
abbrev pub frozen : ℤ → ℕ → ℤ
frozen now n = now

deadline_test :
    (z now : ℤ) (b : Bool)
    → b ≡ ltb_ℤ (pos 0) z
    → (ltb_ℤ (pos 0) (if b then z else pos 0) && not (ltb_ℤ now (if b then z else pos 0)))
      ≡ (b && not (ltb_ℤ now z))
deadline_test z now true e = ap (λ c. c && not (ltb_ℤ now z)) (sym e)
deadline_test z now false e = let unset : ltb_ℤ (pos 0) (pos 0) ≡ false = ground arith in rw unset

is_dead-deadline :
    (now : ℤ) (e : StringSnapshotEntry)
    → (ltb_ℤ (pos 0) (deadline e) && not (ltb_ℤ now (deadline e))) ≡ is_dead now e
is_dead-deadline now e = deadline_test e.expires_at now (ltb_ℤ (pos 0) e.expires_at) refl

module _ {ℓ} {C : Type ℓ} (hash : Bytes → ℕ) (saved now : ℤ) where
  -- Store.Set, as the loader uses it.
  abbrev pub set_now : Store C → Bytes → Bytes → ℤ → Option (Store C)
  set_now s key content expires_at = some (set_string hash key content expires_at now s)

  -- One entry.
  Stores : StringSnapshotEntry → LoadState (Store C) → Type ℓ
  Stores e st =
      (st' : LoadState (Store C)) × (store_entry set_now (frozen now) st e.key e.content
          (deadline e)
        ≡ ok st')
      × ((k : Bytes)
          → stored hash k st'.store ≡ (
              if equal_bytes e.key k
              then (if is_dead now e
                  then stored hash k st.store
                  else some (new_value (string_value e.content) (deadline e) now))
              else stored hash k st.store))

  stores : (e : StringSnapshotEntry) (st : LoadState (Store C)) → Stores e st
  unfolding Stores store_entry
  stores e st = elim (Bool-cases (is_dead now e)) [
    | inl dead ↦
        let test = is_dead-deadline now e ∙ dead in
        (
          record st { skipped = st.skipped + 1 },
          rw test,
          λ k. rw dead (elim (Bool-cases (equal_bytes e.key k)) [ inl a ↦ rw a | inr b ↦ rw b ]),
        )
    | inr alive ↦
        let test = is_dead-deadline now e ∙ alive in
        (
          record st {
            store = set_string hash e.key e.content (deadline e) now st.store;
            loaded = st.loaded + 1;
          },
          rw test,
          λ k.
              rw alive
                ((operate-outcome hash e.key now (setting e.content (deadline e)) st.store).0 k),
        )
  ]

  Replays : List StringSnapshotEntry → LoadState (Store C) → Type ℓ
  Replays es st =
      (st' : LoadState (Store C)) × (replay set_now (frozen now) (live saved es) st ≡ ok st')
      × ((k : Bytes)
          → stored hash k st'.store ≡ restored_all saved now k es (stored hash k st.store))

  replays : (es : List StringSnapshotEntry) (st : LoadState (Store C)) → Replays es st
  unfolding Replays Stores
  replays [] st = (st, refl, λ k. refl)
  replays (e ∷ es) st = elim (Bool-cases (is_dead saved e)) [
    | inl dead ↦
        let (st', ran, after) = replays es st in
        (
          st',
          rw dead ran,
          λ k.
              after k
              ∙ ap (restored_all saved now k es) (
                  rw dead
                    (elim (Bool-cases (equal_bytes e.key k)) [ inl a ↦ rw a | inr b ↦ rw b ])),
        )
    | inr alive ↦
        let (st1, first, here) = stores e st in
        let (st', ran, after) = replays es st1 in
        (
          st',
          rw (alive, first) ran,
          λ k. after k ∙ ap (restored_all saved now k es) (here k ∙ rw alive),
        )
  ]

  -- Loading the snapshot of entries with different keys, whose strings are at most 512 MiB long, into an
  -- empty store succeeds; afterwards the store has, for each key, the string that the entries have for
  -- it with its deadline, if it had not run out at the time of the save nor at that of the load, and
  -- nothing for any other key.
  pub load_reader-saved_value :
      (es : List StringSnapshotEntry)
      → AllWritable es
      → AreDistinct es
      → (st : LoadState (Store C)) × (load_reader set_now
            (frozen now)
            new_store
            (build_snapshot saved es).0
          ≡ ok st)
        × ((k : Bytes) → stored hash k st.store ≡ saved_value saved now k es)
  unfolding Replays
  load_reader-saved_value es w d =
      let (st, ran, after) =
        replays (sort_entries es) (record { store = new_store; loaded = 0; skipped = 0 }) in
      (
        st,
        load_reader-build_snapshot set_now (frozen now) saved es new_store w ∙ ran,
        λ k. after k ∙ restored_sort saved now k es none d ∙ restored_saved saved now k es d,
      )
