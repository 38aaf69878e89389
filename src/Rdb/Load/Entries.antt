-- ===== src/Rdb/Load/Entries.antt =====
-- A key and its string: the loader reads the two strings of the format and sets them.
use runedb.Base.{
  ℕ, ◌+◌, ◌==◌, ◌≡◌, sym, ap, ◌∙◌, inl, inr, Bool-cases, not, ◌&&◌, Option, Option-cases, some, [],
  ◌∷◌, Bytes, Result, ok, err, to_option, >>=-eq-ok, arith,
}
use runedb.Base.Int.{ℤ, pos, ltb_ℤ}
use runedb.Rdb.Reader.{RdbError, Read, read_byte, read_string}
use runedb.Rdb.Load.{LoadState, store_entry, read_entry, read_expiring_entry}
use runedb.Rdb.Load.Format.{entry, Strings, load_item, count_loaded}

module _ {ℓ} {A : Type ℓ} where
  ok_of_option : (r : Result RdbError A) (a : A) → to_option r ≡ some a → r ≡ ok a
  ok_of_option (ok b) a h = cc
  ok_of_option (err e) a h = cc

  pub ok_pair :
      (a b : A) (xs ys : Bytes) → ◌≡◌ {A = Read A} (ok (a, xs)) (ok (b, ys)) → (a ≡ b) × (xs ≡ ys)
  ok_pair a b xs ys h = (cc, cc)

module _ {ℓ} {S : Type ℓ} (put : S → Bytes → Bytes → ℤ → Option S) (clock : ℕ → ℤ) where
  load_item_entry :
      (s : LoadState S) (key content : Bytes) (at : ℤ)
      → load_item put clock s (entry at key content)
        ≡ to_option (store_entry put clock s key content at)
  unfolding load_item store_entry count_loaded
  load_item_entry s key content at =
      elim (Bool-cases (ltb_ℤ (pos 0) at && not (ltb_ℤ (clock (s.loaded + s.skipped)) at))) [
        | inl e ↦ rw e
        | inr e ↦ elim (Option-cases (put s.store key content at)) [
          | inl f ↦ rw (e, f)
          | inr (store, f) ↦ rw (e, f)
        ]
      ]

  -- The strings of a record and what setting them gives.
  abbrev pub Entered : LoadState S → ℤ → Bytes → LoadState S → Bytes → Type ℓ
  Entered s at bs s' rest =
      (key content : Bytes) × Strings bs key content rest
      × (load_item put clock s (entry at key content) ≡ some s')

  pub read_entry-Entered :
      (s s' : LoadState S) (value_type : ℕ) (at : ℤ) (bs rest : Bytes)
      → read_entry put clock s value_type at bs ≡ ok (s', rest)
      → (value_type ≡ 0) × Entered s at bs s' rest
  unfolding read_entry
  read_entry-Entered s s' value_type at bs rest h = elim (Bool-cases (value_type == 0)) [
    | inl e ↦
        let h0 = rw e at h in
        let (a, p, h1) = >>=-eq-ok (read_string bs) _ h0 in
        let (b, q, h2) = >>=-eq-ok (read_string a.1) _ h1 in
        let (c, r, h3) = >>=-eq-ok (store_entry put clock s a.0 b.0 at) _ h2 in
        let (same, left) = ok_pair c s' b.1 rest h3 in
        (
          ground arith,
          (
            a.0,
            b.0,
            (a.1, p, q ∙ ap (λ x. ok (b.0, x)) left),
            load_item_entry s a.0 b.0 at ∙ (ap to_option r ∙ ap some same),
          ),
        )
    | inr e ↦ let h0 = rw e at h in absurd cc
  ]

  pub Entered-read_entry :
      (s s' : LoadState S) (at : ℤ) (bs rest key content : Bytes)
      → Strings bs key content rest
      → load_item put clock s (entry at key content) ≡ some s'
      → read_entry put clock s 0 at bs ≡ ok (s', rest)
  unfolding read_entry
  Entered-read_entry s s' at bs rest key content (middle, p, q) h =
      let r =
        ok_of_option (store_entry put clock s key content at) s'
          (sym (load_item_entry s key content at) ∙ h) in
      rw (p, q, r)

  pub read_expiring_entry-Entered :
      (s s' : LoadState S) (at : ℤ) (bs rest : Bytes)
      → read_expiring_entry put clock s at bs ≡ ok (s', rest)
      → (behind : Bytes) × (bs ≡ 0 ∷ behind) × Entered s at behind s' rest
  unfolding read_expiring_entry read_byte
  read_expiring_entry-Entered s s' at [] rest h = absurd cc
  read_expiring_entry-Entered s s' at (b ∷ bs) rest h =
      let (e, entered) = read_entry-Entered s s' b at bs rest h in (bs, ap (λ x. x ∷ bs) e, entered)

  pub Entered-read_expiring_entry :
      (s s' : LoadState S) (at : ℤ) (bs behind rest key content : Bytes)
      → bs ≡ 0 ∷ behind
      → Strings behind key content rest
      → load_item put clock s (entry at key content) ≡ some s'
      → read_expiring_entry put clock s at bs ≡ ok (s', rest)
  unfolding read_expiring_entry read_byte
  Entered-read_expiring_entry s s' at bs behind rest key content e strings h =
      rw e (Entered-read_entry s s' at behind rest key content strings h)
