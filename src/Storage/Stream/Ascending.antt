-- ===== src/Storage/Stream/Ascending.antt =====
-- XADD keeps a stream in ascending order.
use runedb.Base.{
  zero, suc, ◌-◌, ◌^◌, ◌==◌, ◌≡◌, ◌≢◌, refl, sym, ap, ◌∙◌, ==_iff, >>=-eq-ok, Result-cases, inl,
  inr, Bool, true, false, not, ◌&&◌, Bool-cases, Option, none, some, List, [], ◌∷◌, ◌++◌, Bytes,
  if◌then◌else◌, equal_bytes, Result, ok, err, arith,
}
use runedb.Base.Int.{ℤ, pos, negsuc, ltb_ℤ, eqb_ℤ, max_int64}
use runedb.Storage.Stream.{
  StreamId, StreamRecord, StreamValue, StreamError, id_too_small, succ_int64, next_auto_id,
  compare_stream_ids, parse_stream_add_id, admitted_id, append_record, add_record, id_string,
}

ltb_ℤ_irrefl : (a : ℤ) → ltb_ℤ a a ≡ false
ltb_ℤ_irrefl (pos n) = ground arith
ltb_ℤ_irrefl (negsuc n) = ground arith

ltb_ℤ_asym : (a b : ℤ) → ltb_ℤ a b ≡ true → ltb_ℤ b a ≡ false
ltb_ℤ_asym (pos m) (pos n) h = ground arith
ltb_ℤ_asym (pos m) (negsuc n) h = ground arith
ltb_ℤ_asym (negsuc m) (pos n) h = ground arith
ltb_ℤ_asym (negsuc m) (negsuc n) h = ground arith

ltb_ℤ_total : (a b : ℤ) → ltb_ℤ a b ≡ false → eqb_ℤ a b ≡ false → ltb_ℤ b a ≡ true
ltb_ℤ_total (pos m) (pos n) h e = ground arith
ltb_ℤ_total (pos m) (negsuc n) h e = ground arith
ltb_ℤ_total (negsuc m) (pos n) h e = ground arith
ltb_ℤ_total (negsuc m) (negsuc n) h e = ground arith

eqb_ℤ_eq : (a b : ℤ) → eqb_ℤ a b ≡ true → a ≡ b
eqb_ℤ_eq (pos m) (pos n) e = ap pos (ground arith)
eqb_ℤ_eq (pos m) (negsuc n) e = absurd (ground arith)
eqb_ℤ_eq (negsuc m) (pos n) e = absurd (ground arith)
eqb_ℤ_eq (negsuc m) (negsuc n) e = ap negsuc (ground arith)

below_succ_int64 : (z : ℤ) → z ≢ max_int64 → ltb_ℤ z (succ_int64 z) ≡ true
unfolding succ_int64
below_succ_int64 (pos n) h = elim (Bool-cases (n == 2 ^ 63 - 1)) [
  | inl e ↦ absurd (h (ap pos ((==_iff n (2 ^ 63 - 1)).0 e)))
  | inr e ↦ rw e (ground arith)
]
below_succ_int64 (negsuc zero) h = ground arith
below_succ_int64 (negsuc (suc n)) h = ground arith

-- One identifier is smaller than another.
abbrev pub Smaller : StreamId → StreamId → Type 0
Smaller a b = compare_stream_ids a b ≡ negsuc 0

below_later : (a b : StreamId) → ltb_ℤ a.milliseconds b.milliseconds ≡ true → Smaller a b
unfolding compare_stream_ids
below_later a b h = rw h

below_same :
    (ms : ℤ) (a b : ℤ)
    → ltb_ℤ a b ≡ true
    → Smaller
        (record { milliseconds = ms; sequence = a })
        (record { milliseconds = ms; sequence = b })
unfolding compare_stream_ids
below_same ms a b h = rw (ltb_ℤ_irrefl ms, h)

-- What is not at most the last identifier lies above it.
above_last : (a b : StreamId) → ltb_ℤ (pos 0) (compare_stream_ids a b) ≡ true → Smaller b a
unfolding compare_stream_ids
above_last a b h = elim (Bool-cases (ltb_ℤ a.milliseconds b.milliseconds)) [
  | inl e ↦ absurd (false_true (rw e at h))
  | inr e ↦ elim (Bool-cases (ltb_ℤ b.milliseconds a.milliseconds)) [
    | inl f ↦ rw f
    | inr f ↦ elim (Bool-cases (ltb_ℤ a.sequence b.sequence)) [
      | inl g ↦ absurd (false_true (rw (e, f, g) at h))
      | inr g ↦ elim (Bool-cases (ltb_ℤ b.sequence a.sequence)) [
        | inl i ↦ rw (f, e, i)
        | inr i ↦ absurd (false_true (rw (e, f, g, i) at h))
      ]
    ]
  ]
]
  where
    false_true : false ≡ true → ⊥
    false_true x = ground arith

next_auto_id_above :
    (s : StreamValue) (now : ℤ)
    → s.has_entries ≡ true
    → s.last_id.sequence ≢ max_int64
    → Smaller s.last_id (next_auto_id s now)
unfolding next_auto_id
next_auto_id_above s now h m = rw h (elim (Bool-cases (ltb_ℤ now s.last_id.milliseconds)) [
  | inl e ↦ rw e (
      below_same s.last_id.milliseconds s.last_id.sequence (succ_int64 s.last_id.sequence)
        (below_succ_int64 s.last_id.sequence m))
  | inr e ↦ elim (Bool-cases (eqb_ℤ now s.last_id.milliseconds)) [
    | inl f ↦
        rw (e, f, eqb_ℤ_eq now s.last_id.milliseconds f)
          (below_same s.last_id.milliseconds s.last_id.sequence (succ_int64 s.last_id.sequence)
            (below_succ_int64 s.last_id.sequence m))
    | inr f ↦ rw (e, f) (below_later s.last_id _ (ltb_ℤ_total now s.last_id.milliseconds e f))
  ]
])

abbrev pub IsAscending : List StreamRecord → Type 0
IsAscending [] = Unit
IsAscending (x ∷ []) = Unit
IsAscending (x ∷ y ∷ es) = Smaller x.id y.id × IsAscending (y ∷ es)

abbrev pub last_of : List StreamRecord → Option StreamId
last_of [] = none
last_of (x ∷ []) = some x.id
last_of (x ∷ y ∷ es) = last_of (y ∷ es)

-- The entries ascend, and `last_id` is the identifier of the last one.
abbrev pub IsStream : StreamValue → Type 0
IsStream s =
    IsAscending s.entries × (last_of s.entries ≡ (if s.has_entries then some s.last_id else none))

IsAscending-append :
    (es : List StreamRecord) (r : StreamRecord)
    → IsAscending es
    → ((l : StreamId) → last_of es ≡ some l → Smaller l r.id)
    → IsAscending (es ++ r ∷ [])
IsAscending-append [] r a h = tt
IsAscending-append (x ∷ []) r a h = (h x.id refl, tt)
IsAscending-append (x ∷ y ∷ es) r a h = (a.0, IsAscending-append (y ∷ es) r a.1 h)

last_of-append : (es : List StreamRecord) (r : StreamRecord) → last_of (es ++ r ∷ []) ≡ some r.id
last_of-append [] r = refl
last_of-append (x ∷ []) r = refl
last_of-append (x ∷ y ∷ es) r = last_of-append (y ∷ es) r

append_record-IsStream :
    (id : StreamId) (values : List Bytes) (s : StreamValue)
    → IsStream s
    → (s.has_entries ≡ true → Smaller s.last_id id)
    → IsStream (append_record id values s).0
append_record-IsStream id values s k h = (
  IsAscending-append s.entries _ k.0 (λ l e. above s.has_entries refl l (sym e ∙ k.1)),
  last_of-append s.entries _,
)
  where
    above :
        (b : Bool)
        → b ≡ s.has_entries
        → (l : StreamId) → some l ≡ (if b then some s.last_id else none)
        → Smaller l id
    above true e l f = let same : l ≡ s.last_id = cc in rw same (h (sym e))
    above false e l f = absurd (ground arith)

admitted_id_above :
    (raw : Bytes) (now : ℤ) (s : StreamValue) (id : StreamId)
    → s.has_entries ≡ true
    → s.last_id.sequence ≢ max_int64
    → admitted_id raw now s ≡ ok id
    → Smaller s.last_id id
unfolding admitted_id
admitted_id_above raw now s id h m run = elim (Bool-cases (equal_bytes raw (b'*' ∷ []))) [
  | inl e ↦
      let same : next_auto_id s now ≡ id = ok_same (rw e at run) in
      rw (← same) (next_auto_id_above s now h m)
  | inr e ↦
      let (got, parsed, rest) = >>=-eq-ok (parse_stream_add_id raw) _ (rw e at run) in
      let (above, same) =
        passed s.has_entries (ltb_ℤ (pos 0) (compare_stream_ids got s.last_id)) got h rest in
      rw (← same) (above_last got s.last_id above)
]
  where
    passed :
        (b c : Bool) (got : StreamId)
        → b ≡ true
        → Path
            (Result StreamError StreamId)
            (if b && not c then err id_too_small else ok got)
            (ok id)
        → (c ≡ true) × (got ≡ id)
    passed true true got e run' = (refl, cc)
    passed true false got e run' = absurd (cc)
    passed false c got e run' = absurd (ground arith)

    ok_same : {a b : StreamId} → Path (Result StreamError StreamId) (ok a) (ok b) → a ≡ b
    ok_same h = cc

-- What XADD promises: an admitted entry leaves the stream in order, above what it held, and its text is
-- the one returned; only an explicit identifier is refused.
abbrev pub AddOutcome : Bytes → StreamValue → Result StreamError (StreamValue × Bytes) → Type 0
AddOutcome raw s (ok (s', text)) =
    IsStream s'
    × (s.has_entries ≡ true → Smaller s.last_id s'.last_id)
    × (s'.has_entries ≡ true)
    × (text ≡ id_string s'.last_id)
AddOutcome raw s (err e) = equal_bytes raw (b'*' ∷ []) ≡ false

explicit_only :
    (raw : Bytes) (now : ℤ) (s : StreamValue) (e : StreamError)
    → admitted_id raw now s ≡ err e
    → equal_bytes raw (b'*' ∷ []) ≡ false
unfolding admitted_id
explicit_only raw now s e run = elim (Bool-cases (equal_bytes raw (b'*' ∷ []))) [
  | inl h ↦ absurd (ok_err (rw h at run))
  | inr h ↦ h
]
  where
    ok_err : {a : StreamId} → ok a ≡ err e → ⊥
    ok_err h = cc

-- XADD on a stream whose entries ascend up to its last identifier, where the sequence number of that
-- identifier is not the largest int64: if the entry is admitted, the entries still ascend up to the new
-- last identifier, which lies above the old one and is the text returned; an automatic identifier is
-- always admitted.
pub add_record-AddOutcome :
    (raw : Bytes) (values : List Bytes) (now : ℤ) (s : StreamValue)
    → IsStream s
    → s.last_id.sequence ≢ max_int64
    → AddOutcome raw s (add_record raw values now s)
unfolding add_record
add_record-AddOutcome raw values now s k m = elim (Result-cases (admitted_id raw now s)) [
  | inl (id, e) ↦ rw e (
    append_record-IsStream id values s k (λ h. admitted_id_above raw now s id h m e),
    (λ h. admitted_id_above raw now s id h m e),
    refl,
    refl,
  )
  | inr (failure, e) ↦ rw e (explicit_only raw now s failure e)
]
