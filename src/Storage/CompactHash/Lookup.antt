-- ===== src/Storage/CompactHash/Lookup.antt =====
-- Lists of pairs with different fields, and the first value of a field: the map that a hash stands for.
use runedb.Base.{
  ◌≡◌, refl, sym, ap, ◌∙◌, inl, inr, true, false, Bool-cases, Option, none, some, List, [], ◌∷◌,
  ◌++◌, Bytes, if◌then◌else◌, equal_bytes, equal_bytes_iff, equal_bytes_sym, arith, append-nil,
}
use runedb.Storage.CompactHash.{Pair}

abbrev pub lookup : Bytes → List Pair → Option Bytes
lookup name [] = none
lookup name ((k, v) ∷ ps) = if equal_bytes k name then some v else lookup name ps

abbrev pub Distinct : List Pair → Type 0
Distinct [] = Unit
Distinct ((k, v) ∷ ps) = (lookup k ps ≡ none) × Distinct ps

-- What a write of one field makes of a lookup.
abbrev pub overwritten : Bytes → Bytes → Bytes → Option Bytes → Option Bytes
overwritten name v g old = if equal_bytes name g then some v else old

lookup-append_none :
    (g : Bytes) (ps qs : List Pair) → lookup g ps ≡ none → lookup g (ps ++ qs) ≡ lookup g qs
lookup-append_none g [] qs h = refl
lookup-append_none g ((k, v) ∷ ps) qs h = ground (arith, lookup-append_none g ps qs)

-- Equal names are looked up alike.
lookup_cong :
    (a b : Bytes) (ps : List Pair)
    → equal_bytes a b ≡ true
    → lookup a ps ≡ none
    → lookup b ps ≡ none
lookup_cong a b ps e h = rw (← (equal_bytes_iff a b).0 e) h

-- A pair of another name changes no lookup, wherever it stands.
lookup_skip :
    (name v g : Bytes) (front back : List Pair)
    → equal_bytes name g ≡ false
    → lookup g (front ++ (name, v) ∷ back) ≡ lookup g (front ++ back)
lookup_skip name v g [] back h = rw h
lookup_skip name v g ((k, w) ∷ front) back h =
    ap (λ o. if equal_bytes k g then some w else o) (lookup_skip name v g front back h)

-- A pair behind pairs of other names is found.
lookup_hit :
    (name v g : Bytes) (front back : List Pair)
    → equal_bytes name g ≡ true
    → lookup name front ≡ none
    → lookup g (front ++ (name, v) ∷ back) ≡ some v
lookup_hit name v g front back e h =
    lookup-append_none g front ((name, v) ∷ back) (lookup_cong name g front e h) ∙ rw e

module _ (name v old g : Bytes) (front back : List Pair) (first : lookup name front ≡ none) where
  -- The value of a name is replaced where it stands.
  pub lookup_replaced :
      lookup g (front ++ (name, v) ∷ back)
      ≡ overwritten name v g (lookup g (front ++ (name, old) ∷ back))
  lookup_replaced = elim (Bool-cases (equal_bytes name g)) [
    | inl same ↦ rw same (lookup_hit name v g front back same first)
    | inr diff ↦
        rw (diff, lookup_skip name v g front back diff)
          (sym (lookup_skip name old g front back diff))
  ]

  -- Or it moves to the front.
  pub lookup_moved :
      lookup g ((name, v) ∷ (front ++ back))
      ≡ overwritten name v g (lookup g (front ++ (name, old) ∷ back))
  lookup_moved = elim (Bool-cases (equal_bytes name g)) [
    | inl same ↦ rw same
    | inr diff ↦ rw diff (sym (lookup_skip name old g front back diff))
  ]

  -- Or it is taken out.
  pub lookup_removed :
      lookup name back ≡ none
      → lookup g (front ++ back)
        ≡ (if equal_bytes name g then none else lookup g (front ++ (name, old) ∷ back))
  lookup_removed last = elim (Bool-cases (equal_bytes name g)) [
    | inl same ↦ rw same (
        lookup-append_none g front back (lookup_cong name g front same first)
        ∙ lookup_cong name g back same last)
    | inr diff ↦ rw diff (sym (lookup_skip name old g front back diff))
  ]

pub lookup-append_new :
    (name v g : Bytes) (ps : List Pair)
    → lookup name ps ≡ none
    → lookup g (ps ++ (name, v) ∷ []) ≡ overwritten name v g (lookup g ps)
lookup-append_new name v g ps h = elim (Bool-cases (equal_bytes name g)) [
  | inl same ↦ rw same (lookup_hit name v g ps [] same h)
  | inr diff ↦ rw (diff, lookup_skip name v g ps [] diff, append-nil ps)
]

-- A name that is not among the pairs, and not this one, is not among both.
lookup-append_both :
    (k name v : Bytes) (front back : List Pair)
    → lookup k (front ++ (name, v) ∷ back) ≡ none
    → (equal_bytes name k ≡ false) × (lookup k (front ++ back) ≡ none) × (lookup k back ≡ none)
lookup-append_both k name v [] back h = (ground arith, ground arith, ground arith)
lookup-append_both k name v ((j, w) ∷ front) back h =
    let head : equal_bytes j k ≡ false = ground arith in
    let rest : lookup k (front ++ (name, v) ∷ back) ≡ none = ground arith in
    let (a, b, c) = lookup-append_both k name v front back rest in (a, rw (head, b), c)

-- In a list of different fields, a pair's name stands neither before nor behind it.
pub Distinct-split :
    (name v : Bytes) (front back : List Pair)
    → Distinct (front ++ (name, v) ∷ back)
    → (lookup name front ≡ none) × (lookup name back ≡ none) × Distinct (front ++ back)
Distinct-split name v [] back d = (refl, d.0, d.1)
Distinct-split name v ((k, w) ∷ front) back d =
    let (f, b, rest) = Distinct-split name v front back d.1 in
    let (diff, both, behind) = lookup-append_both k name v front back d.0 in
    (rw (equal_bytes_sym k name, diff, f), b, (both, rest))

pub Distinct-replaced :
    (name v old : Bytes) (front back : List Pair)
    → Distinct (front ++ (name, old) ∷ back)
    → Distinct (front ++ (name, v) ∷ back)
Distinct-replaced name v old [] back d = d
Distinct-replaced name v old ((k, w) ∷ front) back d =
    let (diff, both, behind) = lookup-append_both k name old front back d.0 in
    (lookup_skip name v k front back diff ∙ both, Distinct-replaced name v old front back d.1)

pub Distinct-moved :
    (name v : Bytes) (front back : List Pair)
    → Distinct (front ++ (name, v) ∷ back)
    → Distinct ((name, v) ∷ (front ++ back))
Distinct-moved name v front back d =
    let (f, b, rest) = Distinct-split name v front back d in
    (lookup-append_none name front back f ∙ b, rest)

pub Distinct-append_new :
    (name v : Bytes) (ps : List Pair)
    → Distinct ps
    → lookup name ps ≡ none
    → Distinct (ps ++ (name, v) ∷ [])
Distinct-append_new name v [] d h = (refl, tt)
Distinct-append_new name v ((k, w) ∷ ps) d h =
    let apart : equal_bytes k name ≡ false = ground arith in
    let rest : lookup name ps ≡ none = ground arith in
    (
      lookup-append_none k ps ((name, v) ∷ []) d.0 ∙ rw (equal_bytes_sym name k, apart),
      Distinct-append_new name v ps d.1 rest,
    )
