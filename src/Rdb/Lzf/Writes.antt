-- ===== src/Rdb/Lzf/Writes.antt =====
-- What the writes of a literal and of a match leave in front of the position behind them.
use runedb.Base.{
  ℕ, zero, suc, ◌+◌, ◌-◌, ◌≤◌, ◌<◌, ◌≡◌, refl, ap, ◌∙◌, [], ◌∷◌, ◌++◌, Bytes, length, take, drop,
  get_or, set, suc_add, length-take, length-set, arith,
}
use runedb.Storage.CompactHash.{copy_at}
use runedb.Rdb.Lzf.{copy_match}
use runedb.Rdb.Lzf.Format.{extend}

pub take_all : (n : ℕ) (xs : Bytes) → length xs ≤ n → take n xs ≡ xs
take_all zero [] h = refl
take_all zero (x ∷ xs) h = absurd (omega arith)
take_all (suc n) [] h = refl
take_all (suc n) (x ∷ xs) h = ap (◌∷◌ x) (take_all n xs (omega arith))

pub drop_all : (n : ℕ) (xs : Bytes) → length xs ≤ n → drop n xs ≡ []
drop_all zero [] h = refl
drop_all zero (x ∷ xs) h = absurd (omega arith)
drop_all (suc n) [] h = refl
drop_all (suc n) (x ∷ xs) h = drop_all n xs (omega arith)

pub drop_one : (i : ℕ) (xs : Bytes) → i < length xs → drop i xs ≡ get_or xs i 0 ∷ drop (i + 1) xs
drop_one i [] h = absurd (omega arith)
drop_one zero (x ∷ xs) h = refl
drop_one (suc i) (x ∷ xs) h = rw (suc_add i 1) (drop_one i xs (omega arith))

pub take-copy_at :
    (m op : ℕ) (src out : Bytes)
    → m ≡ op + length src
    → m ≤ length out
    → take m (copy_at op src out) ≡ take op out ++ src
unfolding copy_at
take-copy_at zero zero [] out e h = refl
take-copy_at (suc m) zero [] out e h = absurd (omega arith)
take-copy_at m zero (b ∷ src) [] e h = absurd (omega arith)
take-copy_at zero zero (b ∷ src) (x ∷ out) e h = absurd (omega arith)
take-copy_at (suc m) zero (b ∷ src) (x ∷ out) e h =
    ap (◌∷◌ b) (take-copy_at m zero src out (omega arith) (omega arith))
take-copy_at m (suc op) src [] e h = absurd (omega arith)
take-copy_at zero (suc op) src (x ∷ out) e h = absurd (omega arith)
take-copy_at (suc m) (suc op) src (x ∷ out) e h =
    ap (◌∷◌ x) (take-copy_at m op src out (omega arith) (omega arith))

take-set :
    (op : ℕ) (out : Bytes) (b : ℕ)
    → op < length out
    → take (suc op) (set out op b) ≡ take op out ++ b ∷ []
take-set op [] b h = absurd (omega arith)
take-set zero (x ∷ out) b h = refl
take-set (suc op) (x ∷ out) b h = ap (◌∷◌ x) (take-set op out b (omega arith))

get_or-take : (i n : ℕ) (xs : Bytes) → i < n → get_or (take n xs) i 0 ≡ get_or xs i 0
get_or-take i zero xs h = absurd (omega arith)
get_or-take i (suc n) [] h = refl
get_or-take zero (suc n) (x ∷ xs) h = refl
get_or-take (suc i) (suc n) (x ∷ xs) h = get_or-take i n xs (omega arith)

pub length-copy_match : (n r o : ℕ) (out : Bytes) → length (copy_match n r o out) ≡ length out
unfolding copy_match
length-copy_match zero r o out = refl
length-copy_match (suc n) r o out =
    length-copy_match n (suc r) (suc o) (set out o (get_or out r 0))
    ∙ length-set out o (get_or out r 0)

pub take-copy_match :
    (k reference op : ℕ) (out : Bytes)
    → reference < op
    → op + k ≤ length out
    → take (op + k) (copy_match k reference op out) ≡ extend k (op - reference) (take op out)
unfolding copy_match
take-copy_match zero reference op out r h = ap (λ m. take m out) (omega arith)
take-copy_match (suc k) reference op out r h =
    let b = get_or out reference 0 in
    let at : length (take op out) - (op - reference) ≡ reference =
      omega (arith, length-take op out) in
    let same : op - reference ≡ suc op - suc reference = omega arith in
    let next =
      take-copy_match k (suc reference) (suc op) (set out op b) (omega arith)
        (omega (arith, length-set out op b)) in
    let ahead : op + suc k ≡ suc op + k = omega arith in
    rw (at, get_or-take reference op out r, ← take-set op out b (omega arith), ahead, same) next
