-- ===== src/Base/Outcome.antt =====
-- A Go pair of a value and an error: one of the two is given.
use mathlib.Core.Path.{◌≡◌, refl}
use mathlib.Core.Option.{Option, none, some}
use mathlib.Core.Logic.{◌⊎◌, inl, inr}

pub data Result {ℓ κ} (E : Type ℓ) (A : Type κ) : Type (ℓ ⊔ κ) where
  ok : A → Result E A
  err : E → Result E A

infixl 5 ◌>>=◌
abbrev pub ◌>>=◌ {ℓ κ ι} :
    {E : Type ℓ} {A : Type κ} {B : Type ι} → Result E A → (A → Result E B) → Result E B
ok a >>= f = f a
err e >>= f = err e

module _ {ℓ κ} {E : Type ℓ} {A : Type κ} where
  pub Result-cases : (r : Result E A) → ((a : A) × (r ≡ ok a)) ⊎ ((e : E) × (r ≡ err e))
  Result-cases (ok a) = inl (a, refl)
  Result-cases (err e) = inr (e, refl)

  -- Forgets which error it was.
  abbrev pub to_option : Result E A → Option A
  to_option (ok a) = some a
  to_option (err e) = none

module _ {ℓ κ ι} {E : Type ℓ} {A : Type κ} {B : Type ι} where
  -- The value of a successful run is passed on; an error stays.
  abbrev pub map_ok : (A → B) → Result E A → Result E B
  map_ok f (ok a) = ok (f a)
  map_ok f (err e) = err e

  -- A sequence that succeeds has run both of its parts.
  pub >>=-eq-ok :
      (first : Result E A) (rest : A → Result E B) {last : B}
      → first >>= rest ≡ ok last
      → (a : A) × (first ≡ ok a) × (rest a ≡ ok last)
  >>=-eq-ok (err failure) rest run = cc
  >>=-eq-ok (ok a) rest run = (a, refl, run)

  -- A sequence that fails has failed in one of them.
  pub >>=-eq-err :
      (first : Result E A) (rest : A → Result E B) {failure : E}
      → first >>= rest ≡ err failure
      → (first ≡ err failure) ⊎ ((a : A) × (first ≡ ok a) × (rest a ≡ err failure))
  >>=-eq-err (err failure) rest run = inl (cc)
  >>=-eq-err (ok a) rest run = inr (a, refl, run)

abbrev pub map_err {ℓ ℓ' κ} :
    {E : Type ℓ} {E' : Type ℓ'} {A : Type κ} → (E → E') → Result E A → Result E' A
map_err f (ok a) = ok a
map_err f (err e) = err (f e)
