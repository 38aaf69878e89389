-- ===== src/Server/Registry.antt =====
-- The active connections: registry.go. The map from IDs to connections is a list of pairs; `closing` and
-- `is_err_closed` stand for net.Conn's Close and for the test on net.ErrClosed.
pub mod Fresh
use runedb.Base.{
  ℕ, ◌+◌, ◌%◌, ◌^◌, ◌==◌, Bool, Option, none, some, List, [], ◌∷◌, if◌then◌else◌, length,
}

pub record ClientRegistry {ℓ} (C : Type ℓ) : Type ℓ where
  pub next_id : ℕ
  pub conns : List (ℕ × C)

module _ {ℓ} {C : Type ℓ} where
  abbrev pub new_client_registry : ClientRegistry C
  new_client_registry = record { next_id = 0; conns = [] }

  -- A key of a map is written, read and deleted.
  abbrev pub insert_conn : ℕ → C → List (ℕ × C) → List (ℕ × C)
  insert_conn id conn [] = (id, conn) ∷ []
  insert_conn id conn ((i, c) ∷ cs) =
      if i == id then (i, conn) ∷ cs else (i, c) ∷ insert_conn id conn cs

  abbrev pub conn_of : ℕ → List (ℕ × C) → Option C
  conn_of id [] = none
  conn_of id ((i, c) ∷ cs) = if i == id then some c else conn_of id cs

  abbrev pub delete_conn : ℕ → List (ℕ × C) → List (ℕ × C)
  delete_conn id [] = []
  delete_conn id ((i, c) ∷ cs) = if i == id then delete_conn id cs else (i, c) ∷ delete_conn id cs

  -- `Add`; the ID is a uint64.
  abbrev pub add : C → ClientRegistry C → ClientRegistry C × ℕ
  add conn r =
      let id = (r.next_id + 1) % 2 ^ 64 in
      (record { next_id = id; conns = insert_conn id conn r.conns }, id)

  -- `Remove`
  abbrev pub remove : ℕ → ClientRegistry C → ClientRegistry C
  remove id r = record r { conns = delete_conn id r.conns }

  -- `Count`
  abbrev pub count_clients : ClientRegistry C → ℕ
  count_clients r = length r.conns

  module _ {κ} {E : Type κ} (closing : C → Option E) (is_err_closed : E → Bool) where
    abbrev pub close_errors : List (ℕ × C) → List E
    close_errors [] = []
    close_errors ((i, c) ∷ cs) =
        let rest = close_errors cs in
        elim (closing c) [ none ↦ rest | some e ↦ if is_err_closed e then rest else e ∷ rest ]

    -- `CloseAll`, with the errors that it joins
    abbrev pub close_all : ClientRegistry C → ClientRegistry C × List E
    close_all r = (record r { conns = [] }, close_errors r.conns)
