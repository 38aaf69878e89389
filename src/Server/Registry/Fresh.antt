-- ===== src/Server/Registry/Fresh.antt =====
-- The IDs that the registry of connections hands out.
use runedb.Base.{
  ℕ, suc, ◌+◌, ◌%◌, ◌^◌, ◌≤◌, ◌<◌, ◌==◌, ==_iff, ◌≡◌, refl, inl, inr, Bool, true, false, Bool-cases,
  none, some, List, [], ◌∷◌, if◌then◌else◌, length, arith,
}
use runedb.Server.Registry.{
  ClientRegistry, new_client_registry, insert_conn, conn_of, delete_conn, add, remove,
  count_clients,
}
use native.Mathlib.Nat.{mod-eq_of_lt}

-- Calls on a registry.
pub data RegistryOp {ℓ} (C : Type ℓ) : Type ℓ where
  adding : C → RegistryOp C
  removing : ℕ → RegistryOp C

module _ {ℓ} {C : Type ℓ} where
  -- Every ID is at most `bound`.
  abbrev Below : ℕ → List (ℕ × C) → Type 0
  Below bound [] = Unit
  Below bound ((i, c) ∷ cs) = (i ≤ bound) × Below bound cs

  Below-mono : (a b : ℕ) (cs : List (ℕ × C)) → a ≤ b → Below a cs → Below b cs
  Below-mono a b [] h u = tt
  Below-mono a b ((i, c) ∷ cs) h u = (omega (arith, u.0), Below-mono a b cs h u.1)

  conn_of_above :
      (id bound : ℕ) (cs : List (ℕ × C)) → bound < id → Below bound cs → conn_of id cs ≡ none
  conn_of_above id bound [] h u = refl
  conn_of_above id bound ((i, c) ∷ cs) h u = ground (arith, conn_of_above id bound cs h u.1, u.0)

  insert_conn-Below :
      (id bound : ℕ) (conn : C) (cs : List (ℕ × C))
      → id ≤ bound
      → Below bound cs
      → Below bound (insert_conn id conn cs)
  insert_conn-Below id bound conn [] h u = (h, tt)
  insert_conn-Below id bound conn ((i, c) ∷ cs) h u = elim (Bool-cases (i == id)) [
    | inl e ↦ rw e u
    | inr e ↦ rw e (u.0, insert_conn-Below id bound conn cs h u.1)
  ]

  delete_conn-Below :
      (id bound : ℕ) (cs : List (ℕ × C)) → Below bound cs → Below bound (delete_conn id cs)
  delete_conn-Below id bound [] u = u
  delete_conn-Below id bound ((i, c) ∷ cs) u = elim (Bool-cases (i == id)) [
    | inl e ↦ rw e (delete_conn-Below id bound cs u.1)
    | inr e ↦ rw e (u.0, delete_conn-Below id bound cs u.1)
  ]

  conn_of-insert_conn :
      (id i : ℕ) (conn : C) (cs : List (ℕ × C))
      → conn_of i (insert_conn id conn cs) ≡ (if id == i then some conn else conn_of i cs)
  conn_of-insert_conn id i conn [] = refl
  conn_of-insert_conn id i conn ((j, c) ∷ cs) = elim (Bool-cases (j == id)) [
    | inl e ↦ let same : j ≡ id = (==_iff j id).0 e in rw (e, same) (overwritten (id == i))
    | inr e ↦ elim (Bool-cases (j == i)) [
      | inl f ↦
          let same : j ≡ i = (==_iff j i).0 f in
          let apart : (id == i) ≡ false = ground arith in rw (e, f, apart)
      | inr f ↦ rw (e, f, conn_of-insert_conn id i conn cs)
    ]
  ]
    where
      overwritten :
          (b : Bool)
          → (if b then some conn else conn_of i cs)
            ≡ (if b then some conn else (if b then some c else conn_of i cs))
      overwritten true = refl
      overwritten false = refl

  length-insert_conn_new :
      (id : ℕ) (conn : C) (cs : List (ℕ × C))
      → conn_of id cs ≡ none
      → length (insert_conn id conn cs) ≡ suc (length cs)
  length-insert_conn_new id conn [] h = refl
  length-insert_conn_new id conn ((i, c) ∷ cs) h = elim (Bool-cases (i == id)) [
    | inl e ↦ ground arith
    | inr e ↦
        let rest : conn_of id cs ≡ none = rw e at h in
        rw (e, length-insert_conn_new id conn cs rest)
  ]

  abbrev pub registry_run : List (RegistryOp C) → ClientRegistry C → ClientRegistry C
  registry_run [] r = r
  registry_run (adding conn ∷ ops) r = registry_run ops (add conn r).0
  registry_run (removing id ∷ ops) r = registry_run ops (remove id r)

  next_id_add :
      (conn : C) (r : ClientRegistry C)
      → r.next_id + 1 < 2 ^ 64
      → (add conn r).0.next_id ≡ r.next_id + 1
  next_id_add conn r h = mod-eq_of_lt h

  registry_run-Below :
      (ops : List (RegistryOp C)) (r : ClientRegistry C)
      → r.next_id + length ops < 2 ^ 64
      → Below r.next_id r.conns
      → Below (registry_run ops r).next_id (registry_run ops r).conns
        × ((registry_run ops r).next_id ≤ r.next_id + length ops)
  registry_run-Below [] r h u = (u, omega arith)
  registry_run-Below (adding conn ∷ ops) r h u =
      let e : (r.next_id + 1) % 2 ^ 64 ≡ r.next_id + 1 = next_id_add conn r (omega arith) in
      let below : Below (add conn r).0.next_id (add conn r).0.conns = rw e (
        insert_conn-Below (r.next_id + 1) (r.next_id + 1) conn r.conns (omega arith)
          (Below-mono r.next_id (r.next_id + 1) r.conns (omega arith) u)) in
      let (b, l) = registry_run-Below ops (add conn r).0 (omega (arith, e, h)) below in
      (b, omega (arith, e, l))
  registry_run-Below (removing id ∷ ops) r h u =
      let (b, l) =
        registry_run-Below ops (remove id r) (omega arith)
          (delete_conn-Below id r.next_id r.conns u) in
      (b, omega (arith, l))

  -- After fewer than 2 ^ 64 - 1 calls of Add and Remove on a new registry, Add gives an ID that no
  -- connection has; that ID then names the new connection, every other ID names what it named before,
  -- and the registry counts one connection more.
  pub add_lem :
      (ops : List (RegistryOp C)) (conn : C)
      → length ops + 1 < 2 ^ 64
      → (conn_of
            (add conn (registry_run ops new_client_registry)).1
            (registry_run ops new_client_registry).conns
          ≡ none)
        × ((i : ℕ)
            → conn_of i (add conn (registry_run ops new_client_registry)).0.conns ≡ (
                if (add conn (registry_run ops new_client_registry)).1 == i
                then some conn
                else conn_of i (registry_run ops new_client_registry).conns))
        × (count_clients (add conn (registry_run ops new_client_registry)).0
            ≡ suc (count_clients (registry_run ops new_client_registry)))
  add_lem ops conn h =
      let r = registry_run ops new_client_registry in
      let (u, l) = registry_run-Below ops new_client_registry (omega arith) tt in
      let e : (r.next_id + 1) % 2 ^ 64 ≡ r.next_id + 1 = next_id_add conn r (omega (arith, l, h)) in
      let id = (r.next_id + 1) % 2 ^ 64 in
      let new : conn_of id r.conns ≡ none =
        rw e (conn_of_above (r.next_id + 1) r.next_id r.conns (omega arith) u) in
      (
        new,
        (λ i. conn_of-insert_conn id i conn r.conns),
        length-insert_conn_new id conn r.conns new,
      )
