-- ===== src/Isolation/Routing.antt =====
-- Where the connections of the drivers of src/services/isolation lead, and how many there are.
use adonisjs_lasagna_saas_te.Prelude.{
  ◌≤◌, ◌≡◌, refl, ap, ◌∙◌, inl, inr, ◌⊎◌, String, Bool, true, false, none, some, List, [], ◌∷◌,
  length, lookup, is_some, str_eq, eq_iff, All, arith, Bool-cases, Option-cases, subst,
}
use adonisjs_lasagna_saas_te.Exceptions.{Result, ok, throw, M, continue, ◌>>◌}
use adonisjs_lasagna_saas_te.Store.{Store}
use adonisjs_lasagna_saas_te.Isolation.{
  World, Env, Ddl, assert_safe_identifier, connection_name, schema_name, database_name,
  IsolationConfig, create_if_missing, create, drop_if_exists, query_database, terminate_sessions,
}
use adonisjs_lasagna_saas_te.Isolation.Connections.{
  max_tenant_connections, Connection, Pool, connect_named,
}
use adonisjs_lasagna_saas_te.Isolation.Drivers.{
  raw_query, connect, disconnect, provision_schema, destroy_schema, reset_schema,
  create_unless_found, provision_database, drop_database, destroy_database, reset_database,
}
use adonisjs_lasagna_saas_te.Isolation.Identifiers.{drop_prefix, drop_prefix-append}
use adonisjs_lasagna_saas_te.Isolation.Separation.{
  Op, connects, disconnects, provisions, resets, destroys, on_schema, on_database,
}
use adonisjs_lasagna_saas_te.Isolation.Bound.{IsPool, connect_named-IsPool, disconnect_named-IsPool}

-- What a connection of that name works on, where `name_of` gives the schema or the database of a
-- tenant.
abbrev route : IsolationConfig → (String → String) → String → String
route config name_of name = name_of (drop_prefix config.connection_name_prefix name)

-- What is registered under a name leads where the name says.
lookup-routed :
    (route : String → String) (n : String) (m : List (String × Connection))
    → All (λ e. e.1.target ≡ route e.0) m
    → (lookup n m ≡ none) ⊎ ((c : Connection) × (lookup n m ≡ some c) × (c.target ≡ route n))
unfolding lookup
lookup-routed route n [] h = inl refl
lookup-routed route n ((j, c) ∷ m) h = elim (Bool-cases (str_eq j n)) [
  | inl e ↦ inr (c, rw e refl, h.0 ∙ ap route ((eq_iff j n).0 e))
  | inr e ↦ rw e (lookup-routed route n m h.1)
]

module _ {D : Type 0} (T : Store D) (E : Env D)
    (released : (name : String) → E.manager.release_error name ≡ none)
    (name_of : String → String) where
  abbrev IsRouted : World T → Type 0
  IsRouted w = IsPool (route E.config name_of) w.pool

  -- A call that keeps the pool well formed.
  record Preserves (f : M (World T) (Unit {0})) : Type 0 where
    preserves : (w : World T) → IsRouted w → IsRouted (f w).1

  Preserves->> : {f g : M (World T) (Unit {0})} → Preserves f → Preserves g → Preserves (f >> g)
  Preserves->> {f} {g} hf hg = record { preserves = λ w v. after w v (f w) refl }
    where
      after :
          (w : World T)
          → IsRouted w
          → (r : Result (Unit {0}) × World T) → f w ≡ r
          → IsRouted (continue r (λ _. g)).1
      after w v (ok tt, w') e = hg.preserves w' (subst (λ r. IsRouted r.1) e (hf.preserves w v))
      after w v (throw x, w') e = subst (λ r. IsRouted r.1) e (hf.preserves w v)

  raw_query-Preserves : (query : Ddl) → Preserves (raw_query T E query)
  raw_query-Preserves query = record {
    preserves = λ w v. elim (Option-cases (E.ddl_error query)) [
      | inl e ↦ rw (raw_query, e) v
      | inr (x, e) ↦ rw (raw_query, e) v
    ];
  }

  assert-Preserves : (id : String) → Preserves (assert_safe_identifier id)
  unfolding assert_safe_identifier
  assert-Preserves id = record { preserves = λ w v. ground arith }

  connect-Preserves : (id : String) → Preserves (connect T E (name_of id) id)
  unfolding connect connection_name
  connect-Preserves id = Preserves->> (assert-Preserves id) (record {
    preserves = λ w v.
        let name = connection_name E.config id in
        subst
          (λ target. IsPool (route E.config name_of) (connect_named E.manager name target w.pool).1)
          (ap name_of (drop_prefix-append E.config.connection_name_prefix id))
          (connect_named-IsPool (route E.config name_of) E.manager name w.pool released v);
  })

  disconnect-Preserves : (id : String) → Preserves (disconnect T E id)
  unfolding disconnect
  disconnect-Preserves id = Preserves->> (assert-Preserves id) (record {
    preserves = λ w v.
        disconnect_named-IsPool (route E.config name_of) E.manager (connection_name E.config id)
          w.pool released v;
  })

  forget-Preserves : (id : String) → Preserves (assert_safe_identifier id >> disconnect T E id)
  forget-Preserves id = Preserves->> (assert-Preserves id) (disconnect-Preserves id)

module _ {D : Type 0} (T : Store D) (E : Env D)
    (released : (name : String) → E.manager.release_error name ≡ none) where
  schema_op-Preserves :
      (op : Op) (id : String) → Preserves T E released (schema_name E.config) (on_schema T E op id)
  unfolding on_schema provision_schema destroy_schema reset_schema
  schema_op-Preserves connects id = connect-Preserves T E released (schema_name E.config) id
  schema_op-Preserves disconnects id = disconnect-Preserves T E released (schema_name E.config) id
  schema_op-Preserves provisions id =
      Preserves->> T E released (schema_name E.config)
        (Preserves->> T E released (schema_name E.config)
          (assert-Preserves T E released (schema_name E.config) id)
          (raw_query-Preserves T E released (schema_name E.config)
            (create_if_missing (schema_name E.config id))))
        (connect-Preserves T E released (schema_name E.config) id)
  schema_op-Preserves resets id =
      Preserves->> T E released (schema_name E.config)
        (Preserves->> T E released (schema_name E.config)
          (Preserves->> T E released (schema_name E.config)
            (forget-Preserves T E released (schema_name E.config) id)
            (raw_query-Preserves T E released (schema_name E.config)
              (drop_if_exists (schema_name E.config id))))
          (raw_query-Preserves T E released (schema_name E.config)
            (create (schema_name E.config id))))
        (connect-Preserves T E released (schema_name E.config) id)
  schema_op-Preserves (destroys true) id =
      Preserves->> T E released (schema_name E.config)
        (forget-Preserves T E released (schema_name E.config) id) (record { preserves = λ w v. v })
  schema_op-Preserves (destroys false) id =
      Preserves->> T E released (schema_name E.config)
        (forget-Preserves T E released (schema_name E.config) id)
        (raw_query-Preserves T E released (schema_name E.config)
          (drop_if_exists (schema_name E.config id)))

  create_unless_found-Preserves :
      (name : String)
      → Preserves T E released (database_name E.config) (create_unless_found T E name)
  unfolding create_unless_found
  create_unless_found-Preserves name = record {
    preserves = λ w v. elim (Bool-cases (is_some (T.get (E.identifier name) w.stored))) [
      | inl e ↦ rw (create_unless_found, e) v
      | inr e ↦
          rw (create_unless_found, e)
            ((raw_query-Preserves T E released (database_name E.config) (create name)).preserves w
              v)
    ];
  }

  provision_database-Preserves :
      (id : String) → Preserves T E released (database_name E.config) (provision_database T E id)
  unfolding provision_database
  provision_database-Preserves id =
      Preserves->> T E released (database_name E.config)
        (Preserves->> T E released (database_name E.config)
          (Preserves->> T E released (database_name E.config)
            (assert-Preserves T E released (database_name E.config) id)
            (raw_query-Preserves T E released (database_name E.config)
              (query_database (database_name E.config id))))
          (create_unless_found-Preserves (database_name E.config id)))
        (connect-Preserves T E released (database_name E.config) id)

  destroy_database-Preserves :
      (keep_data : Bool) (id : String)
      → Preserves T E released (database_name E.config) (destroy_database T E keep_data id)
  unfolding destroy_database drop_database
  destroy_database-Preserves true id =
      Preserves->> T E released (database_name E.config)
        (forget-Preserves T E released (database_name E.config) id)
        (record { preserves = λ w v. v })
  destroy_database-Preserves false id =
      Preserves->> T E released (database_name E.config)
        (forget-Preserves T E released (database_name E.config) id)
        (Preserves->> T E released (database_name E.config)
          (raw_query-Preserves T E released (database_name E.config)
            (terminate_sessions (database_name E.config id)))
          (raw_query-Preserves T E released (database_name E.config)
            (drop_if_exists (database_name E.config id))))

  database_op-Preserves :
      (op : Op) (id : String)
      → Preserves T E released (database_name E.config) (on_database T E op id)
  unfolding on_database reset_database
  database_op-Preserves connects id = connect-Preserves T E released (database_name E.config) id
  database_op-Preserves disconnects id =
      disconnect-Preserves T E released (database_name E.config) id
  database_op-Preserves provisions id = provision_database-Preserves id
  database_op-Preserves (destroys keep_data) id = destroy_database-Preserves keep_data id
  database_op-Preserves resets id =
      Preserves->> T E released (database_name E.config) (destroy_database-Preserves false id)
        (provision_database-Preserves id)

-- Calls of a driver in order; a caller goes on after one that throws.
module _ {D : Type 0} (T : Store D) (E : Env D) where
  unfoldable pub run_schema : List (Op × String) → World T → World T
  unfolding on_schema
  run_schema [] w = w
  run_schema ((op, id) ∷ ops) w = run_schema ops (on_schema T E op id w).1

  unfoldable pub run_database : List (Op × String) → World T → World T
  unfolding on_database
  run_database [] w = w
  run_database ((op, id) ∷ ops) w = run_database ops (on_database T E op id w).1

abbrev pub no_connections : Pool
no_connections = record { lru = []; manager = [] }

-- The connections of a driver: no more than the bound, and the one of a tenant, where there is one,
-- leads to the name of the tenant.
abbrev pub IsConfined :
    {D : Type 0} {T : Store D} → IsolationConfig → (String → String) → World T → Type 0
IsConfined config name_of w =
    (length w.pool.manager ≤ max_tenant_connections)
    × ((id : String)
        → (lookup (connection_name config id) w.pool.manager ≡ none)
          ⊎ ((c : Connection) × (lookup (connection_name config id) w.pool.manager ≡ some c)
              × (c.target ≡ name_of id)))

module _ {D : Type 0} (T : Store D) (E : Env D)
    (released : (name : String) → E.manager.release_error name ≡ none) where
  confined :
      (name_of : String → String) (w : World T)
      → IsPool (route E.config name_of) w.pool
      → IsConfined E.config name_of w
  unfolding connection_name
  confined name_of w v = (
    omega (arith, v.sized, v.bounded),
    λ id.
        elim (lookup-routed (route E.config name_of) (connection_name E.config id) w.pool.manager
          v.routed) [
            | inl absent ↦ inl absent
            | inr (c, found, leads) ↦ inr (
              c,
              found,
              leads ∙ ap name_of (drop_prefix-append E.config.connection_name_prefix id),
            )
          ],
  )

  run_schema-IsPool :
      (ops : List (Op × String)) (w : World T)
      → IsPool (route E.config (schema_name E.config)) w.pool
      → IsPool (route E.config (schema_name E.config)) (run_schema T E ops w).pool
  unfolding run_schema
  run_schema-IsPool [] w v = v
  run_schema-IsPool ((op, id) ∷ ops) w v =
      run_schema-IsPool ops (on_schema T E op id w).1
        ((schema_op-Preserves T E released op id).preserves w v)

  run_database-IsPool :
      (ops : List (Op × String)) (w : World T)
      → IsPool (route E.config (database_name E.config)) w.pool
      → IsPool (route E.config (database_name E.config)) (run_database T E ops w).pool
  unfolding run_database
  run_database-IsPool [] w v = v
  run_database-IsPool ((op, id) ∷ ops) w v =
      run_database-IsPool ops (on_database T E op id w).1
        ((database_op-Preserves T E released op id).preserves w v)

  no_connections-IsPool : (route : String → String) → IsPool route no_connections
  no_connections-IsPool route = record {
    same = λ k. refl;
    sized = refl;
    bounded = omega arith;
    routed = tt;
  }

  -- After any calls of either driver for any tenants, failures included, there are no more than 50
  -- connections of tenants, and the one of a tenant, where there is one, leads to the schema or to
  -- the database of that tenant. It is assumed that the manager releases what it is asked to.
  pub run-IsConfined :
      (ops : List (Op × String)) (stored : T.State)
      → IsConfined E.config
          (schema_name E.config)
          (run_schema T E ops (record { pool = no_connections; stored = stored }))
        × IsConfined E.config
            (database_name E.config)
            (run_database T E ops (record { pool = no_connections; stored = stored }))
  run-IsConfined ops stored =
      let fresh : World T = record { pool = no_connections; stored = stored } in
      (
        confined (schema_name E.config) (run_schema T E ops fresh)
            (run_schema-IsPool ops fresh (no_connections-IsPool _)),
        confined (database_name E.config) (run_database T E ops fresh)
            (run_database-IsPool ops fresh (no_connections-IsPool _)),
      )
