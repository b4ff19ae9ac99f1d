-- ===== src/Isolation/Separation.antt =====
-- What the drivers of src/services/isolation do to the storage of other tenants.
use adonisjs_lasagna_saas_te.Prelude.{
  ◌≤◌, ◌≡◌, ◌≢◌, refl, sym, ap, ◌∙◌, inl, inr, String, Bool, true, false, str_eq, get_or, is_some,
  Bool-cases, Option-cases, arith,
}
use adonisjs_lasagna_saas_te.Exceptions.{Result, ok, throw, M, continue, ◌>>◌}
use adonisjs_lasagna_saas_te.Store.{Store}
use adonisjs_lasagna_saas_te.Isolation.{
  World, Env, Ddl, create_if_missing, create, drop_if_exists, query_database, terminate_sessions,
  assert_safe_identifier, schema_name, database_name,
}
use adonisjs_lasagna_saas_te.Isolation.Identifiers.{append-ne, utf8_length, HasShortNames}
use adonisjs_lasagna_saas_te.Isolation.Drivers.{
  executed, raw_query, connect, disconnect, provision_schema, destroy_schema, reset_schema,
  create_unless_found, provision_database, drop_database, destroy_database, reset_database,
}

-- What a caller does with a driver, for one tenant.
pub data Op : Type 0 where
  connects disconnects provisions resets : Op
  destroys : (keep_data : Bool) → Op

module _ {D : Type 0} (T : Store D) (E : Env D) where
  unfoldable pub on_schema : Op → String → M (World T) (Unit {0})
  unfolding connect disconnect provision_schema destroy_schema reset_schema schema_name
  on_schema connects id = connect T E (schema_name E.config id) id
  on_schema disconnects id = disconnect T E id
  on_schema provisions id = provision_schema T E id
  on_schema resets id = reset_schema T E id
  on_schema (destroys keep_data) id = destroy_schema T E keep_data id

  unfoldable pub on_database : Op → String → M (World T) (Unit {0})
  unfolding connect disconnect provision_database destroy_database reset_database database_name
  on_database connects id = connect T E (database_name E.config id) id
  on_database disconnects id = disconnect T E id
  on_database provisions id = provision_database T E id
  on_database resets id = reset_database T E id
  on_database (destroys keep_data) id = destroy_database T E keep_data id

  -- A call that leaves what is stored under a name.
  record Keeps (other : String) (f : M (World T) (Unit {0})) : Type 0 where
    keeps : (w : World T) → T.get other (f w).1.stored ≡ T.get other w.stored

  Keeps->> :
      (other : String) {f g : M (World T) (Unit {0})}
      → Keeps other f
      → Keeps other g
      → Keeps other (f >> g)
  Keeps->> other {f} {g} hf hg = record { keeps = λ w. after w (f w) refl }
    where
      after :
          (w : World T) (r : Result (Unit {0}) × World T)
          → f w ≡ r
          → T.get other (continue r (λ _. g)).1.stored ≡ T.get other w.stored
      after w (ok tt, w') e = hg.keeps w' ∙ ap (λ s. T.get other s.1.stored) (sym e) ∙ hf.keeps w
      after w (throw x, w') e = ap (λ s. T.get other s.1.stored) (sym e) ∙ hf.keeps w

  abbrev name_of : Ddl → String
  name_of (create_if_missing name) = name
  name_of (create name) = name
  name_of (drop_if_exists name) = name
  name_of (query_database name) = name
  name_of (terminate_sessions name) = name

  executed-get :
      (other : String) (query : Ddl) (s : T.State)
      → str_eq (E.identifier (name_of query)) other ≡ false
      → T.get other (executed T E query s) ≡ T.get other s
  executed-get other (create_if_missing name) s h =
      elim (Bool-cases (is_some (T.get (E.identifier name) s))) [
        | inl e ↦ rw e refl
        | inr e ↦ rw e (rw (T.get-put other (E.identifier name) E.empty s, h) refl)
      ]
  executed-get other (create name) s h = rw (T.get-put other (E.identifier name) E.empty s, h) refl
  executed-get other (drop_if_exists name) s h = rw (T.get-del other (E.identifier name) s, h) refl
  executed-get other (query_database name) s h = refl
  executed-get other (terminate_sessions name) s h = refl

  raw_query-Keeps :
      (other : String) (query : Ddl)
      → str_eq (E.identifier (name_of query)) other ≡ false
      → Keeps other (raw_query T E query)
  raw_query-Keeps other query h = record {
    keeps = λ w. elim (Option-cases (E.ddl_error query)) [
      | inl e ↦ rw (raw_query, e) (executed-get other query w.stored h)
      | inr (x, e) ↦ rw (raw_query, e) refl
    ];
  }

  assert-Keeps : (other id : String) → Keeps other (assert_safe_identifier id)
  unfolding assert_safe_identifier
  assert-Keeps other id = record { keeps = λ w. ground arith }

  connect-Keeps : (other target id : String) → Keeps other (connect T E target id)
  unfolding connect
  connect-Keeps other target id =
      Keeps->> other (assert-Keeps other id) (record { keeps = λ w. refl })

  disconnect-Keeps : (other id : String) → Keeps other (disconnect T E id)
  unfolding disconnect
  disconnect-Keeps other id = Keeps->> other (assert-Keeps other id) (record { keeps = λ w. refl })

  schema_op-Keeps :
      (op : Op) (id other : String)
      → str_eq (E.identifier (schema_name E.config id)) other ≡ false
      → Keeps other (on_schema op id)
  unfolding on_schema provision_schema destroy_schema reset_schema
  schema_op-Keeps connects id other h = connect-Keeps other (schema_name E.config id) id
  schema_op-Keeps disconnects id other h = disconnect-Keeps other id
  schema_op-Keeps provisions id other h =
      Keeps->> other
        (Keeps->> other (assert-Keeps other id)
          (raw_query-Keeps other (create_if_missing (schema_name E.config id)) h))
        (connect-Keeps other (schema_name E.config id) id)
  schema_op-Keeps resets id other h =
      Keeps->> other
        (Keeps->> other
          (Keeps->> other (Keeps->> other (assert-Keeps other id) (disconnect-Keeps other id))
            (raw_query-Keeps other (drop_if_exists (schema_name E.config id)) h))
          (raw_query-Keeps other (create (schema_name E.config id)) h))
        (connect-Keeps other (schema_name E.config id) id)
  schema_op-Keeps (destroys true) id other h =
      Keeps->> other (Keeps->> other (assert-Keeps other id) (disconnect-Keeps other id))
        (record { keeps = λ w. refl })
  schema_op-Keeps (destroys false) id other h =
      Keeps->> other (Keeps->> other (assert-Keeps other id) (disconnect-Keeps other id))
        (raw_query-Keeps other (drop_if_exists (schema_name E.config id)) h)

  create_unless_found-Keeps :
      (other name : String)
      → str_eq (E.identifier name) other ≡ false
      → Keeps other (create_unless_found T E name)
  unfolding create_unless_found
  create_unless_found-Keeps other name h = record {
    keeps = λ w. elim (Bool-cases (is_some (T.get (E.identifier name) w.stored))) [
      | inl e ↦ rw (create_unless_found, e) refl
      | inr e ↦ rw (create_unless_found, e) ((raw_query-Keeps other (create name) h).keeps w)
    ];
  }

  provision_database-Keeps :
      (id other : String)
      → str_eq (E.identifier (database_name E.config id)) other ≡ false
      → Keeps other (provision_database T E id)
  unfolding provision_database
  provision_database-Keeps id other h =
      Keeps->> other
        (Keeps->> other
          (Keeps->> other (assert-Keeps other id)
            (raw_query-Keeps other (query_database (database_name E.config id)) h))
          (create_unless_found-Keeps other (database_name E.config id) h))
        (connect-Keeps other (database_name E.config id) id)

  destroy_database-Keeps :
      (keep_data : Bool) (id other : String)
      → str_eq (E.identifier (database_name E.config id)) other ≡ false
      → Keeps other (destroy_database T E keep_data id)
  unfolding destroy_database drop_database
  destroy_database-Keeps true id other h =
      Keeps->> other (Keeps->> other (assert-Keeps other id) (disconnect-Keeps other id))
        (record { keeps = λ w. refl })
  destroy_database-Keeps false id other h =
      Keeps->> other (Keeps->> other (assert-Keeps other id) (disconnect-Keeps other id)) (
        Keeps->> other (raw_query-Keeps other (terminate_sessions (database_name E.config id)) h)
          (raw_query-Keeps other (drop_if_exists (database_name E.config id)) h))

  database_op-Keeps :
      (op : Op) (id other : String)
      → str_eq (E.identifier (database_name E.config id)) other ≡ false
      → Keeps other (on_database op id)
  unfolding on_database reset_database
  database_op-Keeps connects id other h = connect-Keeps other (database_name E.config id) id
  database_op-Keeps disconnects id other h = disconnect-Keeps other id
  database_op-Keeps provisions id other h = provision_database-Keeps id other h
  database_op-Keeps (destroys keep_data) id other h = destroy_database-Keeps keep_data id other h
  database_op-Keeps resets id other h =
      Keeps->> other (destroy_database-Keeps false id other h) (provision_database-Keeps id other h)

  identifier-ne :
      (m n : String)
      → E.identifier m ≡ m
      → E.identifier n ≡ n
      → str_eq m n ≡ false
      → str_eq (E.identifier m) (E.identifier n) ≡ false
  identifier-ne m n e e' h = rw (e, e') h

  -- PostgreSQL keeps an identifier of 63 bytes or less as it is. Under either driver, where the names
  -- of two tenants of different ids have 63 bytes at most, connecting, disconnecting, provisioning,
  -- resetting and destroying the one leaves what is stored for the other as it was, on every
  -- branch, failures of PostgreSQL and of the manager included.
  pub operate-separate :
      (op : Op) (a b : String) (w : World T)
      → a ≢ b
      → ((name : String) → utf8_length name ≤ 63 → E.identifier name ≡ name)
      → HasShortNames E.config a
      → HasShortNames E.config b
      → (T.get (E.identifier (schema_name E.config b)) (on_schema op a w).1.stored
          ≡ T.get (E.identifier (schema_name E.config b)) w.stored)
        × (T.get (E.identifier (database_name E.config b)) (on_database op a w).1.stored
            ≡ T.get (E.identifier (database_name E.config b)) w.stored)
  unfolding schema_name database_name
  operate-separate op a b w different kept short_a short_b =
      let schema_a = schema_name E.config a in
      let schema_b = schema_name E.config b in
      let database_a = database_name E.config a in
      let database_b = database_name E.config b in
      (
        (schema_op-Keeps op a (E.identifier schema_b) (
              identifier-ne schema_a schema_b (kept schema_a short_a.0) (kept schema_b short_b.0)
                (append-ne E.config.schema_prefix a b different))).keeps
            w,
        (database_op-Keeps op a (E.identifier database_b) (
              identifier-ne database_a database_b (kept database_a short_a.1)
                (kept database_b short_b.1)
                (append-ne (get_or E.config.database_prefix E.config.schema_prefix) a b
                  different))).keeps
            w,
      )
