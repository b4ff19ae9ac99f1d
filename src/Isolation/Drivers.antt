-- ===== src/Isolation/Drivers.antt =====
-- src/services/isolation/schema_pg_driver.ts and database_pg_driver.ts.
use adonisjs_lasagna_saas_te.Prelude.{String, Bool, false, none, some, if◌then◌else◌, is_some}
use adonisjs_lasagna_saas_te.Exceptions.{ok, throw, M, ◌>>◌, pure}
use adonisjs_lasagna_saas_te.Store.{Store}
use adonisjs_lasagna_saas_te.Isolation.{
  World, Env, Ddl, create_if_missing, create, drop_if_exists, query_database, terminate_sessions,
  assert_safe_identifier, connection_name, schema_name, database_name,
}
use adonisjs_lasagna_saas_te.Isolation.Connections.{Pool, connect_named, disconnect_named}

module _ {D : Type 0} (T : Store D) (E : Env D) where
  abbrev pub on_pool : M Pool (Unit {0}) → M (World T) (Unit {0})
  on_pool f w = let (r, pool) = f w.pool in (r, record w { pool = pool })

  -- What a statement does, under the identifier of its name.
  abbrev pub executed : Ddl → T.State → T.State
  executed (create_if_missing name) s =
      if is_some (T.get (E.identifier name) s) then s else T.put (E.identifier name) E.empty s
  executed (create name) s = T.put (E.identifier name) E.empty s
  executed (drop_if_exists name) s = T.del (E.identifier name) s
  executed _ s = s

  abbrev pub raw_query : Ddl → M (World T) (Unit {0})
  raw_query query w = elim (E.ddl_error query) [
    | some e ↦ (throw e, w)
    | none ↦ (ok tt, record w { stored = executed query w.stored })
  ]

  -- `connect` and `disconnect`, for either driver: `target` is the schema or the database.
  unfoldable pub connect : String → String → M (World T) (Unit {0})
  unfolding connect_named assert_safe_identifier connection_name
  connect target id =
      assert_safe_identifier id
      >> on_pool (connect_named E.manager (connection_name E.config id) target)

  unfoldable pub disconnect : String → M (World T) (Unit {0})
  unfolding disconnect_named assert_safe_identifier connection_name
  disconnect id =
      assert_safe_identifier id
      >> on_pool (disconnect_named E.manager (connection_name E.config id))

  -- `SchemaPgDriver`
  unfoldable pub provision_schema : String → M (World T) (Unit {0})
  unfolding connect schema_name
  provision_schema id =
      assert_safe_identifier id
      >> raw_query (create_if_missing (schema_name E.config id))
      >> connect (schema_name E.config id) id

  unfoldable pub destroy_schema : Bool → String → M (World T) (Unit {0})
  unfolding disconnect schema_name
  destroy_schema keep_data id =
      assert_safe_identifier id
      >> disconnect id
      >> (if keep_data then pure tt else raw_query (drop_if_exists (schema_name E.config id)))

  unfoldable pub reset_schema : String → M (World T) (Unit {0})
  unfolding connect disconnect schema_name
  reset_schema id =
      assert_safe_identifier id
      >> disconnect id
      >> raw_query (drop_if_exists (schema_name E.config id))
      >> raw_query (create (schema_name E.config id))
      >> connect (schema_name E.config id) id

  -- `DatabasePgDriver`: the query tells whether the database exists.
  unfoldable pub create_unless_found : String → M (World T) (Unit {0})
  create_unless_found name w =
      if is_some (T.get (E.identifier name) w.stored) then (ok tt, w) else raw_query (create name) w

  unfoldable pub provision_database : String → M (World T) (Unit {0})
  unfolding connect database_name create_unless_found
  provision_database id =
      assert_safe_identifier id
      >> raw_query (query_database (database_name E.config id))
      >> create_unless_found (database_name E.config id)
      >> connect (database_name E.config id) id

  unfoldable pub drop_database : String → M (World T) (Unit {0})
  drop_database name = raw_query (terminate_sessions name) >> raw_query (drop_if_exists name)

  unfoldable pub destroy_database : Bool → String → M (World T) (Unit {0})
  unfolding disconnect database_name drop_database
  destroy_database keep_data id =
      assert_safe_identifier id
      >> disconnect id
      >> (if keep_data then pure tt else drop_database (database_name E.config id))

  unfoldable pub reset_database : String → M (World T) (Unit {0})
  unfolding provision_database destroy_database
  reset_database id = destroy_database false id >> provision_database id
