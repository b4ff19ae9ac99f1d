-- ===== src/Isolation.antt =====
-- src/services/isolation: the drivers that give each tenant a schema or a database of its own.
pub mod Connections
pub mod Drivers
pub mod Registry
pub mod RowScope
pub mod Names
pub mod Identifiers
pub mod Routing
pub mod Bound
pub mod Separation
pub mod Tests
use adonisjs_lasagna_saas_te.Prelude.{String, Option, get_or, str_append, if◌then◌else◌}
use adonisjs_lasagna_saas_te.Exceptions.{Exception, error, M, pure, raise}
use adonisjs_lasagna_saas_te.Identifier.{is_safe_identifier}
use adonisjs_lasagna_saas_te.Store.{Store}
use Connections.{Pool, Manager}

-- `tenantConnectionNamePrefix`, `tenantSchemaPrefix`, and the prefix given to the driver of
-- databases.
pub record IsolationConfig : Type 0 where
  pub connection_name_prefix : String
  pub schema_prefix : String
  pub database_prefix : Option String

-- A statement on the schema or the database of that name.
pub data Ddl : Type 0 where
  -- CREATE SCHEMA IF NOT EXISTS
  create_if_missing : (name : String) → Ddl
  -- CREATE SCHEMA, CREATE DATABASE
  create : (name : String) → Ddl
  -- DROP … IF EXISTS
  drop_if_exists : (name : String) → Ddl
  -- the query of `pg_database`, and the one that ends the sessions of a database
  query_database : (name : String) → Ddl
  terminate_sessions : (name : String) → Ddl

-- The pool of connections, and what PostgreSQL stores under each identifier of a
-- schema or a database.
pub record World {D : Type 0} (T : Store D) : Type 0 where
  pub pool : Pool
  pub stored : T.State

-- What the environment decides: the configuration, the manager, what a statement throws, what a new
-- schema or database holds, and the identifier that PostgreSQL makes of a name, which it cuts where
-- it is too long.
pub record Env (D : Type 0) : Type 0 where
  pub config : IsolationConfig
  pub manager : Manager
  pub ddl_error : Ddl → Option Exception
  pub empty : D
  pub identifier : String → String

-- `assertSafeIdentifier`
unfoldable pub assert_safe_identifier : {W : Type 0} → String → M W (Unit {0})
unfolding is_safe_identifier
assert_safe_identifier value =
    if is_safe_identifier value then pure tt else raise (error "Refusing to use unsafe tenant id")

unfoldable pub connection_name : IsolationConfig → String → String
connection_name config tenant_id = str_append config.connection_name_prefix tenant_id

unfoldable pub schema_name : IsolationConfig → String → String
schema_name config tenant_id = str_append config.schema_prefix tenant_id

unfoldable pub database_name : IsolationConfig → String → String
database_name config tenant_id =
    str_append (get_or config.database_prefix config.schema_prefix) tenant_id
