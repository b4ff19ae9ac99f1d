-- ===== src/Isolation/Tests.antt =====
-- Two tenants with a schema each, and rows in a shared table.
use adonisjs_lasagna_saas_te.Prelude.{
  ℕ, zero, suc, ◌≤◌, arith, ◌≡◌, ◌≢◌, refl, ◌⊎◌, String, true, false, Option, none, some, List, [],
  ◌∷◌, includes, filter, str_eq, ap, if◌then◌else◌,
}
use adonisjs_lasagna_saas_te.Exceptions.{Exception, error, ok, throw}
use adonisjs_lasagna_saas_te.Store.{Store}
use adonisjs_lasagna_saas_te.Store.Memory.{memory}
use adonisjs_lasagna_saas_te.Isolation.{World, Env, IsolationConfig, schema_name, database_name}
use adonisjs_lasagna_saas_te.Isolation.Identifiers.{utf8_length}
use adonisjs_lasagna_saas_te.Isolation.Separation.{
  Op, connects, provisions, resets, destroys, on_schema, on_database, operate-separate,
}
use adonisjs_lasagna_saas_te.Isolation.Routing.{
  no_connections, run_schema, run_database, IsConfined, run-IsConfined,
}
use adonisjs_lasagna_saas_te.Isolation.Registry.{
  no_drivers, RegistryOp, registers, uses, run_registry, active, active-registered,
}
use adonisjs_lasagna_saas_te.Isolation.RowScope.{destroy, destroy-others}

abbrev schemas : Store (List ℕ)
schemas = memory (List ℕ)

abbrev config : IsolationConfig
config = record {
  connection_name_prefix = "tenant_";
  schema_prefix = "tenant_";
  database_prefix = none;
}

-- The first 63 characters, which are the first 63 bytes of a name in ASCII.
abbrev cut : ℕ → String → String
cut zero s = String.[]
cut (suc n) String.[] = String.[]
cut (suc n) (String.◌∷◌ c s) = String.◌∷◌ c (cut n s)

cut-utf8_length : (n : ℕ) (s : String) → utf8_length s ≤ n → cut n s ≡ s
cut-utf8_length zero String.[] h = refl
cut-utf8_length zero (String.◌∷◌ c s) h = absurd (ground arith)
cut-utf8_length (suc n) String.[] h = refl
cut-utf8_length (suc n) (String.◌∷◌ c s) h = ap (String.◌∷◌ c) (cut-utf8_length n s (ground arith))

abbrev env : Env (List ℕ)
env = record {
  config = config;
  manager = record { template = some "pg"; release_error = λ n. none };
  ddl_error = λ q. none;
  empty = [];
  identifier = cut 63;
}

abbrev stored : String → Option (List ℕ)
stored name = if str_eq name "tenant_b" then some (7 ∷ []) else none

abbrev world : World schemas
world = record { pool = no_connections; stored = stored }

abbrev a : String
a = "a"

abbrev b : String
b = "b"

a_ne_b : a ≢ b
a_ne_b e = cc (ap (λ s. str_eq s b) e)

operate-separate_example :
    (schemas.get (schema_name config "b") (on_schema schemas env resets "a" world).1.stored
      ≡ schemas.get (schema_name config "b") stored)
    × (schemas.get (database_name config "b") (on_database schemas env resets "a" world).1.stored
        ≡ schemas.get (database_name config "b") stored)
unfolding schema_name database_name
operate-separate_example =
    operate-separate schemas env resets "a" "b" world a_ne_b (cut-utf8_length 63)
      (omega arith, omega arith) (omega arith, omega arith)

-- Two long ids that differ in their last character have one schema.
one_schema :
    env.identifier
      (schema_name config "aaaaaaaaaaaaaaaaaaaaaaaaaaaaaaaaaaaaaaaaaaaaaaaaaaaaaaaaaa1")
    ≡ env.identifier
        (schema_name config "aaaaaaaaaaaaaaaaaaaaaaaaaaaaaaaaaaaaaaaaaaaaaaaaaaaaaaaaaa2")
unfolding schema_name
one_schema = refl

abbrev ops : List (Op × String)
ops = (provisions, "a") ∷ (connects, "b") ∷ (destroys false, "a") ∷ (resets, "b") ∷ []

names_after : (run_schema schemas env ops world).pool.lru ≡ "tenant_b" ∷ []
unfolding run_schema
names_after = refl

run-IsConfined_example :
    IsConfined config (schema_name config) (run_schema schemas env ops world)
    × IsConfined config (database_name config) (run_database schemas env ops world)
run-IsConfined_example = run-IsConfined schemas env (λ n. refl) ops stored

abbrev registry_ops : List RegistryOp
registry_ops = registers "schema-pg" false ∷ registers "rowscope-pg" false ∷ uses "rowscope-pg" ∷ []

active-registered_example :
    ((run_registry registry_ops no_drivers).drivers ≡ [])
      × (active (run_registry registry_ops no_drivers) ≡ throw (error "no active driver."))
    ⊎ ((name : String) × (active (run_registry registry_ops no_drivers) ≡ ok name)
        × (includes name (run_registry registry_ops no_drivers).drivers ≡ true))
active-registered_example = active-registered registry_ops refl

active_driver : active (run_registry registry_ops no_drivers) ≡ ok "rowscope-pg"
unfolding run_registry active
active_driver = refl

-- A row of a shared table: its tenant and its id.
abbrev rows : String → List (String × ℕ)
rows table = ("a", 1) ∷ ("b", 2) ∷ ("a", 3) ∷ []

abbrev scope_of : String × ℕ → String
scope_of row = row.0

abbrev no_error : String → Option Exception
no_error table = none

destroyed : (destroy scope_of no_error ("posts" ∷ []) false "a" rows).1 "posts" ≡ ("b", 2) ∷ []
unfolding destroy
destroyed = refl

destroy-others_example :
    filter
      (λ row. str_eq (scope_of row) "b")
      ((destroy scope_of no_error ("posts" ∷ []) false "a" rows).1 "posts")
    ≡ filter (λ row. str_eq (scope_of row) "b") (rows "posts")
destroy-others_example =
    destroy-others scope_of no_error "a" "b" "posts" ("posts" ∷ []) false rows a_ne_b
