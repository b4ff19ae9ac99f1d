-- ===== src/Store.antt =====
-- The keyed storage behind the services: a Redis keyspace, or a Lucid table by its primary key.
-- Neither lies in the repository; the services are written over these operations and their laws.
pub mod Memory
use adonisjs_lasagna_saas_te.Prelude.{String, Bool, Option, none, some, ◌≡◌, str_eq, if◌then◌else◌}

-- `get` is GET or `Model.find`, `put` is SET, `row.save()` or `Model.create`, `del` is DEL or a
-- delete by key. A read after a write of the same key sees that write, and no other key changes.
pub record Store (V : Type 0) : Type 1 where
  pub State : Type 0
  pub get : String → State → Option V
  pub put : String → V → State → State
  pub del : String → State → State
  pub get-put :
      (j k : String) (v : V) (s : State)
      → get j (put k v s) ≡ (if str_eq k j then some v else get j s)
  pub get-del :
      (j k : String) (s : State) → get j (del k s) ≡ (if str_eq k j then none else get j s)
