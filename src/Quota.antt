-- ===== src/Quota.antt =====
-- src/services/quota_service.ts: the configuration and the state that the quota service keeps.
pub mod Plans
pub mod Counters
pub mod Reset
pub mod Enforcement
pub mod Consumption
pub mod Assignment
pub mod Resolution
pub mod Usage
pub mod Memory
pub mod Samples
pub mod Tests
use adonisjs_lasagna_saas_te.Prelude.{
  ℕ, ◌+◌, String, Bool, Option, none, some, List, ◌≡◌, str_eq, if◌then◌else◌, get_or,
}
use adonisjs_lasagna_saas_te.Store.{Store}
use adonisjs_lasagna_saas_te.Tenant.{Tenant}
use adonisjs_lasagna_saas_te.Resilience.{FailurePolicy, DependencyDegraded}

-- A limit of a plan: `Infinity`, and what is no finite number, counts as none.
pub data Limit : Type 0 where
  finite : ℕ → Limit
  infinite : Limit

pub record PlanDefinition : Type 0 where
  pub limits : List (String × Limit)

pub data StorageMode : Type 0 where
  config_only tenant_plans : StorageMode

-- `config.plans.storage`, where leaving it out is `auto`.
pub data DeclaredStorage : Type 0 where
  declared : StorageMode → DeclaredStorage
  auto : DeclaredStorage

pub record PlansConfig : Type 0 where
  pub default_plan : String
  pub definitions : List (String × PlanDefinition)
  pub get_plan : Option (Tenant → Option String)
  pub storage : DeclaredStorage
  pub emit_tracked : Bool

-- A row of `tenant_plans`. `assigned_at` and `expires_at` are instants.
pub record TenantPlan : Type 0 where
  pub plan_name : String
  pub source : String
  pub assigned_at : ℕ
  pub expires_at : Option ℕ

pub data Event : Type 0 where
  -- tenant, quota, limit, current, attempted
  tenant_quota_exceeded : String → String → ℕ → ℕ → ℕ → Event
  -- tenant, quota, amount, new total
  quota_tracked : String → String → ℕ → ℕ → Event
  dependency_degraded : DependencyDegraded → Event

-- The Redis commands that the counters use. A script's commands run with nothing in between.
pub record RedisServer : Type 1 where
  pub keyspace : Store ℕ
  pub open keyspace use *
  pub incrby : String → ℕ → State → ℕ × State
  pub expire : String → ℕ → State → State
  pub ttl : String → State → Option ℕ
  -- the pages of keys that SCAN returns for a pattern
  pub scan : String → State → List (List String)
  pub incrby-reply : (k : String) (n : ℕ) (s : State) → (incrby k n s).0 ≡ get_or (get k s) 0 + n
  pub get-incrby :
      (j k : String) (n : ℕ) (s : State)
      → get j (incrby k n s).1 ≡ (if str_eq k j then some (get_or (get k s) 0 + n) else get j s)
  pub get-expire : (j k : String) (n : ℕ) (s : State) → get j (expire k n s) ≡ get j s
  pub ttl-expire :
      (j k : String) (n : ℕ) (s : State)
      → ttl j (expire k n s) ≡ (if str_eq k j then some n else ttl j s)

-- How Redis answers during a call: the package is not installed, it works, the connection fails
-- before the command is applied, or after.
pub data Link : Type 0 where
  absent up down lost : Link

-- What the environment decides: configuration, clock, and whether the probe finds the table
-- (`none` where the probe's query fails).
pub record Env : Type 0 where
  pub plans : Option PlansConfig
  pub policy : Option FailurePolicy
  pub observe : Option Bool
  pub link : Link
  pub table_exists : Option Bool
  pub now : ℕ
  pub today : String

pub record World (R : RedisServer) (T : Store TenantPlan) (C : Store (Option String)) : Type 0 where
  pub redis : R.State
  pub plans : T.State
  pub cache : C.State
  pub storage_probe : Option StorageMode
  pub events : List Event
