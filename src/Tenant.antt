-- ===== src/Tenant.antt =====
-- src/types/contracts.ts: what the package reads of a tenant model, which the host implements.
use adonisjs_lasagna_saas_te.Prelude.{String, Bool, Option}

pub record Tenant : Type 0 where
  pub id : String
  pub custom_domain : Option String
  pub is_suspended : Bool
  pub is_provisioning : Bool
  pub is_failed : Bool
  pub is_deleted : Bool
  pub is_maintenance : Bool
  pub maintenance_message : Option String
