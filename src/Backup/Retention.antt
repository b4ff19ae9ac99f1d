-- ===== src/Backup/Retention.antt =====
-- src/services/backup_retention_service.ts: which backups of a tenant are kept.
use adonisjs_lasagna_saas_te.Prelude.{
  ℕ, ◌+◌, ◌*◌, String, Bool, true, false, Option, none, some, List, [], ◌∷◌, if◌then◌else◌, get_or,
  lookup, take, drop, leb, ltb,
}
use adonisjs_lasagna_saas_te.Exceptions.{error, Result, ok, throw, M, ◌>>=◌}
use adonisjs_lasagna_saas_te.Tenant.{Tenant}
use adonisjs_lasagna_saas_te.Backup.{
  BackupMetadata, BackupEnv, BackupStores, BackupWorld, load_metadata, delete_backup,
}

pub record BackupRetentionTier : Type 0 where
  pub interval_hours : ℕ
  pub keep_last : ℕ

pub record BackupRetentionConfig : Type 0 where
  pub default_tier : String
  pub tiers : List (String × BackupRetentionTier)
  pub get_tier : Option (Tenant → Option String)

pub record RetentionPlan : Type 0 where
  pub kept : List BackupMetadata
  pub purged : List BackupMetadata

abbrev pub default_retention : BackupRetentionConfig
default_retention = record {
  default_tier = "standard";
  tiers = ("standard", record { interval_hours = 24; keep_last = 7 }) ∷ [];
  get_tier = none;
}

-- `cfg.getTier?.(tenant)`
abbrev named_tier : Option (Tenant → Option String) → Tenant → Option String
named_tier none tenant = none
named_tier (some f) tenant = f tenant

-- `getTierFor`
unfoldable pub get_tier_for : Option BackupRetentionConfig → Tenant → Result BackupRetentionTier
get_tier_for config tenant =
    let cfg = get_or config default_retention in
    elim (lookup (get_or (named_tier cfg.get_tier tenant) cfg.default_tier) cfg.tiers) [
      | none ↦ throw (error "tier is not declared in config.backup.retention.tiers")
      | some tier ↦ ok tier
    ]

abbrev pub later : Option ℕ → Option ℕ → Option ℕ
later none b = b
later (some a) none = some a
later (some a) (some b) = if leb a b then some b else some a

-- `Math.max` of the timestamps that are dates
unfoldable pub latest : List BackupMetadata → Option ℕ
latest [] = none
latest (m ∷ ms) = later m.timestamp (latest ms)

-- The test of `shouldBackup` on the list
unfoldable pub is_due : BackupRetentionTier → ℕ → List BackupMetadata → Bool
unfolding latest
is_due tier now list = elim (latest list) [
  | none ↦ true
  | some last ↦ leb (last + tier.interval_hours * 3600000) now
]

-- The comparator of the sort puts the later first; what is no date is equal to all.
abbrev pub is_newer : BackupMetadata → BackupMetadata → Bool
is_newer a b = elim a.timestamp [
  | none ↦ false
  | some t ↦ elim b.timestamp [ none ↦ false | some u ↦ ltb u t ]
]

unfoldable pub insert_by_age : BackupMetadata → List BackupMetadata → List BackupMetadata
insert_by_age m [] = m ∷ []
insert_by_age m (n ∷ ns) =
    let rest = insert_by_age m ns in if is_newer n m then n ∷ rest else m ∷ n ∷ ns

-- The stable sort
unfoldable pub sort_by_age : List BackupMetadata → List BackupMetadata
unfolding insert_by_age
sort_by_age [] = []
sort_by_age (m ∷ ms) = insert_by_age m (sort_by_age ms)

unfoldable pub plan_of : BackupRetentionTier → List BackupMetadata → RetentionPlan
unfolding sort_by_age
plan_of tier list =
    let sorted = sort_by_age list in
    record { kept = take tier.keep_last sorted; purged = drop tier.keep_last sorted }

-- The deletions, each of which may fail.
unfoldable pub purge :
    {B : BackupStores} → BackupEnv → String → List BackupMetadata → BackupWorld B → BackupWorld B
purge env tenant_id [] w = w
purge env tenant_id (m ∷ ms) w = purge env tenant_id ms (delete_backup env tenant_id m.file w).1

module _ {B : BackupStores} (env : BackupEnv) (config : Option BackupRetentionConfig) where
  -- `shouldBackup`
  unfoldable pub should_backup : Tenant → M (BackupWorld B) Bool
  unfolding get_tier_for is_due
  should_backup tenant w = elim (get_tier_for config tenant) [
    | throw e ↦ (throw e, w)
    | ok tier ↦ (ok (is_due tier env.now (load_metadata env tenant.id w)), w)
  ]

  -- `planRetention`
  unfoldable pub plan_retention : Tenant → M (BackupWorld B) RetentionPlan
  unfolding get_tier_for plan_of
  plan_retention tenant w = elim (get_tier_for config tenant) [
    | throw e ↦ (throw e, w)
    | ok tier ↦ (ok (plan_of tier (load_metadata env tenant.id w)), w)
  ]

  -- `applyRetention`
  unfoldable pub apply_retention : Tenant → M (BackupWorld B) RetentionPlan
  unfolding plan_retention purge
  apply_retention tenant = do
    plan ← plan_retention tenant
    λ w. (ok plan, purge env tenant.id plan.purged w)
