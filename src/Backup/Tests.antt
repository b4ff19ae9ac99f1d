-- ===== src/Backup/Tests.antt =====
-- Three backups under a tier that keeps two, and a list that Redis missed.
use mathlib.Core.List.{Perm}
use adonisjs_lasagna_saas_te.Prelude.{
  ℕ, ◌≤◌, ◌≡◌, ◌⊎◌, inl, refl, String, true, false, not, none, some, List, [], ◌∷◌, ◌++◌, All,
  filter, length, lookup,
}
use adonisjs_lasagna_saas_te.Exceptions.{ok}
use adonisjs_lasagna_saas_te.Store.Memory.{memory, nothing}
use adonisjs_lasagna_saas_te.Quota.{Link, up, down}
use adonisjs_lasagna_saas_te.Quota.Samples.{acme}
use adonisjs_lasagna_saas_te.Backup.{
  BackupMetadata, BackupEnv, BackupStores, BackupWorld, is_file_name, load_metadata, save_metadata,
}
use adonisjs_lasagna_saas_te.Backup.Retention.{
  BackupRetentionTier, BackupRetentionConfig, get_tier_for, plan_of, apply_retention,
}
use adonisjs_lasagna_saas_te.Backup.Plan.{plan_of-newest, instant}
use adonisjs_lasagna_saas_te.Backup.Listed.{is_listed}
use adonisjs_lasagna_saas_te.Backup.Purge.{apply_retention-load}

abbrev stores : BackupStores
stores = record {
  cache = memory (List BackupMetadata);
  sidecar = memory (List BackupMetadata);
  disk = memory (Unit {0});
  s3 = memory (Unit {0});
}

abbrev env : Link → BackupEnv
env link = record {
  link = link;
  disk_fails = false;
  s3_enabled = false;
  s3_fails = false;
  now = 90000000;
  now_text = "2026-05-02T16-16-36-264Z";
  pg_dump = λ schema. ok 10;
  pg_restore = λ schema file. ok tt;
}

abbrev at : String → ℕ → BackupMetadata
at file t = record {
  file = file;
  size = 1;
  timestamp = some t;
  tenant_id = "acme";
  schema = "tenant_acme";
}

abbrev list : List BackupMetadata
list = at "b.dump" 2000 ∷ at "a.dump" 1000 ∷ at "c.dump" 3000 ∷ []

abbrev two : BackupRetentionTier
two = record { interval_hours = 24; keep_last = 2 }

abbrev config : BackupRetentionConfig
config = record { default_tier = "small"; tiers = ("small", two) ∷ []; get_tier = none }

abbrev world : BackupWorld stores
world = record {
  cached = (memory (List BackupMetadata)).put "backup:meta:acme" list nothing;
  sidecars = nothing;
  archives = nothing;
  objects = nothing;
}

oldest_purged : (plan_of two list).purged ≡ at "a.dump" 1000 ∷ []
unfolding plan_of
oldest_purged = refl

plan_of-newest_example :
    let plan = plan_of two list in
    Perm (plan.kept ++ plan.purged) list
    × (length plan.kept ≤ 2)
    × ((length plan.kept ≡ 2) ⊎ (plan.purged ≡ []))
    × All
        (λ (x : BackupMetadata). All (λ (y : BackupMetadata). instant y ≤ instant x) plan.purged)
        plan.kept
plan_of-newest_example = plan_of-newest two list (refl, (refl, (refl, tt)))

the_tier : get_tier_for (some config) acme ≡ ok two
unfolding get_tier_for lookup
the_tier = refl

listed : load_metadata (env up) "acme" world ≡ list
unfolding load_metadata
listed = refl

a_name : is_file_name "a.dump" ≡ true
unfolding is_file_name
a_name = refl

-- A name with a path in it is refused.
no_path : is_file_name "../a.dump" ≡ false
unfolding is_file_name
no_path = refl

apply_retention-load_example :
    let plan = plan_of two list in
    let left =
      load_metadata (env up) "acme" (apply_retention (env up) (some config) acme world).1 in
    ((apply_retention (env up) (some config) acme world).0 ≡ ok plan)
    × (left ≡ filter (λ m. not (is_listed plan.purged m)) list)
    × (length left ≤ 2)
unfolding load_metadata is_file_name
apply_retention-load_example =
    apply_retention-load (env up) (some config) acme two world (inl refl) the_tier
      (refl, (refl, (refl, tt)))

-- A backup that was listed while Redis was down is missing once Redis answers again.
missed :
    load_metadata (env up) "acme" (save_metadata (env down) "acme" (at "d.dump" 4000) world) ≡ list
unfolding load_metadata save_metadata
missed = refl
