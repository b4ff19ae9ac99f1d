-- ===== src/Backup/Purge.antt =====
-- The list of backups after the operations of src/services/backup_service.ts and
-- src/services/backup_retention_service.ts.
use adonisjs_lasagna_saas_te.Prelude.{
  ◌≤◌, ◌≡◌, ◌≢◌, ◌⊎◌, inl, inr, refl, sym, ap, ◌∙◌, String, true, false, not, Option, none, some,
  List, [], ◌∷◌, str_eq, filter, length, All, arith, Bool-cases, eq_refl,
}
use adonisjs_lasagna_saas_te.Exceptions.{Result, ok}
use adonisjs_lasagna_saas_te.Store.{Store}
use adonisjs_lasagna_saas_te.Tenant.{Tenant}
use adonisjs_lasagna_saas_te.Quota.{Link, absent, up, down, lost}
use adonisjs_lasagna_saas_te.Backup.{
  BackupMetadata, BackupEnv, BackupStores, BackupWorld, is_file_name, load_metadata, cached_list,
  cache_list, persist_metadata, unlink, delete_from_s3, delete_backup, meta_key,
}
use adonisjs_lasagna_saas_te.Backup.Retention.{
  BackupRetentionTier, BackupRetentionConfig, RetentionPlan, get_tier_for, plan_of, plan_retention,
  purge, apply_retention,
}
use adonisjs_lasagna_saas_te.Backup.Listed.{
  is_listed, filter-filter, filter-true, and_not, plan_of-All, plan_of-le,
}

-- One of the two copies of the list is written and read.
abbrev pub KeepsList : BackupEnv → Type 0
KeepsList env = (env.link ≡ up) ⊎ (env.disk_fails ≡ false)

get_put_self :
    {V : Type 0} (S : Store V) (k : String) (v : V) (s : S.State) → S.get k (S.put k v s) ≡ some v
get_put_self S k v s = rw (S.get-put k k v s) (rw (eq_refl k) refl)

module _ {B : BackupStores} (env : BackupEnv) where
  -- What Redis answers just after it was written, if it answers.
  cached_list-cache_list :
      (link : Link) (tenant_id : String) (list : List BackupMetadata) (w : BackupWorld B)
      → (cached_list env link tenant_id (cache_list env link tenant_id list w) ≡ some list)
        ⊎ ((cached_list env link tenant_id (cache_list env link tenant_id list w) ≡ none)
            × (link ≢ up))
  unfolding cached_list cache_list
  cached_list-cache_list up tenant_id list w =
      inl (get_put_self B.cache (meta_key tenant_id) list w.cached)
  cached_list-cache_list absent tenant_id list w = inr (refl, λ e. cc e)
  cached_list-cache_list down tenant_id list w = inr (refl, λ e. cc e)
  cached_list-cache_list lost tenant_id list w = inr (refl, λ e. cc e)

  cached_list-world :
      (link : Link) (tenant_id : String) (w w' : BackupWorld B)
      → w.cached ≡ w'.cached
      → cached_list env link tenant_id w ≡ cached_list env link tenant_id w'
  unfolding cached_list
  cached_list-world up tenant_id w w' e = rw e refl
  cached_list-world absent tenant_id w w' e = refl
  cached_list-world down tenant_id w w' e = refl
  cached_list-world lost tenant_id w w' e = refl

  -- A list that is written is the list that is read.
  pub load-persist :
      (tenant_id : String) (list : List BackupMetadata) (w : BackupWorld B)
      → KeepsList env
      → load_metadata env tenant_id (persist_metadata env tenant_id list w) ≡ list
  unfolding load_metadata persist_metadata
  load-persist tenant_id list w keeps = elim (Bool-cases env.disk_fails) [
    | inl d ↦ elim (cached_list-cache_list env.link tenant_id list w) [
      | inl c ↦ simp (load_metadata, persist_metadata, d, c)
      | inr (c, broken) ↦ elim keeps [ inl u ↦ absurd (broken u) | inr d' ↦ absurd (cc (d, d')) ]
    ]
    | inr d ↦
        let w1 = cache_list env env.link tenant_id list w in
        let w2 : BackupWorld B = record w1 {
          sidecars = B.sidecar.put tenant_id list w1.sidecars;
        } in
        let same = cached_list-world env.link tenant_id w2 w1 refl in
        elim (cached_list-cache_list env.link tenant_id list w) [
          | inl c ↦ simp (load_metadata, persist_metadata, d, same, c)
          | inr (c, broken) ↦ simp (
            load_metadata,
            persist_metadata,
            d,
            same,
            c,
            get_put_self B.sidecar tenant_id list w1.sidecars,
          )
        ]
  ]

  load-world :
      (tenant_id : String) (w w' : BackupWorld B)
      → w.cached ≡ w'.cached
      → w.sidecars ≡ w'.sidecars
      → load_metadata env tenant_id w ≡ load_metadata env tenant_id w'
  unfolding load_metadata
  load-world tenant_id w w' c s = rw (cached_list-world env.link tenant_id w w' c) (rw s refl)

  -- Deleting archives leaves the lists alone.
  removed : String → String → BackupWorld B → BackupWorld B
  removed tenant_id file w = delete_from_s3 env tenant_id file (unlink env tenant_id file w)

  removed-lists :
      (tenant_id file : String) (w : BackupWorld B)
      → ((removed tenant_id file w).cached ≡ w.cached)
        × ((removed tenant_id file w).sidecars ≡ w.sidecars)
  unfolding removed unlink delete_from_s3
  removed-lists tenant_id file w = ground arith

  delete_backup-load :
      (tenant_id file : String) (w : BackupWorld B)
      → KeepsList env
      → is_file_name file ≡ true
      → load_metadata env tenant_id (delete_backup env tenant_id file w).1
        ≡ filter (λ m. not (str_eq m.file file)) (load_metadata env tenant_id w)
  unfolding delete_backup removed
  delete_backup-load tenant_id file w keeps valid =
      let w' : BackupWorld B = removed tenant_id file w in
      let lists = removed-lists tenant_id file w in
      let kept : List BackupMetadata =
        filter (λ m. not (str_eq m.file file)) (load_metadata env tenant_id w') in
      let stored : (delete_backup env tenant_id file w).1 ≡ persist_metadata env tenant_id kept w' =
        simp (delete_backup, valid) in
      let read : load_metadata env tenant_id w' ≡ load_metadata env tenant_id w =
        load-world tenant_id w' w lists.0 lists.1 in
      rw stored (load-persist tenant_id kept w' keeps ∙ rw read refl)

  purge-load :
      (tenant_id : String) (ms : List BackupMetadata) (w : BackupWorld B)
      → KeepsList env
      → All (λ (m : BackupMetadata). is_file_name m.file ≡ true) ms
      → load_metadata env tenant_id (purge env tenant_id ms w)
        ≡ filter (λ m. not (is_listed ms m)) (load_metadata env tenant_id w)
  unfolding purge
  purge-load tenant_id [] w keeps valid = sym (filter-true (load_metadata env tenant_id w))
  purge-load tenant_id (m ∷ ms) w keeps valid =
      purge-load tenant_id ms (delete_backup env tenant_id m.file w).1 keeps valid.1
      ∙ (rw (delete_backup-load tenant_id m.file w keeps valid.0) (
          filter-filter (λ x. not (is_listed ms x)) (λ x. not (str_eq x.file m.file))
            (λ x. not (is_listed (m ∷ ms) x)) (load_metadata env tenant_id w)
            (λ x. and_not (str_eq x.file m.file) (is_listed ms x))))

module _ {B : BackupStores} (env : BackupEnv) (config : Option BackupRetentionConfig) where
  -- Where a copy of the list can be kept and the file names are valid, applying retention leaves
  -- on the list the backups whose files the plan does not purge, and no more than `keepLast`.
  pub apply_retention-load :
      (tenant : Tenant) (tier : BackupRetentionTier) (w : BackupWorld B)
      → KeepsList env
      → get_tier_for config tenant ≡ ok tier
      → All (λ (m : BackupMetadata). is_file_name m.file ≡ true) (load_metadata env tenant.id w)
      → let list = load_metadata env tenant.id w in
        let plan = plan_of tier list in
        let left = load_metadata env tenant.id (apply_retention env config tenant w).1 in
        ((apply_retention env config tenant w).0 ≡ ok plan)
        × (left ≡ filter (λ m. not (is_listed plan.purged m)) list)
        × (length left ≤ tier.keep_last)
  unfolding apply_retention plan_retention
  apply_retention-load tenant tier w keeps e valid =
      let list : List BackupMetadata = load_metadata env tenant.id w in
      let plan : RetentionPlan = plan_of tier list in
      let run : apply_retention env config tenant w ≡ (ok plan, purge env tenant.id plan.purged w) =
        simp (apply_retention, plan_retention, e) in
      let left = purge-load env tenant.id plan.purged w keeps (plan_of-All tier list valid) in
      (
        ap (λ (r : Result RetentionPlan × BackupWorld B). r.0) run,
        rw run left,
        rw run (rw left (plan_of-le tier list)),
      )
