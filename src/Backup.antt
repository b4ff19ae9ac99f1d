-- ===== src/Backup.antt =====
-- src/services/backup_service.ts: the archives of a tenant and the list that describes them.
pub mod Retention
pub mod Plan
pub mod Listed
pub mod Purge
pub mod Tests
use adonisjs_lasagna_saas_te.Prelude.{
  ℕ, ◌+◌, String, Bool, true, false, not, ◌&&◌, ◌||◌, Option, none, some, List, [], ◌∷◌, str_append,
  str_eq, if◌then◌else◌, get_or, or_else, filter, take, all_chars, within, is_code, strip_suffix,
  text_length, leb, Char,
}
use adonisjs_lasagna_saas_te.Exceptions.{
  error, Result, ok, throw, M, ◌>>=◌, ◌>>◌, raise, modify, gets,
}
use adonisjs_lasagna_saas_te.Store.{Store}
use adonisjs_lasagna_saas_te.Tenant.{Tenant}
use adonisjs_lasagna_saas_te.Identifier.{is_safe_identifier}
use adonisjs_lasagna_saas_te.Quota.{Link, absent, up, down, lost}

-- The timestamp is the instant of its text, or `none` where the text is no date.
pub record BackupMetadata : Type 0 where
  pub file : String
  pub size : ℕ
  pub timestamp : Option ℕ
  pub tenant_id : String
  pub schema : String

-- Redis, the disk and S3 while an operation runs, and what the clients of PostgreSQL answer.
pub record BackupEnv : Type 0 where
  pub link : Link
  pub disk_fails : Bool
  pub s3_enabled : Bool
  pub s3_fails : Bool
  pub now : ℕ
  pub now_text : String
  pub pg_dump : String → Result ℕ
  pub pg_restore : String → String → Result (Unit {0})

-- Redis and the sidecar files hold lists of metadata; the disk and S3 hold archives.
pub record BackupStores : Type 1 where
  pub cache : Store (List BackupMetadata)
  pub sidecar : Store (List BackupMetadata)
  pub disk : Store (Unit {0})
  pub s3 : Store (Unit {0})

pub record BackupWorld (B : BackupStores) : Type 0 where
  pub cached : B.cache.State
  pub sidecars : B.sidecar.State
  pub archives : B.disk.State
  pub objects : B.s3.State

-- `[A-Za-z0-9._-]`
abbrev is_file_char : Char → Bool
is_file_char c =
    within b'A' b'Z' c
    || within b'a' b'z' c
    || within b'0' b'9' c
    || is_code b'.' c
    || is_code b'_' c
    || is_code b'-' c

has_stem : Option String → Bool
has_stem none = false
has_stem (some stem) = leb 1 (text_length stem) && all_chars is_file_char stem

-- `FILE_PATTERN.test`
unfoldable pub is_file_name : String → Bool
unfolding has_stem
is_file_name name = has_stem (strip_suffix ".dump" name)

abbrev pub meta_key : String → String
meta_key tenant_id = str_append "backup:meta:" tenant_id

abbrev pub archive_key : String → String → String
archive_key tenant_id file = str_append tenant_id (str_append "/" file)

module _ {B : BackupStores} (env : BackupEnv) where
  -- The list in Redis, where it answers
  unfoldable pub cached_list : Link → String → BackupWorld B → Option (List BackupMetadata)
  cached_list up tenant_id w = B.cache.get (meta_key tenant_id) w.cached
  cached_list absent tenant_id w = none
  cached_list down tenant_id w = none
  cached_list lost tenant_id w = none

  -- `#loadMetadata`: Redis first, then the sidecar file.
  unfoldable pub load_metadata : String → BackupWorld B → List BackupMetadata
  unfolding cached_list
  load_metadata tenant_id w =
      get_or
        (or_else (cached_list env.link tenant_id w)
          (if env.disk_fails then none else B.sidecar.get tenant_id w.sidecars))
        []

  unfoldable pub cache_list : Link → String → List BackupMetadata → BackupWorld B → BackupWorld B
  cache_list up tenant_id list w = record w {
    cached = B.cache.put (meta_key tenant_id) list w.cached;
  }
  cache_list lost tenant_id list w = record w {
    cached = B.cache.put (meta_key tenant_id) list w.cached;
  }
  cache_list absent tenant_id list w = w
  cache_list down tenant_id list w = w

  -- `#persistMetadata`: both copies, and a failure of either is passed over.
  unfoldable pub persist_metadata : String → List BackupMetadata → BackupWorld B → BackupWorld B
  unfolding cache_list
  persist_metadata tenant_id list w =
      let w' = cache_list env.link tenant_id list w in
      if env.disk_fails
      then w'
      else record w' { sidecars = B.sidecar.put tenant_id list w'.sidecars }

  -- `#saveMetadata`
  unfoldable pub save_metadata : String → BackupMetadata → BackupWorld B → BackupWorld B
  unfolding persist_metadata load_metadata
  save_metadata tenant_id meta w =
      persist_metadata tenant_id (take 30 (meta ∷ load_metadata tenant_id w)) w

  unfoldable pub unlink : String → String → BackupWorld B → BackupWorld B
  unlink tenant_id file w =
      if env.disk_fails
      then w
      else record w { archives = B.disk.del (archive_key tenant_id file) w.archives }

  unfoldable pub delete_from_s3 : String → String → BackupWorld B → BackupWorld B
  delete_from_s3 tenant_id file w =
      if env.s3_enabled && not env.s3_fails
      then record w { objects = B.s3.del (archive_key tenant_id file) w.objects }
      else w

  -- `deleteBackup`
  unfoldable pub delete_backup : String → String → M (BackupWorld B) (Unit {0})
  unfolding unlink delete_from_s3 load_metadata persist_metadata
  delete_backup tenant_id file w =
      if is_file_name file
      then (let w' = delete_from_s3 tenant_id file (unlink tenant_id file w) in
          let kept = filter (λ m. not (str_eq m.file file)) (load_metadata tenant_id w') in
          (ok tt, persist_metadata tenant_id kept w'))
      else (throw (error "Invalid backup file name"), w)

  -- `backup`: the archive is written and listed before it is uploaded. The name holds the instant
  -- of the dump as a text.
  unfoldable pub dumped : String → String → ℕ → M (BackupWorld B) BackupMetadata
  unfolding save_metadata
  dumped tenant_id schema size w =
      let file =
        str_append "tenant_"
          (str_append tenant_id (str_append "_" (str_append env.now_text ".dump"))) in
      let meta : BackupMetadata = record {
        file = file;
        size = size;
        timestamp = some env.now;
        tenant_id = tenant_id;
        schema = schema;
      } in
      let w1 = record w { archives = B.disk.put (archive_key tenant_id file) tt w.archives } in
      let w2 = save_metadata tenant_id meta w1 in
      if env.s3_enabled
      then (if env.s3_fails then (throw (error "S3 upload failed"), w2) else (
        ok meta,
        record w2 { objects = B.s3.put (archive_key tenant_id file) tt w2.objects },
      ))
      else (ok meta, w2)

  unfoldable pub backup : String → String → M (BackupWorld B) BackupMetadata
  unfolding dumped
  backup tenant_id schema w =
      if is_safe_identifier schema && not env.disk_fails
      then elim (env.pg_dump schema) [
        | throw e ↦ (throw e, w)
        | ok size ↦ dumped tenant_id schema size w
      ]
      else (throw (error "Refusing to use unsafe tenant schema in DDL, or no directory"), w)

  -- `#downloadFromS3`: an archive that is on the disk is not fetched again.
  download : String → String → M (BackupWorld B) (Unit {0})
  download tenant_id file w = elim (B.disk.get (archive_key tenant_id file) w.archives) [
    | some u ↦ (ok tt, w)
    | none ↦ elim (if env.s3_fails then none else B.s3.get (archive_key tenant_id file) w.objects) [
      | none ↦ (throw (error "S3 download failed"), w)
      | some u ↦
          (ok tt, record w { archives = B.disk.put (archive_key tenant_id file) tt w.archives })
    ]
  ]

  -- `restore`
  unfoldable pub restore : String → String → String → M (BackupWorld B) (Unit {0})
  unfolding download
  restore tenant_id schema file =
      if is_file_name file && is_safe_identifier schema
      then ((if env.s3_enabled then download tenant_id file else λ w. (ok tt, w)) >> λ w.
          (env.pg_restore schema file, w))
      else raise (error "Invalid backup file name, or unsafe tenant schema")
