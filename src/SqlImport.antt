-- ===== src/SqlImport.antt =====
-- src/services/sql_import_service.ts: a dump is rewritten to the schema of a tenant and applied.
pub mod Rewrite
pub mod Preview
pub mod Postgres
pub mod Applied
pub mod Tests
use adonisjs_lasagna_saas_te.Prelude.{
  ℕ, zero, suc, ◌+◌, Bool, true, false, not, ◌&&◌, ◌||◌, Option, none, some, List, [], ◌∷◌, ◌++◌,
  if◌then◌else◌, ◌==◌, leb, length, take, filter, map, any, String, get_or, truthy, is_some,
}
use adonisjs_lasagna_saas_te.Prelude.Int.{ℤ, pos, diff}
use adonisjs_lasagna_saas_te.Exceptions.{
  Exception, error, Result, ok, throw, M, continue, ◌>>=◌, ◌>>◌, pure, raise,
}
use adonisjs_lasagna_saas_te.SqlSplitter.{Text, is_prefix, is_space, trim_start, trim, codes}
use adonisjs_lasagna_saas_te.SqlSplitter.Tagged.{
  SqlToken, sql, copy, after_word, lower, split_lines, split_sql_statements_tagged,
}
use Rewrite.{rewrite_schema}

pub data ImportMode : Type 0 where
  transactional psql dry_run : ImportMode

pub record SqlImportOptions : Type 0 where
  pub source_schema : Text
  pub is_dry_run : Bool

-- A failed statement, and the message of its error.
pub record ImportError : Type 0 where
  pub failed : Text
  pub message : Text

pub record SqlImportResult : Type 0 where
  pub total : ℕ
  -- a difference under `psql`
  pub executed : ℤ
  pub skipped : ℕ
  pub copy_blocks : ℕ
  pub copy_rows : ℕ
  pub errors : List ImportError
  pub mode : ImportMode

-- `multitenancy.backup.pgConnection`, where each field may be left out
pub record PgConnection : Type 0 where
  pub host : Option String
  pub user : Option String
  pub password : Option String
  pub database : Option String
  pub port : Option ℕ

pub record PgConnectionConfig : Type 0 where
  pub host : String
  pub user : String
  pub password : String
  pub database : String
  pub port : ℕ

-- `\s+`, and the white space after it
abbrev pub after_spaces : Text → Option Text
after_spaces [] = none
after_spaces (c ∷ cs) = if is_space c then some (trim_start cs) else none

abbrev pub and_after : Option Text → (Text → Option Text) → Option Text
and_after none f = none
and_after (some cs) f = f cs

-- `/^SET\s+search_path/i`
unfoldable pub sets_search_path : Text → Bool
unfolding after_word trim_start
sets_search_path cs = is_some (
    and_after (after_word (codes "set") cs)
      λ rest. and_after (after_spaces rest) (after_word (codes "search_path")))

-- `/^SELECT\s+pg_catalog\.set_config\s*\(\s*'search_path'/i`
unfoldable pub selects_set_config : Text → Bool
unfolding after_word trim_start
selects_set_config cs = is_some (
    and_after (after_word (codes "select") cs) λ a. and_after (after_spaces a) λ b.
      and_after (after_word (codes "pg_catalog.set_config") b) λ c.
        and_after (after_word (codes "(") (trim_start c))
          λ d. after_word (codes "'search_path'") (trim_start d))

-- `/^\\[a-z]/i`
abbrev pub is_meta_command : Text → Bool
is_meta_command (b ∷ (c ∷ cs)) = b == b'\\' && (leb b'a' (lower c) && leb (lower c) b'z')
is_meta_command _ = false

unfoldable pub should_skip : Text → Bool
unfolding trim_start sets_search_path selects_set_config
should_skip stmt =
    let start = trim_start stmt in
    sets_search_path start || selects_set_config start || is_meta_command start

abbrev pub is_copy : SqlToken → Bool
is_copy (sql text) = false
is_copy (copy header rows) = true

abbrev pub is_skipped : SqlToken → Bool
is_skipped (sql text) = should_skip text
is_skipped (copy header rows) = false

abbrev pub is_executed : SqlToken → Bool
is_executed (sql text) = not (should_skip text)
is_executed (copy header rows) = false

abbrev pub copied_rows : List SqlToken → ℕ
copied_rows [] = 0
copied_rows (sql text ∷ ts) = copied_rows ts
copied_rows (copy header rows ∷ ts) = length rows + copied_rows ts

-- What the loops count.
pub record Counts : Type 0 where
  pub executed_so_far : ℕ
  pub skipped_so_far : ℕ
  pub blocks_so_far : ℕ
  pub rows_so_far : ℕ
  pub errors_so_far : List ImportError

abbrev pub no_counts : Counts
no_counts = record {
  executed_so_far = 0;
  skipped_so_far = 0;
  blocks_so_far = 0;
  rows_so_far = 0;
  errors_so_far = [];
}

abbrev pub count_skipped : Counts → Counts
count_skipped c = record c { skipped_so_far = c.skipped_so_far + 1 }

abbrev pub count_executed : Counts → Counts
count_executed c = record c { executed_so_far = c.executed_so_far + 1 }

abbrev pub count_block : List Text → Counts → Counts
count_block rows c = record c {
  blocks_so_far = c.blocks_so_far + 1;
  rows_so_far = c.rows_so_far + length rows;
}

abbrev pub error_of : Text → Text → ImportError
error_of stmt message = record { failed = take 200 stmt; message = message }

abbrev pub count_error : Text → Text → Counts → Counts
count_error stmt message c = record c {
  errors_so_far = c.errors_so_far ++ (error_of stmt message ∷ []);
}

abbrev pub counted : List SqlToken → ImportMode → Counts → SqlImportResult
counted tokens mode c = record {
  total = length tokens;
  executed = pos c.executed_so_far;
  skipped = c.skipped_so_far;
  copy_blocks = c.blocks_so_far;
  copy_rows = c.rows_so_far;
  errors = c.errors_so_far;
  mode = mode;
}

-- The loop under `dryRun`.
unfoldable pub dry_counts : Counts → List SqlToken → Counts
unfolding should_skip
dry_counts c [] = c
dry_counts c (copy header rows ∷ ts) = dry_counts (count_block rows c) ts
dry_counts c (sql text ∷ ts) =
    dry_counts (if should_skip text then count_skipped c else count_executed c) ts

-- What `rawQuery` is given: a setting of `session_replication_role`, a command on the savepoint
-- `_import_sp_<n>`, whose name is always safe, or a statement of the dump.
pub data Query : Type 0 where
  replica_role default_role : Query
  savepoint release rollback_to : (n : ℕ) → Query
  statement : (text : Text) → Query

-- What stands outside: the files, the driver and its connection, and `psql`.
pub record Outside (W : Type 0) : Type 0 where
  pub access : String → M W (Unit {0})
  pub read_file : String → M W Text
  -- the path of the new directory
  pub mkdtemp : M W String
  -- `join(dir, file)`
  pub join : String → String → String
  pub write_file : String → Text → M W (Unit {0})
  pub unlink : String → M W (Unit {0})
  -- `getActiveDriver()` and `driver.connect(tenant)`
  pub connect : M W (Unit {0})
  -- `connection.transaction(callback)`
  pub transaction : M W Counts → M W Counts
  pub raw_query : Query → M W (Unit {0})
  -- `err.message ?? String(err)`
  pub message_of : Exception → Text
  pub has_psql : M W Bool
  -- the exit code and what was written on stderr
  pub run_psql : PgConnectionConfig → String → M W (Option ℕ × Text)

abbrev pub require_field : Option String → Result String
require_field field = elim (truthy field) [
  | none ↦ throw (error "multitenancy.backup.pgConnection is not configured.")
  | some value ↦ ok value
]

abbrev pub and_ok {ℓ κ} : {A : Type ℓ} {B : Type κ} → Result A → (A → Result B) → Result B
and_ok (ok a) f = f a
and_ok (throw e) f = throw e

abbrev pub extract_fields : PgConnection → Result PgConnectionConfig
extract_fields pg = and_ok (require_field pg.host) λ host. and_ok (require_field pg.user) λ user.
    and_ok (require_field pg.database) λ database. ok (record {
      host = host;
      user = user;
      password = get_or pg.password "";
      database = database;
      port = get_or pg.port 5432;
    })

unfoldable pub extract_pg_config : Option PgConnection → Result PgConnectionConfig
extract_pg_config none = throw (error "multitenancy.backup.pgConnection is not configured.")
extract_pg_config (some pg) = extract_fields pg

-- The lines of stderr that report an error.
abbrev pub is_error_line : Text → Bool
is_error_line line = is_prefix (codes "ERROR:") line || is_prefix (codes "FATAL:") line

unfoldable pub error_lines : Text → List Text
unfolding split_lines trim is_prefix
error_lines stderr = filter is_error_line (map trim (split_lines stderr))

abbrev pub error_of_line : Text → ImportError
error_of_line line = record { failed = codes "(see psql stderr)"; message = line }

-- The result under `psql`, whose count of executed statements is a difference.
unfoldable pub psql_result : List SqlToken → Text → SqlImportResult
unfolding should_skip error_lines
psql_result tokens stderr =
    let blocks = length (filter is_copy tokens) in
    let errors = map error_of_line (error_lines stderr) in
    record {
      total = length tokens;
      executed = diff (length (filter is_executed tokens) + blocks) (length errors);
      skipped = length (filter is_skipped tokens);
      copy_blocks = blocks;
      copy_rows = copied_rows tokens;
      errors = errors;
      mode = psql;
    }

module _ {W : Type 0} (O : Outside W) where
  -- `try` around a statement: what failed is undone, and counted.
  after_statement : ℕ → Text → Counts → Result (Unit {0}) × W → Result Counts × W
  after_statement n stmt counts (ok done, w) = (ok (count_executed counts), w)
  after_statement n stmt counts (throw e, w) =
      (O.raw_query (rollback_to n)
          >> O.raw_query (release n)
          >> pure (count_error stmt (O.message_of e) counts))
        w

  run_statement : ℕ → Text → Counts → M W Counts
  unfolding after_statement
  run_statement n stmt counts = O.raw_query (savepoint n) >> λ w.
      after_statement n stmt counts ((O.raw_query (statement stmt) >> O.raw_query (release n)) w)

  -- The loop over the tokens, with the number of the next savepoint.
  unfoldable pub run_tokens : ℕ → Counts → List SqlToken → M W Counts
  unfolding should_skip run_statement
  run_tokens n counts [] = pure counts
  run_tokens n counts (copy header rows ∷ ts) = run_tokens n counts ts
  run_tokens n counts (sql stmt ∷ ts) =
      let skip = run_tokens n (count_skipped counts) ts in
      let run = run_statement n stmt counts >>= λ counts'. run_tokens (suc n) counts' ts in
      if should_skip stmt then skip else run

  -- The callback of the transaction.
  unfoldable pub import_callback : List SqlToken → M W Counts
  unfolding run_tokens
  import_callback tokens = do
    O.raw_query replica_role
    counts ← run_tokens 0 no_counts tokens
    O.raw_query default_role
    pure counts

  unfoldable pub run_transactional : List SqlToken → M W SqlImportResult
  unfolding import_callback
  run_transactional tokens = do
    O.connect
    counts ← O.transaction (import_callback tokens)
    pure (counted tokens transactional counts)

  -- `#spawnPsql`: the exit codes 0 and 3 are success.
  exited : Option ℕ × Text → M W Text
  exited (none, stderr) = raise (error "psql exited with code null")
  exited (some code, stderr) =
      if code == 0 || code == 3 then pure stderr else raise (error "psql exited with code")

  spawn_psql : PgConnectionConfig → String → M W Text
  unfolding exited
  spawn_psql cfg file = O.run_psql cfg file >>= exited

  -- `finally { await unlink(tmpFile).catch(() => {}) }`
  finally_unlink : {A : Type 0} → String → Result A × W → Result A × W
  finally_unlink file (r, w) = (r, (O.unlink file w).1)

  given : {A : Type 0} → Result A → M W A
  given r w = (r, w)

  -- `tenant.id + ".sql"` is the name of the file.
  run_via_psql : Option PgConnection → String → Text → List SqlToken → M W SqlImportResult
  unfolding spawn_psql finally_unlink given extract_pg_config psql_result
  run_via_psql pg_connection file_name text tokens = do
    available ← O.has_psql
    if available
        then pure tt
        else raise (error "This dump contains `COPY … FROM stdin` blocks. The importer needs psql.")
    cfg ← given (extract_pg_config pg_connection)
    dir ← O.mkdtemp
    let file = O.join dir file_name
    O.write_file file text
    λ w.
        finally_unlink file ((spawn_psql cfg file >>= λ stderr. pure (psql_result tokens stderr)) w)

  -- What `import` does with the rewritten text and its tokens.
  unfoldable pub import_tokens :
      Option PgConnection → String → Bool → Text → List SqlToken → M W SqlImportResult
  unfolding dry_counts run_via_psql
  import_tokens pg_connection file_name is_dry_run text tokens =
      if is_dry_run
      then pure (counted tokens dry_run (dry_counts no_counts tokens))
      else if any is_copy tokens
      then run_via_psql pg_connection file_name text tokens
      else run_transactional tokens

  -- `import`
  unfoldable pub import_dump :
      (schema_name : Text) (pg_connection : Option PgConnection) (file_name file_path : String)
      (options : SqlImportOptions)
      → M W SqlImportResult
  import_dump schema_name pg_connection file_name file_path options =
      O.access file_path >> O.read_file file_path >>= λ raw.
      let transformed = rewrite_schema raw options.source_schema schema_name in
      import_tokens pg_connection file_name options.is_dry_run transformed
        (split_sql_statements_tagged transformed)
