-- ===== src/SqlImport/Tests.antt =====
-- Small dumps, and a database that keeps the statements it has executed.
use adonisjs_lasagna_saas_te.Prelude.{
  ℕ, ◌+◌, ◌≡◌, refl, ap, sym, ◌∙◌, subst, Bool, true, false, not, leb, Option, none, some, List, [],
  ◌∷◌, ◌++◌, length, if◌then◌else◌,
}
use adonisjs_lasagna_saas_te.Exceptions.{Exception, error, Result, ok, throw, M, ◌>>◌}
use adonisjs_lasagna_saas_te.SqlSplitter.{Text, codes, is_prefix}
use adonisjs_lasagna_saas_te.SqlSplitter.Tagged.{
  SqlToken, sql, copy, split_sql_statements_tagged, join_lines,
}
use adonisjs_lasagna_saas_te.SqlSplitter.Dumps.{
  Dump, lines_of, dump_tokens, split_sql_statements_tagged-dump,
}
use adonisjs_lasagna_saas_te.SqlImport.{
  Outside, Query, savepoint, release, rollback_to, statement, Counts, should_skip, dry_counts,
  no_counts, psql_result, run_transactional,
}
use adonisjs_lasagna_saas_te.SqlImport.Preview.{psql_result-dry_counts}
use adonisjs_lasagna_saas_te.Prelude.Int.{diff}
use adonisjs_lasagna_saas_te.SqlImport.Rewrite.{rewrite_schema}
use adonisjs_lasagna_saas_te.SqlImport.Postgres.{IsPostgres, Leaves, Stays, apply_tokens}

abbrev dump : Dump
dump = record {
  blocks =
      record {
        before = codes "SELECT 1;" ∷ [];
        header = codes "COPY public.users (id) FROM stdin;";
        rows = codes "1; DROP" ∷ codes "" ∷ [];
      }
      ∷ [];
  after = codes "SELECT 2;" ∷ [];
}

abbrev dump_text : Text
dump_text = codes "SELECT 1;\nCOPY public.users (id) FROM stdin;\n1; DROP\n\n\\.\nSELECT 2;"

tagged_dump :
    split_sql_statements_tagged dump_text
    ≡ sql (codes "SELECT 1")
      ∷ copy (codes "COPY public.users (id) FROM stdin") (codes "1; DROP" ∷ codes "" ∷ [])
      ∷ sql (codes "SELECT 2")
      ∷ []
unfolding split_sql_statements_tagged
tagged_dump = refl

split_sql_statements_tagged-dump_example :
    split_sql_statements_tagged (join_lines (lines_of dump.blocks dump.after))
    ≡ dump_tokens dump.blocks dump.after
unfolding split_sql_statements_tagged
split_sql_statements_tagged-dump_example = split_sql_statements_tagged-dump dump refl

rewritten :
    rewrite_schema
      (codes "a \"public\".b public.c xpublic.d public d")
      (codes "public")
      (codes "t1")
    ≡ codes "a \"t1\".b \"t1\".c xpublic.d public d"
unfolding rewrite_schema
rewritten = refl

-- The text of a row is rewritten as well.
rewritten_row :
    rewrite_schema (codes "www.public.org") (codes "public") (codes "t1") ≡ codes "www.\"t1\".org"
unfolding rewrite_schema
rewritten_row = refl

skips :
    (should_skip (codes " set  Search_path = x") ≡ true)
    × (should_skip (codes "SELECT pg_catalog.set_config('search_path', '', false)") ≡ true)
    × (should_skip (codes "SET statement_timeout = 0") ≡ false)
unfolding should_skip
skips = (refl, refl, refl)

-- The statements that were executed, those at the last savepoint, and whether there is a
-- connection, and a transaction on it.
record Database : Type 0 where
  executed : List Text
  saved : List Text
  connected : Bool
  running : Bool

unfoldable execute_statement : Text → List Text → Option (List Text)
unfolding is_prefix
execute_statement stmt done =
    if is_prefix (codes "BAD") stmt then none else some (done ++ (stmt ∷ []))

-- COMMIT is the statement of this database that controls the transaction.
unfoldable is_plain : Text → Bool
unfolding is_prefix
is_plain stmt = not (is_prefix (codes "COMMIT") stmt)

-- A deferred constraint allows five statements.
abbrev accepts : List Text → Bool
accepts done = leb (length done) 5

abbrev put : Database → Option (List Text) → Result (Unit {0}) × Database
put d none = (throw (error "syntax error"), d)
put d (some done) = (ok tt, record d { executed = done })

-- Outside a transaction, and after a COMMIT, there is no savepoint.
abbrev in_transaction : Database → Result (Unit {0}) × Database → Result (Unit {0}) × Database
in_transaction d answered =
    if d.running
    then answered
    else (throw (error "SAVEPOINT can only be used in transaction blocks"), d)

abbrev answer : Query → M Database (Unit {0})
answer (savepoint n) d = in_transaction d (ok tt, record d { saved = d.executed })
answer (rollback_to n) d = in_transaction d (ok tt, record d { executed = d.saved })
answer (release n) d = in_transaction d (ok tt, d)
answer (statement stmt) d =
    if is_plain stmt
    then put d (execute_statement stmt d.executed)
    else (ok tt, record d { running = false })
answer _ d = (ok tt, d)

-- `transaction`, where a callback that throws is rolled back, and so is a commit that is refused.
abbrev concluded : Database → Result Counts × Database → Result Counts × Database
concluded before (throw e, d) = (throw e, record d { executed = before.executed; running = false })
concluded before (ok counts, d) =
    if accepts d.executed
    then (ok counts, record d { running = false })
    else (throw (error "constraint"), record d { executed = before.executed; running = false })

abbrev file : Text
file = codes "SET search_path = x; BAD public.a; SELECT public.a;"

abbrev outside : Outside Database
outside = record {
  access = λ path d. (ok tt, d);
  read_file = λ path d. (ok file, d);
  mkdtemp = λ d. (ok "/tmp/x", d);
  join = λ dir name. dir;
  write_file = λ path text d. (ok tt, d);
  unlink = λ path d. (ok tt, d);
  connect = λ d. (ok tt, record d { connected = true });
  transaction = λ callback d. concluded d (callback (record d { running = true }));
  raw_query = answer;
  message_of = λ e. codes "syntax error";
  has_psql = λ d. (ok false, d);
  run_psql = λ cfg path d. (ok (some 0, []), d);
}

abbrev contents : Database → List Text
contents d = d.executed

abbrev is_connected : Database → Bool
is_connected d = d.connected

abbrev is_running : Database → Bool
is_running d = d.running

at_savepoint : Database → Database
at_savepoint w = record w { saved = w.executed }

saves_savepoint :
    (n : ℕ) (w w' : Database)
    → w.running ≡ true
    → outside.raw_query (savepoint n) w ≡ (ok tt, w')
    → at_savepoint w ≡ w'
unfolding at_savepoint
saves_savepoint n w w' live saved =
    let set : outside.raw_query (savepoint n) w ≡ (ok tt, at_savepoint w) = rw live refl in
    ap (λ r. r.1) (sym set ∙ saved)

runs_saved :
    (n : ℕ) (stmt : Text) (w w' : Database) (d : List Text)
    → w.running ≡ true
    → is_plain stmt ≡ true
    → outside.raw_query (savepoint n) w ≡ (ok tt, w')
    → execute_statement stmt (contents w) ≡ some d
    → Stays contents is_running
        ((outside.raw_query (statement stmt) >> outside.raw_query (release n)) w')
        tt
        d
unfolding at_savepoint
runs_saved n stmt w w' d live plain saved e =
    subst
      (λ v.
        Stays contents is_running
          ((outside.raw_query (statement stmt) >> outside.raw_query (release n)) v) tt d)
      (saves_savepoint n w w' live saved)
      (record {
        world = record w { executed = d; saved = w.executed };
        returns = rw (plain, e, live) refl;
        leaves = refl;
        running = live;
      })

fails_saved :
    (n : ℕ) (stmt : Text) (w w' : Database)
    → w.running ≡ true
    → is_plain stmt ≡ true
    → outside.raw_query (savepoint n) w ≡ (ok tt, w')
    → execute_statement stmt (contents w) ≡ none
    → (e : Exception) × (w'' : Database) × (outside.raw_query (statement stmt) w' ≡ (throw e, w''))
      × Stays contents is_running
          ((outside.raw_query (rollback_to n) >> outside.raw_query (release n)) w'')
          tt
          (contents w)
unfolding at_savepoint
fails_saved n stmt w w' live plain saved e =
    subst
      (λ v.
        (x : Exception) × (w'' : Database) × (outside.raw_query (statement stmt) v ≡ (throw x, w''))
        × Stays contents is_running
            ((outside.raw_query (rollback_to n) >> outside.raw_query (release n)) w'') tt
            (contents w))
      (saves_savepoint n w w' live saved)
      (
        error "syntax error",
        at_savepoint w,
        rw (plain, e) refl,
        record { world = at_savepoint w; returns = rw live refl; leaves = refl; running = live },
      )

commits_accepted :
    (callback : M Database Counts) (w : Database) (c : Counts) (d : List Text)
    → Stays contents is_running (callback (record w { running = true })) c d
    → accepts d ≡ true
    → Leaves contents (outside.transaction callback w) c d
commits_accepted callback w c d l accepted = record {
  world = record l.world { running = false };
  returns = rw (l.returns, l.leaves, accepted) refl;
  leaves = l.leaves;
}

abbrev postgres :
    IsPostgres outside is_plain execute_statement accepts contents is_connected is_running
postgres = record {
  connects = λ w w' e. (ap (λ r. r.1.connected) (sym e), ap (λ r. r.1.executed) (sym e));
  sets_replica = λ w live. record { world = w; returns = refl; leaves = refl; running = live };
  sets_default = λ w live. record { world = w; returns = refl; leaves = refl; running = live };
  saves = λ n w live. record {
    world = record w { saved = w.executed };
    returns = rw live refl;
    leaves = refl;
    running = live;
  };
  runs = λ n stmt w w' d live plain saved e. runs_saved n stmt w w' d live plain saved e;
  fails = λ n stmt w w' live plain saved e. fails_saved n stmt w w' live plain saved e;
  begun = λ w. record w { running = true };
  begins = λ w linked. (refl, refl);
  commits = λ callback w c d linked l accepted. commits_accepted callback w c d l accepted;
}

abbrev schema : Text
schema = codes "t1"

abbrev source : Text
source = codes "public"

abbrev fresh : Database
fresh = record { executed = []; saved = []; connected = false; running = false }

abbrev linked : Database
linked = record fresh { connected = true }

abbrev tokens : List SqlToken
tokens = split_sql_statements_tagged (rewrite_schema file source schema)

-- A COMMIT in a dump ends the transaction, and the import with it.
commit_rejected :
    (run_transactional outside (sql (codes "COMMIT") ∷ []) fresh).0
    ≡ throw (error "SAVEPOINT can only be used in transaction blocks")
unfolding run_transactional should_skip is_plain
commit_rejected = refl

applied : apply_tokens execute_statement tokens [] ≡ codes "SELECT \"t1\".a" ∷ []
unfolding apply_tokens execute_statement rewrite_schema split_sql_statements_tagged
applied = refl

psql_result-dry_counts_example :
    let c = dry_counts no_counts (split_sql_statements_tagged dump_text) in
    let r = psql_result (split_sql_statements_tagged dump_text) (codes "ERROR: x") in
    (c.executed_so_far + c.skipped_so_far + c.blocks_so_far
      ≡ length (split_sql_statements_tagged dump_text))
    × (r.skipped ≡ c.skipped_so_far)
    × (r.copy_blocks ≡ c.blocks_so_far)
    × (r.copy_rows ≡ c.rows_so_far)
    × (r.executed ≡ diff (c.executed_so_far + c.blocks_so_far) (length r.errors))
psql_result-dry_counts_example =
    psql_result-dry_counts (split_sql_statements_tagged dump_text) (codes "ERROR: x")
