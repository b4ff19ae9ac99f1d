-- ===== src/SqlImport/Postgres.antt =====
-- What src/services/sql_import_service.ts relies on: the connection and PostgreSQL behind it.
use adonisjs_lasagna_saas_te.Prelude.{
  ℕ, ◌+◌, ◌≡◌, true, Option, none, some, List, [], ◌∷◌, length, Bool, ◌||◌, if◌then◌else◌,
}
use adonisjs_lasagna_saas_te.Exceptions.{Exception, Result, ok, throw, M, ◌>>◌}
use adonisjs_lasagna_saas_te.SqlSplitter.{Text}
use adonisjs_lasagna_saas_te.SqlSplitter.Tagged.{SqlToken, sql, copy}
use adonisjs_lasagna_saas_te.SqlImport.{
  Outside, replica_role, default_role, savepoint, release, rollback_to, statement, Counts,
  should_skip,
}

-- A call that resolves and leaves the contents `d`.
pub record Leaves {W A D : Type 0} (contents : W → D) (call : Result A × W) (a : A) (d : D)
    : Type 0 where
  pub world : W
  pub returns : call ≡ (ok a, world)
  pub leaves : contents world ≡ d

-- A call within a transaction that resolves, leaves the contents `d`, and leaves the transaction
-- running.
pub record Stays {W A D : Type 0} (contents : W → D) (is_running : W → Bool) (call : Result A × W)
    (a : A) (d : D) : Type 0 where
  pub world : W
  pub returns : call ≡ (ok a, world)
  pub leaves : contents world ≡ d
  pub running : is_running world ≡ true

-- What the import relies on, for statements that `is_plain`: those that control no transaction and
-- no savepoint (no BEGIN, COMMIT, ROLLBACK, RELEASE), do not set the role, and have only effects
-- that a rollback undoes. `execute` is the effect of such a statement on the contents of the
-- database, or `none` where PostgreSQL refuses it; a world is connected, and it is running within a
-- transaction that was not aborted; `accepts` are the contents that no deferred constraint refuses
-- at the commit. The user of the connection may set the role, and a connection that was made lasts.
pub record IsPostgres {W D : Type 0} (O : Outside W) (is_plain : Text → Bool)
    (execute : Text → D → Option D) (accepts : D → Bool) (contents : W → D)
    (is_connected is_running : W → Bool) : Type 0 where
  pub connects :
      (w w' : W) → O.connect w ≡ (ok tt, w') → (is_connected w' ≡ true) × (contents w' ≡ contents w)
  pub sets_replica :
      (w : W)
      → is_running w ≡ true
      → Stays contents is_running (O.raw_query replica_role w) tt (contents w)
  pub sets_default :
      (w : W)
      → is_running w ≡ true
      → Stays contents is_running (O.raw_query default_role w) tt (contents w)
  pub saves :
      (n : ℕ) (w : W)
      → is_running w ≡ true
      → Stays contents is_running (O.raw_query (savepoint n) w) tt (contents w)
  pub runs :
      (n : ℕ) (stmt : Text) (w w' : W) (d : D)
      → is_running w ≡ true
      → is_plain stmt ≡ true
      → O.raw_query (savepoint n) w ≡ (ok tt, w')
      → execute stmt (contents w) ≡ some d
      → Stays contents is_running
          ((O.raw_query (statement stmt) >> O.raw_query (release n)) w')
          tt
          d
  pub fails :
      (n : ℕ) (stmt : Text) (w w' : W)
      → is_running w ≡ true
      → is_plain stmt ≡ true
      → O.raw_query (savepoint n) w ≡ (ok tt, w')
      → execute stmt (contents w) ≡ none
      → (e : Exception) × (w'' : W) × (O.raw_query (statement stmt) w' ≡ (throw e, w''))
        × Stays contents is_running
            ((O.raw_query (rollback_to n) >> O.raw_query (release n)) w'')
            tt
            (contents w)
  -- A transaction begins on a connection, and commits where its callback resolves.
  pub begun : W → W
  pub begins :
      (w : W)
      → is_connected w ≡ true
      → (is_running (begun w) ≡ true) × (contents (begun w) ≡ contents w)
  pub commits :
      (callback : M W Counts) (w : W) (c : Counts) (d : D)
      → is_connected w ≡ true
      → Stays contents is_running (callback (begun w)) c d
      → accepts d ≡ true
      → Leaves contents (O.transaction callback w) c d

-- The statements of a dump in order, each one that fails left out.
module _ {D : Type 0} (execute : Text → D → Option D) where
  unfoldable pub apply_one : Text → D → D
  unfolding should_skip
  apply_one stmt d =
      if should_skip stmt then d else elim (execute stmt d) [ none ↦ d | some d' ↦ d' ]

  unfoldable pub apply_tokens : List SqlToken → D → D
  unfolding apply_one
  apply_tokens [] d = d
  apply_tokens (copy header rows ∷ ts) d = apply_tokens ts d
  apply_tokens (sql stmt ∷ ts) d = apply_tokens ts (apply_one stmt d)

abbrev pub count_of : Counts → ℕ
count_of c = c.executed_so_far + c.skipped_so_far + length c.errors_so_far

-- A statement of a dump that is skipped, or that the laws of the connection speak of.
abbrev pub is_importable : (Text → Bool) → SqlToken → Bool
is_importable is_plain (sql stmt) = should_skip stmt || is_plain stmt
is_importable is_plain (copy header rows) = true
