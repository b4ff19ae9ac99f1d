-- ===== src/SqlImport/Preview.antt =====
-- What a dry run of src/services/sql_import_service.ts announces, and what `psql` then reports.
use adonisjs_lasagna_saas_te.Prelude.{
  ◌+◌, ◌≡◌, refl, ap, inl, inr, List, [], ◌∷◌, length, filter, map, arith, Bool-cases,
}
use adonisjs_lasagna_saas_te.Prelude.Int.{diff}
use adonisjs_lasagna_saas_te.SqlSplitter.{Text}
use adonisjs_lasagna_saas_te.SqlSplitter.Tagged.{SqlToken, sql, copy}
use adonisjs_lasagna_saas_te.SqlImport.{
  Counts, no_counts, dry_counts, should_skip, is_copy, is_skipped, is_executed, copied_rows,
  psql_result, count_skipped, count_executed, count_block, error_of_line, error_lines,
}

-- The counts of a dry run are those of the tokens of each kind.
record Announced (c c' : Counts) (ts : List SqlToken) : Type 0 where
  executed : c'.executed_so_far ≡ c.executed_so_far + length (filter is_executed ts)
  skipped : c'.skipped_so_far ≡ c.skipped_so_far + length (filter is_skipped ts)
  blocks : c'.blocks_so_far ≡ c.blocks_so_far + length (filter is_copy ts)
  rows : c'.rows_so_far ≡ c.rows_so_far + copied_rows ts

dry_counts-Announced : (c : Counts) (ts : List SqlToken) → Announced c (dry_counts c ts) ts
unfolding dry_counts
dry_counts-Announced c [] = ground arith
dry_counts-Announced c (copy header rows ∷ ts) =
    ground (arith, dry_counts-Announced (count_block rows c) ts)
dry_counts-Announced c (sql text ∷ ts) = elim (Bool-cases (should_skip text)) [
  | inl e ↦ rw e (ground (arith, dry_counts-Announced (count_skipped c) ts))
  | inr e ↦ rw e (ground (arith, dry_counts-Announced (count_executed c) ts))
]

length-filters :
    (ts : List SqlToken)
    → length (filter is_executed ts) + length (filter is_skipped ts) + length (filter is_copy ts)
      ≡ length ts
length-filters [] = refl
length-filters (copy header rows ∷ ts) = omega (arith, length-filters ts)
length-filters (sql text ∷ ts) = elim (Bool-cases (should_skip text)) [
  | inl e ↦ rw e (omega (arith, length-filters ts))
  | inr e ↦ rw e (omega (arith, length-filters ts))
]

-- A dry run counts each token once, as executed, skipped or a block; and the result under `psql`
-- has as many skipped statements, blocks and rows as the dry run has announced, and as many
-- executed statements and blocks less the errors that stderr reports.
pub psql_result-dry_counts :
    (ts : List SqlToken) (stderr : Text)
    → let c = dry_counts no_counts ts in
      (c.executed_so_far + c.skipped_so_far + c.blocks_so_far ≡ length ts)
      × ((psql_result ts stderr).skipped ≡ c.skipped_so_far)
      × ((psql_result ts stderr).copy_blocks ≡ c.blocks_so_far)
      × ((psql_result ts stderr).copy_rows ≡ c.rows_so_far)
      × ((psql_result ts stderr).executed
          ≡ diff (c.executed_so_far + c.blocks_so_far) (length (psql_result ts stderr).errors))
unfolding psql_result
psql_result-dry_counts ts stderr =
    let a = dry_counts-Announced no_counts ts in
    (
      omega (arith, a.executed, a.skipped, a.blocks, length-filters ts),
      omega (arith, a.skipped),
      omega (arith, a.blocks),
      omega (arith, a.rows),
      ap (λ n. diff n (length (map error_of_line (error_lines stderr))))
          (omega (arith, a.executed, a.blocks)),
    )
