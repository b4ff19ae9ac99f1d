-- ===== src/SqlSplitter/Tests.antt =====
-- Small scripts.
use adonisjs_lasagna_saas_te.Prelude.{◌≡◌, refl, List, [], ◌∷◌, ◌++◌, map, arith}
use adonisjs_lasagna_saas_te.SqlSplitter.{
  start, loop, is_prefix, result, split_sql_statements, codes,
}
use adonisjs_lasagna_saas_te.SqlSplitter.Rounds.{split_sql_statements-total}
use adonisjs_lasagna_saas_te.SqlSplitter.Segments.{
  Segment, plain, quoted, block, tagged, sign, remark, is_segment, script, trimmed,
}
use adonisjs_lasagna_saas_te.SqlSplitter.Scripts.{split_sql_statements-script}

two_statements :
    split_sql_statements (codes "SELECT ';' ; SELECT $a$;$a$;")
    ≡ codes "SELECT ';'" ∷ codes "SELECT $a$;$a$" ∷ []
unfolding split_sql_statements
two_statements = refl

-- A meta-command at the start of a line is dropped.
meta_command : split_sql_statements (codes "\\connect a;b\nSELECT 1;") ≡ codes "SELECT 1" ∷ []
unfolding split_sql_statements
meta_command = refl

-- A slash after the opening of a block comment closes it.
short_comment : split_sql_statements (codes "/*/ a; b */") ≡ codes "/*/ a" ∷ codes "b */" ∷ []
unfolding split_sql_statements
short_comment = refl

split_sql_statements-total_example :
    ((loop 20 (start (codes "SELECT 1; -- a"))).rest ≡ [])
    × (result (loop 20 (start (codes "SELECT 1; -- a")))
        ≡ split_sql_statements (codes "SELECT 1; -- a"))
split_sql_statements-total_example =
    split_sql_statements-total (codes "SELECT 1; -- a") 20 (omega arith)

abbrev statements : List (List Segment)
statements =
    (map plain (codes "\nA ")
      ++ (quoted (codes ";it's") ∷ plain 32 ∷ sign b'-' b'1' ∷ remark (codes " a;b") ∷ []))
    ∷ (plain 32 ∷ [])
    ∷ (tagged (codes "fn") (codes "x := '1;") ∷ block (codes ";*") ∷ [])
    ∷ []

split_sql_statements-script_example : split_sql_statements (script statements) ≡ trimmed statements
unfolding is_segment is_prefix
split_sql_statements-script_example = split_sql_statements-script statements refl
