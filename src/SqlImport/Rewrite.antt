-- ===== src/SqlImport/Rewrite.antt =====
-- src/services/sql_import_service.ts, #rewriteSchema: `replace` of a literal text.
use adonisjs_lasagna_saas_te.Prelude.{
  ℕ, zero, suc, ◌-◌, Bool, true, false, not, ◌&&◌, ◌||◌, [], ◌∷◌, ◌++◌, if◌then◌else◌, ◌==◌, length,
  drop,
}
use adonisjs_lasagna_saas_te.SqlSplitter.{Text, is_prefix, is_tag_char}

-- What `$` and a code unit stand for in a replacement text: a match of a pattern without groups,
-- and the text before and after it.
abbrev pub substitution : Text → Text → Text → ℕ → Text
substitution matched before after d =
    if d == b'$'
    then b'$' ∷ []
    else if d == b'&'
    then matched
    else if d == b'`'
    then before
    else if d == b'\''
    then after
    else b'$' ∷ (d ∷ [])

-- The replacement text, with what its dollars stand for.
unfoldable pub expand : Text → Text → Text → Text → Text
expand matched before after [] = []
expand matched before after (c ∷ []) = c ∷ []
expand matched before after (c ∷ (d ∷ cs)) =
    let plain = c ∷ expand matched before after (d ∷ cs) in
    let special = substitution matched before after d ++ expand matched before after cs in
    if c == b'$' then special else plain

abbrev pub is_word_last : Text → Bool
is_word_last [] = false
is_word_last (c ∷ []) = is_tag_char c
is_word_last (c ∷ (d ∷ cs)) = is_word_last (d ∷ cs)

-- `\b`
abbrev pub is_boundary : Text → ℕ → Bool
is_boundary before c =
    is_word_last before && not (is_tag_char c) || not (is_word_last before) && is_tag_char c

-- `replace` of every match of a literal text, only of those that begin at a word boundary where
-- `at_boundary` says so. `skip` counts the code units that the last match still covers, and
-- `before` is the text that was read.
unfoldable pub replace_all : Bool → Text → Text → ℕ → Text → Text → Text
unfolding is_prefix expand
replace_all at_boundary needle replacement skip before [] = []
replace_all at_boundary needle replacement (suc skip) before (c ∷ cs) =
    replace_all at_boundary needle replacement skip (before ++ (c ∷ [])) cs
replace_all at_boundary needle replacement zero before (c ∷ cs) =
    let after = drop (length needle) (c ∷ cs) in
    let replaced =
      expand needle before after replacement
      ++ replace_all at_boundary needle replacement (length needle - 1) (before ++ (c ∷ [])) cs in
    let kept = c ∷ replace_all at_boundary needle replacement zero (before ++ (c ∷ [])) cs in
    if is_prefix needle (c ∷ cs) && (not at_boundary || is_boundary before c)
    then replaced
    else kept

abbrev pub quoted_name : Text → Text
quoted_name name = b'"' ∷ (name ++ (b'"' ∷ (b'.' ∷ [])))

unfoldable pub rewrite_schema : Text → Text → Text → Text
unfolding replace_all
rewrite_schema text source target =
    let unquoted = replace_all false (quoted_name source) (quoted_name target) 0 [] text in
    replace_all true (source ++ (b'.' ∷ [])) (quoted_name target) 0 [] unquoted
