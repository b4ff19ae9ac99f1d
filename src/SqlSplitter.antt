-- ===== src/SqlSplitter.antt =====
-- src/utils/sql_splitter.ts: the state machine that splits a dump into statements.
pub mod Rounds
pub mod Segments
pub mod Reading
pub mod Scripts
pub mod Tagged
pub mod Dumps
pub mod Tests
use adonisjs_lasagna_saas_te.Prelude.{
  ℕ, zero, suc, ◌+◌, Bool, true, false, not, ◌&&◌, ◌||◌, Option, none, some, List, [], ◌∷◌, ◌++◌,
  if◌then◌else◌, ◌==◌, leb, length, drop, reverse, String, code,
}

-- A text as its code units.
abbrev pub Text : Type 0
Text = List ℕ

pub data Mode : Type 0 where
  default single_quote line_comment block_comment : Mode
  -- with the tag, less its first dollar
  dollar_quote : Text → Mode

abbrev pub codes : String → Text
codes String.[] = []
codes (String.◌∷◌ c s) = code c ∷ codes s

-- `sql` from `i` on, the code unit before it (a line feed at the start), and what was read.
pub record Splitter : Type 0 where
  pub mode : Mode
  pub rest : Text
  pub prev : ℕ
  pub current : Text
  pub statements : List Text

-- What JavaScript takes for white space.
abbrev pub is_space : ℕ → Bool
is_space c =
    (leb 9 c && leb c 13)
    || c == 32
    || c == 160
    || c == 5760
    || (leb 8192 c && leb c 8202)
    || c == 8232
    || c == 8233
    || c == 8239
    || c == 8287
    || c == 12288
    || c == 65279

unfoldable pub trim_start : Text → Text
trim_start [] = []
trim_start (c ∷ cs) = if is_space c then trim_start cs else c ∷ cs

-- `trim()`
unfoldable pub trim : Text → Text
unfolding trim_start
trim cs = reverse (trim_start (reverse (trim_start cs)))

-- `statements.push(stmt)` for one that is not empty
abbrev pub push_statement : List Text → Text → List Text
push_statement statements [] = statements
push_statement statements (c ∷ cs) = statements ++ ((c ∷ cs) ∷ [])

abbrev pub is_tag_char : ℕ → Bool
is_tag_char c =
    (leb b'A' c && leb c b'Z')
    || (leb b'a' c && leb c b'z')
    || (leb b'0' c && leb c b'9')
    || c == b'_'

abbrev pub push_code : ℕ → Option Text → Option Text
push_code c none = none
push_code c (some cs) = some (c ∷ cs)

-- `[A-Za-z0-9_]*\$` at the start of a text
unfoldable pub tag_end : Text → Option Text
tag_end [] = none
tag_end (c ∷ cs) =
    let rest = push_code c (tag_end cs) in
    if c == b'$' then some (b'$' ∷ []) else if is_tag_char c then rest else none

unfoldable pub is_prefix : Text → Text → Bool
is_prefix [] cs = true
is_prefix (t ∷ ts) [] = false
is_prefix (t ∷ ts) (c ∷ cs) = t == c && is_prefix ts cs

abbrev pub starts : ℕ → Text → Bool
starts n [] = false
starts n (c ∷ cs) = c == n

-- What follows the end of the line.
unfoldable pub after_eol : Text → Text
after_eol [] = []
after_eol (c ∷ cs) = let rest = after_eol cs in if c == b'\n' then cs else rest

-- `current += ch; i++`
abbrev pub take_one : Mode → ℕ → Text → Splitter → Splitter
take_one mode c cs s = record s {
  mode = mode;
  rest = cs;
  prev = c;
  current = s.current ++ (c ∷ []);
}

-- `current += ch; current += next; i += 2`
abbrev pub take_two : Mode → ℕ → Text → Splitter → Splitter
take_two mode c [] s = take_one mode c [] s
take_two mode c (d ∷ cs) s = record s {
  mode = mode;
  rest = cs;
  prev = d;
  current = s.current ++ (c ∷ (d ∷ []));
}

-- `current += dollarTag; i += dollarTag.length`
abbrev pub take_tag : Mode → Text → Text → Splitter → Splitter
take_tag mode tag cs s = record s {
  mode = mode;
  rest = cs;
  prev = b'$';
  current = s.current ++ tag;
}

-- The cases of `default` after the quotes and comments.
unfoldable pub round_plain : ℕ → Text → Splitter → Splitter
unfolding trim after_eol
round_plain c cs s =
    if c == b';'
    then record s {
      rest = cs;
      prev = c;
      current = [];
      statements = push_statement s.statements (trim s.current);
    }
    else if c == b'\\' && s.prev == b'\n'
    then record s { rest = after_eol cs; prev = b'\n' }
    else take_one default c cs s

unfoldable pub round_dollar : ℕ → Text → Splitter → Splitter
unfolding tag_end round_plain
round_dollar c cs s = elim (tag_end cs) [
  | none ↦ round_plain c cs s
  | some name ↦ take_tag (dollar_quote name) (c ∷ name) (drop (length name) cs) s
]

unfoldable pub round_default : ℕ → Text → Splitter → Splitter
unfolding round_dollar
round_default c cs s =
    if c == b'-' && starts b'-' cs
    then take_one line_comment c cs s
    else if c == b'/' && starts b'*' cs
    then take_one block_comment c cs s
    else if c == b'\''
    then take_one single_quote c cs s
    else if c == b'$'
    then round_dollar c cs s
    else round_plain c cs s

unfoldable pub round_tagged : Text → ℕ → Text → Splitter → Splitter
unfolding is_prefix
round_tagged name c cs s =
    let tag = b'$' ∷ name in
    if is_prefix tag (c ∷ cs)
    then take_tag default tag (drop (length tag) (c ∷ cs)) s
    else take_one (dollar_quote name) c cs s

-- One round of the loop, at the code unit `c`.
unfoldable pub round_at : Mode → ℕ → Text → Splitter → Splitter
unfolding round_default round_tagged
round_at default c cs s = round_default c cs s
round_at single_quote c cs s =
    if c == b'\'' && starts b'\'' cs
    then take_two single_quote c cs s
    else take_one (if c == b'\'' then default else single_quote) c cs s
round_at line_comment c cs s = take_one (if c == b'\n' then default else line_comment) c cs s
round_at block_comment c cs s =
    if c == b'*' && starts b'/' cs then take_two default c cs s else take_one block_comment c cs s
round_at (dollar_quote name) c cs s = round_tagged name c cs s

unfoldable pub round : Splitter → Splitter
unfolding round_at
round s = elim s.rest [ [] ↦ s | c ∷ cs ↦ round_at s.mode c cs s ]

-- The loop, with fuel for its rounds.
unfoldable pub loop : ℕ → Splitter → Splitter
unfolding round
loop zero s = s
loop (suc fuel) s = loop fuel (round s)

abbrev pub start : Text → Splitter
start sql = record { mode = default; rest = sql; prev = b'\n'; current = []; statements = [] }

abbrev is_semicolon : Text → Bool
is_semicolon (c ∷ []) = c == b';'
is_semicolon _ = false

abbrev pub push_trailing : List Text → Text → List Text
push_trailing statements trailing =
    if is_semicolon trailing then statements else push_statement statements trailing

-- The statements of a text that was read, with the trailing one.
unfoldable pub result : Splitter → List Text
unfolding trim
result s = push_trailing s.statements (trim s.current)

-- `splitSqlStatements`: one round for each code unit is enough.
unfoldable pub split_sql_statements : Text → List Text
unfolding loop result
split_sql_statements sql = result (loop (length sql) (start sql))
