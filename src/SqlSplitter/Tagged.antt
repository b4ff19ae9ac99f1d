-- ===== src/SqlSplitter/Tagged.antt =====
-- src/utils/sql_splitter.ts, splitSqlStatementsTagged: dumps with `COPY … FROM stdin` blocks.
use adonisjs_lasagna_saas_te.Prelude.{
  ℕ, ◌+◌, Bool, true, false, not, ◌&&◌, ◌||◌, Option, none, some, List, [], ◌∷◌, ◌++◌, map,
  if◌then◌else◌, ◌==◌, leb, all,
}
use adonisjs_lasagna_saas_te.SqlSplitter.{
  Text, is_space, is_tag_char, trim, trim_start, split_sql_statements, codes,
}

pub data SqlToken : Type 0 where
  sql : (text : Text) → SqlToken
  copy : (header : Text) (rows : List Text) → SqlToken

abbrev pub cons_line : ℕ → List Text → List Text
cons_line c [] = (c ∷ []) ∷ []
cons_line c (line ∷ lines) = (c ∷ line) ∷ lines

-- `split('\n')`
unfoldable pub split_lines : Text → List Text
split_lines [] = [] ∷ []
split_lines (c ∷ cs) =
    let lines = split_lines cs in if c == b'\n' then [] ∷ lines else cons_line c lines

-- `join('\n')`
unfoldable pub join_lines : List Text → Text
join_lines [] = []
join_lines (line ∷ []) = line
join_lines (line ∷ (next ∷ lines)) = line ++ (b'\n' ∷ join_lines (next ∷ lines))

-- The flag `i` of a pattern, whose letters are written in lower case.
abbrev pub lower : ℕ → ℕ
lower c = if leb b'A' c && leb c b'Z' then c + 32 else c

-- What follows a word at the start of a text.
unfoldable pub after_word : Text → Text → Option Text
after_word [] cs = some cs
after_word (w ∷ ws) [] = none
after_word (w ∷ ws) (c ∷ cs) = let rest = after_word ws cs in if lower c == w then rest else none

-- `\b` after a letter
abbrev pub is_word_end : Text → Bool
is_word_end [] = true
is_word_end (c ∷ cs) = not (is_tag_char c)

-- What `.` matches.
abbrev pub is_dot : ℕ → Bool
is_dot c = not (c == b'\n' || c == b'\r' || c == 8232 || c == 8233)

-- `stdin\b`
abbrev pub is_stdin : Text → Bool
is_stdin cs = elim (after_word (codes "stdin") cs) [ none ↦ false | some rest ↦ is_word_end rest ]

-- `\s+stdin\b`
abbrev pub space_stdin : Text → Bool
space_stdin [] = false
space_stdin (c ∷ cs) = is_space c && is_stdin (trim_start cs)

-- `FROM\s+stdin\b`
unfoldable pub is_from_stdin : Text → Bool
unfolding after_word trim_start
is_from_stdin cs = elim (after_word (codes "from") cs) [
  | none ↦ false
  | some rest ↦ space_stdin rest
]

-- `.*\sFROM\s+stdin\b`
unfoldable pub any_from_stdin : Text → Bool
unfolding is_from_stdin
any_from_stdin [] = false
any_from_stdin (c ∷ cs) = (is_space c && is_from_stdin cs) || (is_dot c && any_from_stdin cs)

-- `.+\sFROM\s+stdin\b`
abbrev pub some_from_stdin : Text → Bool
some_from_stdin [] = false
some_from_stdin (c ∷ cs) = is_dot c && any_from_stdin cs

-- `\s+.+\sFROM\s+stdin\b`
unfoldable pub space_from_stdin : Text → Bool
unfolding any_from_stdin
space_from_stdin [] = false
space_from_stdin (c ∷ cs) = is_space c && (some_from_stdin cs || space_from_stdin cs)

-- `COPY_FROM_STDIN_RE.test(line)`
unfoldable pub is_copy_from_stdin : Text → Bool
unfolding after_word trim_start space_from_stdin
is_copy_from_stdin line = elim (after_word (codes "copy") (trim_start line)) [
  | none ↦ false
  | some rest ↦ space_from_stdin rest
]

-- `line.replace(/;\s*$/, '')`
unfoldable pub without_semicolon : Text → Text
without_semicolon [] = []
without_semicolon (c ∷ cs) =
    let rest = c ∷ without_semicolon cs in if c == b';' && all is_space cs then [] else rest

unfoldable pub copy_header : Text → Text
unfolding without_semicolon trim
copy_header line = trim (without_semicolon line)

-- `rowLine === '\\.'`
abbrev pub is_terminator : Text → Bool
is_terminator (c ∷ (d ∷ [])) = c == b'\\' && d == b'.'
is_terminator _ = false

-- `flushBuffer`: the tokens of the lines in the buffer
unfoldable pub flush_buffer : List Text → List SqlToken
unfolding join_lines split_sql_statements
flush_buffer [] = []
flush_buffer (line ∷ lines) = map sql (split_sql_statements (join_lines (line ∷ lines)))

-- Where the reading of the lines is: in statements, with the buffer, or in a block.
pub data Place : Type 0 where
  statements : (buffer : List Text) → Place
  block : (header : Text) (rows : List Text) → Place

-- The two loops, with the tokens that they push.
unfoldable pub tokens_of : Place → List Text → List SqlToken
unfolding is_copy_from_stdin copy_header flush_buffer
tokens_of (statements buffer) [] = flush_buffer buffer
tokens_of (statements buffer) (line ∷ lines) =
    let copied = flush_buffer buffer ++ tokens_of (block (copy_header line) []) lines in
    let buffered = tokens_of (statements (buffer ++ (line ∷ []))) lines in
    if is_copy_from_stdin line then copied else buffered
tokens_of (block header rows) [] = copy header rows ∷ []
tokens_of (block header rows) (line ∷ lines) =
    let ended = copy header rows ∷ tokens_of (statements []) lines in
    let more = tokens_of (block header (rows ++ (line ∷ []))) lines in
    if is_terminator line then ended else more

unfoldable pub split_sql_statements_tagged : Text → List SqlToken
unfolding tokens_of split_lines
split_sql_statements_tagged text = tokens_of (statements []) (split_lines text)
