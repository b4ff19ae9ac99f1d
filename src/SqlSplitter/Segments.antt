-- ===== src/SqlSplitter/Segments.antt =====
-- SQL as the lexer of PostgreSQL reads it, apart from the machine of src/utils/sql_splitter.ts:
-- a statement is a list of segments, which may hold semicolons of their own.
use adonisjs_lasagna_saas_te.Prelude.{
  ℕ, Bool, true, false, not, ◌&&◌, ◌||◌, List, [], ◌∷◌, ◌++◌, if◌then◌else◌, ◌==◌, all,
}
use adonisjs_lasagna_saas_te.SqlSplitter.{Text, is_prefix, is_tag_char, starts, trim}

pub data Segment : Type 0 where
  -- a code unit with no meaning of its own
  plain : ℕ → Segment
  -- a minus or a slash before one
  sign : ℕ → ℕ → Segment
  -- `'…'`, `--…` to the end of the line, `/*…*/`, and `$tag$…$tag$`
  quoted remark block : Text → Segment
  tagged : Text → Text → Segment

-- A quote within quotes is doubled.
abbrev pub escape : Text → Text
escape [] = []
escape (c ∷ cs) = if c == b'\'' then b'\'' ∷ (b'\'' ∷ escape cs) else c ∷ escape cs

abbrev pub tag_of : Text → Text
tag_of name = b'$' ∷ (name ++ (b'$' ∷ []))

abbrev pub render : Segment → Text
render (plain c) = c ∷ []
render (sign c d) = c ∷ (d ∷ [])
render (quoted body) = b'\'' ∷ (escape body ++ (b'\'' ∷ []))
render (remark body) = b'-' ∷ (b'-' ∷ (body ++ (b'\n' ∷ [])))
render (block body) = b'/' ∷ (b'*' ∷ (body ++ (b'*' ∷ (b'/' ∷ []))))
render (tagged name body) = tag_of name ++ (body ++ tag_of name)

abbrev pub is_plain : ℕ → Bool
is_plain c = not (c == b'-' || c == b'/' || c == b'\'' || c == b'$' || c == b';' || c == b'\\')

-- No `*/` in a text.
abbrev pub is_open : Text → Bool
is_open [] = true
is_open (c ∷ cs) = not (c == b'*' && starts b'/' cs) && is_open cs

-- No tag starts within a text that the tag ends.
abbrev pub is_free : Text → Text → Bool
is_free tag [] = true
is_free tag (c ∷ cs) = not (is_prefix tag ((c ∷ cs) ++ tag)) && is_free tag cs

unfoldable pub is_segment : Segment → Bool
is_segment (plain c) = is_plain c
is_segment (sign c d) = (c == b'-' || c == b'/' && not (d == b'*')) && is_plain d
is_segment (quoted body) = true
is_segment (remark body) = all (λ c. not (c == b'\n')) body
is_segment (block body) = is_open (b'*' ∷ body)
is_segment (tagged name body) = all is_tag_char name && is_free (tag_of name) body

-- Two quoted texts in a row would be one.
abbrev pub is_apart : Segment → List Segment → Bool
is_apart (quoted body) (quoted body' ∷ segments) = false
is_apart _ _ = true

abbrev pub is_statement : List Segment → Bool
is_statement [] = true
is_statement (s ∷ ss) = is_segment s && is_apart s ss && is_statement ss

abbrev pub texts : List Segment → Text
texts [] = []
texts (s ∷ ss) = render s ++ texts ss

-- Statements, each with a semicolon after it.
abbrev pub script : List (List Segment) → Text
script [] = []
script (s ∷ ss) = texts s ++ (b';' ∷ script ss)

abbrev pub unless_empty : Text → List Text → List Text
unless_empty [] ts = ts
unless_empty (c ∷ cs) ts = (c ∷ cs) ∷ ts

-- The texts of the statements, trimmed, less the empty ones.
abbrev pub trimmed : List (List Segment) → List Text
trimmed [] = []
trimmed (s ∷ ss) = unless_empty (trim (texts s)) (trimmed ss)
