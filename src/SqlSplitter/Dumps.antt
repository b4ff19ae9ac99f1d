-- ===== src/SqlSplitter/Dumps.antt =====
-- What the tagged splitter of src/utils/sql_splitter.ts makes of a dump.
use adonisjs_lasagna_saas_te.Prelude.{
  and_left, and_right, ◌≡◌, refl, sym, ap, ◌∙◌, Bool, true, not, ◌&&◌, List, [], ◌∷◌, ◌++◌, all,
  append_assoc, append-nil, arith, ◌==◌,
}
use adonisjs_lasagna_saas_te.SqlSplitter.{Text, split_sql_statements}
use adonisjs_lasagna_saas_te.SqlSplitter.Tagged.{
  SqlToken, copy, statements, block, split_lines, join_lines, is_copy_from_stdin, copy_header,
  is_terminator, flush_buffer, tokens_of, split_sql_statements_tagged,
}

-- Lines of statements, then the header line of a block, its rows and its end.
pub record Block : Type 0 where
  pub before : List Text
  pub header : Text
  pub rows : List Text

-- The blocks of a dump, and the lines after them.
pub record Dump : Type 0 where
  pub blocks : List Block
  pub after : List Text

abbrev pub terminator : Text
terminator = b'\\' ∷ b'.' ∷ []

abbrev pub lines_of : List Block → List Text → List Text
lines_of [] after = after
lines_of (b ∷ bs) after = b.before ++ (b.header ∷ (b.rows ++ (terminator ∷ lines_of bs after)))

unfoldable pub dump_tokens : List Block → List Text → List SqlToken
unfolding flush_buffer copy_header
dump_tokens [] after = flush_buffer after
dump_tokens (b ∷ bs) after =
    flush_buffer b.before ++ (copy (copy_header b.header) b.rows ∷ dump_tokens bs after)

abbrev pub is_line : Text → Bool
is_line line = all (λ c. not (c == b'\n')) line

abbrev pub is_statement_line : Text → Bool
is_statement_line line = is_line line && not (is_copy_from_stdin line)

abbrev pub is_row : Text → Bool
is_row line = is_line line && not (is_terminator line)

abbrev pub is_block : Block → Bool
is_block b =
    all is_statement_line b.before
    && ((is_line b.header && is_copy_from_stdin b.header) && all is_row b.rows)

abbrev pub is_dump : List Block → List Text → Bool
is_dump bs after = all is_block bs && all is_statement_line after

split_lines_end : (line : Text) → is_line line ≡ true → split_lines line ≡ line ∷ []
unfolding split_lines
split_lines_end [] h = refl
split_lines_end (c ∷ cs) h = ground (arith, split_lines_end cs)

split_lines-append :
    (line rest : Text)
    → is_line line ≡ true
    → split_lines (line ++ (b'\n' ∷ rest)) ≡ line ∷ split_lines rest
unfolding split_lines
split_lines-append [] rest h = refl
split_lines-append (c ∷ cs) rest h = ground (arith, split_lines-append cs rest)

-- Lines that are joined are split again.
split_lines-join_lines :
    (line : Text) (lines : List Text)
    → all is_line (line ∷ lines) ≡ true
    → split_lines (join_lines (line ∷ lines)) ≡ line ∷ lines
unfolding join_lines
split_lines-join_lines line [] h = split_lines_end line (and_left (is_line line) true h)
split_lines-join_lines line (next ∷ lines) h =
    split_lines-append line (join_lines (next ∷ lines)) (and_left (is_line line) _ h)
    ∙ ap (λ ls. line ∷ ls) (split_lines-join_lines next lines (and_right (is_line line) _ h))

tokens_of-statements :
    (ls buffer rest : List Text)
    → all is_statement_line ls ≡ true
    → tokens_of (statements buffer) (ls ++ rest) ≡ tokens_of (statements (buffer ++ ls)) rest
unfolding tokens_of
tokens_of-statements [] buffer rest h = rw (append-nil buffer) refl
tokens_of-statements (l ∷ ls) buffer rest h =
    tokens_of-statement l buffer (ls ++ rest) (and_left (is_statement_line l) _ h)
    ∙ tokens_of-statements ls (buffer ++ (l ∷ [])) rest (and_right (is_statement_line l) _ h)
    ∙ ap (λ b. tokens_of (statements b) rest) (append_assoc buffer (l ∷ []) ls)
  where
    tokens_of-statement :
        (l : Text) (buffer ls : List Text)
        → is_statement_line l ≡ true
        → tokens_of (statements buffer) (l ∷ ls) ≡ tokens_of (statements (buffer ++ (l ∷ []))) ls
    tokens_of-statement l buffer ls h = ground arith

tokens_of-rows :
    (header : Text) (ls rows rest : List Text)
    → all is_row ls ≡ true
    → tokens_of (block header rows) (ls ++ (terminator ∷ rest))
      ≡ copy header (rows ++ ls) ∷ tokens_of (statements []) rest
unfolding tokens_of
tokens_of-rows header [] rows rest h = rw (append-nil rows) refl
tokens_of-rows header (l ∷ ls) rows rest h =
    tokens_of-row l rows (ls ++ (terminator ∷ rest)) (and_left (is_row l) _ h)
    ∙ tokens_of-rows header ls (rows ++ (l ∷ [])) rest (and_right (is_row l) _ h)
    ∙ ap (λ r. copy header r ∷ tokens_of (statements []) rest) (append_assoc rows (l ∷ []) ls)
  where
    tokens_of-row :
        (l : Text) (rows ls : List Text)
        → is_row l ≡ true
        → tokens_of (block header rows) (l ∷ ls) ≡ tokens_of (block header (rows ++ (l ∷ []))) ls
    tokens_of-row l rows ls h = ground arith

tokens_of-header :
    (l : Text) (buffer ls : List Text)
    → is_copy_from_stdin l ≡ true
    → tokens_of (statements buffer) (l ∷ ls)
      ≡ flush_buffer buffer ++ tokens_of (block (copy_header l) []) ls
unfolding tokens_of
tokens_of-header l buffer ls h = rw h

module _ (b : Block) (bs : List Block) (after : List Text) (h : is_dump (b ∷ bs) after ≡ true) where
  is_dump-tail : is_dump bs after ≡ true
  is_dump-tail = ground arith

  is_dump-before : all is_statement_line b.before ≡ true
  is_dump-before = ground arith

  is_dump-header : is_line b.header ≡ true
  is_dump-header = ground arith

  is_dump-copy : is_copy_from_stdin b.header ≡ true
  is_dump-copy = ground arith

  is_dump-rows : all is_row b.rows ≡ true
  is_dump-rows = ground arith

tokens_of-lines :
    (bs : List Block) (after : List Text)
    → is_dump bs after ≡ true
    → tokens_of (statements []) (lines_of bs after) ≡ dump_tokens bs after
unfolding dump_tokens tokens_of
tokens_of-lines [] after h =
    ap (tokens_of (statements [])) (sym (append-nil after)) ∙ tokens_of-statements after [] [] h
tokens_of-lines (b ∷ bs) after h =
    let rest = lines_of bs after in
    tokens_of-statements b.before [] (b.header ∷ (b.rows ++ (terminator ∷ rest)))
      (is_dump-before b bs after h)
    ∙ tokens_of-header b.header b.before (b.rows ++ (terminator ∷ rest)) (is_dump-copy b bs after h)
    ∙ ap (λ ts. flush_buffer b.before ++ ts)
        (tokens_of-rows (copy_header b.header) b.rows [] rest (is_dump-rows b bs after h)
          ∙ ap (λ ts. copy (copy_header b.header) b.rows ∷ ts)
              (tokens_of-lines bs after (is_dump-tail b bs after h)))

all-append :
    (p : Text → Bool) (xs ys : List Text)
    → all p xs ≡ true
    → all p ys ≡ true
    → all p (xs ++ ys) ≡ true
all-append p [] ys hx hy = hy
all-append p (x ∷ xs) ys hx hy =
    rw (and_left (p x) _ hx) (all-append p xs ys (and_right (p x) _ hx) hy)

all-weaken :
    (q : Text → Bool) (xs : List Text)
    → all (λ x. is_line x && q x) xs ≡ true
    → all is_line xs ≡ true
all-weaken q [] h = refl
all-weaken q (x ∷ xs) h =
    rw (and_left (is_line x) _ (and_left (is_line x && q x) _ h))
      (all-weaken q xs (and_right (is_line x && q x) _ h))

lines_of-is_line :
    (bs : List Block) (after : List Text)
    → is_dump bs after ≡ true
    → all is_line (lines_of bs after) ≡ true
lines_of-is_line [] after h = all-weaken (λ l. not (is_copy_from_stdin l)) after h
lines_of-is_line (b ∷ bs) after h =
    all-append is_line b.before (b.header ∷ (b.rows ++ (terminator ∷ lines_of bs after)))
      (all-weaken (λ l. not (is_copy_from_stdin l)) b.before (is_dump-before b bs after h))
      (rw (is_dump-header b bs after h) (
        all-append is_line b.rows (terminator ∷ lines_of bs after)
          (all-weaken (λ l. not (is_terminator l)) b.rows (is_dump-rows b bs after h))
          (lines_of-is_line bs after (is_dump-tail b bs after h))))

split-lines_of :
    (ls : List Text)
    → all is_line ls ≡ true
    → tokens_of (statements []) (split_lines (join_lines ls)) ≡ tokens_of (statements []) ls
unfolding tokens_of join_lines split_lines flush_buffer split_sql_statements
split-lines_of [] h = refl
split-lines_of (l ∷ ls) h = ap (tokens_of (statements [])) (split_lines-join_lines l ls h)

-- A dump whose blocks each end with the line of their end is split into what the splitter of
-- statements makes of the lines between the blocks, in order, and one token for each block, with
-- its header and its rows as they are: no row is read as a statement, where no line of statements
-- is the header of a block, the header of each block is one, no row is the line of the end, and no
-- line has a line feed, all of which `is_dump` tests.
pub split_sql_statements_tagged-dump :
    (d : Dump)
    → is_dump d.blocks d.after ≡ true
    → split_sql_statements_tagged (join_lines (lines_of d.blocks d.after))
      ≡ dump_tokens d.blocks d.after
unfolding split_sql_statements_tagged
split_sql_statements_tagged-dump d h =
    split-lines_of (lines_of d.blocks d.after) (lines_of-is_line d.blocks d.after h)
    ∙ tokens_of-lines d.blocks d.after h
