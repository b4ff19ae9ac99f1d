-- ===== src/SqlSplitter/Reading.antt =====
-- How the machine of src/utils/sql_splitter.ts reads each kind of segment.
use adonisjs_lasagna_saas_te.Prelude.{
  ℕ, ◌≤◌, ◌≡◌, refl, sym, ap, ◌∙◌, Bool, true, false, not, ◌&&◌, some, List, [], ◌∷◌, ◌++◌, ◌==◌,
  all, append_assoc, length, length-append, drop, arith, Bool-cases, inl, inr,
}
use adonisjs_lasagna_saas_te.SqlSplitter.{
  Text, Mode, default, single_quote, line_comment, block_comment, dollar_quote, Splitter, starts,
  is_prefix, is_tag_char, tag_end, round_plain, round_dollar, round_default, round_tagged, round_at,
  round,
}
use adonisjs_lasagna_saas_te.SqlSplitter.Rounds.{finish, finish-round}
use adonisjs_lasagna_saas_te.SqlSplitter.Segments.{
  Segment, plain, sign, quoted, remark, block, tagged, escape, tag_of, render, is_open, is_free,
  is_segment,
}

abbrev pub machine : Mode → ℕ → Text → Text → List Text → Splitter
machine mode prev rest current statements = record {
  mode = mode;
  rest = rest;
  prev = prev;
  current = current;
  statements = statements;
}

pub step :
    (mode : Mode) (prev c : ℕ) (cs current : Text) (statements : List Text)
    → finish (machine mode prev (c ∷ cs) current statements)
      ≡ finish (round_at mode c cs (machine mode prev (c ∷ cs) current statements))
unfolding round
step mode prev c cs current statements =
    finish-round (machine mode prev (c ∷ cs) current statements)

-- Code units that were appended one after the other.
pub joined :
    (mode : Mode) (prev : ℕ) (rest current a b : Text) (statements : List Text)
    → finish (machine mode prev rest ((current ++ a) ++ b) statements)
      ≡ finish (machine mode prev rest (current ++ (a ++ b)) statements)
joined mode prev rest current a b statements =
    ap (λ text. finish (machine mode prev rest text statements)) (append_assoc current a b)

reads_quoted :
    (body rest current : Text) (prev : ℕ) (statements : List Text)
    → starts b'\'' rest ≡ false
    → finish (machine single_quote prev (escape body ++ (b'\'' ∷ rest)) current statements)
      ≡ finish (machine default b'\'' rest (current ++ (escape body ++ (b'\'' ∷ []))) statements)
unfolding round_at
reads_quoted [] rest current prev statements h =
    step single_quote prev b'\'' rest current statements ∙ rw h refl
reads_quoted (c ∷ cs) rest current prev statements h = elim (Bool-cases (c == b'\'')) [
  | inl hit ↦
      let two = b'\'' ∷ (b'\'' ∷ []) in
      rw hit (
        step single_quote prev b'\'' (b'\'' ∷ (escape cs ++ (b'\'' ∷ rest))) current statements
        ∙ (reads_quoted cs rest (current ++ two) b'\'' statements h
            ∙ joined default b'\'' rest current two (escape cs ++ (b'\'' ∷ [])) statements))
  | inr miss ↦ rw miss (
      step single_quote prev c (escape cs ++ (b'\'' ∷ rest)) current statements
      ∙ rw miss (
          reads_quoted cs rest (current ++ (c ∷ [])) c statements h
          ∙ joined default b'\'' rest current (c ∷ []) (escape cs ++ (b'\'' ∷ [])) statements))
]

reads_remark :
    (body rest current : Text) (prev : ℕ) (statements : List Text)
    → all (λ c. not (c == b'\n')) body ≡ true
    → finish (machine line_comment prev (body ++ (b'\n' ∷ rest)) current statements)
      ≡ finish (machine default b'\n' rest (current ++ (body ++ (b'\n' ∷ []))) statements)
unfolding round_at
reads_remark [] rest current prev statements h =
    step line_comment prev b'\n' rest current statements
reads_remark (c ∷ cs) rest current prev statements h =
    let miss : (c == b'\n') ≡ false = ground arith in
    step line_comment prev c (cs ++ (b'\n' ∷ rest)) current statements
    ∙ rw miss (
        reads_remark cs rest (current ++ (c ∷ [])) c statements (ground arith)
        ∙ joined default b'\n' rest current (c ∷ []) (cs ++ (b'\n' ∷ [])) statements)

starts-star : (cs rest : Text) → starts b'/' (cs ++ (b'*' ∷ rest)) ≡ starts b'/' cs
starts-star [] rest = refl
starts-star (d ∷ cs) rest = refl

-- A comment to its end; the code units before are read.
reads_block :
    (body rest current : Text) (prev : ℕ) (statements : List Text)
    → is_open body ≡ true
    → finish (machine block_comment prev (body ++ (b'*' ∷ (b'/' ∷ rest))) current statements)
      ≡ finish (machine default b'/' rest (current ++ (body ++ (b'*' ∷ (b'/' ∷ [])))) statements)
unfolding round_at
reads_block [] rest current prev statements h =
    step block_comment prev b'*' (b'/' ∷ rest) current statements
reads_block (c ∷ cs) rest current prev statements h =
    let miss : (c == b'*' && starts b'/' (cs ++ (b'*' ∷ (b'/' ∷ rest)))) ≡ false =
      ground (arith, starts-star cs (b'/' ∷ rest)) in
    step block_comment prev c (cs ++ (b'*' ∷ (b'/' ∷ rest))) current statements
    ∙ rw miss (
        reads_block cs rest (current ++ (c ∷ [])) c statements (ground arith)
        ∙ joined default b'/' rest current (c ∷ []) (cs ++ (b'*' ∷ (b'/' ∷ []))) statements)

is_prefix-append : (p x rest : Text) → length p ≤ length x → is_prefix p (x ++ rest) ≡ is_prefix p x
unfolding is_prefix
is_prefix-append [] x rest h = refl
is_prefix-append (t ∷ ts) [] rest h = absurd (omega (arith, h))
is_prefix-append (t ∷ ts) (c ∷ cs) rest h =
    ground (arith, is_prefix-append ts cs rest (omega (arith, h)))

is_prefix_self : (p rest : Text) → is_prefix p (p ++ rest) ≡ true
unfolding is_prefix
is_prefix_self [] rest = refl
is_prefix_self (t ∷ ts) rest = ground (arith, is_prefix_self ts rest)

drop-append : (p rest : Text) → drop (length p) (p ++ rest) ≡ rest
drop-append [] rest = refl
drop-append (t ∷ ts) rest = drop-append ts rest

tag_end-tag :
    (name rest : Text)
    → all is_tag_char name ≡ true
    → tag_end (name ++ (b'$' ∷ rest)) ≡ some (name ++ (b'$' ∷ []))
unfolding tag_end
tag_end-tag [] rest h = refl
tag_end-tag (c ∷ cs) rest h = ground (arith, tag_end-tag cs rest)

-- A dollar-quoted text to its end.
reads_tagged :
    (name body rest current : Text) (prev : ℕ) (statements : List Text)
    → is_free (b'$' ∷ name) body ≡ true
    → finish (machine (dollar_quote name) prev (body ++ ((b'$' ∷ name) ++ rest)) current statements)
      ≡ finish (machine default b'$' rest (current ++ (body ++ (b'$' ∷ name))) statements)
unfolding round_at round_tagged
reads_tagged name [] rest current prev statements h =
    let tag = b'$' ∷ name in
    step (dollar_quote name) prev b'$' (name ++ rest) current statements
    ∙ rw (is_prefix_self name rest) (rw (drop-append name rest) refl)
reads_tagged name (c ∷ cs) rest current prev statements h =
    let tag : Text = b'$' ∷ name in
    let same : is_prefix name (cs ++ (tag ++ rest)) ≡ is_prefix name (cs ++ tag) =
      ap (is_prefix name) (sym (append_assoc cs tag rest))
      ∙ is_prefix-append name (cs ++ tag) rest (omega (arith, length-append cs tag)) in
    let miss : is_prefix tag (c ∷ (cs ++ (tag ++ rest))) ≡ false = ground (arith, same) in
    step (dollar_quote name) prev c (cs ++ (tag ++ rest)) current statements
    ∙ rw miss (
        reads_tagged name cs rest (current ++ (c ∷ [])) c statements (ground arith)
        ∙ joined default b'$' rest current (c ∷ []) (cs ++ tag) statements)

abbrev pub is_quoted : Segment → Bool
is_quoted (quoted body) = true
is_quoted _ = false

reads_tag :
    (name rest current : Text) (prev : ℕ) (statements : List Text)
    → all is_tag_char name ≡ true
    → finish (machine default prev (tag_of name ++ rest) current statements)
      ≡ finish (
          machine
            (dollar_quote (name ++ (b'$' ∷ [])))
            b'$'
            rest
            (current ++ tag_of name)
            statements)
unfolding round_at round_default round_dollar
reads_tag name rest current prev statements h =
    let tail : Text = name ++ (b'$' ∷ []) in
    let found : tag_end (tail ++ rest) ≡ some tail =
      rw (append_assoc name (b'$' ∷ []) rest) (tag_end-tag name rest h) in
    let left = drop-append tail rest in
    let tagged_round : round_dollar b'$' (tail ++ rest)
          (machine default prev (b'$' ∷ (tail ++ rest)) current statements)
        ≡ machine (dollar_quote tail) b'$' rest (current ++ tag_of name) statements =
      simp (round_dollar, found, left) in
    step default prev b'$' (tail ++ rest) current statements ∙ ap finish tagged_round

-- From `default`, a segment is read whole, and the machine is in `default` again.
pub reads_segment :
    (segment : Segment) (rest current : Text) (prev : ℕ) (statements : List Text)
    → is_segment segment ≡ true
    → (is_quoted segment && starts b'\'' rest) ≡ false
    → (last : ℕ) × (finish (machine default prev (render segment ++ rest) current statements)
        ≡ finish (machine default last rest (current ++ render segment) statements))
unfolding is_segment round_at round_default round_plain
reads_segment (plain c) rest current prev statements h apart =
    let here : round_default c rest (machine default prev (c ∷ rest) current statements)
        ≡ machine default c rest (current ++ (c ∷ [])) statements =
      ground arith in
    (c, step default prev c rest current statements ∙ ap finish here)
reads_segment (sign c d) rest current prev statements h apart =
    let first : round_default c (d ∷ rest)
          (machine default prev (c ∷ (d ∷ rest)) current statements)
        ≡ machine default c (d ∷ rest) (current ++ (c ∷ [])) statements =
      ground arith in
    let second : round_default d rest
          (machine default c (d ∷ rest) (current ++ (c ∷ [])) statements)
        ≡ machine default d rest ((current ++ (c ∷ [])) ++ (d ∷ [])) statements =
      ground arith in
    (
      d,
      step default prev c (d ∷ rest) current statements
          ∙ (ap finish first
              ∙ (step default c d rest (current ++ (c ∷ [])) statements
                  ∙ (ap finish second
                      ∙ joined default d rest current (c ∷ []) (d ∷ []) statements))),
    )
reads_segment (quoted body) rest current prev statements h apart = (
  b'\'',
  rw (append_assoc (escape body) (b'\'' ∷ []) rest) (
      step default prev b'\'' (escape body ++ (b'\'' ∷ rest)) current statements
      ∙ (reads_quoted body rest (current ++ (b'\'' ∷ [])) b'\'' statements apart
          ∙ joined default b'\'' rest current (b'\'' ∷ []) (escape body ++ (b'\'' ∷ []))
              statements)),
)
reads_segment (remark body) rest current prev statements h apart = (
  b'\n',
  rw (append_assoc body (b'\n' ∷ []) rest) (
      step default prev b'-' (b'-' ∷ (body ++ (b'\n' ∷ rest))) current statements
      ∙ (reads_remark (b'-' ∷ body) rest (current ++ (b'-' ∷ [])) b'-' statements h
          ∙ joined default b'\n' rest current (b'-' ∷ []) (b'-' ∷ (body ++ (b'\n' ∷ [])))
              statements)),
)
reads_segment (block body) rest current prev statements h apart =
    let close : Text = b'*' ∷ (b'/' ∷ []) in
    (
      b'/',
      rw (append_assoc body close rest) (
          step default prev b'/' (b'*' ∷ (body ++ (b'*' ∷ (b'/' ∷ rest)))) current statements
          ∙ (reads_block (b'*' ∷ body) rest (current ++ (b'/' ∷ [])) b'/' statements h
              ∙ joined default b'/' rest current (b'/' ∷ []) (b'*' ∷ (body ++ close)) statements)),
    )
reads_segment (tagged name body) rest current prev statements h apart =
    let tail : Text = name ++ (b'$' ∷ []) in
    (
      b'$',
      ap (λ text. finish (machine default prev text current statements))
            (append_assoc (tag_of name) (body ++ tag_of name) rest
              ∙ ap (◌++◌ (tag_of name)) (append_assoc body (tag_of name) rest))
          ∙ (reads_tag name (body ++ (tag_of name ++ rest)) current prev statements (ground arith)
              ∙ (reads_tagged tail body rest (current ++ tag_of name) b'$' statements (ground arith)
                  ∙ joined default b'$' rest current (tag_of name) (body ++ tag_of name)
                      statements)),
    )
