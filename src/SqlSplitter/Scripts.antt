-- ===== src/SqlSplitter/Scripts.antt =====
-- What src/utils/sql_splitter.ts makes of a script of statements.
use adonisjs_lasagna_saas_te.Prelude.{
  ℕ, ◌≡◌, ◌⊎◌, inl, inr, refl, sym, ap, ◌∙◌, Bool, true, false, ◌&&◌, List, [], ◌∷◌, ◌++◌, all,
  append_assoc, append-nil, arith,
}
use adonisjs_lasagna_saas_te.SqlSplitter.{
  Text, default, starts, round_at, round_default, round_plain, trim, trim_start, push_statement,
  result, split_sql_statements, loop,
}
use adonisjs_lasagna_saas_te.SqlSplitter.Rounds.{finish}
use adonisjs_lasagna_saas_te.SqlSplitter.Segments.{
  Segment, plain, sign, quoted, remark, block, tagged, render, is_segment, is_apart, is_statement,
  texts, script, unless_empty, trimmed,
}
use adonisjs_lasagna_saas_te.SqlSplitter.Reading.{machine, step, joined, is_quoted, reads_segment}

-- No segment but a quoted text starts with a quote.
starts_quote :
    (segment : Segment) (rest : Text)
    → is_segment segment ≡ true
    → is_quoted segment ≡ false
    → starts b'\'' (render segment ++ rest) ≡ false
unfolding is_segment
starts_quote (plain c) rest h q = ground arith
starts_quote (sign c d) rest h q = ground arith
starts_quote (quoted body) rest h q = cc q
starts_quote (remark body) rest h q = refl
starts_quote (block body) rest h q = refl
starts_quote (tagged name body) rest h q = refl

and_false : (b : Bool) → (b && false) ≡ false
and_false true = refl
and_false false = refl

apart-cases :
    (s t : Segment) (ts : List Segment)
    → is_apart s (t ∷ ts) ≡ true
    → (is_quoted s ≡ false) ⊎ (is_quoted t ≡ false)
apart-cases (plain c) t ts a = inl refl
apart-cases (sign c d) t ts a = inl refl
apart-cases (remark body) t ts a = inl refl
apart-cases (block body) t ts a = inl refl
apart-cases (tagged name body) t ts a = inl refl
apart-cases (quoted body) (plain c) ts a = inr refl
apart-cases (quoted body) (sign c d) ts a = inr refl
apart-cases (quoted body) (quoted body') ts a = cc a
apart-cases (quoted body) (remark body') ts a = inr refl
apart-cases (quoted body) (block body') ts a = inr refl
apart-cases (quoted body) (tagged name body') ts a = inr refl

apart :
    (s : Segment) (ss : List Segment) (rest : Text)
    → is_apart s ss ≡ true
    → is_statement ss ≡ true
    → (is_quoted s && starts b'\'' (texts ss ++ (b';' ∷ rest))) ≡ false
apart s [] rest a h = and_false (is_quoted s)
apart s (t ∷ ts) rest a h = elim (apart-cases s t ts a) [
  | inl q ↦ rw q refl
  | inr q ↦
      rw (append_assoc (render t) (texts ts) (b';' ∷ rest))
        (rw (starts_quote t (texts ts ++ (b';' ∷ rest)) (ground arith) q) (and_false (is_quoted s)))
]

reads_texts :
    (ss : List Segment) (rest current : Text) (prev : ℕ) (statements : List Text)
    → is_statement ss ≡ true
    → (last : ℕ) × (finish (machine default prev (texts ss ++ (b';' ∷ rest)) current statements)
        ≡ finish (machine default last (b';' ∷ rest) (current ++ texts ss) statements))
reads_texts [] rest current prev statements h = (
  prev,
  ap (λ text. finish (machine default prev (b';' ∷ rest) text statements))
      (sym (append-nil current)),
)
reads_texts (s ∷ ss) rest current prev statements h =
    let (mid, first) =
      reads_segment s (texts ss ++ (b';' ∷ rest)) current prev statements (ground arith)
        (apart s ss rest (ground arith) (ground arith)) in
    let (last, others) = reads_texts ss rest (current ++ render s) mid statements (ground arith) in
    (
      last,
      ap (λ text. finish (machine default prev text current statements))
            (append_assoc (render s) (texts ss) (b';' ∷ rest))
          ∙ (first
              ∙ (others
                  ∙ joined default last (b';' ∷ rest) current (render s) (texts ss) statements)),
    )

push-unless_empty :
    (statements : List Text) (text : Text) (ts : List Text)
    → push_statement statements text ++ ts ≡ statements ++ unless_empty text ts
push-unless_empty statements [] ts = refl
push-unless_empty statements (c ∷ cs) ts = append_assoc statements ((c ∷ cs) ∷ []) ts

reads_script :
    (ss : List (List Segment)) (prev : ℕ) (statements : List Text)
    → all is_statement ss ≡ true
    → result (finish (machine default prev (script ss) [] statements)) ≡ statements ++ trimmed ss
unfolding finish loop result trim trim_start round_at round_default round_plain
reads_script [] prev statements h = sym (append-nil statements)
reads_script (s ∷ ss) prev statements h =
    let (last, first) = reads_texts s (script ss) [] prev statements (ground arith) in
    ap result (first ∙ step default last b';' (script ss) (texts s) statements)
    ∙ (reads_script ss b';' (push_statement statements (trim (texts s))) (ground arith)
        ∙ push-unless_empty statements (trim (texts s)) (trimmed ss))

-- A script of statements, each with its semicolon, is split into their texts, trimmed and less the
-- empty ones: no semicolon in a quoted text, a comment or a dollar-quoted text ends a statement.
-- Outside these, the statements hold no backslash, and a minus or a slash only before a code unit
-- with no meaning of its own; no two quoted texts stand in a row; no block comment starts with a
-- slash or holds the end of one, and no dollar-quoted text holds its tag.
pub split_sql_statements-script :
    (ss : List (List Segment))
    → all is_statement ss ≡ true
    → split_sql_statements (script ss) ≡ trimmed ss
unfolding split_sql_statements finish
split_sql_statements-script ss h = reads_script ss b'\n' [] h
