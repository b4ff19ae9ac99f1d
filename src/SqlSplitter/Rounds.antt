-- ===== src/SqlSplitter/Rounds.antt =====
-- How far the loop of src/utils/sql_splitter.ts gets in each round.
use adonisjs_lasagna_saas_te.Prelude.{
  ℕ, zero, suc, ◌≤◌, ◌≡◌, ◌⊎◌, inl, inr, refl, sym, ap, ◌∙◌, [], ◌∷◌, length, drop, arith,
  Option-cases,
}
use adonisjs_lasagna_saas_te.SqlSplitter.{
  Text, Mode, default, single_quote, line_comment, block_comment, dollar_quote, Splitter, after_eol,
  tag_end, round_plain, round_dollar, round_default, round_tagged, round_at, round, loop, start,
  result, split_sql_statements, take_two,
}

length-drop : (n : ℕ) (xs : Text) → length (drop n xs) ≤ length xs
length-drop zero xs = omega arith
length-drop (suc n) [] = omega arith
length-drop (suc n) (x ∷ xs) = omega (arith, length-drop n xs)

length-after_eol : (cs : Text) → length (after_eol cs) ≤ length cs
unfolding after_eol
length-after_eol [] = omega arith
length-after_eol (c ∷ cs) = ground (arith, length-after_eol cs)

round_plain-shorter :
    (c : ℕ) (cs : Text) (s : Splitter) → length (round_plain c cs s).rest ≤ length cs
unfolding round_plain
round_plain-shorter c cs s = ground (arith, length-after_eol cs)

round_dollar-shorter :
    (c : ℕ) (cs : Text) (s : Splitter) → length (round_dollar c cs s).rest ≤ length cs
unfolding round_dollar
round_dollar-shorter c cs s = elim (Option-cases (tag_end cs)) [
  | inl e ↦ rw (round_dollar, e) (round_plain-shorter c cs s)
  | inr (name, e) ↦ rw (round_dollar, e) (length-drop (length name) cs)
]

round_default-shorter :
    (c : ℕ) (cs : Text) (s : Splitter) → length (round_default c cs s).rest ≤ length cs
unfolding round_default
round_default-shorter c cs s =
    ground (arith, round_plain-shorter c cs s, round_dollar-shorter c cs s)

round_tagged-shorter :
    (name : Text) (c : ℕ) (cs : Text) (s : Splitter)
    → length (round_tagged name c cs s).rest ≤ length cs
unfolding round_tagged
round_tagged-shorter name c cs s = ground (arith, length-drop (length name) cs)

take_two-shorter :
    (mode : Mode) (c : ℕ) (cs : Text) (s : Splitter)
    → length (take_two mode c cs s).rest ≤ length cs
take_two-shorter mode c [] s = omega arith
take_two-shorter mode c (d ∷ cs) s = omega arith

round_at-shorter :
    (mode : Mode) (c : ℕ) (cs : Text) (s : Splitter)
    → length (round_at mode c cs s).rest ≤ length cs
unfolding round_at
round_at-shorter default c cs s = round_default-shorter c cs s
round_at-shorter single_quote c cs s = ground (arith, take_two-shorter single_quote c cs s)
round_at-shorter line_comment c cs s = ground arith
round_at-shorter block_comment c cs s = ground (arith, take_two-shorter default c cs s)
round_at-shorter (dollar_quote name) c cs s = round_tagged-shorter name c cs s

Text-cases : (t : Text) → (t ≡ []) ⊎ ((c : ℕ) × (cs : Text) × (t ≡ c ∷ cs))
Text-cases [] = inl refl
Text-cases (c ∷ cs) = inr (c, cs, refl)

pub round-cons :
    (s : Splitter) (c : ℕ) (cs : Text) → s.rest ≡ c ∷ cs → round s ≡ round_at s.mode c cs s
unfolding round
round-cons s c cs e = simp (round, e)

round-end : (s : Splitter) → s.rest ≡ [] → round s ≡ s
unfolding round
round-end s e = simp (round, e)

round-shorter : (fuel : ℕ) (s : Splitter) → length s.rest ≤ suc fuel → length (round s).rest ≤ fuel
round-shorter fuel s h = elim (Text-cases s.rest) [
  | inl e ↦ omega (arith, ap length e, ap (λ (t : Splitter). length t.rest) (round-end s e))
  | inr (c, cs, e) ↦ omega (
    arith,
    h,
    ap length e,
    ap (λ (t : Splitter). length t.rest) (round-cons s c cs e),
    round_at-shorter s.mode c cs s,
  )
]

loop-end : (fuel : ℕ) (s : Splitter) → s.rest ≡ [] → loop fuel s ≡ s
unfolding loop
loop-end zero s e = refl
loop-end (suc fuel) s e = rw (round-end s e) (loop-end fuel s e)

empty : (t : Text) → length t ≤ 0 → t ≡ []
empty [] h = refl
empty (c ∷ cs) h = absurd (omega (arith, h))

-- With fuel for its code units, the loop reads a text to its end.
pub loop-reads : (fuel : ℕ) (s : Splitter) → length s.rest ≤ fuel → (loop fuel s).rest ≡ []
unfolding loop
loop-reads zero s h = empty s.rest h
loop-reads (suc fuel) s h = loop-reads fuel (round s) (round-shorter fuel s h)

-- More fuel changes nothing.
pub loop-more :
    (fuel more : ℕ) (s : Splitter)
    → length s.rest ≤ fuel
    → length s.rest ≤ more
    → loop fuel s ≡ loop more s
unfolding loop
loop-more zero more s h h' = sym (loop-end more s (empty s.rest h))
loop-more (suc fuel) zero s h h' = loop-end (suc fuel) s (empty s.rest h')
loop-more (suc fuel) (suc more) s h h' =
    loop-more fuel more (round s) (round-shorter fuel s h) (round-shorter more s h')

-- What the machine has read at the end of the text.
unfoldable pub finish : Splitter → Splitter
finish s = loop (length s.rest) s

pub finish-round : (s : Splitter) → finish s ≡ finish (round s)
unfolding finish loop
finish-round s = elim (Text-cases s.rest) [
  | inl e ↦ ap finish (sym (round-end s e))
  | inr (c, cs, e) ↦
      loop-more (length s.rest) (suc (length cs)) s (omega arith) (omega (arith, ap length e))
      ∙ loop-more (length cs) (length (round s).rest) (round s)
          (round-shorter (length cs) s (omega (arith, ap length e))) (omega arith)
]

-- The loop reads the whole of a text in as many rounds as the text has code units, and what it
-- returns is the same with any more rounds.
pub split_sql_statements-total :
    (sql : Text) (fuel : ℕ)
    → length sql ≤ fuel
    → ((loop fuel (start sql)).rest ≡ [])
      × (result (loop fuel (start sql)) ≡ split_sql_statements sql)
unfolding split_sql_statements
split_sql_statements-total sql fuel h = (
  loop-reads fuel (start sql) h,
  ap result (loop-more fuel (length sql) (start sql) h (omega arith)),
)
