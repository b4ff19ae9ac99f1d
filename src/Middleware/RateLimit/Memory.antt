-- ===== src/Middleware/RateLimit/Memory.antt =====
-- Sorted sets in memory, as lists of scores and names with an expiry: the interface of the rate
-- limit can be met.
use adonisjs_lasagna_saas_te.Prelude.{
  ℕ, ◌+◌, ◌*◌, ◌≡◌, ◌⊎◌, inl, inr, refl, Bool, true, false, not, ◌&&◌, Option, none, some, List, [],
  ◌∷◌, filter, if◌then◌else◌, leb, ◌==◌, arith, Bool-cases,
}
use adonisjs_lasagna_saas_te.Store.Memory.{memory}
use adonisjs_lasagna_saas_te.Middleware.RateLimit.{SortedSets, at_most}

abbrev pub Members : Type 0
Members = List (ℕ × ℕ)

abbrev pub tally_pairs : (ℕ → ℕ → Bool) → Members → ℕ
tally_pairs p [] = 0
tally_pairs p ((c, n) ∷ ms) = (if p c n then 1 else 0) + tally_pairs p ms

pub tally_pairs-filter :
    (p q : ℕ → ℕ → Bool) (ms : Members)
    → tally_pairs p (filter (λ (m : ℕ × ℕ). q m.0 m.1) ms) ≡ tally_pairs (λ c n. q c n && p c n) ms
tally_pairs-filter p q [] = refl
tally_pairs-filter p q ((c, n) ∷ ms) = ground (arith, tally_pairs-filter p q ms)

abbrev pub expired : ℕ → Option ℕ → Bool
expired now none = false
expired now (some e) = leb e now

abbrev pub visited : ℕ → Members × Option ℕ → Members × Option ℕ
visited now (ms, e) = if expired now e then ([], none) else (ms, e)

pub visited-cases :
    (p : ℕ → ℕ → Bool) (now : ℕ) (v : Members × Option ℕ)
    → (tally_pairs p (visited now v).0 ≡ tally_pairs p v.0)
      ⊎ ((e : ℕ) × (v.1 ≡ some e) × (leb e now ≡ true) × (tally_pairs p (visited now v).0 ≡ 0))
visited-cases p now (ms, none) = inl refl
visited-cases p now (ms, some e) = elim (Bool-cases (leb e now)) [
  | inl past ↦ inr (e, refl, past, simp (past))
  | inr future ↦ inl (simp (future))
]

abbrev pub sets_memory : SortedSets
sets_memory = record {
  Value = Members × Option ℕ;
  keyspace = memory (Members × Option ℕ);
  missing = ([], none);
  count = λ p v. tally_pairs p v.0;
  expires_at = λ v. v.1;
  visit = visited;
  zremrangebyscore = λ max v. (filter (λ (m : ℕ × ℕ). not (at_most m.0 max)) v.0, v.1);
  zadd = λ score name v. ((score, name) ∷ filter (λ (m : ℕ × ℕ). not (m.1 == name)) v.0, v.1);
  zcard = λ v. tally_pairs (λ c n. true) v.0;
  expire = λ now seconds v. (v.0, some (now + seconds * 1000));
  zcard-count = λ v. refl;
  count-missing = λ p. refl;
  count-zremrangebyscore = λ p max v. tally_pairs-filter p (λ c n. not (at_most c max)) v.0;
  count-zadd = λ p score name v. rw (tally_pairs-filter p (λ c n. not (n == name)) v.0) refl;
  count-expire = λ p now seconds v. refl;
  expires_at-expire = λ now seconds v. refl;
  count-visit = λ p now v. visited-cases p now v;
}
