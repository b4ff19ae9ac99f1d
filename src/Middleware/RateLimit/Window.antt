-- ===== src/Middleware/RateLimit/Window.antt =====
-- What the count of src/middleware/rate_limit_middleware.ts is a count of.
use adonisjs_lasagna_saas_te.Prelude.{
  ℕ, ◌+◌, ◌*◌, ◌≤◌, ◌<◌, ◌≡◌, inl, inr, refl, sym, ap, ◌∙◌, Bool, true, false, not, ◌&&◌, some,
  List, [], ◌∷◌, if◌then◌else◌, get_or, ltb, leb, ◌==◌, arith, All, All-mono,
}
use adonisjs_lasagna_saas_te.Middleware.RateLimit.{SortedSets, minus, at_most, logged}

abbrev pub tally : (ℕ → Bool) → List ℕ → ℕ
tally p [] = 0
tally p (t ∷ ts) = (if p t then 1 else 0) + tally p ts

-- The instants of a list that lie in the window that ends at `now`.
abbrev pub in_window : ℕ → ℕ → ℕ → Bool
in_window now width t = ltb now (t + width)

-- The requests under one key, the latest first, each later than those before it.
abbrev pub IsIncreasing : List ℕ → Type 0
IsIncreasing [] = Unit
IsIncreasing (t ∷ ts) = All (λ (u : ℕ). u < t) ts × IsIncreasing ts

tally-ext : (p q : ℕ → Bool) (ts : List ℕ) → All (λ (t : ℕ). p t ≡ q t) ts → tally p ts ≡ tally q ts
tally-ext p q [] h = refl
tally-ext p q (t ∷ ts) h = rw h.0 (rw (tally-ext p q ts h.1) refl)

pub tally-and_true : (q : ℕ → Bool) (ts : List ℕ) → tally (λ t. q t && true) ts ≡ tally q ts
tally-and_true q [] = refl
tally-and_true q (t ∷ ts) = ground (arith, tally-and_true q ts)

tally-none : (p : ℕ → Bool) (ts : List ℕ) → All (λ (t : ℕ). p t ≡ false) ts → tally p ts ≡ 0
tally-none p [] h = refl
tally-none p (t ∷ ts) h = rw h.0 (omega (arith, tally-none p ts h.1))

kept : (t now width : ℕ) → not (at_most t (minus now width)) ≡ in_window now width t
kept t now width = ground arith

-- The members of a value are the requests of the window that ended with the latest of them, and it
-- lives as long as that window does.
abbrev pub is_live : ℕ → List ℕ → ℕ → Bool
is_live width [] t = false
is_live width (last ∷ ts) t = in_window last width t

agree :
    (now last width t : ℕ) (b : Bool)
    → t ≤ last
    → last < now
    → (in_window last width t && (not (at_most t (minus now width)) && (not (t == now) && b)))
      ≡ (in_window now width t && b)
agree now last width t b below before = ground arith

passed :
    (now last width t : ℕ) (b : Bool)
    → t ≤ last
    → leb (last + width) now ≡ true
    → (in_window now width t && b) ≡ false
passed now last width t b below past = ground arith

-- Which instants of a list that ends at `last` stand in both windows.
agreeing :
    (now last width : ℕ) (ts : List ℕ) (p : ℕ → ℕ → Bool)
    → All (λ (t : ℕ). t < last) ts
    → last < now
    → tally
        (λ t.
          in_window last width t
          && (not (at_most t (minus now width)) && (not (t == now) && p t t)))
        (last ∷ ts)
      ≡ tally (λ t. in_window now width t && p t t) (last ∷ ts)
agreeing now last width ts p h l = tally-ext _ _ (last ∷ ts) (
  agree now last width last (p last last) (omega arith) l,
  All-mono ts (λ (t : ℕ) (b : t < last). agree now last width t (p t t) (omega arith) l) h,
)

passing :
    (now last width : ℕ) (ts : List ℕ) (p : ℕ → ℕ → Bool)
    → All (λ (t : ℕ). t < last) ts
    → leb (last + width) now ≡ true
    → tally (λ t. in_window now width t && p t t) (last ∷ ts) ≡ 0
passing now last width ts p h past = tally-none _ (last ∷ ts) (
  passed now last width last (p last last) (omega arith) past,
  All-mono ts (λ (t : ℕ) (b : t < last). passed now last width t (p t t) (omega arith) past) h,
)

module _ (Z : SortedSets) (seconds : ℕ) where
  abbrev pub Lives : List ℕ → Z.Value → Type 0
  Lives [] v = Unit
  Lives (last ∷ ts) v = Z.expires_at v ≡ some (last + seconds * 1000)

  abbrev pub IsLog : List ℕ → Z.Value → Type 0
  IsLog ts v =
      ((p : ℕ → ℕ → Bool) → Z.count p v ≡ tally (λ t. is_live (seconds * 1000) ts t && p t t) ts)
      × Lives ts v

  abbrev left : ℕ → (ℕ → ℕ → Bool) → ℕ → ℕ → Bool
  left now p c n = not (at_most c (minus now (seconds * 1000))) && (not (n == now) && p c n)

  -- Of the requests before `now`, those still in its window are left.
  visited :
      (now : ℕ) (ts : List ℕ) (v : Z.Value) (p : ℕ → ℕ → Bool)
      → IsIncreasing (now ∷ ts)
      → IsLog ts v
      → Z.count (left now p) (Z.visit now v)
        ≡ tally (λ t. in_window now (seconds * 1000) t && p t t) ts
  visited now [] v p inc log = elim (Z.count-visit (left now p) now v) [
    | inl same ↦ same ∙ log.0 (left now p)
    | inr (e, exp, past, gone) ↦ gone
  ]
  visited now (last ∷ ts) v p inc log = elim (Z.count-visit (left now p) now v) [
    | inl same ↦
        same ∙ (log.0 (left now p) ∙ agreeing now last (seconds * 1000) ts p inc.1.0 inc.0.0)
    | inr (e, exp, past, gone) ↦
        let end : e ≡ last + seconds * 1000 = ap (λ o. get_or o e) (sym exp ∙ log.1) in
        gone ∙ sym (passing now last (seconds * 1000) ts p inc.1.0 (rw end at past))
  ]

  -- With the request at `now`, the members are the requests in the window of `now`.
  pub logged-count :
      0 < seconds
      → (now : ℕ) (ts : List ℕ) (v : Z.Value) (p : ℕ → ℕ → Bool) → IsIncreasing (now ∷ ts)
      → IsLog ts v
      → Z.count p (logged Z now seconds v)
        ≡ tally (λ t. in_window now (seconds * 1000) t && p t t) (now ∷ ts)
  unfolding logged
  logged-count positive now ts v p inc log = ground (
    arith,
    positive,
    Z.count-zadd p now now (Z.zremrangebyscore (minus now (seconds * 1000)) (Z.visit now v)),
    Z.count-zremrangebyscore (λ c n. not (n == now) && p c n) (minus now (seconds * 1000))
        (Z.visit now v),
    visited now ts v p inc log,
  )

  pub logged-IsLog :
      0 < seconds
      → (now : ℕ) (ts : List ℕ) (v : Z.Value) → IsIncreasing (now ∷ ts)
      → IsLog ts v
      → IsLog (now ∷ ts) (Z.expire now seconds (logged Z now seconds v))
  logged-IsLog positive now ts v inc log =
      let counts : (p : ℕ → ℕ → Bool)
          → Z.count p (Z.expire now seconds (logged Z now seconds v))
            ≡ tally (λ t. in_window now (seconds * 1000) t && p t t) (now ∷ ts) =
        λ p.
          Z.count-expire p now seconds (logged Z now seconds v)
          ∙ logged-count positive now ts v p inc log in
      (counts, Z.expires_at-expire now seconds (logged Z now seconds v))
