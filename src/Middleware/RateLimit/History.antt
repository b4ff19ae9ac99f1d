-- ===== src/Middleware/RateLimit/History.antt =====
-- Which requests src/middleware/rate_limit_middleware.ts lets through, by those before them.
use adonisjs_lasagna_saas_te.Prelude.{
  ℕ, ◌*◌, ◌<◌, ◌≡◌, ◌≢◌, ◌⊎◌, inl, inr, refl, sym, ap, ◌∙◌, subst, String, true, false, not, ◌&&◌,
  none, some, List, [], ◌∷◌, str_eq, if◌then◌else◌, get_or, ltb, leb, arith, Bool-cases, eq_iff,
}
use adonisjs_lasagna_saas_te.Exceptions.{Exception, throw, M, status}
use adonisjs_lasagna_saas_te.Resilience.{DependencyDegraded}
use adonisjs_lasagna_saas_te.Middleware.Admission.{failure}
use adonisjs_lasagna_saas_te.Middleware.RateLimit.{
  PipelineLink, absent, up, refused, down, lost, SortedSets, logged, pipeline, RateEnv,
  RateLimitOptions, RateWorld, rate_key, rate_limit, exec, after_exec, answer, unavailable,
  tenant_of, rate_headers, emit_redis_degraded,
}
use adonisjs_lasagna_saas_te.Middleware.RateLimit.Window.{
  tally, in_window, IsIncreasing, IsLog, logged-count, logged-IsLog, tally-and_true,
}

-- Requests under several keys, the latest first, and the instants of those under one.
abbrev pub times : String → List (String × ℕ) → List ℕ
times key [] = []
times key ((k, t) ∷ h) = if str_eq k key then t ∷ times key h else times key h

module _ (Z : SortedSets) (seconds : ℕ) where
  -- What Redis holds after the requests of a history.
  abbrev pub after : List (String × ℕ) → Z.keyspace.State → Z.keyspace.State
  after [] s = s
  after ((k, t) ∷ h) s = (pipeline Z k t seconds (after h s)).1

  abbrev pub value_at : String → Z.keyspace.State → Z.Value
  value_at key s = get_or (Z.keyspace.get key s) Z.missing

  value_at-hit :
      (key k : String) (t : ℕ) (s : Z.keyspace.State)
      → str_eq k key ≡ true
      → value_at key (pipeline Z k t seconds s).1
        ≡ Z.expire t seconds (logged Z t seconds (value_at key s))
  unfolding pipeline
  value_at-hit key k t s hit =
      let v = Z.expire t seconds (logged Z t seconds (value_at k s)) in
      rw (Z.keyspace.get-put key k v s) (rw hit (rw ((eq_iff k key).0 hit) refl))

  value_at-miss :
      (key k : String) (t : ℕ) (s : Z.keyspace.State)
      → str_eq k key ≡ false
      → value_at key (pipeline Z k t seconds s).1 ≡ value_at key s
  unfolding pipeline
  value_at-miss key k t s miss =
      let v = Z.expire t seconds (logged Z t seconds (value_at k s)) in
      rw (Z.keyspace.get-put key k v s) (rw miss refl)

  pub after-IsLog :
      0 < seconds
      → (key : String) (h : List (String × ℕ)) (s : Z.keyspace.State) → Z.keyspace.get key s ≡ none
      → IsIncreasing (times key h)
      → IsLog Z seconds (times key h) (value_at key (after h s))
  after-IsLog positive key [] s fresh inc = (λ p. rw fresh (Z.count-missing p), tt)
  after-IsLog positive key ((k, t) ∷ h) s fresh inc = elim (Bool-cases (str_eq k key)) [
    | inl hit ↦
        let here : times key ((k, t) ∷ h) ≡ t ∷ times key h = rw hit refl in
        let inc' : IsIncreasing (t ∷ times key h) = subst IsIncreasing here inc in
        subst (λ ts. IsLog Z seconds ts (value_at key (after ((k, t) ∷ h) s))) (sym here)
          (subst (IsLog Z seconds (t ∷ times key h)) (sym (value_at-hit key k t (after h s) hit)) (
            logged-IsLog Z seconds positive t (times key h) (value_at key (after h s)) inc'
              (after-IsLog positive key h s fresh inc'.1)))
    | inr miss ↦
        let here : times key ((k, t) ∷ h) ≡ times key h = rw miss refl in
        subst (λ ts. IsLog Z seconds ts (value_at key (after ((k, t) ∷ h) s))) (sym here)
          (subst (IsLog Z seconds (times key h)) (sym (value_at-miss key k t (after h s) miss))
            (after-IsLog positive key h s fresh (subst IsIncreasing here inc)))
  ]

  -- The reply to the pipeline is the number of requests in the window, this one included.
  pub pipeline-tally :
      0 < seconds
      → (key : String) (now : ℕ) (h : List (String × ℕ)) (s : Z.keyspace.State)
      → Z.keyspace.get key s ≡ none
      → IsIncreasing (now ∷ times key h)
      → (pipeline Z key now seconds (after h s)).0
        ≡ tally (in_window now (seconds * 1000)) (now ∷ times key h)
  unfolding pipeline
  pipeline-tally positive key now h s fresh inc =
      Z.zcard-count (logged Z now seconds (value_at key (after h s)))
      ∙ (logged-count Z seconds positive now (times key h) (value_at key (after h s))
            (λ score name. true) inc (after-IsLog positive key h s fresh inc.1)
          ∙ tally-and_true (in_window now (seconds * 1000)) (now ∷ times key h))

exec-throws :
    {S : Type 0} (link : PipelineLink) (commands : S → ℕ × S) (s : S)
    → link ≢ up
    → link ≢ refused
    → (thrown : Exception) × (s' : S) × (exec link commands s ≡ (throw thrown, s'))
unfolding exec
exec-throws absent commands s h h' = (_, _, refl)
exec-throws up commands s h h' = absurd (h refl)
exec-throws refused commands s h h' = absurd (h' refl)
exec-throws down commands s h h' = (_, _, refl)
exec-throws lost commands s h h' = (_, _, refl)

module _ {Z : SortedSets} {A : Type 0} (env : RateEnv) (options : RateLimitOptions) where
  -- What the test of the count does with a request.
  answer_lem :
      (next : M (RateWorld Z) A) (n : ℕ) (w : RateWorld Z)
      → ((leb n options.limit ≡ true)
          × ((w' : RateWorld Z) × (answer env options next n w ≡ next w')
              × (w'.redis ≡ w.redis)
              × (w'.degraded ≡ w.degraded)))
        ⊎ ((leb n options.limit ≡ false)
            × (failure (answer env options next n w).0 ≡ some 429)
            × ((answer env options next n w).1.redis ≡ w.redis))
  unfolding answer status
  answer_lem next n w = elim (Bool-cases (ltb options.limit n)) [
    | inl over ↦ inr (ground arith, simp (answer, over), simp (answer, over))
    | inr within ↦
        inl (ground arith, (rate_headers env options n w, simp (answer, within), refl, refl))
  ]

  rate_limit-answer :
      (next : M (RateWorld Z) A) (n : ℕ) (s' : Z.keyspace.State) (w : RateWorld Z)
      → (env.in_test && not (get_or options.bypass_in_test_env false)) ≡ false
      → env.link ≡ up
      → pipeline Z (rate_key env options) env.now options.window_seconds w.redis ≡ (n, s')
      → rate_limit env options next w ≡ answer env options next n (record w { redis = s' })
  unfolding rate_limit exec after_exec
  rate_limit-answer next n s' w on linked e =
      let count = ap (λ (r : ℕ × Z.keyspace.State). r.0) e in
      let state = ap (λ (r : ℕ × Z.keyspace.State). r.1) e in
      simp (rate_limit, exec, after_exec, on, linked, count, state)

  -- With Redis up, after any requests under any keys, a request runs its handler exactly where it
  -- and the earlier ones under its key in the last `window_seconds` are no more than the limit;
  -- otherwise it is answered with 429. It is logged in both cases. The instants of the requests
  -- under the key are distinct and increase, and the key was not there before them.
  pub rate_limit-window :
      (next : M (RateWorld Z) A) (h : List (String × ℕ)) (s : Z.keyspace.State) (w : RateWorld Z)
      → (env.in_test && not (get_or options.bypass_in_test_env false)) ≡ false
      → env.link ≡ up
      → 0 < options.window_seconds
      → Z.keyspace.get (rate_key env options) s ≡ none
      → w.redis ≡ after Z options.window_seconds h s
      → IsIncreasing (env.now ∷ times (rate_key env options) h)
      → let key = rate_key env options in
        let width = options.window_seconds * 1000 in
        let n = tally (in_window env.now width) (env.now ∷ times key h) in
        let s' = after Z options.window_seconds ((key, env.now) ∷ h) s in
        ((leb n options.limit ≡ true)
          × ((w' : RateWorld Z) × (rate_limit env options next w ≡ next w')
              × (w'.redis ≡ s')
              × (w'.degraded ≡ w.degraded)))
        ⊎ ((leb n options.limit ≡ false)
            × (failure (rate_limit env options next w).0 ≡ some 429)
            × ((rate_limit env options next w).1.redis ≡ s'))
  rate_limit-window next h s w on linked positive fresh e inc =
      let key : String = rate_key env options in
      let seconds : ℕ = options.window_seconds in
      let n : ℕ = tally (in_window env.now (seconds * 1000)) (env.now ∷ times key h) in
      let s' : Z.keyspace.State = after Z seconds ((key, env.now) ∷ h) s in
      let reply : pipeline Z key env.now seconds w.redis ≡ (n, s') =
        rw e
          (ap (λ (m : ℕ). (m, s')) (pipeline-tally Z seconds positive key env.now h s fresh inc)) in
      rw (rate_limit-answer next n s' w on linked reply)
        (answer_lem next n (record w { redis = s' }))

  -- Where the connection to Redis fails, a request runs its handler exactly under `failOpen`, and is answered with
  -- 503 otherwise; one event `DependencyDegraded` with its tenant reports it in both
  -- cases.
  pub rate_limit-unavailable :
      (next : M (RateWorld Z) A) (w : RateWorld Z)
      → (env.in_test && not (get_or options.bypass_in_test_env false)) ≡ false
      → env.link ≢ up
      → env.link ≢ refused
      → (w' : RateWorld Z) × ((event : DependencyDegraded) × (event.tenant_id
            ≡ some (tenant_of env))
          × (w'.degraded ≡ event ∷ w.degraded))
        × (w'.headers ≡ w.headers)
        × (((get_or options.fail_open false ≡ true) × (rate_limit env options next w ≡ next w'))
            ⊎ ((get_or options.fail_open false ≡ false)
                × (failure (rate_limit env options next w).0 ≡ some 503)
                × ((rate_limit env options next w).1 ≡ w')))
  unfolding rate_limit exec after_exec unavailable status
  rate_limit-unavailable next w on broken answered =
      let (thrown, s', e) =
        exec-throws env.link (pipeline Z (rate_key env options) env.now options.window_seconds)
          w.redis broken answered in
      let w' : RateWorld Z = emit_redis_degraded env options (record w { redis = s' }) in
      let same : rate_limit env options next w
          ≡ unavailable env options next (record w { redis = s' }) =
        simp (rate_limit, after_exec, on, e) in
      elim (Bool-cases (get_or options.fail_open false)) [
        | inl admits ↦ (w', (_, refl, refl), refl, inl (admits, same ∙ simp (unavailable, admits)))
        | inr refuses ↦ (
          w',
          (_, refl, refl),
          refl,
          inr (
            refuses,
            rw same (simp (unavailable, refuses)),
            rw same (simp (unavailable, refuses)),
          ),
        )
      ]
