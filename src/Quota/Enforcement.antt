-- ===== src/Quota/Enforcement.antt =====
-- The script of src/services/quota_service.ts, run once and in any sequence.
use adonisjs_lasagna_saas_te.Prelude.{
  ℕ, ◌+◌, ◌≤◌, ◌≡◌, ◌⊎◌, String, Bool, true, false, List, [], ◌∷◌, str_eq, eq_iff, leb, ◌&&◌,
  if◌then◌else◌, get_or, arith,
}
use adonisjs_lasagna_saas_te.Quota.{RedisServer}
use adonisjs_lasagna_saas_te.Quota.Counters.{quota_consume_lua, rolling_ttl_seconds}

module _ (R : RedisServer) where
  -- The counter under a key, 0 where there is none.
  abbrev pub counter : String → R.State → ℕ
  counter key s = get_or (R.get key s) 0

  -- What the script does to any counter: the granted amount is added to its own, at once.
  pub counter-quota_consume_lua :
      (j key : String) (limit amount seconds : ℕ) (s : R.State)
      → counter j (quota_consume_lua R key limit amount seconds s).1 ≡ (
          if str_eq key j && leb (counter key s + amount) limit
          then counter key s + amount
          else counter j s)
  unfolding quota_consume_lua
  counter-quota_consume_lua j key limit amount seconds s =
      ground
        (arith, R.get-expire j key seconds (R.incrby key amount s).1, R.get-incrby j key amount s)

  -- Whether it grants, and the counter that it answers with.
  pub quota_consume_lua-reply :
      (key : String) (limit amount seconds : ℕ) (s : R.State)
      → (quota_consume_lua R key limit amount seconds s).0 ≡ (
          if leb (counter key s + amount) limit
          then (true, counter key s + amount)
          else (false, counter key s))
  unfolding quota_consume_lua
  quota_consume_lua-reply key limit amount seconds s = ground (arith, R.incrby-reply key amount s)

  -- A refusal writes nothing at all.
  pub quota_consume_lua-refused :
      (key : String) (limit amount seconds : ℕ) (s : R.State)
      → (quota_consume_lua R key limit amount seconds s).0.0 ≡ false
      → (quota_consume_lua R key limit amount seconds s).1 ≡ s
  unfolding quota_consume_lua
  quota_consume_lua-refused key limit amount seconds s h = ground arith

-- One run of the script: a caller's key, the limit of its plan, and the amount.
pub record Request : Type 0 where
  pub key : String
  pub limit : ℕ
  pub amount : ℕ

module _ (R : RedisServer) where
  unfoldable pub eval : Request → R.State → (Bool × ℕ) × R.State
  eval r s = quota_consume_lua R r.key r.limit r.amount rolling_ttl_seconds s

  -- The scripts of any number of callers, in the order in which the server runs them.
  unfoldable pub evals : List Request → R.State → R.State
  unfolding eval
  evals [] s = s
  evals (r ∷ rs) s = evals rs (eval r s).1

  -- The amounts granted under a key along such a run.
  unfoldable pub granted : String → List Request → R.State → ℕ
  unfolding eval
  granted key [] s = 0
  granted key (r ∷ rs) s =
      (if str_eq r.key key && (eval r s).0.0 then r.amount else 0) + granted key rs (eval r s).1

  -- Every caller under the key brings a limit of at most `most`.
  abbrev pub LimitsWithin : String → ℕ → List Request → Type 0
  LimitsWithin key most [] = Unit
  LimitsWithin key most (r ∷ rs) =
      ((str_eq r.key key ≡ false) ⊎ (r.limit ≤ most)) × LimitsWithin key most rs

  eval-counter :
      (key : String) (r : Request) (s : R.State)
      → counter R key (eval r s).1
        ≡ counter R key s + (if str_eq r.key key && (eval r s).0.0 then r.amount else 0)
  unfolding eval
  eval-counter key r s = ground (
    arith,
    counter-quota_consume_lua R key r.key r.limit r.amount rolling_ttl_seconds s,
    quota_consume_lua-reply R r.key r.limit r.amount rolling_ttl_seconds s,
    eq_iff r.key key,
  )

  -- After any sequence of scripts, a counter is what it was before plus the amounts that were
  -- granted under its key.
  pub evals-exact :
      (key : String) (rs : List Request) (s : R.State)
      → counter R key (evals rs s) ≡ counter R key s + granted key rs s
  unfolding evals granted
  evals-exact key [] s = omega arith
  evals-exact key (r ∷ rs) s = omega (arith, evals-exact key rs (eval r s).1, eval-counter key r s)

  eval-within :
      (key : String) (most : ℕ) (r : Request) (s : R.State)
      → (str_eq r.key key ≡ false) ⊎ (r.limit ≤ most)
      → counter R key s ≤ most
      → counter R key (eval r s).1 ≤ most
  unfolding eval
  eval-within key most r s h fits =
      ground (arith, counter-quota_consume_lua R key r.key r.limit r.amount rolling_ttl_seconds s)

  -- In any sequence of scripts whose limits under a key are at most `most`, a counter that starts
  -- within `most` and all that is granted under its key stay within it together.
  pub evals-no_overgrant :
      (key : String) (most : ℕ) (rs : List Request) (s : R.State)
      → LimitsWithin key most rs
      → counter R key s ≤ most
      → counter R key s + granted key rs s ≤ most
  unfolding granted
  evals-no_overgrant key most [] s within h = omega arith
  evals-no_overgrant key most (r ∷ rs) s (here, within) h = omega (
    arith,
    eval-counter key r s,
    evals-no_overgrant key most rs (eval r s).1 within (eval-within key most r s here h),
  )
