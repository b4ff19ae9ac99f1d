-- ===== src/Webhooks/Attempts.antt =====
-- What becomes of a delivery of src/services/webhook_service.ts over its attempts.
use adonisjs_lasagna_saas_te.Prelude.{
  ℕ, zero, suc, ap, ◌+◌, ◌≤◌, ◌≡◌, refl, inl, inr, Bool, true, false, List, [], ◌∷◌, if◌then◌else◌,
  ltb, any, take, length, arith, Bool-cases,
}
use adonisjs_lasagna_saas_te.Webhooks.{
  success, failed, retrying, TenantWebhookDelivery, Answer, responded, unreachable, settle,
  max_attempts, is_ok, is_retrying,
}

-- An answer that ends a delivery well.
abbrev pub is_delivered : Answer → Bool
is_delivered (responded status body) = is_ok status
is_delivered (unreachable reason) = false

-- The answer to each attempt, with the instant and the random number of its settlement: another
-- attempt is made as long as the delivery is to be retried. The second result counts the attempts.
unfoldable pub attempts : List (ℕ × ℕ × Answer) → TenantWebhookDelivery → TenantWebhookDelivery × ℕ
unfolding settle
attempts [] d = (d, 0)
attempts ((now, random, answer) ∷ answers) d =
    let d' = settle now random answer d in
    let (last, n) = attempts answers d' in if is_retrying d'.status then (last, suc n) else (d', 1)

abbrev pub delivered_by : ℕ × ℕ × Answer → Bool
delivered_by (now, random, answer) = is_delivered answer

module _ (now random : ℕ) where
  settle-delivered :
      (x : Answer) (d : TenantWebhookDelivery)
      → is_delivered x ≡ true
      → (settle now random x d).status ≡ success
  unfolding settle
  settle-delivered (responded status body) d h = rw h refl
  settle-delivered (unreachable reason) d h = absurd (cc h)

  settle-retried :
      (x : Answer) (d : TenantWebhookDelivery)
      → is_delivered x ≡ false
      → ltb d.attempt max_attempts ≡ true
      → ((settle now random x d).status ≡ retrying)
        × ((settle now random x d).attempt ≡ d.attempt + 1)
  unfolding settle
  settle-retried (responded status body) d h more = rw (h, more) (refl, refl)
  settle-retried (unreachable reason) d h more = rw more (refl, refl)

  settle-last :
      (x : Answer) (d : TenantWebhookDelivery)
      → is_delivered x ≡ false
      → ltb d.attempt max_attempts ≡ false
      → (settle now random x d).status ≡ failed
  unfolding settle
  settle-last (responded status body) d h last = rw (h, last) refl
  settle-last (unreachable reason) d h last = rw last refl

attempts-stop :
    (now random : ℕ) (x : Answer) (answers : List (ℕ × ℕ × Answer)) (d : TenantWebhookDelivery)
    → is_retrying (settle now random x d).status ≡ false
    → attempts ((now, random, x) ∷ answers) d ≡ (settle now random x d, 1)
unfolding attempts
attempts-stop now random x answers d h = rw h refl

attempts-go :
    (now random : ℕ) (x : Answer) (answers : List (ℕ × ℕ × Answer)) (d : TenantWebhookDelivery)
    → is_retrying (settle now random x d).status ≡ true
    → attempts ((now, random, x) ∷ answers) d ≡ (
      (attempts answers (settle now random x d)).0,
      suc (attempts answers (settle now random x d)).1,
    )
unfolding attempts
attempts-go now random x answers d h = rw h refl

IsEnded : ℕ → List (ℕ × ℕ × Answer) → TenantWebhookDelivery × ℕ → Type 0
IsEnded left answers r =
    (r.1 ≤ suc left)
    × (r.0.status ≡ (if any delivered_by (take (suc left) answers) then success else failed))

attempts-from :
    (left : ℕ) (answers : List (ℕ × ℕ × Answer)) (d : TenantWebhookDelivery)
    → d.attempt + left ≡ 5
    → suc left ≤ length answers
    → IsEnded left answers (attempts answers d)
unfolding IsEnded
attempts-from left [] d e h = absurd (omega (arith, h))
attempts-from zero ((now, random, x) ∷ answers) d e h = elim (Bool-cases (is_delivered x)) [
  | inl good ↦
      let ends = settle-delivered now random x d good in
      rw (attempts-stop now random x answers d (ap is_retrying ends), good) (omega arith, ends)
  | inr bad ↦
      let ends = settle-last now random x d bad (ground arith) in
      rw (attempts-stop now random x answers d (ap is_retrying ends), bad) (omega arith, ends)
]
attempts-from (suc left) ((now, random, x) ∷ answers) d e h = elim (Bool-cases (is_delivered x)) [
  | inl good ↦
      let ends = settle-delivered now random x d good in
      rw (attempts-stop now random x answers d (ap is_retrying ends), good) (omega arith, ends)
  | inr bad ↦
      let again = settle-retried now random x d bad (ground arith) in
      let rest =
        attempts-from left answers (settle now random x d) (omega (arith, again.1)) (omega arith) in
      rw (attempts-go now random x answers d (ap is_retrying again.0), bad)
        (omega (arith, rest.0), rest.1)
]

-- A new delivery that is retried whenever it is to be is sent five times at most, and it ends as a
-- success exactly where one of the first five answers has a status of success, as failed
-- otherwise, where five answers or more are given.
pub attempts-outcome :
    (answers : List (ℕ × ℕ × Answer)) (d : TenantWebhookDelivery)
    → d.attempt ≡ 1
    → 5 ≤ length answers
    → ((attempts answers d).1 ≤ max_attempts)
      × ((attempts answers d).0.status
          ≡ (if any delivered_by (take max_attempts answers) then success else failed))
unfolding IsEnded
attempts-outcome answers d e h = attempts-from 4 answers d (omega (arith, e)) h
