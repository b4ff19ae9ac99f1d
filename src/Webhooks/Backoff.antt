-- ===== src/Webhooks/Backoff.antt =====
-- The delays of src/services/webhook_service.ts.
use adonisjs_lasagna_saas_te.Prelude.{
  ℕ, zero, suc, ◌-◌, ◌*◌, ◌≤◌, ◌<◌, ◌≡◌, arith, get_elem?, get_or,
}
use adonisjs_lasagna_saas_te.Webhooks.{backoff_with_jitter, backoff_base_seconds, random_parts}

-- The delay before another attempt is within a fifth of the base of the attempt, on either side,
-- where the random number is less than 1: it is never 0, and never more than 8640 seconds.
pub backoff_with_jitter-bounds :
    (random attempt : ℕ)
    → random < random_parts
    → let base = get_or (get_elem? backoff_base_seconds (attempt - 1)) 7200 in
      (4 * base ≤ 5 * backoff_with_jitter random attempt)
      × (5 * backoff_with_jitter random attempt ≤ 6 * base)
unfolding backoff_with_jitter
backoff_with_jitter-bounds random zero h = (omega arith, omega arith)
backoff_with_jitter-bounds random (suc zero) h = (omega arith, omega arith)
backoff_with_jitter-bounds random (suc (suc zero)) h = (omega arith, omega arith)
backoff_with_jitter-bounds random (suc (suc (suc zero))) h = (omega arith, omega arith)
backoff_with_jitter-bounds random (suc (suc (suc (suc zero)))) h = (omega arith, omega arith)
backoff_with_jitter-bounds random (suc (suc (suc (suc (suc zero))))) h = (omega arith, omega arith)
backoff_with_jitter-bounds random (suc (suc (suc (suc (suc (suc n)))))) h =
    let e : suc (suc (suc (suc (suc (suc n))))) - 1 ≡ suc (suc (suc (suc (suc n)))) = omega arith in
    rw e (omega arith, omega arith)
