-- ===== src/Billing/Attempts.antt =====
-- One attempt of src/jobs/process_stripe_event_job.ts at an event.
use adonisjs_lasagna_saas_te.Prelude.{
  ◌+◌, ◌≡◌, ◌⊎◌, inl, inr, refl, String, false, some, arith, eq_refl, Bool-cases,
}
use adonisjs_lasagna_saas_te.Exceptions.{Result, Exception, ok, throw}
use adonisjs_lasagna_saas_te.Billing.{
  StripeEvent, StripeProcessedEvent, completed, failed, Backend, World, Env,
}
use adonisjs_lasagna_saas_te.Billing.Outcome.{DispatchResult}
use adonisjs_lasagna_saas_te.Billing.Dispatch.{dispatch_stripe_event}
use adonisjs_lasagna_saas_te.Billing.Ledger.{
  is_completed, is_fatal_error, execute, retrieve_event, settle_failure, finish, process, attempt,
  save_row, error_text, complete,
}
use adonisjs_lasagna_saas_te.Billing.Lifecycle.{row_of}

module _ {B : Backend} where
  -- The end of an attempt: the job returns only with the row completed or failed for good, and it
  -- throws only what may be retried, with the status as it was and the reason on record.
  pub record Settled (id : String) (row : StripeProcessedEvent) (r : Result (Unit {0}))
      (w : World B) : Type 0 where
    pub row' : StripeProcessedEvent
    pub there : row_of id w ≡ some row'
    pub attempts : row'.attempts ≡ row.attempts + 1
    pub ends :
        ((r ≡ ok tt) × ((row'.status ≡ completed) ⊎ (row'.status ≡ failed)))
        ⊎ ((x : Exception) × (r ≡ throw x)
            × (is_fatal_error x ≡ false)
            × (row'.status ≡ row.status)
            × (row'.last_error ≡ some (error_text x)))

  settle_failure-Settled :
      (env : Env) (id : String) (row : StripeProcessedEvent) (x : Exception) (w : World B)
      → Settled id row
          (settle_failure env id (record row { attempts = row.attempts + 1 }) x w).0
          (settle_failure env id (record row { attempts = row.attempts + 1 }) x w).1
  unfolding settle_failure
  settle_failure-Settled env id row x w = elim (Bool-cases (is_fatal_error x)) [
    | inl fatal ↦
        let row' : StripeProcessedEvent = record row {
          attempts = row.attempts + 1;
          status = failed;
          last_error = some (error_text x);
        } in
        record {
          row' = row';
          there = ground (arith, eq_refl id, B.ledger.get-put id id row' w.ledger);
          attempts = refl;
          ends = inl (ground arith, inr refl);
        }
    | inr retryable ↦
        let row' : StripeProcessedEvent = record row {
          attempts = row.attempts + 1;
          last_error = some (error_text x);
        } in
        record {
          row' = row';
          there = ground (arith, eq_refl id, B.ledger.get-put id id row' w.ledger);
          attempts = refl;
          ends = inr (x, ground arith, retryable, refl, refl);
        }
  ]

  finish-Settled :
      (env : Env) (id : String) (row : StripeProcessedEvent) (r : Result DispatchResult)
      (w : World B)
      → let tried : StripeProcessedEvent = record row { attempts = row.attempts + 1 } in
        Settled id row (finish env id tried (r, w)).0 (finish env id tried (r, w)).1
  unfolding finish
  finish-Settled env id row (ok r) w =
      let row' = complete env.now (record row { attempts = row.attempts + 1 }) r in
      record {
        row' = row';
        there = ground (arith, eq_refl id, B.ledger.get-put id id row' w.ledger);
        attempts = refl;
        ends = inl (refl, inl refl);
      }
  finish-Settled env id row (throw x) w = settle_failure-Settled env id row x w

  process-Settled :
      (env : Env) (id : String) (row : StripeProcessedEvent) (r : Result StripeEvent) (w : World B)
      → let tried : StripeProcessedEvent = record row { attempts = row.attempts + 1 } in
        Settled id row (process env id tried (r, w)).0 (process env id tried (r, w)).1
  unfolding process
  process-Settled env id row (ok event) w =
      let d = dispatch_stripe_event env event w in finish-Settled env id row d.0 d.1
  process-Settled env id row (throw x) w = settle_failure-Settled env id row x w

  -- An attempt at an event that is not completed counts itself on the row, and then: it returns
  -- only with the row completed, or failed for good; it throws only an error that is not fatal,
  -- with the status of the row unchanged and the error on record.
  pub execute-Settled :
      (env : Env) (id : String) (row : StripeProcessedEvent) (w : World B)
      → row_of id w ≡ some row
      → is_completed row.status ≡ false
      → Settled id row (execute env id w).0 (execute env id w).1
  unfolding execute attempt
  execute-Settled env id row w e open_row =
      let tried : StripeProcessedEvent = record row { attempts = row.attempts + 1 } in
      let got = retrieve_event env id (save_row id tried w) in
      rw (e, open_row, execute) (process-Settled env id row got.0 got.1)

  -- An attempt at an event whose row is completed returns and changes nothing.
  pub execute-completed :
      (env : Env) (id : String) (row : StripeProcessedEvent) (w : World B)
      → row_of id w ≡ some row
      → row.status ≡ completed
      → execute env id w ≡ (ok tt, w)
  unfolding execute
  execute-completed env id row w e done = ground arith
