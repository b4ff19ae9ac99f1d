-- ===== src/Billing/Delivery.antt =====
-- What becomes of a delivery to src/controllers/stripe_webhook_controller.ts.
use adonisjs_lasagna_saas_te.Prelude.{
  ◌+◌, ◌≡◌, ◌⊎◌, inl, inr, refl, String, true, false, Option, none, some, List, [], ◌∷◌, ◌++◌,
  arith, eq_refl, includes, Option-cases,
}
use adonisjs_lasagna_saas_te.Exceptions.{Result, Exception, ok, throw}
use adonisjs_lasagna_saas_te.Billing.{StripeEvent, StripeProcessedEvent, Backend, World, Env}
use adonisjs_lasagna_saas_te.Billing.Frames.{dispatch-SameLedger}
use adonisjs_lasagna_saas_te.Billing.Dispatch.{dispatch_stripe_event}
use adonisjs_lasagna_saas_te.Billing.Ledger.{
  execute, dead_letter, retrieve_event, settle_failure, process, attempt, save_row,
}
use adonisjs_lasagna_saas_te.Billing.Lifecycle.{row_of, retrieve_event-same, act-Advances}
use adonisjs_lasagna_saas_te.Billing.Webhook.{
  handle, Action, deliver, work, give_up, act, run, new_row, is_untouched,
}

includes-append :
    (k j : String) (js : List String) → includes k js ≡ true → includes k (js ++ j ∷ []) ≡ true
includes-append k j (i ∷ js) h = ground (arith, includes-append k j js)
includes-append k j [] h = cc

includes-last : (k : String) (js : List String) → includes k (js ++ k ∷ []) ≡ true
includes-last k [] = rw eq_refl refl
includes-last k (j ∷ js) = ground (arith, includes-last k js)

module _ {B : Backend} where
  -- The event has a ledger row that a worker has touched, or that a job was enqueued for.
  pub record Accounted (id : String) (w : World B) : Type 0 where
    pub row : StripeProcessedEvent
    pub there : row_of id w ≡ some row
    pub served : (is_untouched row ≡ false) ⊎ (includes id w.queue ≡ true)

  -- A delivery that is answered with success leaves its event accounted for.
  handle-Accounted :
      (env : Env) (e : StripeEvent) (w : World B)
      → (handle env (some e) w).0 ≡ ok tt
      → Accounted e.id (handle env (some e) w).1
  unfolding handle
  handle-Accounted env e w acked = elim (Option-cases (row_of e.id w)) [
    | inl missing ↦ record {
      row = new_row e;
      there = ground (arith, B.ledger.get-put e.id e.id (new_row e) w.ledger, eq_refl e.id);
      served = inr (ground (arith, includes-last e.id w.queue));
    }
    | inr (row, there) ↦ record {
      row = row;
      there = ground arith;
      served = ground (arith, includes-last e.id w.queue);
    }
  ]

  settle_failure-queue :
      (env : Env) (id : String) (row : StripeProcessedEvent) (x : Exception) (w : World B)
      → (settle_failure env id row x w).1.queue ≡ w.queue
  unfolding settle_failure
  settle_failure-queue env id row x w = ground arith

  process-queue :
      (env : Env) (id : String) (row : StripeProcessedEvent) (r : Result StripeEvent) (w : World B)
      → (process env id row (r, w)).1.queue ≡ w.queue
  unfolding process
  process-queue env id row (ok event) w =
      let d = dispatch_stripe_event env event w in
      ground (arith, (dispatch-SameLedger env event w).queue)
  process-queue env id row (throw x) w = settle_failure-queue env id row x w

  execute-queue : (env : Env) (id : String) (w : World B) → (execute env id w).1.queue ≡ w.queue
  unfolding execute attempt
  execute-queue env id w = elim (Option-cases (row_of id w)) [
    | inl missing ↦ ground arith
    | inr (row, there) ↦
        let tried : StripeProcessedEvent = record row { attempts = row.attempts + 1 } in
        let got = retrieve_event env id (save_row id tried w) in
        ground (
          arith,
          retrieve_event-same env id (save_row id tried w),
          process-queue env id tried got.0 got.1,
        )
  ]

  dead_letter-queue :
      (id : String) (x : Exception) (w : World B) → (dead_letter id x w).queue ≡ w.queue
  unfolding dead_letter
  dead_letter-queue id x w = ground arith

  handle-queue :
      (env : Env) (e : Option StripeEvent) (id : String) (w : World B)
      → includes id w.queue ≡ true
      → includes id (handle env e w).1.queue ≡ true
  unfolding handle
  handle-queue env none id w h = h
  handle-queue env (some e) id w h = ground (arith, includes-append id e.id w.queue)

  act-queue :
      (a : Action) (id : String) (w : World B)
      → includes id w.queue ≡ true
      → includes id (act a w).queue ≡ true
  unfolding act
  act-queue (deliver env e) id w h = handle-queue env e id w h
  act-queue (work env j) id w h = rw (execute-queue env j w) h
  act-queue (give_up j x) id w h = rw (dead_letter-queue j x w) h

  act-Accounted : (a : Action) (id : String) (w : World B) → Accounted id w → Accounted id (act a w)
  act-Accounted a id w h =
      let (row', there', steps) = act-Advances a w id h.row h.there in
      record {
        row = row';
        there = there';
        served = ground (arith, h.served, steps.touched, act-queue a id w);
      }

  run-Accounted :
      (actions : List Action) (id : String) (w : World B)
      → Accounted id w
      → Accounted id (run actions w)
  unfolding run
  run-Accounted [] id w h = h
  run-Accounted (a ∷ rest) id w h = run-Accounted rest id (act a w) (act-Accounted a id w h)

  -- A delivery that Stripe was told had succeeded is never lost: after any further run its event
  -- has a ledger row, and that row was touched by a worker or a job for it was enqueued.
  pub acknowledged-Accounted :
      (env : Env) (e : StripeEvent) (w : World B) (actions : List Action)
      → (handle env (some e) w).0 ≡ ok tt
      → Accounted e.id (run actions (handle env (some e) w).1)
  acknowledged-Accounted env e w actions acked =
      run-Accounted actions e.id (handle env (some e) w).1 (handle-Accounted env e w acked)
