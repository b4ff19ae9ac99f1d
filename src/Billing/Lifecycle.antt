-- ===== src/Billing/Lifecycle.antt =====
-- The life of a row of src/models/satellites/stripe_processed_event.ts over any run.
use adonisjs_lasagna_saas_te.Prelude.{
  ◌+◌, ◌≤◌, ◌≡◌, ◌⊎◌, inl, inr, refl, subst, String, true, false, Option, none, some, List, [], ◌∷◌,
  arith, str_eq, eq_iff, eq_refl, Bool-cases, Option-cases,
}
use adonisjs_lasagna_saas_te.Exceptions.{Result, Exception, ok, throw}
use adonisjs_lasagna_saas_te.Billing.{
  StripeEvent, StripeProcessedEvent, failed, Backend, World, Env,
}
use adonisjs_lasagna_saas_te.Billing.Frames.{dispatch-SameLedger}
use adonisjs_lasagna_saas_te.Billing.Outcome.{DispatchResult}
use adonisjs_lasagna_saas_te.Billing.Dispatch.{dispatch_stripe_event}
use adonisjs_lasagna_saas_te.Billing.Ledger.{
  is_completed, is_fatal_error, execute, dead_letter, retrieve_event, settle_failure, finish,
  process, attempt, save_row, complete, error_text,
}
use adonisjs_lasagna_saas_te.Billing.Webhook.{
  handle, Action, deliver, work, give_up, act, run, new_row, is_untouched,
}

abbrev pub row_of : {B : Backend} → String → World B → Option StripeProcessedEvent
row_of {B} id w = B.ledger.get id w.ledger

-- How a row may change: never once it is completed; its attempts only grow, and what the first
-- delivery stored stays.
pub record Advance (row row' : StripeProcessedEvent) : Type 0 where
  pub kept : (is_completed row.status ≡ false) ⊎ (row' ≡ row)
  pub counted : row.attempts ≤ row'.attempts
  pub payload : row'.payload ≡ row.payload
  pub event_type : row'.event_type ≡ row.event_type
  pub touched : (is_untouched row ≡ true) ⊎ (is_untouched row' ≡ false)

Advance-refl : (row : StripeProcessedEvent) → Advance row row
Advance-refl row = ground (arith, Bool-cases (is_untouched row))

Advance-trans : (a b c : StripeProcessedEvent) → Advance a b → Advance b c → Advance a c
Advance-trans a b c h k = ground (arith, h.kept, k.kept, h.touched, k.touched)

module _ {B : Backend} where
  pub retrieve_event-same :
      (env : Env) (id : String) (w : World B) → (retrieve_event env id w).1 ≡ w
  unfolding retrieve_event
  retrieve_event-same env id w = ground arith

  -- Of each row that is there, something is there afterwards that it may change to.
  abbrev pub Advances : World B → World B → Type 0
  Advances w w' =
      (id : String) (row : StripeProcessedEvent)
      → row_of id w ≡ some row
      → (row' : StripeProcessedEvent) × (row_of id w' ≡ some row') × Advance row row'

  put-Advances :
      (id : String) (row row' : StripeProcessedEvent) (w w' : World B)
      → row_of id w ≡ some row
      → Advance row row'
      → w'.ledger ≡ B.ledger.put id row' w.ledger
      → Advances w w'
  put-Advances id row row' w w' e h p j other f = elim (Bool-cases (str_eq id j)) [
    | inl hit ↦ (
      row',
      ground (arith, B.ledger.get-put j id row' w.ledger),
      subst (λ r. Advance r row') (same hit) h,
    )
    | inr miss ↦ (other, ground (arith, B.ledger.get-put j id row' w.ledger), Advance-refl other)
  ]
    where
      same : str_eq id j ≡ true → row ≡ other
      same hit = ground (arith, eq_iff id j)

  same-Advances : (w w' : World B) → w'.ledger ≡ w.ledger → Advances w w'
  same-Advances w w' p id row e = (row, ground arith, Advance-refl row)

  Advances-trans : (a b c : World B) → Advances a b → Advances b c → Advances a c
  Advances-trans a b c h k id row e =
      let (row₁, e₁, h₁) = h id row e in
      let (row₂, e₂, h₂) = k id row₁ e₁ in (row₂, e₂, Advance-trans row row₁ row₂ h₁ h₂)

  settle_failure-Advances :
      (env : Env) (id : String) (row : StripeProcessedEvent) (x : Exception) (w : World B)
      → row_of id w ≡ some row
      → is_completed row.status ≡ false
      → Advances w (settle_failure env id row x w).1
  unfolding settle_failure
  settle_failure-Advances env id row x w e open_row = elim (Bool-cases (is_fatal_error x)) [
    | inl fatal ↦
        put-Advances id row (record row { status = failed; last_error = some (error_text x) }) w
          (settle_failure env id row x w).1 e (ground arith) (ground arith)
    | inr retryable ↦
        put-Advances id row (record row { last_error = some (error_text x) }) w
          (settle_failure env id row x w).1 e (ground arith) (ground arith)
  ]

  finish-Advances :
      (env : Env) (id : String) (row : StripeProcessedEvent) (r : Result DispatchResult)
      (w : World B)
      → row_of id w ≡ some row
      → is_completed row.status ≡ false
      → Advances w (finish env id row (r, w)).1
  unfolding finish
  finish-Advances env id row (ok r) w e open_row =
      put-Advances id row (complete env.now row r) w (finish env id row (ok r, w)).1 e
        (ground arith) refl
  finish-Advances env id row (throw x) w e open_row =
      settle_failure-Advances env id row x w e open_row

  process-Advances :
      (env : Env) (id : String) (row : StripeProcessedEvent) (r : Result StripeEvent) (w : World B)
      → row_of id w ≡ some row
      → is_completed row.status ≡ false
      → Advances w (process env id row (r, w)).1
  unfolding process
  process-Advances env id row (ok event) w e open_row =
      let d = dispatch_stripe_event env event w in
      let same = dispatch-SameLedger env event w in
      Advances-trans w d.1 (process env id row (ok event, w)).1 (same-Advances w d.1 same.ledger)
        (finish-Advances env id row d.0 d.1 (ground arith) open_row)
  process-Advances env id row (throw x) w e open_row =
      settle_failure-Advances env id row x w e open_row

  attempt-Advances :
      (env : Env) (id : String) (row : StripeProcessedEvent) (w : World B)
      → row_of id w ≡ some row
      → is_completed row.status ≡ false
      → Advances w (attempt env id row w).1
  unfolding attempt
  attempt-Advances env id row w e open_row =
      let tried : StripeProcessedEvent = record row { attempts = row.attempts + 1 } in
      let w₁ : World B = save_row id tried w in
      let got = retrieve_event env id w₁ in
      let same : got.1 ≡ w₁ = retrieve_event-same env id w₁ in
      let there : row_of id got.1 ≡ some tried =
        ground (arith, same, eq_refl id, B.ledger.get-put id id tried w.ledger) in
      Advances-trans w got.1 (attempt env id row w).1
        (put-Advances id row tried w got.1 e (ground arith) (ground (arith, same)))
        (process-Advances env id tried got.0 got.1 there open_row)

  execute-Advances : (env : Env) (id : String) (w : World B) → Advances w (execute env id w).1
  unfolding execute
  execute-Advances env id w = elim (Option-cases (row_of id w)) [
    | inl missing ↦ same-Advances w (execute env id w).1 (ground arith)
    | inr (row, e) ↦ elim (Bool-cases (is_completed row.status)) [
      | inl done ↦ same-Advances w (execute env id w).1 (ground arith)
      | inr more ↦ rw (e, more, execute) (attempt-Advances env id row w e more)
    ]
  ]

  dead_letter-Advances :
      (id : String) (x : Exception) (w : World B) → Advances w (dead_letter id x w)
  unfolding dead_letter
  dead_letter-Advances id x w = elim (Option-cases (row_of id w)) [
    | inl missing ↦ same-Advances w (dead_letter id x w) (ground arith)
    | inr (row, e) ↦ elim (Bool-cases (is_completed row.status)) [
      | inl done ↦ same-Advances w (dead_letter id x w) (ground arith)
      | inr more ↦
          put-Advances id row (record row { status = failed; last_error = some (error_text x) }) w
            (dead_letter id x w) e (ground arith) (ground arith)
    ]
  ]

  -- A delivery writes the ledger only where the event has no row yet.
  handle-Advances :
      (env : Env) (e : Option StripeEvent) (w : World B) → Advances w (handle env e w).1
  unfolding handle
  handle-Advances env none w = same-Advances w w refl
  handle-Advances env (some e) w = elim (Option-cases (row_of e.id w)) [
    | inl missing ↦ λ id row there. (
      row,
      ground (arith, eq_iff e.id id, B.ledger.get-put id e.id (new_row e) w.ledger),
      Advance-refl row,
    )
    | inr (row, there) ↦ same-Advances w (handle env (some e) w).1 (ground arith)
  ]

  pub act-Advances : (a : Action) (w : World B) → Advances w (act a w)
  unfolding act
  act-Advances (deliver env e) w = handle-Advances env e w
  act-Advances (work env id) w = execute-Advances env id w
  act-Advances (give_up id x) w = dead_letter-Advances id x w

  run-Advances : (actions : List Action) (w : World B) → Advances w (run actions w)
  unfolding run
  run-Advances [] w = same-Advances w w refl
  run-Advances (a ∷ rest) w =
      Advances-trans w (act a w) (run rest (act a w)) (act-Advances a w)
        (run-Advances rest (act a w))

  -- Over any run of deliveries, attempts and dead letters, under any configurations and any answers
  -- of Stripe and the queue, a ledger row is never removed; a completed row never changes again,
  -- attempts never fall, and the payload of the first delivery is never overwritten.
  pub run-Advance :
      (actions : List Action) (w : World B) (id : String) (row : StripeProcessedEvent)
      → row_of id w ≡ some row
      → (row' : StripeProcessedEvent) × (row_of id (run actions w) ≡ some row') × Advance row row'
  run-Advance actions w id row there = run-Advances actions w id row there
