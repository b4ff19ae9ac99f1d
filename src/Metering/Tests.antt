-- ===== src/Metering/Tests.antt =====
-- Reports to a Stripe that keeps the keys it has accepted.
use adonisjs_lasagna_saas_te.Prelude.{
  ℕ, ◌≡◌, refl, ap, subst, arith, inl, String, Bool, true, false, none, some, List, [], ◌∷◌,
  includes, eq_refl,
}
use adonisjs_lasagna_saas_te.Prelude.Int.{pos}
use adonisjs_lasagna_saas_te.Store.{Store}
use adonisjs_lasagna_saas_te.Store.Memory.{memory, nothing}
use adonisjs_lasagna_saas_te.Exceptions.{ok}
use adonisjs_lasagna_saas_te.Metering.{
  StripeMeterEvent, MeterRequest, MeterAnswer, accepted, World, Env, finite, report_usage,
  execute_batch, minute_key, ReportUsageOptions,
}
use adonisjs_lasagna_saas_te.Metering.Audit.{IsMeter, Reported, report_usage-Reported, sent_at}
use adonisjs_lasagna_saas_te.Metering.Minutes.{execute_batch-same_minute}
use adonisjs_lasagna_saas_te.Metering.Bridge.{
  no_usage, Step, tracked, fired, drained, run, keys_of, bucket_key,
}
use adonisjs_lasagna_saas_te.Metering.Batches.{held, amounts_of, run-conserves}

abbrev table : Store StripeMeterEvent
table = memory StripeMeterEvent

abbrev accept : MeterRequest → List String → MeterAnswer × List String
accept r keys = (accepted, r.key ∷ keys)

abbrev at : ℕ → Env table (List String)
at now = record {
  customer_of = λ t. some "cus_1";
  client = ok tt;
  now = now;
  rival = λ s. s;
  saves_sent = true;
  saves_failed = true;
  create = accept;
}

abbrev has_key : String → List String → Bool
has_key = includes

abbrev meter : IsMeter (at 90000) has_key
meter = record {
  accepts = λ r s s' e.
      subst (λ (keys : List String). has_key r.key keys ≡ true) (ap (λ p. p.1) e)
        (rw (eq_refl r.key) refl);
  keeps = λ k r s h. ground (arith, h);
}

abbrev no_reports : World table (List String)
no_reports = record { audits = nothing; stripe = [] }

abbrev defaults : ReportUsageOptions
defaults = record { idempotency_key = none; timestamp = none }

key_of_minute : minute_key "acme" "calls" 90000 ≡ "acme:calls:1"
unfolding minute_key
key_of_minute = refl

report_usage-Reported_example :
    Reported table has_key
      (minute_key "acme" "calls" 90000)
      (report_usage (at 90000) "acme" "calls" (finite (pos 7)) defaults no_reports)
unfolding sent_at
report_usage-Reported_example =
    report_usage-Reported meter "acme" "calls" (finite (pos 7)) defaults no_reports (λ k. inl refl)
      (λ k. inl refl)

abbrev exists : String → Bool
exists t = true

-- What is left after a first batch.
abbrev reported : World table (List String)
reported = (execute_batch (at 90000) true exists "acme" "calls" 7 no_reports).1

execute_batch-same_minute_example :
    execute_batch (at 100000) true exists "acme" "calls" 5 reported ≡ (ok tt, reported)
unfolding execute_batch
execute_batch-same_minute_example =
    execute_batch-same_minute (at 90000) (at 100000) exists "acme" "calls" "cus_1" 7 5 no_reports
      reported refl refl refl refl refl

abbrev usage_mapping : List (String × String)
usage_mapping = ("apiCalls", "calls") ∷ []

abbrev steps : List Step
steps =
    tracked "acme" "apiCalls" 2
    ∷ tracked "acme" "apiCalls" 3
    ∷ fired true "acme::calls"
    ∷ tracked "acme" "apiCalls" 4
    ∷ tracked "acme" "other" 9
    ∷ drained false
    ∷ []

jobs_of_steps :
    (run usage_mapping steps no_usage).jobs
    ≡ record { tenant_id = "acme"; meter_event_name = "calls"; quantity = 5 } ∷ []
unfolding run
jobs_of_steps = refl

run-conserves_example :
    (held "acme::calls" (run usage_mapping steps no_usage)
      ≡ amounts_of usage_mapping "acme::calls" steps)
    × (keys_of (run usage_mapping steps no_usage).pending
        ≡ (run usage_mapping steps no_usage).timers)
run-conserves_example = run-conserves "acme::calls" usage_mapping steps

amounts : amounts_of usage_mapping "acme::calls" steps ≡ 9
unfolding run bucket_key
amounts = refl
