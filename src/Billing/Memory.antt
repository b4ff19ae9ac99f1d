-- ===== src/Billing/Memory.antt =====
-- The tables of billing in memory: the interface of the backend can be met.
use adonisjs_lasagna_saas_te.Prelude.{
  String, Bool, Option, none, some, false, refl, ◌≡◌, str_eq, eq_refl, if◌then◌else◌, arith,
}
use adonisjs_lasagna_saas_te.Store.{Store}
use adonisjs_lasagna_saas_te.Store.Memory.{memory}
use adonisjs_lasagna_saas_te.Quota.Memory.{redis_memory}
use adonisjs_lasagna_saas_te.Quota.Samples.{plan_rows, plan_cache}
use adonisjs_lasagna_saas_te.Billing.{
  StripeCustomer, StripeSubscription, StripeProcessedEvent, CustomerTable, Backend,
}

abbrev Rows : Type 0
Rows = String → Option StripeCustomer

abbrev belongs_to : String → Option StripeCustomer → Bool
belongs_to tenant none = false
belongs_to tenant (some row) = str_eq row.tenant_id tenant

-- The rows by tenant, and the index by Stripe id.
abbrev customer_rows : Store StripeCustomer
customer_rows = record {
  State = Rows × Rows;
  get = λ k s. s.0 k;
  put = λ k v s. (
    λ j. if str_eq k j then some v else s.0 j,
    λ id.
        if str_eq v.stripe_customer_id id
        then some v
        else if belongs_to k (s.1 id)
        then none
        else s.1 id,
  );
  del = λ k s. (
    λ j. if str_eq k j then none else s.0 j,
    λ id. if belongs_to k (s.1 id) then none else s.1 id,
  );
  get-put = λ j k v s. refl;
  get-del = λ j k s. refl;
}

pub found_put :
    (k : String) (v : Option StripeCustomer) (o : Option StripeCustomer)
    → (if str_eq k k then v else o) ≡ v
found_put k v o = ground (arith, eq_refl k)

abbrev customer_table : CustomerTable
customer_table = record {
  rows = customer_rows;
  find_by_stripe_id = λ id s. s.1 id;
  find_by_stripe_id-put = λ row s h. found_put row.stripe_customer_id (some row) (
      if belongs_to row.tenant_id (s.1 row.stripe_customer_id)
      then none
      else s.1 row.stripe_customer_id);
}

abbrev pub backend : Backend
backend = record {
  redis = redis_memory;
  tenant_plans = plan_rows;
  cache = plan_cache;
  customers = customer_table;
  subscriptions = memory StripeSubscription;
  ledger = memory StripeProcessedEvent;
}
