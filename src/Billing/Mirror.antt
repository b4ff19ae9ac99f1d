-- ===== src/Billing/Mirror.antt =====
-- `syncSubscription` of src/services/billing_service.ts: the mirror and the plan enforced.
use adonisjs_lasagna_saas_te.Prelude.{
  ℕ, ◌+◌, ◌<◌, ◌≡◌, ◌≢◌, ◌⊎◌, ◌∙◌, inl, inr, refl, String, Bool, false, Option, none, some, List,
  [], ◌++◌, arith, str_eq, eq_iff, eq_refl, if◌then◌else◌, get_or, truthy, Bool-cases, Option-cases,
}
use adonisjs_lasagna_saas_te.Exceptions.{Exception, billing, ok, throw, Result-cases}
use adonisjs_lasagna_saas_te.Exceptions.Billing.{config_missing, tenant_not_resolvable}
use adonisjs_lasagna_saas_te.Quota.{TenantPlan}
use adonisjs_lasagna_saas_te.Quota.Plans.{assign_plan}
use adonisjs_lasagna_saas_te.Quota.Assignment.{same_expiry_eq}
use adonisjs_lasagna_saas_te.Billing.{
  ref_id, StripeObject, StripeSubscription, StripeCustomer, Event, Backend, World, Env,
  BillingConfig,
}
use adonisjs_lasagna_saas_te.Billing.Sync.{
  sync_subscription, SyncResult, is_stale, assign, mirror, apply_sync, guard_stale, report,
  existing_warning, resolve_plan, first_item,
}

abbrev pub subscription_of : {B : Backend} → StripeObject → World B → Option StripeSubscription
subscription_of {B} sub w = B.subscriptions.get (get_or sub.id "") w.subscriptions

abbrev pub plan_row : {B : Backend} → String → World B → Option TenantPlan
plan_row {B} tenant w = B.tenant_plans.get tenant w.quota.plans

-- An event more than five seconds older than the last one that the row has seen.
abbrev pub IsOlder : ℕ → Option StripeSubscription → Type 0
IsOlder created none = ⊥
IsOlder created (some row) = created + 5 < row.last_event_at

abbrev pub Mirrors : SyncResult → ℕ → Option StripeSubscription → Type 0
Mirrors r created none = ⊥
Mirrors r created (some row) =
    (row.plan_name ≡ r.plan) × (row.tenant_id ≡ r.tenant_id) × (row.last_event_at ≡ created)

-- What the quota service holds for a tenant: a plan, from a source, with no end.
abbrev pub Holds : String → String → Option TenantPlan → Type 0
Holds plan source none = ⊥
Holds plan source (some row) =
    (row.plan_name ≡ plan) × (row.source ≡ source) × (row.expires_at ≡ none)

abbrev plan_name_of : Option TenantPlan → String
plan_name_of none = ""
plan_name_of (some row) = row.plan_name

abbrev source_of : Option TenantPlan → String
source_of none = ""
source_of (some row) = row.source

abbrev expiry_of : Option TenantPlan → Option ℕ
expiry_of none = none
expiry_of (some row) = row.expires_at

Mirrors-not_older :
    (r : SyncResult) (t : ℕ) (o : Option StripeSubscription) → Mirrors r (t + 5) o → ¬ IsOlder t o
Mirrors-not_older r t none h k = h
Mirrors-not_older r t (some row) h k = absurd (omega arith)

-- The row of the customer whom a subscription names.
abbrev pub IsCustomer : {B : Backend} → StripeObject → World B → StripeCustomer → Type 0
IsCustomer {B} sub w customer =
    (id : String) × (truthy (ref_id sub.customer) ≡ some id)
    × (B.customers.find_by_stripe_id id w.customers ≡ some customer)

module _ {B : Backend} (env : Env) where
  -- The state after a sync of a subscription that answers `r`.
  pub record Applied (sub : StripeObject) (created : ℕ) (r : SyncResult) (w w' : World B)
      : Type 0 where
    pub fresh : ¬ IsOlder created (subscription_of sub w)
    pub mirrored : Mirrors r created (subscription_of sub w')
    pub enforced : Holds r.plan "stripe" (plan_row r.tenant_id w')
    pub alone :
        (id : String)
        → B.subscriptions.get id w'.subscriptions ≡ (
            if str_eq (get_or sub.id "") id
            then subscription_of sub w'
            else B.subscriptions.get id w.subscriptions)

  assign-Holds :
      (tenant plan source : String) (w : World B)
      → (assign env tenant plan source w).0 ≡ ok tt
      → Holds plan source (plan_row tenant (assign env tenant plan source w).1)
  unfolding assign assign_plan
  assign-Holds tenant plan source w e = ground (
    arith,
    eq_refl tenant,
    eq_iff (plan_name_of (plan_row tenant w)) plan,
    eq_iff (source_of (plan_row tenant w)) source,
    same_expiry_eq (expiry_of (plan_row tenant w)) none,
    B.tenant_plans.get-put tenant tenant
        (record {
          plan_name = plan;
          source = source;
          assigned_at = env.quota.now;
          expires_at = none;
        })
        w.quota.plans,
  )

  apply_sync-Applied :
      (customer : StripeCustomer) (existing : Option StripeSubscription) (sub : StripeObject)
      (created : ℕ) (chosen : String × List Event) (w : World B) (r : SyncResult)
      → subscription_of sub w ≡ existing
      → is_stale existing created ≡ false
      → (apply_sync env customer existing sub created chosen w).0 ≡ ok (some r)
      → Applied sub created r w (apply_sync env customer existing sub created chosen w).1
  unfolding apply_sync mirror
  apply_sync-Applied customer existing sub created (plan, reports) w r there ordered e =
      let told = report (reports ++ existing_warning existing (get_or sub.status "")) w in
      let k = get_or sub.id "" in
      let row = mirror customer sub created plan in
      record {
        fresh = ground (arith, there);
        mirrored = ground (arith, eq_refl k, B.subscriptions.get-put k k row w.subscriptions);
        enforced = ground (arith, assign-Holds customer.tenant_id plan "stripe" told);
        alone = λ id. ground (
          arith,
          eq_refl k,
          B.subscriptions.get-put k k row w.subscriptions,
          B.subscriptions.get-put id k row w.subscriptions,
        );
      }

  guard_stale-Applied :
      (cfg : BillingConfig) (customer : StripeCustomer) (sub : StripeObject) (created : ℕ)
      (downgrade : Bool) (w : World B) (r : SyncResult)
      → (guard_stale env cfg customer (subscription_of sub w) sub created downgrade w).0
        ≡ ok (some r)
      → Applied sub created r w
          (guard_stale env cfg customer (subscription_of sub w) sub created downgrade w).1
  unfolding guard_stale
  guard_stale-Applied cfg customer sub created downgrade w r e =
      elim (Bool-cases (is_stale (subscription_of sub w) created)) [
        | inl stale ↦ absurd (ground arith)
        | inr ordered ↦ rw ordered (
            apply_sync-Applied customer (subscription_of sub w) sub created
              (if downgrade
                then (cfg.default_plan, [])
                else resolve_plan cfg sub.id (first_item sub.items))
              w r refl ordered (rw ordered at e))
      ]

  sync-guard_stale :
      (sub : StripeObject) (created : ℕ) (downgrade : Bool) (w : World B) (cfg : BillingConfig)
      (id : String) (customer : StripeCustomer)
      → env.billing ≡ some cfg
      → truthy (ref_id sub.customer) ≡ some id
      → B.customers.find_by_stripe_id id w.customers ≡ some customer
      → sync_subscription env sub created downgrade w
        ≡ guard_stale env cfg customer (subscription_of sub w) sub created downgrade w
  unfolding sync_subscription
  sync-guard_stale sub created downgrade w cfg id customer configured named found = ground arith

  -- How far a sync gets: it throws before it has done anything, or it has a configuration and the
  -- customer of the subscription.
  abbrev IsReached : StripeObject → ℕ → Bool → World B → BillingConfig → StripeCustomer → Type 0
  IsReached sub created downgrade w cfg customer =
      (IsCustomer sub w customer)
      × (sync_subscription env sub created downgrade w
          ≡ guard_stale env cfg customer (subscription_of sub w) sub created downgrade w)

  sync-cases :
      (sub : StripeObject) (created : ℕ) (downgrade : Bool) (w : World B)
      → ((x : Exception) × (sync_subscription env sub created downgrade w ≡ (throw x, w)))
        ⊎ ((cfg : BillingConfig) × (customer : StripeCustomer) × IsReached sub created downgrade w
              cfg customer)
  unfolding sync_subscription
  sync-cases sub created downgrade w = elim (Option-cases env.billing) [
    | inl missing ↦
        inl (billing config_missing "config.billing is not configured" none, ground arith)
    | inr (cfg, configured) ↦ elim (Option-cases (truthy (ref_id sub.customer))) [
      | inl missing ↦
          inl (billing tenant_not_resolvable "subscription has no customer id" none, ground arith)
      | inr (id, named) ↦ elim (Option-cases (B.customers.find_by_stripe_id id w.customers)) [
        | inl missing ↦
            inl (billing tenant_not_resolvable "no local stripe_customers row" none, ground arith)
        | inr (customer, found) ↦ inr (
          cfg,
          customer,
          (
            (id, named, found),
            sync-guard_stale sub created downgrade w cfg id customer configured named found,
          ),
        )
      ]
    ]
  ]

  apply_sync-not_stale :
      (customer : StripeCustomer) (existing : Option StripeSubscription) (sub : StripeObject)
      (created : ℕ) (chosen : String × List Event) (w : World B)
      → (apply_sync env customer existing sub created chosen w).0 ≢ ok none
  unfolding apply_sync assign assign_plan
  apply_sync-not_stale customer existing sub created (plan, reports) w e = ground arith

  guard_stale-stale :
      (cfg : BillingConfig) (customer : StripeCustomer) (sub : StripeObject) (created : ℕ)
      (downgrade : Bool) (w : World B)
      → (guard_stale env cfg customer (subscription_of sub w) sub created downgrade w).0 ≡ ok none
      → let w' = (guard_stale env cfg customer (subscription_of sub w) sub created downgrade w).1 in
        IsOlder created (subscription_of sub w)
        × (w'.subscriptions ≡ w.subscriptions)
        × (w'.quota ≡ w.quota)
  unfolding guard_stale
  guard_stale-stale cfg customer sub created downgrade w e =
      elim (Bool-cases (is_stale (subscription_of sub w) created)) [
        | inl stale ↦ rw (guard_stale, stale) (ground arith)
        | inr ordered ↦ absurd (
            apply_sync-not_stale customer (subscription_of sub w) sub created
              (if downgrade
                then (cfg.default_plan, [])
                else resolve_plan cfg sub.id (first_item sub.items))
              w (rw (guard_stale, ordered) at e))
      ]

  -- Where a sync answers that an event is stale, the event is more than five seconds older than
  -- the last one applied, and neither the mirror nor any plan has changed.
  pub sync_subscription-stale :
      (sub : StripeObject) (created : ℕ) (downgrade : Bool) (w : World B)
      → (sync_subscription env sub created downgrade w).0 ≡ ok none
      → let w' = (sync_subscription env sub created downgrade w).1 in
        IsOlder created (subscription_of sub w)
        × (w'.subscriptions ≡ w.subscriptions)
        × (w'.quota ≡ w.quota)
  sync_subscription-stale sub created downgrade w e = elim (sync-cases sub created downgrade w) [
    | inl (x, thrown) ↦ absurd (cc (rw thrown at e))
    | inr (cfg, customer, reached) ↦
        rw (reached.1)
          (guard_stale-stale cfg customer sub created downgrade w (rw (reached.1) at e))
  ]

  assign-throws :
      (tenant plan source : String) (w : World B) (x : Exception)
      → (assign env tenant plan source w).0 ≡ throw x
      → (assign env tenant plan source w).1.quota ≡ w.quota
  unfolding assign assign_plan
  assign-throws tenant plan source w x e = ground arith

  -- What a sync that throws leaves: the mirror and the customers as they were, and the plans too,
  -- unless it was the save of the mirror that threw, after the plan of the tenant was assigned.
  pub record HalfApplied (sub : StripeObject) (x : Exception) (w w' : World B) : Type 0 where
    pub mirror_kept : w'.subscriptions ≡ w.subscriptions
    pub customers_kept : w'.customers ≡ w.customers
    pub plans :
        (w'.quota ≡ w.quota)
        ⊎ ((env.save_error ≡ some x)
            × ((customer : StripeCustomer) × IsCustomer sub w customer
                × ((plan : String) × Holds plan "stripe" (plan_row customer.tenant_id w'))))

  apply_sync-HalfApplied :
      (customer : StripeCustomer) (existing : Option StripeSubscription) (sub : StripeObject)
      (created : ℕ) (chosen : String × List Event) (w : World B) (x : Exception)
      → IsCustomer sub w customer
      → (apply_sync env customer existing sub created chosen w).0 ≡ throw x
      → HalfApplied sub x w (apply_sync env customer existing sub created chosen w).1
  unfolding apply_sync assign
  apply_sync-HalfApplied customer existing sub created (plan, reports) w x named e =
      let told = report (reports ++ existing_warning existing (get_or sub.status "")) w in
      elim (Result-cases (assign env customer.tenant_id plan "stripe" told).0) [
        | inl (y, thrown) ↦
            rw (apply_sync, thrown)
              (record {
                mirror_kept = refl;
                customers_kept = refl;
                plans = inl (assign-throws customer.tenant_id plan "stripe" told y thrown);
              })
        | inr (done, assigned) ↦ elim (Option-cases env.save_error) [
          | inl saves ↦ absurd (cc (rw (apply_sync, assigned, saves) at e))
          | inr (y, failing) ↦
              let held = assign-Holds customer.tenant_id plan "stripe" told assigned in
              let w' = (assign env customer.tenant_id plan "stripe" told).1 in
              let left : apply_sync env customer existing sub created (plan, reports) w
                  ≡ (throw y, w') =
                rw (apply_sync, assigned, failing) refl in
              let same : some y ≡ some x = cc (rw left at e) in
              rw left (record {
                mirror_kept = refl;
                customers_kept = refl;
                plans = inr (failing ∙ same, (customer, named, (plan, held)));
              })
        ]
      ]

  guard_stale-HalfApplied :
      (cfg : BillingConfig) (customer : StripeCustomer) (sub : StripeObject) (created : ℕ)
      (downgrade : Bool) (w : World B) (x : Exception)
      → IsCustomer sub w customer
      → (guard_stale env cfg customer (subscription_of sub w) sub created downgrade w).0 ≡ throw x
      → HalfApplied sub x w
          (guard_stale env cfg customer (subscription_of sub w) sub created downgrade w).1
  unfolding guard_stale
  guard_stale-HalfApplied cfg customer sub created downgrade w x named e =
      elim (Bool-cases (is_stale (subscription_of sub w) created)) [
        | inl stale ↦ absurd (cc (rw (guard_stale, stale) at e))
        | inr ordered ↦
            rw (guard_stale, ordered)
              (apply_sync-HalfApplied customer (subscription_of sub w) sub created
                (if downgrade
                  then (cfg.default_plan, [])
                  else resolve_plan cfg sub.id (first_item sub.items))
                w x named (rw (guard_stale, ordered) at e))
      ]

  -- A sync that throws leaves the mirror and the customers as they were. It leaves every plan as it
  -- was too, unless it is the save of the mirror that threw: then the tenant of the subscription's
  -- customer already holds a plan from Stripe. The deletion of a cache entry is taken not to fail.
  pub sync_subscription-HalfApplied :
      (sub : StripeObject) (created : ℕ) (downgrade : Bool) (w : World B) (x : Exception)
      → (sync_subscription env sub created downgrade w).0 ≡ throw x
      → HalfApplied sub x w (sync_subscription env sub created downgrade w).1
  sync_subscription-HalfApplied sub created downgrade w x e =
      elim (sync-cases sub created downgrade w) [
        | inl (y, thrown) ↦
            rw thrown (record { mirror_kept = refl; customers_kept = refl; plans = inl refl })
        | inr (cfg, customer, reached) ↦ rw (reached.1) (
            guard_stale-HalfApplied cfg customer sub created downgrade w x reached.0
              (rw (reached.1) at e))
      ]

  -- A sync that is applied is not out of order. It writes the row of the subscription and no other
  -- row of the mirror; the row has the tenant, the plan and the time of the event, and the plan
  -- is the one that the quota service then holds for that tenant.
  pub sync_subscription-Applied :
      (sub : StripeObject) (created : ℕ) (downgrade : Bool) (w : World B) (r : SyncResult)
      → (sync_subscription env sub created downgrade w).0 ≡ ok (some r)
      → Applied sub created r w (sync_subscription env sub created downgrade w).1
  unfolding sync_subscription
  sync_subscription-Applied sub created downgrade w r e =
      elim (sync-cases sub created downgrade w) [
        | inl (x, thrown) ↦ absurd (cc (rw thrown at e))
        | inr (cfg, customer, reached) ↦
            rw (reached.1)
              (guard_stale-Applied cfg customer sub created downgrade w r (rw (reached.1) at e))
      ]

  -- The tolerance is measured from the last event applied, not from the newest one seen: after an
  -- event five seconds late is applied, one ten seconds late, too old before, is not stale.
  pub sync_subscription-walks_back :
      (sub : StripeObject) (t : ℕ) (row : StripeSubscription) (w : World B) (r : SyncResult)
      → subscription_of sub w ≡ some row
      → row.last_event_at ≡ t + 10
      → (sync_subscription env sub (t + 5) false w).0 ≡ ok (some r)
      → let w' = (sync_subscription env sub (t + 5) false w).1 in
        (IsOlder t (subscription_of sub w)) × ((sync_subscription env sub t false w').0 ≢ ok none)
  sync_subscription-walks_back sub t row w r there last e =
      let w' = (sync_subscription env sub (t + 5) false w).1 in
      let applied = sync_subscription-Applied sub (t + 5) false w r e in
      (
        ground arith,
        λ stale.
            Mirrors-not_older r t (subscription_of sub w') applied.mirrored
              (sync_subscription-stale sub t false w' stale).0,
      )
