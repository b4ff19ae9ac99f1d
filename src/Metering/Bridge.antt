-- ===== src/Metering/Bridge.antt =====
-- src/listeners/usage_auto_bridge_listener.ts: tracked usage that is gathered and sent in batches.
use adonisjs_lasagna_saas_te.Prelude.{
  ℕ, ◌+◌, String, Bool, Option, none, some, List, [], ◌∷◌, ◌++◌, str_append, str_eq, if◌then◌else◌,
  lookup, ◌==◌, remove_entry, remove_name,
}

-- What is pending for a tenant and a meter; also the payload of `ReportUsageBatchJob`.
pub record Bucket : Type 0 where
  pub tenant_id : String
  pub meter_event_name : String
  pub quantity : ℕ

-- The two maps, the jobs that were dispatched, and the buckets of failed dispatches, which are
-- logged and dropped.
pub record Bridge : Type 0 where
  pub pending : List (String × Bucket)
  pub timers : List String
  pub jobs : List Bucket
  pub dropped : List Bucket

abbrev pub no_usage : Bridge
no_usage = record { pending = []; timers = []; jobs = []; dropped = [] }

unfoldable pub bucket_key : String → String → String
bucket_key tenant_id event_name = str_append tenant_id (str_append "::" event_name)

-- `existing.quantity += amount`
unfoldable pub add_amount : String → ℕ → List (String × Bucket) → List (String × Bucket)
add_amount key amount [] = []
add_amount key amount ((k, b) ∷ pending) =
    let rest = (k, b) ∷ add_amount key amount pending in
    if str_eq k key then (k, record b { quantity = b.quantity + amount }) ∷ pending else rest

abbrev pub open_bucket : String → String → String → ℕ → Bridge → Bridge
open_bucket key tenant_id event_name amount s = record s {
  pending =
      s.pending
      ++ ((key, record { tenant_id = tenant_id; meter_event_name = event_name; quantity = amount })
          ∷ []);
  timers = s.timers ++ (key ∷ []);
}

abbrev pub track_in : Option Bucket → String → String → String → ℕ → Bridge → Bridge
track_in (some existing) key tenant_id event_name amount s = record s {
  pending = add_amount key amount s.pending;
}
track_in none key tenant_id event_name amount s = open_bucket key tenant_id event_name amount s

-- `handle`, for the meter that the quota is mapped to
unfoldable pub handle_tracked : List (String × String) → String → String → ℕ → Bridge → Bridge
unfolding lookup bucket_key add_amount
handle_tracked usage_mapping tenant_id quota amount s = elim (lookup quota usage_mapping) [
  | none ↦ s
  | some event_name ↦
      let key = bucket_key tenant_id event_name in
      track_in (lookup key s.pending) key tenant_id event_name amount s
]

-- The dispatch of a bucket that was taken out; `accepts` says that the queue takes it.
abbrev pub dispatch_bucket : Bool → Bucket → Bridge → Bridge
dispatch_bucket accepts bucket s =
    if bucket.quantity == 0
    then s
    else if accepts
    then record s { jobs = s.jobs ++ (bucket ∷ []) }
    else record s { dropped = s.dropped ++ (bucket ∷ []) }

abbrev flush_bucket : Bool → String → Option Bucket → Bridge → Bridge
flush_bucket accepts key none s = s
flush_bucket accepts key (some bucket) s =
    dispatch_bucket accepts bucket
      (record s { pending = remove_entry key s.pending; timers = remove_name key s.timers })

unfoldable pub flush : Bool → String → Bridge → Bridge
unfolding lookup remove_entry remove_name
flush accepts key s = flush_bucket accepts key (lookup key s.pending) s

unfoldable pub flush_each : Bool → List String → Bridge → Bridge
unfolding flush
flush_each accepts [] s = s
flush_each accepts (key ∷ keys) s = flush_each accepts keys (flush accepts key s)

abbrev pub keys_of : List (String × Bucket) → List String
keys_of [] = []
keys_of ((k, b) ∷ pending) = k ∷ keys_of pending

-- `drainAll`
unfoldable pub drain_all : Bool → Bridge → Bridge
unfolding flush_each
drain_all accepts s = flush_each accepts (keys_of s.pending) s

-- What happens to the listener: an event, a timer that fires, and the drain of a shutdown.
pub data Step : Type 0 where
  tracked : (tenant_id quota : String) (amount : ℕ) → Step
  fired : (accepts : Bool) (key : String) → Step
  drained : (accepts : Bool) → Step

unfoldable pub step : List (String × String) → Step → Bridge → Bridge
unfolding handle_tracked flush drain_all
step usage_mapping (tracked tenant_id quota amount) s =
    handle_tracked usage_mapping tenant_id quota amount s
step usage_mapping (fired accepts key) s = flush accepts key s
step usage_mapping (drained accepts) s = drain_all accepts s

unfoldable pub run : List (String × String) → List Step → Bridge → Bridge
unfolding step
run usage_mapping [] s = s
run usage_mapping (t ∷ ts) s = run usage_mapping ts (step usage_mapping t s)
