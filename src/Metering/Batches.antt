-- ===== src/Metering/Batches.antt =====
-- What becomes of the usage that src/listeners/usage_auto_bridge_listener.ts gathers.
use adonisjs_lasagna_saas_te.Prelude.{
  ℕ, ◌+◌, ◌≡◌, refl, sym, ap, ◌∙◌, inl, inr, String, Bool, none, some, List, [], ◌∷◌, ◌++◌, str_eq,
  if◌then◌else◌, lookup, arith, Bool-cases, Option-cases, eq_iff, All, All-append, subst, get_or,
  remove_entry, remove_name,
}
use adonisjs_lasagna_saas_te.Metering.Bridge.{
  Bucket, Bridge, no_usage, bucket_key, add_amount, open_bucket, track_in, handle_tracked,
  dispatch_bucket, flush, flush_each, keys_of, drain_all, Step, tracked, fired, drained, step, run,
}

-- What a bucket has for the key `k`.
abbrev of_key : String → Bucket → ℕ
of_key k b = if str_eq (bucket_key b.tenant_id b.meter_event_name) k then b.quantity else 0

abbrev pub sum_of : String → List Bucket → ℕ
sum_of k [] = 0
sum_of k (b ∷ bs) = of_key k b + sum_of k bs

abbrev pub pending_of : String → List (String × Bucket) → ℕ
pending_of k [] = 0
pending_of k ((j, b) ∷ bs) = (if str_eq j k then b.quantity else 0) + pending_of k bs

-- The usage of a key that is pending, in jobs, or dropped.
abbrev pub held : String → Bridge → ℕ
held k s = pending_of k s.pending + sum_of k s.jobs + sum_of k s.dropped

-- The usage of a key that the steps track.
abbrev pub amount_of : List (String × String) → String → Step → ℕ
amount_of usage_mapping k (tracked tenant_id quota amount) = elim (lookup quota usage_mapping) [
  | none ↦ 0
  | some event_name ↦ if str_eq (bucket_key tenant_id event_name) k then amount else 0
]
amount_of usage_mapping k _ = 0

abbrev pub amounts_of : List (String × String) → String → List Step → ℕ
amounts_of usage_mapping k [] = 0
amounts_of usage_mapping k (t ∷ ts) = amount_of usage_mapping k t + amounts_of usage_mapping k ts

abbrev IsKeyed : String × Bucket → Type 0
IsKeyed e = bucket_key e.1.tenant_id e.1.meter_event_name ≡ e.0

-- Every bucket stands under its own key, and has a timer.
pub record IsWellFormed (s : Bridge) : Type 0 where
  pub keyed : All IsKeyed s.pending
  pub timed : keys_of s.pending ≡ s.timers

sum_of-append : (k : String) (xs ys : List Bucket) → sum_of k (xs ++ ys) ≡ sum_of k xs + sum_of k ys
sum_of-append k [] ys = omega arith
sum_of-append k (x ∷ xs) ys = omega (arith, sum_of-append k xs ys)

pending_of-append :
    (k : String) (xs ys : List (String × Bucket))
    → pending_of k (xs ++ ys) ≡ pending_of k xs + pending_of k ys
pending_of-append k [] ys = omega arith
pending_of-append k (x ∷ xs) ys = omega (arith, pending_of-append k xs ys)

keys_of-append : (xs ys : List (String × Bucket)) → keys_of (xs ++ ys) ≡ keys_of xs ++ keys_of ys
keys_of-append [] ys = refl
keys_of-append (x ∷ xs) ys = ap (λ ks. x.0 ∷ ks) (keys_of-append xs ys)

pending_of-add_amount :
    (k key : String) (amount : ℕ) (m : List (String × Bucket)) (b : Bucket)
    → lookup key m ≡ some b
    → pending_of k (add_amount key amount m) ≡ pending_of k m + (if str_eq key k then amount else 0)
unfolding add_amount lookup
pending_of-add_amount k key amount [] b e = absurd (cc e)
pending_of-add_amount k key amount ((j, c) ∷ m) b e = elim (Bool-cases (str_eq j key)) [
  | inl hit ↦ rw (hit, (eq_iff j key).0 hit) (ground arith)
  | inr miss ↦
      rw miss
        (let rest = pending_of-add_amount k key amount m b (rw miss at e) in omega (arith, rest))
]

keys_of-add_amount :
    (key : String) (amount : ℕ) (m : List (String × Bucket))
    → keys_of (add_amount key amount m) ≡ keys_of m
unfolding add_amount
keys_of-add_amount key amount [] = refl
keys_of-add_amount key amount ((j, c) ∷ m) = elim (Bool-cases (str_eq j key)) [
  | inl hit ↦ rw hit refl
  | inr miss ↦ rw miss (ap (λ ks. j ∷ ks) (keys_of-add_amount key amount m))
]

IsKeyed-add_amount :
    (key : String) (amount : ℕ) (m : List (String × Bucket))
    → All IsKeyed m
    → All IsKeyed (add_amount key amount m)
unfolding add_amount
IsKeyed-add_amount key amount [] h = h
IsKeyed-add_amount key amount ((j, c) ∷ m) h = elim (Bool-cases (str_eq j key)) [
  | inl hit ↦ rw hit h
  | inr miss ↦ rw miss (h.0, IsKeyed-add_amount key amount m h.1)
]

pending_of-remove_entry :
    (k key : String) (m : List (String × Bucket)) (b : Bucket)
    → lookup key m ≡ some b
    → pending_of k m ≡ pending_of k (remove_entry key m) + (if str_eq key k then b.quantity else 0)
unfolding remove_entry lookup
pending_of-remove_entry k key [] b e = absurd (cc e)
pending_of-remove_entry k key ((j, c) ∷ m) b e = elim (Bool-cases (str_eq j key)) [
  | inl hit ↦
      let same : some c ≡ some b = rw hit at e in
      rw (hit, (eq_iff j key).0 hit) (ground (arith, same))
  | inr miss ↦
      rw miss (let rest = pending_of-remove_entry k key m b (rw miss at e) in omega (arith, rest))
]

keys_of-remove_entry :
    (key : String) (m : List (String × Bucket))
    → keys_of (remove_entry key m) ≡ remove_name key (keys_of m)
unfolding remove_entry remove_name
keys_of-remove_entry key [] = refl
keys_of-remove_entry key ((j, c) ∷ m) = elim (Bool-cases (str_eq j key)) [
  | inl hit ↦ rw hit refl
  | inr miss ↦ rw miss (ap (λ ks. j ∷ ks) (keys_of-remove_entry key m))
]

IsKeyed-remove_entry :
    (key : String) (m : List (String × Bucket)) → All IsKeyed m → All IsKeyed (remove_entry key m)
unfolding remove_entry
IsKeyed-remove_entry key [] h = h
IsKeyed-remove_entry key ((j, c) ∷ m) h = elim (Bool-cases (str_eq j key)) [
  | inl hit ↦ rw hit h.1
  | inr miss ↦ rw miss (h.0, IsKeyed-remove_entry key m h.1)
]

IsKeyed-lookup :
    (key : String) (m : List (String × Bucket)) (b : Bucket)
    → All IsKeyed m
    → lookup key m ≡ some b
    → bucket_key b.tenant_id b.meter_event_name ≡ key
unfolding lookup
IsKeyed-lookup key [] b h e = absurd (cc e)
IsKeyed-lookup key ((j, c) ∷ m) b h e = elim (Bool-cases (str_eq j key)) [
  | inl hit ↦
      let same : some c ≡ some b = rw hit at e in
      subst (λ (x : Bucket). bucket_key x.tenant_id x.meter_event_name ≡ key)
        (ap (λ o. get_or o c) same) (h.0 ∙ (eq_iff j key).0 hit)
  | inr miss ↦ IsKeyed-lookup key m b h.1 (rw miss at e)
]

-- The steps keep a bridge well formed, and hold what they track.
record Holds (k : String) (amount : ℕ) (s s' : Bridge) : Type 0 where
  well_formed : IsWellFormed s'
  holds : held k s' ≡ held k s + amount

opened-Holds :
    (k tenant_id event_name : String) (amount : ℕ) (s : Bridge)
    → IsWellFormed s
    → Holds k
        (if str_eq (bucket_key tenant_id event_name) k then amount else 0)
        s
        (open_bucket (bucket_key tenant_id event_name) tenant_id event_name amount s)
opened-Holds k tenant_id event_name amount s v = record {
  well_formed = record {
    keyed = All-append IsKeyed s.pending _ v.keyed (refl, tt);
    timed =
        keys_of-append s.pending _
        ∙ ap (λ ks. ks ++ (bucket_key tenant_id event_name ∷ [])) v.timed;
  };
  holds = omega (
    arith,
    pending_of-append k s.pending (
        (
          bucket_key tenant_id event_name,
          record { tenant_id = tenant_id; meter_event_name = event_name; quantity = amount },
        )
        ∷ []),
  );
}

added-Holds :
    (k key : String) (amount : ℕ) (s : Bridge) (b : Bucket)
    → IsWellFormed s
    → lookup key s.pending ≡ some b
    → Holds k
        (if str_eq key k then amount else 0)
        s
        (record s { pending = add_amount key amount s.pending })
added-Holds k key amount s b v e = record {
  well_formed = record {
    keyed = IsKeyed-add_amount key amount s.pending v.keyed;
    timed = keys_of-add_amount key amount s.pending ∙ v.timed;
  };
  holds = omega (arith, pending_of-add_amount k key amount s.pending b e);
}

handle_tracked-Holds :
    (k : String) (usage_mapping : List (String × String)) (tenant_id quota : String) (amount : ℕ)
    (s : Bridge)
    → IsWellFormed s
    → Holds k
        (amount_of usage_mapping k (tracked tenant_id quota amount))
        s
        (handle_tracked usage_mapping tenant_id quota amount s)
unfolding handle_tracked
handle_tracked-Holds k usage_mapping tenant_id quota amount s v =
    elim (Option-cases (lookup quota usage_mapping)) [
      | inl e ↦ rw (handle_tracked, amount_of, e) (record { well_formed = v; holds = omega arith })
      | inr (event_name, e) ↦ rw (handle_tracked, amount_of, e) (tracked_in event_name)
    ]
  where
    tracked_in :
        (event_name : String)
        → Holds k (if str_eq (bucket_key tenant_id event_name) k then amount else 0) s (
            track_in
              (lookup (bucket_key tenant_id event_name) s.pending)
              (bucket_key tenant_id event_name)
              tenant_id
              event_name
              amount
              s)
    tracked_in event_name =
        elim (Option-cases (lookup (bucket_key tenant_id event_name) s.pending)) [
          | inl e ↦ rw e (opened-Holds k tenant_id event_name amount s v)
          | inr (b, e) ↦ rw e (added-Holds k (bucket_key tenant_id event_name) amount s b v e)
        ]

-- A bucket that is taken out is in a job, is dropped, or is empty.
dispatched-Holds :
    (accepts : Bool) (k key : String) (b : Bucket) (s : Bridge)
    → bucket_key b.tenant_id b.meter_event_name ≡ key
    → held k (dispatch_bucket accepts b s) ≡ held k s + (if str_eq key k then b.quantity else 0)
dispatched-Holds accepts k key b s e =
    rw (sym e) (ground (arith, sum_of-append k s.jobs (b ∷ []), sum_of-append k s.dropped (b ∷ [])))

dispatched-IsWellFormed :
    (accepts : Bool) (b : Bucket) (s : Bridge)
    → IsWellFormed s
    → IsWellFormed (dispatch_bucket accepts b s)
dispatched-IsWellFormed accepts b s v = ground arith

flush-Holds :
    (accepts : Bool) (k key : String) (s : Bridge)
    → IsWellFormed s
    → Holds k 0 s (flush accepts key s)
unfolding flush
flush-Holds accepts k key s v = elim (Option-cases (lookup key s.pending)) [
  | inl e ↦ rw (flush, e) (record { well_formed = v; holds = omega arith })
  | inr (b, e) ↦
      let taken = record s {
        pending = remove_entry key s.pending;
        timers = remove_name key s.timers;
      } in
      rw (flush, e)
        (record {
          well_formed = dispatched-IsWellFormed accepts b taken (record {
            keyed = IsKeyed-remove_entry key s.pending v.keyed;
            timed = keys_of-remove_entry key s.pending ∙ ap (remove_name key) v.timed;
          });
          holds = omega (
            arith,
            dispatched-Holds accepts k key b taken (IsKeyed-lookup key s.pending b v.keyed e),
            pending_of-remove_entry k key s.pending b e,
          );
        })
]

flush_each-Holds :
    (accepts : Bool) (k : String) (keys : List String) (s : Bridge)
    → IsWellFormed s
    → Holds k 0 s (flush_each accepts keys s)
unfolding flush_each
flush_each-Holds accepts k [] s v = record { well_formed = v; holds = omega arith }
flush_each-Holds accepts k (key ∷ keys) s v =
    let first = flush-Holds accepts k key s v in
    let rest = flush_each-Holds accepts k keys (flush accepts key s) first.well_formed in
    record { well_formed = rest.well_formed; holds = omega (arith, first.holds, rest.holds) }

step-Holds :
    (k : String) (usage_mapping : List (String × String)) (t : Step) (s : Bridge)
    → IsWellFormed s
    → Holds k (amount_of usage_mapping k t) s (step usage_mapping t s)
unfolding step drain_all
step-Holds k usage_mapping (tracked tenant_id quota amount) s v =
    handle_tracked-Holds k usage_mapping tenant_id quota amount s v
step-Holds k usage_mapping (fired accepts key) s v = flush-Holds accepts k key s v
step-Holds k usage_mapping (drained accepts) s v =
    flush_each-Holds accepts k (keys_of s.pending) s v

run-Holds :
    (k : String) (usage_mapping : List (String × String)) (ts : List Step) (s : Bridge)
    → IsWellFormed s
    → Holds k (amounts_of usage_mapping k ts) s (run usage_mapping ts s)
unfolding run
run-Holds k usage_mapping [] s v = record { well_formed = v; holds = omega arith }
run-Holds k usage_mapping (t ∷ ts) s v =
    let first = step-Holds k usage_mapping t s v in
    let rest = run-Holds k usage_mapping ts (step usage_mapping t s) first.well_formed in
    record { well_formed = rest.well_formed; holds = omega (arith, first.holds, rest.holds) }

-- After any events, timers and drains, in any order and whatever the queue accepts, the usage of a
-- tenant and a meter that was tracked is what is pending, in the jobs, or in the buckets whose
-- dispatch failed, and every bucket that is pending has a timer.
pub run-conserves :
    (k : String) (usage_mapping : List (String × String)) (ts : List Step)
    → (held k (run usage_mapping ts no_usage) ≡ amounts_of usage_mapping k ts)
      × (keys_of (run usage_mapping ts no_usage).pending ≡ (run usage_mapping ts no_usage).timers)
run-conserves k usage_mapping ts =
    let h = run-Holds k usage_mapping ts no_usage (record { keyed = tt; timed = refl }) in
    (omega (arith, h.holds), h.well_formed.timed)
