-- ===== src/Hooks/Phases.antt =====
-- The runs of src/services/hook_registry.ts, and the effect of a registration on them.
use adonisjs_lasagna_saas_te.Prelude.{
  ◌≡◌, ◌∙◌, refl, String, false, some, List, [], ◌∷◌, ◌++◌, str_eq, lookup, inl, inr, Option-cases,
  if◌then◌else◌, arith, eq_refl, eq_iff, get_or,
}
use adonisjs_lasagna_saas_te.Exceptions.{Exception, Result, ok, throw, M, ◌>>◌, continue}
use adonisjs_lasagna_saas_te.Hooks.{
  TenantLifecyclePhase, before, after, TenantLifecycleEvent, TenantLifecycleHook, HookRegistry,
  hook_key, push_at, register, after_hook, run_hooks, run,
}

-- What is under a key after one more value was pushed under another, or the same.
lookup-push_at :
    {V : Type 0} (j k : String) (v : V) (m : List (String × List V))
    → lookup j (push_at k v m)
      ≡ (if str_eq k j then some (get_or (lookup j m) [] ++ v ∷ []) else lookup j m)
unfolding lookup push_at
lookup-push_at j k v [] = ground arith
lookup-push_at j k v ((i, vs) ∷ m) =
    ground (arith, lookup-push_at j k v m, eq_iff i k, eq_iff i j, eq_iff k j)

-- The state after one hook, its error logged.
unfoldable pub logged :
    {W : Type 0}
    → (TenantLifecycleEvent → Exception → W → W)
    → TenantLifecycleEvent
    → Result (Unit {0}) × W
    → W
logged log event (ok _, w) = w
logged log event (throw e, w) = log event e w

after_hook-logged :
    {W : Type 0} (log : TenantLifecycleEvent → Exception → W → W) (event : TenantLifecycleEvent)
    (next : M W (Unit {0})) (r : Result (Unit {0}) × W)
    → after_hook log after event next r ≡ next (logged log event r)
unfolding after_hook logged
after_hook-logged log event next (ok _, w) = refl
after_hook-logged log event next (throw e, w) = refl

module _ {C W : Type 0} (log : TenantLifecycleEvent → Exception → W → W) where
  -- Each hook after the other, an error of one logged and the next run all the same.
  unfoldable pub each_logged : TenantLifecycleEvent → List (TenantLifecycleHook C W) → C → W → W
  unfolding logged
  each_logged event [] ctx w = w
  each_logged event (hook ∷ rest) ctx w = each_logged event rest ctx (logged log event (hook ctx w))

  abbrev pub hooks_of :
      TenantLifecyclePhase
      → TenantLifecycleEvent
      → HookRegistry C W
      → List (TenantLifecycleHook C W)
  hooks_of phase event reg = get_or (lookup (hook_key phase event) reg) []

  run_hooks-after :
      (event : TenantLifecycleEvent) (hooks : List (TenantLifecycleHook C W)) (ctx : C) (w : W)
      → run_hooks log after event hooks ctx w ≡ (ok tt, each_logged event hooks ctx w)
  unfolding run_hooks each_logged
  run_hooks-after event [] ctx w = refl
  run_hooks-after event (hook ∷ rest) ctx w =
      after_hook-logged log event (run_hooks log after event rest ctx) (hook ctx w)
      ∙ run_hooks-after event rest ctx (logged log event (hook ctx w))

  -- The hooks after an event never make it fail: each is run in the order of registration, and an
  -- error of one is logged and does not keep the others from running.
  pub run-after :
      (event : TenantLifecycleEvent) (ctx : C) (reg : HookRegistry C W) (w : W)
      → run log after event ctx reg w ≡ (ok tt, each_logged event (hooks_of after event reg) ctx w)
  unfolding run each_logged
  run-after event ctx reg w = elim (Option-cases (lookup (hook_key after event) reg)) [
    | inl missing ↦ rw (missing, run) refl
    | inr (hooks, there) ↦ rw (there, run) (run_hooks-after event hooks ctx w)
  ]

  run_hooks-append :
      (event : TenantLifecycleEvent) (hooks : List (TenantLifecycleHook C W))
      (hook : TenantLifecycleHook C W) (ctx : C) (w : W)
      → run_hooks log before event (hooks ++ hook ∷ []) ctx w
        ≡ (run_hooks log before event hooks ctx >> hook ctx) w
  unfolding run_hooks after_hook
  run_hooks-append event [] hook ctx w = last (hook ctx w)
    where
      last :
          (r : Result (Unit {0}) × W)
          → after_hook log before event (run_hooks log before event [] ctx) r ≡ r
      last (ok _, w) = refl
      last (throw e, w) = refl
  run_hooks-append event (first ∷ rest) hook ctx w =
      step (run_hooks-append event rest hook ctx) (first ctx w)
    where
      step :
          ((w : W)
            → run_hooks log before event (rest ++ hook ∷ []) ctx w
              ≡ (run_hooks log before event rest ctx >> hook ctx) w)
          → (r : Result (Unit {0}) × W)
          → after_hook log before event (run_hooks log before event (rest ++ hook ∷ []) ctx) r
            ≡ continue
                (after_hook log before event (run_hooks log before event rest ctx) r)
                (λ _. hook ctx)
      step ih (ok _, w) = ih w
      step ih (throw e, w) = refl

  -- A hook registered before an event runs last of the hooks before it, and only where none of
  -- them throws; an error of one ends the phase. The hooks under any other key stay as they are.
  pub run-register :
      (event : TenantLifecycleEvent) (hook : TenantLifecycleHook C W) (ctx : C)
      (reg : HookRegistry C W) (w : W) (phase : TenantLifecyclePhase) (other : TenantLifecycleEvent)
      → str_eq (hook_key before event) (hook_key phase other) ≡ false
      → (run log before event ctx (register before event hook reg) w
          ≡ (run log before event ctx reg >> hook ctx) w)
        × (run log phase other ctx (register before event hook reg) w
            ≡ run log phase other ctx reg w)
  unfolding run register
  run-register event hook ctx reg w phase other apart = (same, elsewhere)
    where
      key : String
      key = hook_key before event

      push :
          (hooks : List (TenantLifecycleHook C W))
          → hooks_of before event reg ≡ hooks
          → lookup key (push_at key hook reg) ≡ some (hooks ++ hook ∷ [])
      push hooks e = ground (arith, lookup-push_at key key hook reg, eq_refl key)

      same :
          run log before event ctx (register before event hook reg) w
          ≡ (run log before event ctx reg >> hook ctx) w
      same = elim (Option-cases (lookup key reg)) [
        | inl missing ↦
            rw (push [] (rw missing refl), missing, run) (run_hooks-append event [] hook ctx w)
        | inr (hooks, there) ↦
            rw (push hooks (rw there refl), there, run) (run_hooks-append event hooks hook ctx w)
      ]

      elsewhere :
          run log phase other ctx (register before event hook reg) w ≡ run log phase other ctx reg w
      elsewhere = ground (arith, lookup-push_at (hook_key phase other) key hook reg)
