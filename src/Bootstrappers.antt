-- ===== src/Bootstrappers.antt =====
-- src/services/bootstrapper_registry.ts: the bootstrappers that activate a tenant's context.
pub mod Scope
pub mod Registration
pub mod Tests
use adonisjs_lasagna_saas_te.Prelude.{
  ℕ, zero, suc, String, Bool, true, false, Option, none, some, List, [], ◌∷◌, ◌++◌, str_eq, length,
  get_elem?, lookup, is_some, if◌then◌else◌,
}
use adonisjs_lasagna_saas_te.Exceptions.{Exception, error, Result, ok, throw, M}

-- A bootstrapper, on the state `W` of the process; the context of the call is fixed.
pub record TenantBootstrapper (W : Type 0) : Type 0 where
  pub name : String
  pub enter : M W (Unit {0})
  pub leave : Option (M W (Unit {0}))

-- `#items`, a map that keeps the order of insertion, and `#order`
pub record BootstrapperRegistry (W : Type 0) : Type 0 where
  pub items : List (String × TenantBootstrapper W)
  pub order : List String

-- `Map.delete`, and `splice` at `indexOf`
unfoldable pub delete : {V : Type 0} → String → List (String × V) → List (String × V)
delete name [] = []
delete name ((k, v) ∷ rest) =
    let others = delete name rest in if str_eq name k then rest else (k, v) ∷ others

unfoldable pub splice : String → List String → List String
splice name [] = []
splice name (k ∷ rest) = let others = splice name rest in if str_eq name k then rest else k ∷ others

module _ {W : Type 0} where
  abbrev pub has : String → BootstrapperRegistry W → Bool
  has name reg = is_some (lookup name reg.items)

  -- `register`: a name is registered once.
  unfoldable pub register : TenantBootstrapper W → M (BootstrapperRegistry W) (Unit {0})
  register b reg =
      if has b.name reg then (throw (error "bootstrapper already registered"), reg) else (
        ok tt,
        record { items = reg.items ++ (b.name, b) ∷ []; order = reg.order ++ b.name ∷ [] },
      )

  unfoldable pub unregister : String → BootstrapperRegistry W → Bool × BootstrapperRegistry W
  unregister name reg =
      if has name reg
      then (true, record { items = delete name reg.items; order = splice name reg.order })
      else (false, reg)

  abbrev pub clear : BootstrapperRegistry W → BootstrapperRegistry W
  clear reg = record { items = []; order = [] }

  -- `runEnter`, from the first name on
  unfoldable pub enter_next : M W (Unit {0}) → Result (Unit {0}) × W → Result (Unit {0}) × W
  enter_next next (ok _, w) = next w
  enter_next next (throw e, w) = (throw e, w)

  unfoldable pub enter_names : BootstrapperRegistry W → List String → M W (Unit {0})
  unfolding enter_next
  enter_names reg [] w = (ok tt, w)
  enter_names reg (name ∷ rest) w = elim (lookup name reg.items) [
    | none ↦ enter_names reg rest w
    | some b ↦ enter_next (enter_names reg rest) (b.enter w)
  ]

  unfoldable pub run_enter : BootstrapperRegistry W → M W (Unit {0})
  unfolding enter_names
  run_enter reg = enter_names reg reg.order

  -- `leave`, and the log line where it fails
  module _ (log_leave_failure : String → Exception → W → W) where
    unfoldable pub after_leave : String → Result (Unit {0}) × W → W
    after_leave name (ok _, w) = w
    after_leave name (throw e, w) = log_leave_failure name e w

    unfoldable pub leave_one : TenantBootstrapper W → String → W → W
    unfolding after_leave
    leave_one b name w = elim b.leave [ none ↦ w | some f ↦ after_leave name (f w) ]

  module _ (log_leave_failure : String → Exception → W → W) (reg : BootstrapperRegistry W) where
    unfoldable pub leave_at : Option String → W → W
    unfolding leave_one
    leave_at none w = w
    leave_at (some name) w = elim (lookup name reg.items) [
      | none ↦ w
      | some b ↦ leave_one log_leave_failure b name w
    ]

    -- `#runLeaveUpTo`, from the last index down to 0; an index past the end names nothing.
    unfoldable pub run_leave_up_to : ℕ → W → W
    unfolding leave_at
    run_leave_up_to zero w = w
    run_leave_up_to (suc i) w = run_leave_up_to i (leave_at (get_elem? reg.order i) w)

    unfoldable pub run_leave : W → W
    run_leave w = run_leave_up_to (length reg.order) w

    -- The `try` of `runScoped` from the bootstrapper after `completed` others, and its `finally`.
    abbrev pub finally_leave : {A : Type 0} → ℕ → Result A × W → Result A × W
    finally_leave completed (r, w) = (r, run_leave_up_to completed w)

    unfoldable pub enter_then : {A : Type 0} → M W A → ℕ → Result (Unit {0}) × W → Result A × W
    enter_then next completed (ok _, w) = next w
    enter_then next completed (throw e, w) = (throw e, run_leave_up_to completed w)

    unfoldable pub scope_from : {A : Type 0} → M W A → List String → ℕ → M W A
    unfolding enter_then
    scope_from fn [] completed w = finally_leave completed (fn w)
    scope_from fn (name ∷ rest) completed w = elim (lookup name reg.items) [
      | none ↦ scope_from fn rest completed w
      | some b ↦ enter_then (scope_from fn rest (suc completed)) completed (b.enter w)
    ]

    unfoldable pub run_scoped : {A : Type 0} → M W A → M W A
    unfolding scope_from
    run_scoped fn = scope_from fn reg.order 0
