-- ===== src/Hooks.antt =====
-- src/services/hook_registry.ts: what runs before and after the phases of a tenant's life.
pub mod Phases
pub mod Tests
use adonisjs_lasagna_saas_te.Prelude.{
  String, Option, none, some, List, [], ◌∷◌, ◌++◌, str_append, str_eq, lookup, if◌then◌else◌,
}
use adonisjs_lasagna_saas_te.Exceptions.{Exception, Result, ok, throw, M}

pub data TenantLifecyclePhase : Type 0 where
  before after : TenantLifecyclePhase

pub data TenantLifecycleEvent : Type 0 where
  provision destroy backup restore clone migrate : TenantLifecycleEvent

-- A hook, on the context of the event and the state of the process.
abbrev pub TenantLifecycleHook : Type 0 → Type 0 → Type 0
TenantLifecycleHook C W = C → M W (Unit {0})

abbrev pub phase_name : TenantLifecyclePhase → String
phase_name before = "before"
phase_name after = "after"

abbrev pub event_name : TenantLifecycleEvent → String
event_name provision = "provision"
event_name destroy = "destroy"
event_name backup = "backup"
event_name restore = "restore"
event_name clone = "clone"
event_name migrate = "migrate"

-- `event[0].toUpperCase() + event.slice(1)`
abbrev pub capitalized : TenantLifecycleEvent → String
capitalized provision = "Provision"
capitalized destroy = "Destroy"
capitalized backup = "Backup"
capitalized restore = "Restore"
capitalized clone = "Clone"
capitalized migrate = "Migrate"

abbrev pub hook_key : TenantLifecyclePhase → TenantLifecycleEvent → String
hook_key phase event = str_append (phase_name phase) (str_append ":" (event_name event))

abbrev pub declarative_key : TenantLifecyclePhase → TenantLifecycleEvent → String
declarative_key phase event = str_append (phase_name phase) (capitalized event)

-- `PHASE_EVENTS`
abbrev pub phase_events : List (TenantLifecyclePhase × TenantLifecycleEvent)
phase_events =
    (before, provision)
    ∷ (after, provision)
    ∷ (before, destroy)
    ∷ (after, destroy)
    ∷ (before, backup)
    ∷ (after, backup)
    ∷ (before, restore)
    ∷ (after, restore)
    ∷ (before, clone)
    ∷ (after, clone)
    ∷ (before, migrate)
    ∷ (after, migrate)
    ∷ []

-- `Map.set`, or `push` on the list that is there
unfoldable pub push_at : {V : Type 0} → String → V → List (String × List V) → List (String × List V)
push_at key v [] = (key, v ∷ []) ∷ []
push_at key v ((k, vs) ∷ rest) =
    let others = push_at key v rest in
    if str_eq k key then (k, vs ++ v ∷ []) ∷ rest else (k, vs) ∷ others

-- `#hooks`
abbrev pub HookRegistry : Type 0 → Type 0 → Type 0
HookRegistry C W = List (String × List (TenantLifecycleHook C W))

-- The `try` of one hook: an error before the phase ends the loop, one after it is logged.
unfoldable pub after_hook :
    {W : Type 0}
    → (TenantLifecycleEvent → Exception → W → W)
    → TenantLifecyclePhase
    → TenantLifecycleEvent
    → M W (Unit {0})
    → Result (Unit {0}) × W
    → Result (Unit {0}) × W
after_hook log phase event next (ok _, w) = next w
after_hook log before event next (throw e, w) = (throw e, w)
after_hook log after event next (throw e, w) = next (log event e w)

module _ {C W : Type 0} where
  unfoldable pub register :
      TenantLifecyclePhase
      → TenantLifecycleEvent
      → TenantLifecycleHook C W
      → HookRegistry C W
      → HookRegistry C W
  register phase event hook reg = push_at (hook_key phase event) hook reg

  -- `loadDeclarative`, for the object of the configuration.
  register_declared :
      List (TenantLifecyclePhase × TenantLifecycleEvent)
      → List (String × TenantLifecycleHook C W)
      → HookRegistry C W
      → HookRegistry C W
  unfolding register
  register_declared [] hooks reg = reg
  register_declared ((phase, event) ∷ rest) hooks reg =
      elim (lookup (declarative_key phase event) hooks) [
        | none ↦ register_declared rest hooks reg
        | some hook ↦ register_declared rest hooks (register phase event hook reg)
      ]

  unfoldable pub load_declarative :
      Option (List (String × TenantLifecycleHook C W)) → HookRegistry C W → HookRegistry C W
  unfolding register_declared
  load_declarative none reg = reg
  load_declarative (some hooks) reg = register_declared phase_events hooks reg

  module _ (log_after_failure : TenantLifecycleEvent → Exception → W → W) where
    unfoldable pub run_hooks :
        TenantLifecyclePhase
        → TenantLifecycleEvent
        → List (TenantLifecycleHook C W)
        → C
        → M W (Unit {0})
    unfolding after_hook
    run_hooks phase event [] ctx w = (ok tt, w)
    run_hooks phase event (hook ∷ rest) ctx w =
        after_hook log_after_failure phase event (run_hooks phase event rest ctx) (hook ctx w)

    unfoldable pub run :
        TenantLifecyclePhase → TenantLifecycleEvent → C → HookRegistry C W → M W (Unit {0})
    unfolding run_hooks
    run phase event ctx reg w = elim (lookup (hook_key phase event) reg) [
      | none ↦ (ok tt, w)
      | some hooks ↦ run_hooks phase event hooks ctx w
    ]
