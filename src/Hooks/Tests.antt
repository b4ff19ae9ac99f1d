-- ===== src/Hooks/Tests.antt =====
-- Hooks that log what they do.
use adonisjs_lasagna_saas_te.Prelude.{
  ◌≡◌, refl, String, Bool, true, false, some, List, [], ◌∷◌, ◌++◌, lookup, if◌then◌else◌,
}
use adonisjs_lasagna_saas_te.Exceptions.{Exception, ok, throw, error}
use adonisjs_lasagna_saas_te.Hooks.{
  TenantLifecycleEvent, TenantLifecycleHook, HookRegistry, after, provision, run, load_declarative,
  push_at,
}

abbrev step : String → Bool → TenantLifecycleHook (Unit {0}) (List String)
step line fails ctx w = (if fails then throw (error line) else ok tt, w ++ line ∷ [])

abbrev log : TenantLifecycleEvent → Exception → List String → List String
log event e w = w ++ "logged" ∷ []

abbrev hooks : List (TenantLifecycleHook (Unit {0}) (List String))
hooks = step "audit" true ∷ step "mail" false ∷ []

abbrev registry : HookRegistry (Unit {0}) (List String)
registry = ("after:provision", hooks) ∷ ("before:provision", step "quota" false ∷ []) ∷ []

-- A failing hook after the event is logged, and the next one runs.
run_logged : run log after provision tt registry [] ≡ (ok tt, "audit" ∷ "logged" ∷ "mail" ∷ [])
unfolding run lookup
run_logged = refl

-- The hooks of the configuration go to the key of their phase and event.
load_declarative_before :
    load_declarative (some (("beforeDestroy", step "stop" true) ∷ [])) registry
    ≡ registry ++ ("before:destroy", step "stop" true ∷ []) ∷ []
unfolding load_declarative push_at lookup
load_declarative_before = refl
