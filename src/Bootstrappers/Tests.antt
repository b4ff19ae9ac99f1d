-- ===== src/Bootstrappers/Tests.antt =====
-- A registry of three bootstrappers that log what they do, the second of which cannot be entered.
use adonisjs_lasagna_saas_te.Prelude.{
  ◌≡◌, refl, String, Bool, true, false, some, List, [], ◌∷◌, ◌++◌, lookup, if◌then◌else◌,
}
use adonisjs_lasagna_saas_te.Exceptions.{Exception, ok, throw, error, M}
use adonisjs_lasagna_saas_te.Bootstrappers.{
  TenantBootstrapper, BootstrapperRegistry, run_scoped, run_leave_up_to,
}
use adonisjs_lasagna_saas_te.Bootstrappers.Scope.{IsWellFormed, bracketed, run_scoped-bracketed}
use adonisjs_lasagna_saas_te.Bootstrappers.Registration.{add, remove, Change}

-- The log is the list of what ran.
abbrev Log : Type 0
Log = List String

abbrev step : String → Bool → M Log (Unit {0})
step line fails w = (if fails then throw (error line) else ok tt, w ++ line ∷ [])

abbrev logs : String → Bool → TenantBootstrapper Log
logs name fails = record { name = name; enter = step name fails; leave = some (step "left" false) }

abbrev empty : BootstrapperRegistry Log
empty = record { items = []; order = [] }

abbrev changes : List (Change Log)
changes =
    add (logs "log" false)
    ∷ add (logs "x" false)
    ∷ add (logs "log" true)
    ∷ remove "x"
    ∷ add (logs "cache" true)
    ∷ []

abbrev registry : BootstrapperRegistry Log
registry = record {
  items = ("log", logs "log" false) ∷ ("cache", logs "cache" true) ∷ [];
  order = "log" ∷ "cache" ∷ [];
}

empty-IsWellFormed : IsWellFormed empty
empty-IsWellFormed = (refl, tt)

registry-IsWellFormed : IsWellFormed registry
registry-IsWellFormed = (refl, ((refl, tt), (tt, tt)))

abbrev no_log : String → Exception → Log → Log
no_log name e w = w ++ name ∷ []

-- The second bootstrapper fails: the body does not run, and only the first is left.
run_scoped_log :
    run_scoped no_log registry (step "body" false) []
    ≡ (throw (error "cache"), "log" ∷ "cache" ∷ "left" ∷ [])
unfolding run_scoped run_leave_up_to lookup
run_scoped_log = refl

run_scoped-bracketed_example :
    run_scoped no_log registry (step "body" false) []
    ≡ bracketed no_log registry.items (step "body" false) []
run_scoped-bracketed_example =
    run_scoped-bracketed no_log registry (step "body" false) [] registry-IsWellFormed
