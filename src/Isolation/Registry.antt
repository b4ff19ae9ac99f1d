-- ===== src/Isolation/Registry.antt =====
-- src/services/isolation/registry.ts: the registered drivers and the active one.
use adonisjs_lasagna_saas_te.Prelude.{
  Char, ◌≡◌, refl, ◌∙◌, inl, inr, ◌⊎◌, String, Bool, true, false, not, ◌||◌, Option, none, some,
  List, [], ◌∷◌, if◌then◌else◌, is_some, truthy, includes, str_eq, eq_iff, eq_refl, Bool-cases,
  arith, all, and_left, and_right,
}
use adonisjs_lasagna_saas_te.Exceptions.{error, Result, ok, throw}

-- A driver is known by its name.
pub record IsolationDriverRegistry : Type 0 where
  pub drivers : List String
  pub active_name : Option String

abbrev pub no_drivers : IsolationDriverRegistry
no_drivers = record { drivers = []; active_name = none }

-- `Map.set` keeps the place of a key that is there.
unfoldable pub set_driver : String → List String → List String
set_driver name [] = name ∷ []
set_driver name (n ∷ ns) =
    let rest = n ∷ set_driver name ns in if str_eq n name then n ∷ ns else rest

unfoldable pub register : String → Bool → IsolationDriverRegistry → IsolationDriverRegistry
unfolding set_driver
register name activate r =
    let drivers = set_driver name r.drivers in
    if activate || not (is_some (truthy r.active_name))
    then record { drivers = drivers; active_name = some name }
    else record r { drivers = drivers }

unfoldable pub use_driver :
    String → IsolationDriverRegistry → Result (Unit {0}) × IsolationDriverRegistry
use_driver name r =
    if includes name r.drivers
    then (ok tt, record r { active_name = some name })
    else (throw (error "driver is not registered."), r)

abbrev get_active : List String → Option String → Result String
get_active drivers none = throw (error "no active driver.")
get_active drivers (some name) =
    if includes name drivers then ok name else throw (error "active driver was unregistered.")

unfoldable pub active : IsolationDriverRegistry → Result String
active r = get_active r.drivers (truthy r.active_name)

unfoldable pub clear : IsolationDriverRegistry → IsolationDriverRegistry
clear r = no_drivers

-- What the provider and the tests do with the registry.
pub data RegistryOp : Type 0 where
  registers : (name : String) (activate : Bool) → RegistryOp
  uses : (name : String) → RegistryOp
  clears : RegistryOp

unfoldable pub registry_step : RegistryOp → IsolationDriverRegistry → IsolationDriverRegistry
unfolding register use_driver clear
registry_step (registers name activate) r = register name activate r
registry_step (uses name) r = (use_driver name r).1
registry_step clears r = clear r

unfoldable pub run_registry : List RegistryOp → IsolationDriverRegistry → IsolationDriverRegistry
unfolding registry_step
run_registry [] r = r
run_registry (op ∷ ops) r = run_registry ops (registry_step op r)

-- No name is empty.
abbrev pub is_named : RegistryOp → Bool
is_named (registers name activate) = is_some (truthy (some name))
is_named (uses name) = is_some (truthy (some name))
is_named clears = true

-- The active driver is registered, and there is one as soon as a driver is.
pub data IsServing : IsolationDriverRegistry → Type 0 where
  idle : IsServing no_drivers
  serving :
      (drivers : List String) (c : Char) (s : String)
      → includes (String.◌∷◌ c s) drivers ≡ true
      → IsServing (record { drivers = drivers; active_name = some (String.◌∷◌ c s) })

includes-set_driver :
    (k name : String) (drivers : List String)
    → includes k (set_driver name drivers) ≡ (includes k drivers || str_eq name k)
unfolding set_driver
includes-set_driver k name [] = ground arith
includes-set_driver k name (n ∷ ns) = elim (Bool-cases (str_eq n name)) [
  | inl e ↦ rw (e, (eq_iff n name).0 e) (ground arith)
  | inr e ↦ rw e (ground (arith, includes-set_driver k name ns))
]

step-IsServing :
    (op : RegistryOp) (r : IsolationDriverRegistry)
    → is_named op ≡ true
    → IsServing r
    → IsServing (registry_step op r)
unfolding registry_step register use_driver clear
step-IsServing (registers String.[] activate) r named v = absurd (cc named)
step-IsServing (registers (String.◌∷◌ c s) true) r named v =
    serving (set_driver (String.◌∷◌ c s) r.drivers) c s (
      includes-set_driver (String.◌∷◌ c s) (String.◌∷◌ c s) r.drivers
      ∙ rw (eq_refl (String.◌∷◌ c s)) (ground arith))
step-IsServing (registers (String.◌∷◌ c s) false) _ named idle =
    serving (String.◌∷◌ c s ∷ []) c s (rw (eq_refl (String.◌∷◌ c s)) refl)
step-IsServing (registers (String.◌∷◌ c s) false) _ named (serving drivers d t h) =
    serving (set_driver (String.◌∷◌ c s) drivers) d t
      (includes-set_driver (String.◌∷◌ d t) (String.◌∷◌ c s) drivers ∙ rw h refl)
step-IsServing (uses String.[]) r named v = absurd (cc named)
step-IsServing (uses (String.◌∷◌ c s)) r named v =
    elim (Bool-cases (includes (String.◌∷◌ c s) r.drivers)) [
      | inl e ↦ rw (registry_step, e) (serving r.drivers c s e)
      | inr e ↦ rw (registry_step, e) v
    ]
step-IsServing clears r named v = idle

run-IsServing :
    (ops : List RegistryOp) (r : IsolationDriverRegistry)
    → all is_named ops ≡ true
    → IsServing r
    → IsServing (run_registry ops r)
unfolding run_registry
run-IsServing [] r h v = v
run-IsServing (op ∷ ops) r h v =
    run-IsServing ops (registry_step op r) (and_right (is_named op) _ h)
      (step-IsServing op r (and_left (is_named op) _ h) v)

serving-active :
    (r : IsolationDriverRegistry)
    → IsServing r
    → ((r.drivers ≡ []) × (active r ≡ throw (error "no active driver.")))
      ⊎ ((name : String) × (active r ≡ ok name) × (includes name r.drivers ≡ true))
unfolding active
serving-active _ idle = inl (refl, refl)
serving-active _ (serving drivers c s h) = inr (String.◌∷◌ c s, rw h refl, h)

-- After any registrations, switches and clears with names that are not empty, the active driver is
-- one that is registered, or no driver is and asking for the active one throws.
pub active-registered :
    (ops : List RegistryOp)
    → all is_named ops ≡ true
    → let r = run_registry ops no_drivers in
      ((r.drivers ≡ []) × (active r ≡ throw (error "no active driver.")))
      ⊎ ((name : String) × (active r ≡ ok name) × (includes name r.drivers ≡ true))
active-registered ops h =
    serving-active (run_registry ops no_drivers) (run-IsServing ops no_drivers h idle)
