-- ===== src/Bootstrappers/Scope.antt =====
-- The scopes of src/services/bootstrapper_registry.ts against nested brackets.
use adonisjs_lasagna_saas_te.Prelude.{
  ℕ, suc, ◌≡◌, refl, sym, subst, String, false, some, List, [], ◌∷◌, str_eq, get_elem?, lookup, All,
  arith, eq_refl,
}
use adonisjs_lasagna_saas_te.Exceptions.{Exception, Result, ok, throw, M}
use adonisjs_lasagna_saas_te.Bootstrappers.{
  TenantBootstrapper, BootstrapperRegistry, leave_one, run_leave_up_to, enter_then, scope_from,
  run_scoped,
}

abbrev pub keys : {V : Type 0} → List (String × V) → List String
keys [] = []
keys ((k, v) ∷ rest) = k ∷ keys rest

abbrev pub Fresh : String → List String → Type 0
Fresh k js = All (λ j. str_eq k j ≡ false) js

abbrev pub Distinct : List String → Type 0
Distinct [] = Unit
Distinct (k ∷ ks) = Fresh k ks × Distinct ks

module _ {W : Type 0} where
  -- The order lists the keys of the map, each once.
  abbrev pub IsWellFormed : BootstrapperRegistry W → Type 0
  IsWellFormed reg = (reg.order ≡ keys reg.items) × Distinct (keys reg.items)

  -- Entries stand in the order from an index on, and the map has them.
  abbrev Placed :
      List String
      → List (String × TenantBootstrapper W)
      → ℕ
      → List (String × TenantBootstrapper W)
      → Type 0
  Placed order items i [] = Unit
  Placed order items i ((k, b) ∷ rest) =
      (get_elem? order i ≡ some k) × (lookup k items ≡ some b) × Placed order items (suc i) rest

  shift-Placed :
      (k : String) (b : TenantBootstrapper W) (order : List String)
      (items : List (String × TenantBootstrapper W)) (i : ℕ)
      (rest : List (String × TenantBootstrapper W))
      → Fresh k (keys rest)
      → Placed order items i rest
      → Placed (k ∷ order) ((k, b) ∷ items) (suc i) rest
  unfolding lookup
  shift-Placed k b order items i [] fresh p = tt
  shift-Placed k b order items i ((j, c) ∷ rest) (apart, fresh) (here, found, p) =
      (here, ground arith, shift-Placed k b order items (suc i) rest fresh p)

  all-Placed :
      (items : List (String × TenantBootstrapper W))
      → Distinct (keys items)
      → Placed (keys items) items 0 items
  unfolding lookup
  all-Placed [] d = tt
  all-Placed ((k, b) ∷ rest) (fresh, d) = (
    refl,
    ground (arith, eq_refl k),
    shift-Placed k b (keys rest) rest 0 rest fresh (all-Placed rest d),
  )

module _ {W A : Type 0} (log : String → Exception → W → W) where
  -- What a scope means: each bootstrapper is a bracket around the rest. Where it cannot be entered,
  -- neither the rest nor its own leave runs; otherwise its leave runs last, whatever happened.
  bracket : String → TenantBootstrapper W → M W A → Result (Unit {0}) × W → Result A × W
  bracket name b rest (throw e, w) = (throw e, w)
  bracket name b rest (ok _, w) = let (r, w') = rest w in (r, leave_one log b name w')

  unfoldable pub bracketed : List (String × TenantBootstrapper W) → M W A → M W A
  unfolding bracket
  bracketed [] fn w = fn w
  bracketed ((name, b) ∷ rest) fn w = bracket name b (bracketed rest fn) (b.enter w)

  module _ (reg : BootstrapperRegistry W) (fn : M W A) where
    enter_then-bracket :
        (name : String) (b : TenantBootstrapper W) (rest : List (String × TenantBootstrapper W))
        (i : ℕ) (entered : Result (Unit {0}) × W)
        → get_elem? reg.order i ≡ some name
        → lookup name reg.items ≡ some b
        → ((w : W)
            → scope_from log reg fn (keys rest) (suc i) w
              ≡ ((bracketed rest fn w).0, run_leave_up_to log reg (suc i) (bracketed rest fn w).1))
        → enter_then log reg (scope_from log reg fn (keys rest) (suc i)) i entered ≡ (
          (bracket name b (bracketed rest fn) entered).0,
          run_leave_up_to log reg i (bracket name b (bracketed rest fn) entered).1,
        )
    unfolding enter_then bracket run_leave_up_to
    enter_then-bracket name b rest i (ok _, w) here found ih = ground (arith, ih w)
    enter_then-bracket name b rest i (throw e, w) here found ih = refl

    scope_from-bracketed :
        (rest : List (String × TenantBootstrapper W)) (i : ℕ) (w : W)
        → Placed reg.order reg.items i rest
        → scope_from log reg fn (keys rest) i w
          ≡ ((bracketed rest fn w).0, run_leave_up_to log reg i (bracketed rest fn w).1)
    unfolding scope_from bracketed
    scope_from-bracketed [] i w p = refl
    scope_from-bracketed ((k, b) ∷ rest) i w (here, found, p) =
        rw (found, scope_from)
          (enter_then-bracket k b rest i (b.enter w) here found
            (λ w'. scope_from-bracketed rest (suc i) w' p))

    -- A scope over a well-formed registry is its bootstrappers nested as brackets, in the order of
    -- registration, around the function: those entered are left, in reverse, and no others.
    pub run_scoped-bracketed :
        (w : W) → IsWellFormed reg → run_scoped log reg fn w ≡ bracketed reg.items fn w
    unfolding run_scoped run_leave_up_to
    run_scoped-bracketed w (ordered, distinct) =
        subst (λ order. scope_from log reg fn order 0 w ≡ bracketed reg.items fn w) (sym ordered)
          (scope_from-bracketed reg.items 0 w (
            subst (λ order. Placed order reg.items 0 reg.items) (sym ordered)
              (all-Placed reg.items distinct)))
