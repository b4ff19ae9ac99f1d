-- ===== src/Scoping.antt =====
-- src/models/scoping.ts: models whose rows belong to tenants that share one table.
pub mod Isolation
pub mod Tests
use adonisjs_lasagna_saas_te.Prelude.{
  String, Bool, true, false, not, ◌&&◌, ◌||◌, Option, none, some, List, [], ◌∷◌, ◌≡◌, All, str_eq,
  if◌then◌else◌, is_some, truthy,
}
use adonisjs_lasagna_saas_te.Exceptions.{
  Exception, error, Result, ok, throw, M, ◌>>=◌, ◌>>◌, continue, raise,
}
use adonisjs_lasagna_saas_te.Store.{Store}

-- A row: the scope column, NULL for a row of no tenant, and the other columns.
pub record Row : Type 0 where
  pub owner : Option String
  pub body : String

-- A table under the query builder, by primary key: a statement with a condition changes the rows
-- that meet it and no other, and a select returns only rows that meet its condition.
pub record Table : Type 1 where
  pub rows : Store Row
  pub open rows use *
  pub select : (Row → Bool) → State → List Row
  pub update_where : (Row → Bool) → (String → String) → State → State
  pub delete_where : (Row → Bool) → State → State
  pub select-where : (p : Row → Bool) (s : State) → All (λ (row : Row). p row ≡ true) (select p s)
  pub get-update_where :
      (k : String) (p : Row → Bool) (f : String → String) (s : State)
      → get k (update_where p f s) ≡ (elim (get k s) [
        | none ↦ none
        | some row ↦ if p row then some (record row { body = f row.body }) else some row
      ])
  pub get-delete_where :
      (k : String) (p : Row → Bool) (s : State)
      → get k (delete_where p s)
        ≡ (elim (get k s) [ none ↦ none | some row ↦ if p row then none else some row ])

-- The asynchronous context of a call and the configuration: inside `unscoped(fn)`, the tenant of
-- `tenancy.run()`, and `config.isolation.rowScopeMode` in its strict mode.
pub record Context : Type 0 where
  pub is_bypassed : Bool
  pub tenant : Option String
  pub is_strict : Bool

-- The scope column of a model in memory: not loaded, null, or a tenant.
pub data Column : Type 0 where
  undefined null : Column
  set : String → Column

-- A model in memory, with its primary key.
pub record Model : Type 0 where
  pub key : String
  pub column : Column
  pub body : String

-- `requireScope`: the tenant to filter by, none for no filter.
unfoldable pub require_scope : Context → Result (Option String)
require_scope ctx = if ctx.is_bypassed then ok none else elim (truthy ctx.tenant) [
  | some id ↦ ok (some id)
  | none ↦
      if ctx.is_strict
      then throw (error "ran outside both tenancy.run() and unscoped()")
      else ok none
]

-- `where(column, id)`: a comparison with NULL is never true.
abbrev pub is_owned : String → Row → Bool
is_owned id row = elim row.owner [ none ↦ false | some owner ↦ str_eq owner id ]

-- The condition of a query with the one that the mixin adds: the builder joins them by `and`, for a
-- query that has no `orWhere` at its top.
abbrev pub within : Option String → (Row → Bool) → Row → Bool
within none p row = p row
within (some id) p row = is_owned id row && p row

-- `model[column] ?? id` of the hook on `create`
abbrev pub filled : Option String → Column → Option String
filled none (set owner) = some owner
filled none _ = none
filled (some id) (set owner) = some owner
filled (some id) _ = some id

-- The test of the hooks on `update` and `delete`.
abbrev pub is_foreign : Option String → Column → Bool
is_foreign none column = false
is_foreign (some id) undefined = false
is_foreign (some id) null = true
is_foreign (some id) (set owner) = not (str_eq owner id)

-- What a caller may do with the model class and its instances.
pub data Action : Type 0 where
  update_query : (Row → Bool) → (String → String) → Action
  delete_query : (Row → Bool) → Action
  create : Model → Action
  update : Model → Action
  delete : Model → Action

module _ (T : Table) (ctx : Context) where
  -- The code behind a hook runs with the tenant that `requireScope` answers.
  scoped : {A : Type 0} → (Option String → M T.State A) → M T.State A
  unfolding require_scope
  scoped f s = continue (require_scope ctx, s) f

  -- `find`, `fetch` and `paginate` of the class
  unfoldable pub fetch : (Row → Bool) → M T.State (List Row)
  unfolding scoped
  fetch p = scoped λ id s. (ok (T.select (within id p) s), s)

  insert : Model → Option String → M T.State (Unit {0})
  insert model id s =
      if is_some (T.get model.key s)
      then (throw (error "duplicate key value violates unique constraint"), s)
      else (ok tt, T.put model.key (record { owner = filled id model.column; body = model.body }) s)

  -- A statement on one row, by primary key, behind the test of the hook.
  guarded : Model → (T.State → T.State) → Option String → M T.State (Unit {0})
  guarded model f id s =
      if is_foreign id model.column
      then (throw (error "refusing to touch a row of another tenant"), s)
      else (ok tt, f s)

  unfoldable pub save_row : Model → T.State → T.State
  save_row model s = elim (T.get model.key s) [
    | none ↦ s
    | some row ↦ T.put model.key (record row { body = model.body }) s
  ]

  unfoldable pub act : Action → M T.State (Unit {0})
  unfolding scoped insert guarded save_row
  act (update_query p f) = scoped λ id s. (ok tt, T.update_where (within id p) f s)
  act (delete_query p) = scoped λ id s. (ok tt, T.delete_where (within id p) s)
  act (create model) = scoped (insert model)
  act (update model) = scoped (guarded model (save_row model))
  act (delete model) = scoped (guarded model (T.del model.key))

  -- A sequence of calls; a call that throws does not keep the next from running.
  unfoldable pub run : List Action → T.State → T.State
  run [] s = s
  run (a ∷ rest) s = run rest (act a s).1
