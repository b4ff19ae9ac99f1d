-- ===== src/Scoping/Isolation.antt =====
-- The calls of src/models/scoping.ts in the context of a tenant, against the rows of the others.
use adonisjs_lasagna_saas_te.Prelude.{
  ◌≡◌, ◌≢◌, inl, inr, String, Bool, true, false, Option, none, some, List, [], ◌∷◌, All, str_eq,
  eq_iff, truthy, arith, Option-cases,
}
use adonisjs_lasagna_saas_te.Exceptions.{ok}
use adonisjs_lasagna_saas_te.Scoping.{
  Row, Table, Context, Column, null, set, Model, require_scope, is_owned, within, filled, Action,
  update_query, delete_query, create, update, delete, fetch, act, run,
}

-- The scope column of a row, as a model that was loaded with it holds it.
abbrev column_of : Option String → Column
column_of none = null
column_of (some owner) = set owner

abbrev pub Holds : Column → Option Row → Type 0
Holds column none = Unit
Holds column (some row) = column ≡ column_of row.owner

module _ (T : Table) where
  -- The models that are updated or deleted hold the scope column that their row has.
  abbrev pub IsLoaded : Action → T.State → Type 0
  IsLoaded (update model) s = Holds model.column (T.get model.key s)
  IsLoaded (delete model) s = Holds model.column (T.get model.key s)
  IsLoaded _ s = Unit

  abbrev pub AllLoaded : Context → List Action → T.State → Type 0
  AllLoaded ctx [] s = Unit
  AllLoaded ctx (a ∷ rest) s = IsLoaded a s × AllLoaded ctx rest (act T ctx a s).1

  module _ (ctx : Context) (tenant : String) (inside : ctx.is_bypassed ≡ false)
      (current : truthy ctx.tenant ≡ some tenant) where
    act-foreign :
        (a : Action) (s : T.State) (k : String) (row : Row) (owner : String)
        → IsLoaded a s
        → T.get k s ≡ some row
        → row.owner ≡ some owner
        → str_eq owner tenant ≡ false
        → T.get k (act T ctx a s).1 ≡ some row
    unfolding act require_scope
    act-foreign (update_query p f) s k row owner l e o h =
        ground (arith, T.get-update_where k (within (some tenant) p) f s)
    act-foreign (delete_query p) s k row owner l e o h =
        ground (arith, T.get-delete_where k (within (some tenant) p) s)
    act-foreign (create model) s k row owner l e o h = ground (
      arith,
      eq_iff model.key k,
      T.get-put k model.key
          (record { owner = filled (some tenant) model.column; body = model.body }) s,
    )
    act-foreign (update model) s k row owner l e o h = elim (Option-cases (T.get model.key s)) [
      | inl missing ↦ ground arith
      | inr (found, there) ↦
          ground (
            arith,
            eq_iff model.key k,
            T.get-put k model.key (record found { body = model.body }) s,
          )
    ]
    act-foreign (delete model) s k row owner l e o h =
        ground (arith, eq_iff model.key k, T.get-del k model.key s)

    -- Inside `tenancy.run()` of a tenant, and outside `unscoped()`, no sequence of queries, creations,
    -- updates and deletions changes or removes a row of another tenant, where the models updated
    -- and deleted hold the scope column that their rows have, and the conditions of a query are
    -- joined by `and` with the one that the mixin adds.
    pub run-foreign :
        (actions : List Action) (s : T.State) (k : String) (row : Row) (owner : String)
        → AllLoaded ctx actions s
        → T.get k s ≡ some row
        → row.owner ≡ some owner
        → str_eq owner tenant ≡ false
        → T.get k (run T ctx actions s) ≡ some row
    unfolding run
    run-foreign [] s k row owner l e o h = e
    run-foreign (a ∷ rest) s k row owner (here, l) e o h =
        run-foreign rest (act T ctx a s).1 k row owner l (act-foreign a s k row owner here e o h) o
          h

    owned :
        (p : Row → Bool) (rows : List Row)
        → All (λ (row : Row). within (some tenant) p row ≡ true) rows
        → All (λ (row : Row). is_owned tenant row ≡ true) rows
    owned p [] h = tt
    owned p (row ∷ rows) (here, h) = (ground arith, owned p rows h)

    -- There, a fetch whose conditions are joined by `and` answers with the rows selected under the
    -- condition of the mixin too, which are rows of the tenant alone, and changes nothing.
    pub fetch-is_owned :
        (p : Row → Bool) (s : T.State)
        → (fetch T ctx p s ≡ (ok (T.select (within (some tenant) p) s), s))
          × All (λ (row : Row). is_owned tenant row ≡ true) (T.select (within (some tenant) p) s)
    unfolding fetch require_scope
    fetch-is_owned p s = (
      ground arith,
      owned p (T.select (within (some tenant) p) s) (T.select-where (within (some tenant) p) s),
    )

  -- In strict mode, outside `tenancy.run()` and `unscoped()`, every call throws and changes nothing.
  pub act-outside :
      (ctx : Context) (a : Action) (s : T.State)
      → ctx.is_bypassed ≡ false
      → truthy ctx.tenant ≡ none
      → ctx.is_strict ≡ true
      → ((act T ctx a s).0 ≢ ok tt) × ((act T ctx a s).1 ≡ s)
  unfolding act require_scope
  act-outside ctx (update_query p f) s b t h = ground arith
  act-outside ctx (delete_query p) s b t h = ground arith
  act-outside ctx (create model) s b t h = ground arith
  act-outside ctx (update model) s b t h = ground arith
  act-outside ctx (delete model) s b t h = ground arith

  -- The hook on `create` fills in a missing tenant only: a model that names another one is stored
  -- as a row of that tenant, from inside the context of the first.
  pub create-foreign :
      (ctx : Context) (tenant owner : String) (model : Model) (s : T.State)
      → ctx.is_bypassed ≡ false
      → truthy ctx.tenant ≡ some tenant
      → model.column ≡ set owner
      → T.get model.key s ≡ none
      → ((act T ctx (create model) s).0 ≡ ok tt)
        × (T.get model.key (act T ctx (create model) s).1
            ≡ some (record { owner = some owner; body = model.body }))
  unfolding act require_scope
  create-foreign ctx tenant owner model s b t c e = ground (
    arith,
    eq_iff model.key model.key,
    T.get-put model.key model.key
        (record { owner = filled (some tenant) model.column; body = model.body }) s,
  )
