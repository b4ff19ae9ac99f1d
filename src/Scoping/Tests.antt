-- ===== src/Scoping/Tests.antt =====
-- A table of two rows of two tenants, in memory.
use adonisjs_lasagna_saas_te.Prelude.{
  ◌≡◌, refl, Bool, true, false, Option, none, some, List, [], ◌∷◌, All, All-append, Bool-cases, inl,
  inr, ◌++◌, str_eq, if◌then◌else◌,
}
use adonisjs_lasagna_saas_te.Exceptions.{ok}
use adonisjs_lasagna_saas_te.Store.Memory.{memory}
use adonisjs_lasagna_saas_te.Scoping.{
  Row, Table, Context, set, is_owned, Action, update_query, delete_query, create, update, fetch,
  act, run,
}
use adonisjs_lasagna_saas_te.Scoping.Isolation.{run-foreign, fetch-is_owned}

abbrev chosen : (Row → Bool) → Option Row → List Row
chosen p none = []
chosen p (some row) = if p row then row ∷ [] else []

pub chosen-where :
    (p : Row → Bool) (o : Option Row) → All (λ (row : Row). p row ≡ true) (chosen p o)
chosen-where p none = tt
chosen-where p (some row) = elim (Bool-cases (p row)) [ inl e ↦ rw e (e, tt) | inr e ↦ rw e tt ]

pub chosen_two-where :
    (p : Row → Bool) (o q : Option Row)
    → All (λ (row : Row). p row ≡ true) (chosen p o ++ chosen p q)
chosen_two-where p o q =
    All-append (λ (row : Row). p row ≡ true) (chosen p o) (chosen p q) (chosen-where p o)
      (chosen-where p q)

-- A select looks at the keys "1" and "2".
abbrev table : Table
table = record {
  rows = memory Row;
  select = λ p s. chosen p (s "1") ++ chosen p (s "2");
  update_where = λ p f s k. elim (s k) [
    | none ↦ none
    | some row ↦ if p row then some (record row { body = f row.body }) else some row
  ];
  delete_where = λ p s k. elim (s k) [ none ↦ none | some row ↦ if p row then none else some row ];
  select-where = λ p s. chosen_two-where p (s "1") (s "2");
  get-update_where = λ k p f s. refl;
  get-delete_where = λ k p s. refl;
}

abbrev rows : table.State
rows k =
    if str_eq "1" k
    then some (record { owner = some "acme"; body = "a" })
    else if str_eq "2" k
    then some (record { owner = some "globex"; body = "b" })
    else none

abbrev acme_context : Context
acme_context = record { is_bypassed = false; tenant = some "acme"; is_strict = true }

abbrev no_context : Context
no_context = record { is_bypassed = false; tenant = none; is_strict = true }

abbrev everything : Row → Bool
everything row = true

abbrev actions : List Action
actions =
    update_query everything (λ body. "x")
    ∷ update (record { key = "2"; column = set "globex"; body = "y" })
    ∷ delete_query everything
    ∷ []

-- The tenant's own row is updated and then deleted.
run_own : run table acme_context actions rows "1" ≡ none
unfolding run act
run_own = refl

run-foreign_example :
    run table acme_context actions rows "2" ≡ some (record { owner = some "globex"; body = "b" })
unfolding act
run-foreign_example =
    run-foreign table acme_context "acme" refl refl actions rows "2"
      (record { owner = some "globex"; body = "b" }) "globex" (tt, (refl, (tt, tt))) refl refl refl

fetch-is_owned_example :
    (fetch table acme_context everything rows
      ≡ (ok (record { owner = some "acme"; body = "a" } ∷ []), rows))
    × All
        (λ (row : Row). is_owned "acme" row ≡ true)
        (record { owner = some "acme"; body = "a" } ∷ [])
fetch-is_owned_example = fetch-is_owned table acme_context "acme" refl refl everything rows

-- A model that names another tenant is stored as a row of that tenant.
created :
    (act table acme_context
        (create (record { key = "3"; column = set "globex"; body = "c" }))
        rows).1
      "3"
    ≡ some (record { owner = some "globex"; body = "c" })
unfolding act
created = refl
