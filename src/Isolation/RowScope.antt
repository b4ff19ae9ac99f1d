-- ===== src/Isolation/RowScope.antt =====
-- src/services/isolation/rowscope_pg_driver.ts: the rows of a tenant in shared tables.
use adonisjs_lasagna_saas_te.Prelude.{
  ◌≡◌, refl, sym, ap, ◌∙◌, inl, inr, String, Bool, true, false, not, Option, none, some, List, [],
  ◌∷◌, if◌then◌else◌, filter, str_eq, eq_iff, ◌≢◌, Bool-cases, Option-cases,
}
use adonisjs_lasagna_saas_te.Exceptions.{Exception, Result, ok, throw, M, continue, ◌>>◌, pure}
use adonisjs_lasagna_saas_te.Identifier.{is_safe_identifier}
use adonisjs_lasagna_saas_te.Isolation.{assert_safe_identifier}

-- The tables hold rows `R`, each with the value of its scope column; `delete_error` is what a
-- delete on a table throws.
module _ {R : Type 0} (scope_of : R → String) (delete_error : String → Option Exception) where
  abbrev Tables : Type 0
  Tables = String → List R

  abbrev is_of : String → R → Bool
  is_of id row = str_eq (scope_of row) id

  abbrev without : String → String → Tables → Tables
  without id table s name =
      if str_eq table name then filter (λ row. not (is_of id row)) (s name) else s name

  -- `client.from(table).where(column, id).delete()`
  unfoldable pub delete_from : String → String → M Tables (Unit {0})
  delete_from id table s = elim (delete_error table) [
    | some e ↦ (throw e, s)
    | none ↦ (ok tt, without id table s)
  ]

  unfoldable pub delete_each : String → List String → M Tables (Unit {0})
  unfolding delete_from
  delete_each id [] = pure tt
  delete_each id (table ∷ tables) = delete_from id table >> delete_each id tables

  abbrev destroy_rows : List String → String → M Tables (Unit {0})
  destroy_rows [] id = pure tt
  destroy_rows (table ∷ tables) id = assert_safe_identifier id >> delete_each id (table ∷ tables)

  unfoldable pub destroy : List String → Bool → String → M Tables (Unit {0})
  unfolding delete_each assert_safe_identifier
  destroy scoped_tables keep_data id = if keep_data then pure tt else destroy_rows scoped_tables id

  -- `reset`
  unfoldable pub reset : List String → String → M Tables (Unit {0})
  unfolding destroy
  reset scoped_tables id = destroy scoped_tables false id

  filter-other :
      (a b : String) (rows : List R)
      → a ≢ b
      → filter (is_of b) (filter (λ row. not (is_of a row)) rows) ≡ filter (is_of b) rows
  filter-other a b [] different = refl
  filter-other a b (row ∷ rows) different = elim (Bool-cases (is_of a row)) [
    | inl e ↦ rw (e, is_of-other a b row different e) (filter-other a b rows different)
    | inr e ↦ rw e (elim (Bool-cases (is_of b row)) [
      | inl e' ↦ rw e' (ap (λ rs. row ∷ rs) (filter-other a b rows different))
      | inr e' ↦ rw e' (filter-other a b rows different)
    ])
  ]
    where
      is_of-other : (a b : String) (row : R) → a ≢ b → is_of a row ≡ true → is_of b row ≡ false
      is_of-other a b row different e = elim (Bool-cases (is_of b row)) [
        | inl e' ↦
            absurd
              (different (sym ((eq_iff (scope_of row) a).0 e) ∙ (eq_iff (scope_of row) b).0 e'))
        | inr e' ↦ e'
      ]

  delete_from-others :
      (a b table name : String) (s : Tables)
      → a ≢ b
      → filter (is_of b) ((delete_from a table s).1 name) ≡ filter (is_of b) (s name)
  unfolding delete_from
  delete_from-others a b table name s different = elim (Option-cases (delete_error table)) [
    | inl e ↦
        rw (delete_from, e)
          (elim (Bool-cases (str_eq table name)) [
            | inl e' ↦ rw e' (filter-other a b (s name) different)
            | inr e' ↦ rw e' refl
          ])
    | inr (x, e) ↦ rw (delete_from, e) refl
  ]

  continue-others :
      (b name : String) (f : M Tables (Unit {0})) (r : Result (Unit {0}) × Tables)
      → ((s : Tables) → filter (is_of b) ((f s).1 name) ≡ filter (is_of b) (s name))
      → filter (is_of b) ((continue r (λ _. f)).1 name) ≡ filter (is_of b) (r.1 name)
  continue-others b name f (ok tt, s) h = h s
  continue-others b name f (throw e, s) h = refl

  delete_each-others :
      (a b name : String) (tables : List String) (s : Tables)
      → a ≢ b
      → filter (is_of b) ((delete_each a tables s).1 name) ≡ filter (is_of b) (s name)
  unfolding delete_each
  delete_each-others a b name [] s different = refl
  delete_each-others a b name (table ∷ tables) s different =
      continue-others b name (λ s'. delete_each a tables s') (delete_from a table s)
        (λ s'. delete_each-others a b name tables s' different)
      ∙ delete_from-others a b table name s different

  -- Destroying or resetting a tenant leaves the rows of another tenant in every table, in their
  -- order, whatever deletes fail.
  pub destroy-others :
      (a b name : String) (scoped_tables : List String) (keep_data : Bool) (s : Tables)
      → a ≢ b
      → filter (is_of b) ((destroy scoped_tables keep_data a s).1 name) ≡ filter (is_of b) (s name)
  unfolding destroy assert_safe_identifier
  destroy-others a b name scoped_tables true s different = refl
  destroy-others a b name [] false s different = refl
  destroy-others a b name (table ∷ tables) false s different =
      elim (Bool-cases (is_safe_identifier a)) [
        | inl e ↦
            rw (assert_safe_identifier, e)
              (delete_each-others a b name (table ∷ tables) s different)
        | inr e ↦ rw (assert_safe_identifier, e) refl
      ]
