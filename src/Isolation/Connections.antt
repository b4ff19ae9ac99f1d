-- ===== src/Isolation/Connections.antt =====
-- The connections of tenants in the drivers of src/services/isolation: an LRU map of at most 50
-- names beside the connection manager of Lucid.
use adonisjs_lasagna_saas_te.Prelude.{
  ℕ, String, Option, none, some, List, [], ◌∷◌, ◌++◌, if◌then◌else◌, leb, length, lookup, is_some,
  remove_entry, remove_name,
}
use adonisjs_lasagna_saas_te.Exceptions.{Exception, error, ok, throw, M}

-- `MAX_TENANT_CONNECTIONS`
abbrev pub max_tenant_connections : ℕ
max_tenant_connections = 50

-- A registered connection: the settings of the template, and the schema or the database that it
-- works on.
pub record Connection : Type 0 where
  pub settings : String
  pub target : String

-- `#lru`, by its names in the order of their insertion, and the connections of the manager that
-- the driver has added.
pub record Pool : Type 0 where
  pub lru : List String
  pub manager : List (String × Connection)

-- The configuration of the template connection, and what `manager.release` of a name throws.
pub record Manager : Type 0 where
  pub template : Option String
  pub release_error : String → Option Exception

unfoldable pub touch : String → Pool → Pool
unfolding remove_name
touch name p = record p { lru = remove_name name p.lru ++ (name ∷ []) }

module _ (N : Manager) where
  abbrev pub unregister : String → Pool → Pool
  unregister name p = record p { manager = remove_entry name p.manager }

  -- `release(oldest).catch(…)`
  abbrev release_quietly : String → Option Exception → Pool → Pool
  release_quietly name none p = unregister name p
  release_quietly name (some e) p = p

  abbrev pub evict_oldest : List String → Pool → Pool
  evict_oldest [] p = p
  evict_oldest (oldest ∷ names) p =
      release_quietly oldest (N.release_error oldest) (record p { lru = names })

  unfoldable pub evict_if_needed : Pool → Pool
  unfolding remove_entry
  evict_if_needed p = if leb (length p.lru) max_tenant_connections then p else evict_oldest p.lru p

  abbrev pub add_connection : String → String → Option String → M Pool (Unit {0})
  add_connection name target none p =
      (throw (error "template connection not found in db.manager."), p)
  add_connection name target (some settings) p = (
    ok tt,
    evict_if_needed (
        touch name (record p {
          manager = p.manager ++ ((name, record { settings = settings; target = target }) ∷ []);
        })),
  )

  -- `connect`, by the name of the connection and what it works on
  unfoldable pub connect_named : String → String → M Pool (Unit {0})
  unfolding lookup touch evict_if_needed
  connect_named name target p =
      if is_some (lookup name p.manager)
      then (ok tt, touch name p)
      else add_connection name target N.template p

  abbrev pub release : String → Option Exception → M Pool (Unit {0})
  release name none p = (ok tt, unregister name p)
  release name (some e) p = (throw e, p)

  -- `disconnect`
  unfoldable pub disconnect_named : String → M Pool (Unit {0})
  unfolding lookup remove_entry remove_name
  disconnect_named name p =
      let forgotten = record p { lru = remove_name name p.lru } in
      if is_some (lookup name p.manager)
      then release name (N.release_error name) forgotten
      else (ok tt, forgotten)
