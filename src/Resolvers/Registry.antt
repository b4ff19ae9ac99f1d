-- ===== src/Resolvers/Registry.antt =====
-- src/services/resolvers/registry.ts: the resolvers and the chain in which they are asked.
use adonisjs_lasagna_saas_te.Prelude.{
  String, Bool, Option, none, some, List, [], ◌∷◌, str_eq, if◌then◌else◌, is_some, lookup, all,
}
use adonisjs_lasagna_saas_te.Exceptions.{error, Result, ok, throw, M}
use adonisjs_lasagna_saas_te.Resolvers.{TenantResolveResult, HttpRequest}

-- A resolver may call remote services: it changes the state `W`, and it may throw.
abbrev pub TenantResolver : Type 0 → Type 0
TenantResolver W = HttpRequest → M W (Option TenantResolveResult)

pub record TenantResolverRegistry (W : Type 0) : Type 0 where
  pub resolvers : List (String × TenantResolver W)
  pub chain : List String

-- `Map.set` and `Map.delete`
unfoldable pub set_at : {V : Type 0} → String → V → List (String × V) → List (String × V)
set_at key v [] = (key, v) ∷ []
set_at key v ((k, u) ∷ rest) =
    let others = set_at key v rest in if str_eq k key then (k, v) ∷ rest else (k, u) ∷ others

unfoldable pub delete_at : {V : Type 0} → String → List (String × V) → List (String × V)
delete_at key [] = []
delete_at key ((k, u) ∷ rest) =
    let others = delete_at key rest in if str_eq k key then rest else (k, u) ∷ others

module _ {W : Type 0} where
  abbrev pub register :
      String → TenantResolver W → TenantResolverRegistry W → TenantResolverRegistry W
  register name resolver reg = record reg { resolvers = set_at name resolver reg.resolvers }

  abbrev pub has : TenantResolverRegistry W → String → Bool
  has reg name = is_some (lookup name reg.resolvers)

  -- `unregister` leaves the chain as it is.
  abbrev pub unregister : String → TenantResolverRegistry W → Bool × TenantResolverRegistry W
  unregister name reg = (has reg name, record reg { resolvers = delete_at name reg.resolvers })

  -- `setChain`: every name must be registered.
  unfoldable pub set_chain : List String → M (TenantResolverRegistry W) (Unit {0})
  set_chain names reg =
      if all (has reg) names
      then (ok tt, record reg { chain = names })
      else (throw (error "cannot put unknown resolver in the chain"), reg)

  -- The walk along the chain, after the answer of one resolver.
  unfoldable pub after_resolver :
      M W (Option TenantResolveResult)
      → Result (Option TenantResolveResult) × W
      → Result (Option TenantResolveResult) × W
  after_resolver next (ok (some hit), w) = (ok (some hit), w)
  after_resolver next (ok none, w) = next w
  after_resolver next (throw e, w) = (throw e, w)

  unfoldable pub resolve_names :
      TenantResolverRegistry W → List String → HttpRequest → M W (Option TenantResolveResult)
  unfolding after_resolver
  resolve_names reg [] request w = (ok none, w)
  resolve_names reg (name ∷ rest) request w = elim (lookup name reg.resolvers) [
    | none ↦ resolve_names reg rest request w
    | some resolver ↦ after_resolver (resolve_names reg rest request) (resolver request w)
  ]

  unfoldable pub resolve : TenantResolverRegistry W → HttpRequest → M W (Option TenantResolveResult)
  unfolding resolve_names
  resolve reg request = resolve_names reg reg.chain request
