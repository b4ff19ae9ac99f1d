-- ===== src/Bootstrappers/Registration.antt =====
-- The map and the order of src/services/bootstrapper_registry.ts under the calls that change them.
use adonisjs_lasagna_saas_te.Prelude.{
  ◌≡◌, refl, ap, inl, inr, String, false, List, [], ◌∷◌, ◌++◌, str_eq, lookup, is_some, All,
  All-append, Bool-cases, arith,
}
use adonisjs_lasagna_saas_te.Bootstrappers.{
  TenantBootstrapper, BootstrapperRegistry, has, register, unregister, clear, delete, splice,
}
use adonisjs_lasagna_saas_te.Bootstrappers.Scope.{keys, Fresh, Distinct, IsWellFormed}

keys-append : {V : Type 0} (xs ys : List (String × V)) → keys (xs ++ ys) ≡ keys xs ++ keys ys
keys-append [] ys = refl
keys-append ((k, v) ∷ xs) ys = ap (λ ks. k ∷ ks) (keys-append xs ys)

keys-delete :
    {V : Type 0} (name : String) (xs : List (String × V))
    → keys (delete name xs) ≡ splice name (keys xs)
unfolding delete splice
keys-delete name [] = refl
keys-delete name ((k, v) ∷ xs) = elim (Bool-cases (str_eq name k)) [
  | inl hit ↦ rw hit refl
  | inr miss ↦ rw miss (ap (λ ks. k ∷ ks) (keys-delete name xs))
]

Distinct-append :
    (ks : List String) (name : String)
    → Distinct ks
    → All (λ j. str_eq j name ≡ false) ks
    → Distinct (ks ++ name ∷ [])
Distinct-append [] name d h = (tt, tt)
Distinct-append (k ∷ ks) name (fresh, d) (apart, h) = (
  All-append (λ j. str_eq k j ≡ false) ks (name ∷ []) fresh (apart, tt),
  Distinct-append ks name d h,
)

Fresh-splice : (k name : String) (js : List String) → Fresh k js → Fresh k (splice name js)
unfolding splice
Fresh-splice k name [] h = tt
Fresh-splice k name (j ∷ js) (apart, h) = elim (Bool-cases (str_eq name j)) [
  | inl hit ↦ rw hit h
  | inr miss ↦ rw miss (apart, Fresh-splice k name js h)
]

Distinct-splice : (name : String) (ks : List String) → Distinct ks → Distinct (splice name ks)
unfolding splice
Distinct-splice name [] d = tt
Distinct-splice name (k ∷ ks) (fresh, d) = elim (Bool-cases (str_eq name k)) [
  | inl hit ↦ rw hit d
  | inr miss ↦ rw miss (Fresh-splice k name ks fresh, Distinct-splice name ks d)
]

unknown-keys :
    {V : Type 0} (name : String) (xs : List (String × V))
    → is_some (lookup name xs) ≡ false
    → All (λ j. str_eq j name ≡ false) (keys xs)
unfolding lookup
unknown-keys name [] h = tt
unknown-keys name ((k, v) ∷ xs) h = elim (Bool-cases (str_eq k name)) [
  | inl hit ↦ absurd (ground arith)
  | inr miss ↦ (miss, unknown-keys name xs (ground arith))
]

module _ {W : Type 0} where
  register-IsWellFormed :
      (b : TenantBootstrapper W) (reg : BootstrapperRegistry W)
      → IsWellFormed reg
      → IsWellFormed (register b reg).1
  unfolding register
  register-IsWellFormed b reg (ordered, distinct) = elim (Bool-cases (has b.name reg)) [
    | inl known ↦ rw known (ordered, distinct)
    | inr new ↦
        let grown = keys-append reg.items ((b.name, b) ∷ []) in
        rw new (
          rw (ordered, grown) refl,
          rw grown (
              Distinct-append (keys reg.items) b.name distinct (unknown-keys b.name reg.items new)),
        )
  ]

  unregister-IsWellFormed :
      (name : String) (reg : BootstrapperRegistry W)
      → IsWellFormed reg
      → IsWellFormed (unregister name reg).1
  unfolding unregister
  unregister-IsWellFormed name reg (ordered, distinct) = elim (Bool-cases (has name reg)) [
    | inl known ↦
        let shrunk = keys-delete name reg.items in
        rw known
          (rw (ordered, shrunk) refl, rw shrunk (Distinct-splice name (keys reg.items) distinct))
    | inr unknown ↦ rw unknown (ordered, distinct)
  ]

-- The calls that change a registry.
pub data Change (W : Type 0) : Type 0 where
  add : TenantBootstrapper W → Change W
  remove : String → Change W
  wipe : Change W

module _ {W : Type 0} where
  unfoldable pub apply_changes : List (Change W) → BootstrapperRegistry W → BootstrapperRegistry W
  apply_changes [] reg = reg
  apply_changes (add b ∷ rest) reg = apply_changes rest (register b reg).1
  apply_changes (remove name ∷ rest) reg = apply_changes rest (unregister name reg).1
  apply_changes (wipe ∷ rest) reg = apply_changes rest (clear reg)

  -- Any registrations, removals and clearings of a well-formed registry, those that fail included,
  -- leave it well-formed: the order lists exactly the keys of the map, each once.
  pub apply_changes-IsWellFormed :
      (changes : List (Change W)) (reg : BootstrapperRegistry W)
      → IsWellFormed reg
      → IsWellFormed (apply_changes changes reg)
  unfolding apply_changes
  apply_changes-IsWellFormed [] reg h = h
  apply_changes-IsWellFormed (add b ∷ rest) reg h =
      apply_changes-IsWellFormed rest (register b reg).1 (register-IsWellFormed b reg h)
  apply_changes-IsWellFormed (remove name ∷ rest) reg h =
      apply_changes-IsWellFormed rest (unregister name reg).1 (unregister-IsWellFormed name reg h)
  apply_changes-IsWellFormed (wipe ∷ rest) reg h =
      apply_changes-IsWellFormed rest (clear reg) (refl, tt)
