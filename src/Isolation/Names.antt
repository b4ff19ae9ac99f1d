-- ===== src/Isolation/Names.antt =====
-- How often a name stands on the LRU list of src/services/isolation, and among connections.
use adonisjs_lasagna_saas_te.Prelude.{
  ℕ, ◌+◌, ◌-◌, ◌≤◌, ◌≡◌, refl, sym, ap, ◌∙◌, inl, inr, ◌⊎◌, String, true, false, List, [], ◌∷◌,
  ◌++◌, if◌then◌else◌, leb, length, length-append, lookup, is_some, remove_entry, remove_name,
  str_eq, eq_iff, eq_refl, All, arith, Bool-cases, subst,
}
use adonisjs_lasagna_saas_te.Isolation.Connections.{Connection}

abbrev pub names : List (String × Connection) → List String
names [] = []
names ((n, c) ∷ m) = n ∷ names m

abbrev pub count : String → List String → ℕ
count k [] = 0
count k (j ∷ js) = (if str_eq j k then 1 else 0) + count k js

pub names-append : (xs ys : List (String × Connection)) → names (xs ++ ys) ≡ names xs ++ names ys
names-append [] ys = refl
names-append (x ∷ xs) ys = ap (λ ks. x.0 ∷ ks) (names-append xs ys)

pub count-append : (k : String) (xs ys : List String) → count k (xs ++ ys) ≡ count k xs + count k ys
count-append k [] ys = omega arith
count-append k (x ∷ xs) ys = omega (arith, count-append k xs ys)

apart : (x n k : String) → str_eq x n ≡ false → (str_eq x k ≡ false) ⊎ (str_eq n k ≡ false)
apart x n k h = elim (Bool-cases (str_eq x k)) [
  | inl e ↦ elim (Bool-cases (str_eq n k)) [
    | inl e' ↦ absurd (cc (sym h ∙ (eq_iff x n).1 ((eq_iff x k).0 e ∙ sym ((eq_iff n k).0 e'))))
    | inr e' ↦ inr e'
  ]
  | inr e ↦ inl e
]

pub count-le-length : (n : String) (xs : List String) → count n xs ≤ length xs
count-le-length n [] = omega arith
count-le-length n (x ∷ xs) = ground (arith, count-le-length n xs)

pub count-remove_name :
    (k n : String) (xs : List String)
    → count k (remove_name n xs) ≡ count k xs - (if str_eq n k then 1 else 0)
unfolding remove_name
count-remove_name k n [] = ground arith
count-remove_name k n (x ∷ xs) = elim (Bool-cases (str_eq x n)) [
  | inl hit ↦ rw (hit, (eq_iff x n).0 hit) (ground arith)
  | inr miss ↦
      let rest = count-remove_name k n xs in
      rw miss (elim (apart x n k miss) [
        | inl e ↦ rw e (omega (arith, rest))
        | inr e ↦ rw e (let rest' = rw e at rest in omega (arith, rest'))
      ])
]

pub length-remove_name :
    (n : String) (xs : List String)
    → length (remove_name n xs) ≡ length xs - (if leb 1 (count n xs) then 1 else 0)
unfolding remove_name
length-remove_name n [] = ground arith
length-remove_name n (x ∷ xs) = elim (Bool-cases (str_eq x n)) [
  | inl hit ↦ rw hit (ground arith)
  | inr miss ↦ rw miss (ground (arith, length-remove_name n xs, count-le-length n xs))
]

pub names-remove_entry :
    (n : String) (m : List (String × Connection))
    → names (remove_entry n m) ≡ remove_name n (names m)
unfolding remove_entry remove_name
names-remove_entry n [] = refl
names-remove_entry n ((j, c) ∷ m) = elim (Bool-cases (str_eq j n)) [
  | inl hit ↦ rw hit refl
  | inr miss ↦ rw miss (ap (λ ks. j ∷ ks) (names-remove_entry n m))
]

pub length-names : (m : List (String × Connection)) → length (names m) ≡ length m
length-names [] = refl
length-names (e ∷ m) = omega (arith, length-names m)

pub routed-remove_entry :
    (P : String × Connection → Type 0) (n : String) (m : List (String × Connection))
    → All P m
    → All P (remove_entry n m)
unfolding remove_entry
routed-remove_entry P n [] h = h
routed-remove_entry P n ((j, c) ∷ m) h = elim (Bool-cases (str_eq j n)) [
  | inl hit ↦ rw hit h.1
  | inr miss ↦ rw miss (h.0, routed-remove_entry P n m h.1)
]

pub is_some-lookup :
    (n : String) (m : List (String × Connection)) → is_some (lookup n m) ≡ leb 1 (count n (names m))
unfolding lookup
is_some-lookup n [] = refl
is_some-lookup n ((j, c) ∷ m) = elim (Bool-cases (str_eq j n)) [
  | inl hit ↦ rw hit (ground arith)
  | inr miss ↦ rw miss (is_some-lookup n m ∙ ap (leb 1) (omega arith))
]

pub count-touched :
    (k name : String) (xs : List String)
    → 1 ≤ count name xs
    → count k (remove_name name xs ++ (name ∷ [])) ≡ count k xs
count-touched k name xs here = elim (Bool-cases (str_eq name k)) [
  | inl e ↦
      let there : 1 ≤ count k xs = subst (λ j. 1 ≤ count j xs) ((eq_iff name k).0 e) here in
      count-append k (remove_name name xs) (name ∷ [])
      ∙ (let removed = count-remove_name k name xs in
          let removed' = rw e at removed in rw e (omega (arith, removed', there)))
  | inr e ↦
      count-append k (remove_name name xs) (name ∷ [])
      ∙ (let removed = count-remove_name k name xs in
          let removed' = rw e at removed in rw e (omega (arith, removed')))
]

pub length-touched :
    (name : String) (xs : List String)
    → 1 ≤ count name xs
    → length (remove_name name xs ++ (name ∷ [])) ≡ length xs
length-touched name xs here = ground (
  arith,
  length-append (remove_name name xs) (name ∷ []),
  length-remove_name name xs,
  count-le-length name xs,
)

-- A name that is not there is added at the end.
pub remove_name-absent :
    (name : String) (xs : List String) → count name xs ≡ 0 → remove_name name xs ≡ xs
unfolding remove_name
remove_name-absent name [] h = refl
remove_name-absent name (x ∷ xs) h = elim (Bool-cases (str_eq x name)) [
  | inl e ↦ absurd (omega (arith, (rw e at h)))
  | inr e ↦
      rw e
        (ap (λ ks. x ∷ ks) (remove_name-absent name xs (let h' = rw e at h in omega (arith, h'))))
]

pub registered-count :
    (name : String) (m : List (String × Connection))
    → is_some (lookup name m) ≡ true
    → 1 ≤ count name (names m)
registered-count name m h = let c = sym (is_some-lookup name m) ∙ h in ground (arith, c)

pub unregistered-count :
    (name : String) (m : List (String × Connection))
    → is_some (lookup name m) ≡ false
    → count name (names m) ≡ 0
unregistered-count name m h = let c = sym (is_some-lookup name m) ∙ h in ground (arith, c)

pub count_self : (name : String) (xs : List String) → 1 ≤ count name (name ∷ xs)
count_self name xs = rw (eq_refl name) (omega arith)

pub length-remove_entry :
    (n : String) (m : List (String × Connection))
    → length (remove_entry n m) ≡ length m - (if leb 1 (count n (names m)) then 1 else 0)
length-remove_entry n m =
    sym (length-names (remove_entry n m))
    ∙ ap length (names-remove_entry n m)
    ∙ length-remove_name n (names m)
    ∙ ap (λ l. l - (if leb 1 (count n (names m)) then 1 else 0)) (length-names m)
