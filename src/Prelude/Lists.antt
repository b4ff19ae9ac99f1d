-- ===== src/Prelude/Lists.antt =====
-- Lists over the native numbers, predicates on lists, and records `Record<string, V>` as lists.
use Prim.Native.Nat.{ℕ, zero, suc, ◌+◌}
use Prim.Native.String.{String}
use mathlib.Core.Path.{◌≡◌, subst, ap, sym}
use mathlib.Core.Bool.{Bool, true, false, ◌||◌, ◌&&◌}
use mathlib.Core.Option.{Option, none, some}
use mathlib.Core.List.{List, [], ◌∷◌, ◌++◌}
use mathlib.Core.Logic.{inl, inr}
use native.Mathlib.Omega.{arith}
use text.Mathlib.Text.{◌==◌}
use text.Mathlib.TextEquality.{eq_iff}
use adonisjs_lasagna_saas_te.Prelude.Tests.{if◌then◌else◌, Bool-cases, get_or}

module _ {ℓ} {A : Type ℓ} where
  abbrev pub length : List A → ℕ
  length [] = 0
  length (x ∷ xs) = suc (length xs)

  pub length-append : (xs ys : List A) → length (xs ++ ys) ≡ length xs + length ys
  length-append [] ys = omega arith
  length-append (x ∷ xs) ys = omega (arith, length-append xs ys)

  abbrev pub get_elem? : List A → ℕ → Option A
  get_elem? [] i = none
  get_elem? (x ∷ xs) zero = some x
  get_elem? (x ∷ xs) (suc i) = get_elem? xs i

  abbrev pub take : ℕ → List A → List A
  take zero xs = []
  take (suc n) [] = []
  take (suc n) (x ∷ xs) = x ∷ take n xs

  abbrev pub drop : ℕ → List A → List A
  drop zero xs = xs
  drop (suc n) [] = []
  drop (suc n) (x ∷ xs) = drop n xs

  abbrev pub all : (A → Bool) → List A → Bool
  all p [] = true
  all p (x ∷ xs) = p x && all p xs

  abbrev pub any : (A → Bool) → List A → Bool
  any p [] = false
  any p (x ∷ xs) = p x || any p xs

  abbrev pub filter : (A → Bool) → List A → List A
  filter p [] = []
  filter p (x ∷ xs) = if p x then x ∷ filter p xs else filter p xs

-- `record[key]` on a plain object
unfoldable pub lookup {ℓ} : {V : Type ℓ} → String → List (String × V) → Option V
lookup k [] = none
lookup k ((j, v) ∷ m) = if j == k then some v else lookup k m

-- `Map.delete` and `Set.delete`
unfoldable pub remove_entry {ℓ} : {V : Type ℓ} → String → List (String × V) → List (String × V)
remove_entry k [] = []
remove_entry k ((j, v) ∷ m) = let rest = (j, v) ∷ remove_entry k m in if j == k then m else rest

unfoldable pub remove_name : String → List String → List String
remove_name k [] = []
remove_name k (j ∷ js) = let rest = j ∷ remove_name k js in if j == k then js else rest

abbrev pub includes : String → List String → Bool
includes k [] = false
includes k (j ∷ js) = j == k || includes k js

abbrev pub All {ℓ κ} : {A : Type ℓ} → (A → Type κ) → List A → Type κ
All P [] = Unit
All P (x ∷ xs) = P x × All P xs

pub All-append {ℓ κ} :
    {A : Type ℓ} (P : A → Type κ) (xs ys : List A) → All P xs → All P ys → All P (xs ++ ys)
All-append P [] ys hx hy = hy
All-append P (x ∷ xs) ys hx hy = (hx.0, All-append P xs ys hx.1 hy)

pub All-mono {ℓ κ} :
    {A : Type ℓ} {P Q : A → Type κ} (xs : List A) → ((x : A) → P x → Q x) → All P xs → All Q xs
All-mono [] f h = tt
All-mono (x ∷ xs) f h = (f x h.0, All-mono xs f h.1)

-- What holds of every value of a record holds of the one that is looked up.
pub lookup-All {ℓ κ} :
    {V : Type ℓ} (P : V → Type κ) (k : String) (m : List (String × V)) {v : V}
    → All (λ (b : String × V). P b.1) m
    → lookup k m ≡ some v
    → P v
unfolding lookup
lookup-All P k [] h e = cc
lookup-All P k ((j, w) ∷ m) {v} h e = elim (Bool-cases (j == k)) [
  | inl hit ↦ subst P (ap (λ o. get_or o w) (rw hit at e)) h.0
  | inr miss ↦ lookup-All P k m h.1 (rw miss at e)
]

-- What follows from each name of a list follows from being on the list.
pub includes-elim {κ} :
    {P : Type κ} (k : String) (js : List String)
    → All (λ j. k ≡ j → P) js
    → includes k js ≡ true
    → P
includes-elim k [] h e = absurd (cc e)
includes-elim k (j ∷ js) h e = elim (Bool-cases (j == k)) [
  | inl hit ↦ h.0 (sym ((eq_iff j k).0 hit))
  | inr miss ↦ includes-elim k js h.1 (rw miss at e)
]
