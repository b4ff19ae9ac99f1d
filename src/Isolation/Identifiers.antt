-- ===== src/Isolation/Identifiers.antt =====
-- The names of schemas and databases in src/services/isolation, and their length in bytes.
use adonisjs_lasagna_saas_te.Prelude.{
  ℕ, ◌+◌, ◌≤◌, ◌≡◌, ◌≢◌, sym, ap, ◌∙◌, inl, inr, String, false, code, ltb, str_eq, str_append,
  if◌then◌else◌, Bool-cases, eq_iff,
}
use text.Mathlib.TextLemmas.{nil-append, cons-append}
use adonisjs_lasagna_saas_te.Isolation.{IsolationConfig, schema_name, database_name}

-- What follows a prefix of that length.
unfoldable pub drop_prefix : String → String → String
drop_prefix String.[] s = s
drop_prefix (String.◌∷◌ c p) String.[] = String.[]
drop_prefix (String.◌∷◌ c p) (String.◌∷◌ d s) = drop_prefix p s

pub drop_prefix-append : (p s : String) → drop_prefix p (str_append p s) ≡ s
unfolding drop_prefix
drop_prefix-append String.[] s = nil-append s
drop_prefix-append (String.◌∷◌ c p) s = rw (cons-append c p s) (drop_prefix-append p s)

-- Under one prefix, different ids have different names.
pub append-ne : (p a b : String) → a ≢ b → str_eq (str_append p a) (str_append p b) ≡ false
append-ne p a b different = elim (Bool-cases (str_eq (str_append p a) (str_append p b))) [
  | inl e ↦ absurd (
      different (
        sym (drop_prefix-append p a)
        ∙ ap (drop_prefix p) ((eq_iff (str_append p a) (str_append p b)).0 e)
        ∙ drop_prefix-append p b))
  | inr e ↦ e
]

-- The bytes of a text in UTF-8.
abbrev pub utf8_length : String → ℕ
utf8_length String.[] = 0
utf8_length (String.◌∷◌ c s) =
    (if ltb (code c) 128
      then 1
      else if ltb (code c) 2048
      then 2
      else if ltb (code c) 65536
      then 3
      else 4)
    + utf8_length s

-- A tenant whose schema and database have names that PostgreSQL does not cut.
abbrev pub HasShortNames : IsolationConfig → String → Type 0
HasShortNames config id =
    (utf8_length (schema_name config id) ≤ 63) × (utf8_length (database_name config id) ≤ 63)
