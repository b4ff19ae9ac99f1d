-- ===== src/Identifier/Safety.antt =====
-- Every tenant id that src/services/isolation/identifier.ts takes for a UUID may stand in DDL.
use adonisjs_lasagna_saas_te.Prelude.{
  ◌≡◌, refl, String, Char, true, List, [], ◌∷◌, arith, length, all_chars, text_length,
}
use adonisjs_lasagna_saas_te.Identifier.{
  is_safe_char, is_safe_identifier, Class, hex, dash, four, variant, is_in, uuid_v4, matches,
  is_uuid_v4,
}

is_in-is_safe_char : (k : Class) (c : Char) → is_in k c ≡ true → is_safe_char c ≡ true
is_in-is_safe_char hex c h = ground arith
is_in-is_safe_char dash c h = ground arith
is_in-is_safe_char four c h = ground arith
is_in-is_safe_char variant c h = ground arith

matches-is_safe_char :
    (ks : List Class) (s : String)
    → matches ks s ≡ true
    → (all_chars is_safe_char s ≡ true) × (text_length s ≡ length ks)
unfolding matches
matches-is_safe_char [] String.[] h = (refl, refl)
matches-is_safe_char [] (String.◌∷◌ c s) h = cc
matches-is_safe_char (k ∷ ks) String.[] h = cc
matches-is_safe_char (k ∷ ks) (String.◌∷◌ c s) h =
    ground (arith, is_in-is_safe_char k c, matches-is_safe_char ks s)

-- A UUID of version 4 is 36 characters long and passes the test for identifiers in DDL.
pub is_uuid_v4-is_safe_identifier :
    (s : String) → is_uuid_v4 s ≡ true → (is_safe_identifier s ≡ true) × (text_length s ≡ 36)
unfolding is_uuid_v4 is_safe_identifier
is_uuid_v4-is_safe_identifier s h = ground (arith, matches-is_safe_char uuid_v4 s h)
