-- ===== src/Identifier.antt =====
-- src/services/isolation/identifier.ts: the ids that may stand in SQL.
pub mod Safety
use adonisjs_lasagna_saas_te.Prelude.{
  ℕ, zero, suc, ◌+◌, String, Char, code, Bool, true, false, ◌&&◌, ◌||◌, List, [], ◌∷◌, ◌++◌, leb,
  ◌==◌, within, is_code, all_chars, text_length,
}

-- `[a-zA-Z0-9_-]`
abbrev pub is_safe_char : Char → Bool
is_safe_char c =
    within b'a' b'z' c
    || within b'A' b'Z' c
    || within b'0' b'9' c
    || is_code b'_' c
    || is_code b'-' c

-- `SAFE_IDENT.test`
unfoldable pub is_safe_identifier : String → Bool
is_safe_identifier s = all_chars is_safe_char s && leb 1 (text_length s) && leb (text_length s) 63

-- The classes of characters in `UUID_V4`, in either case.
pub data Class : Type 0 where
  hex dash four variant : Class

abbrev pub is_in : Class → Char → Bool
is_in hex c = within b'0' b'9' c || within b'a' b'f' c || within b'A' b'F' c
is_in dash c = is_code b'-' c
is_in four c = is_code b'4' c
is_in variant c =
    is_code b'8' c
    || is_code b'9' c
    || is_code b'a' c
    || is_code b'b' c
    || is_code b'A' c
    || is_code b'B' c

abbrev pub times : ℕ → Class → List Class
times zero k = []
times (suc n) k = k ∷ times n k

-- `UUID_V4`: 8-4-4-4-12, with the version and the variant
abbrev pub uuid_v4 : List Class
uuid_v4 =
    times 8 hex
    ++ (dash
        ∷ (times 4 hex
            ++ (dash
                ∷ (four
                    ∷ (times 3 hex
                        ++ (dash ∷ (variant ∷ (times 3 hex ++ (dash ∷ times 12 hex)))))))))

-- A pattern with one class for each character.
unfoldable pub matches : List Class → String → Bool
matches [] String.[] = true
matches [] (String.◌∷◌ c s) = false
matches (k ∷ ks) String.[] = false
matches (k ∷ ks) (String.◌∷◌ c s) = is_in k c && matches ks s

unfoldable pub is_uuid_v4 : String → Bool
unfolding matches
is_uuid_v4 s = matches uuid_v4 s
