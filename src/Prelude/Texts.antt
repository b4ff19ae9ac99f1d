-- ===== src/Prelude/Texts.antt =====
-- Texts by their characters: the methods of strings that the source calls.
use Prim.Native.Nat.{ℕ, zero, suc, ◌+◌, ◌<◌, ◌/◌, ◌%◌}
use Prim.Native.Char.{Char, code}
use Prim.Native.String.{String, ◌++◌}
use mathlib.Core.Path.{◌≡◌, refl, ap}
use mathlib.Core.Bool.{Bool, true, false, ◌&&◌, ◌||◌}
use mathlib.Core.Option.{Option, none, some}
use native.Mathlib.Omega.{arith}
use text.Mathlib.Text.{◌==◌ as str_eq}
use text.Mathlib.TextPositions.{eq_refl}
use text.Mathlib.TextEquality.{eq_iff}
use text.Mathlib.TextLemmas.{nil-append, cons-append}
use mathlib.Core.Logic.{inl, inr, ◌≢◌}
use mathlib.Core.List.{List, [], ◌∷◌}
use adonisjs_lasagna_saas_te.Prelude.Lists.{get_elem?}
use adonisjs_lasagna_saas_te.Prelude.Tests.{◌==◌, leb, ltb, get_or, if◌then◌else◌, Bool-cases}

-- `s.length`
abbrev pub text_length : String → ℕ
text_length String.[] = 0
text_length (String.◌∷◌ c s) = suc (text_length s)

abbrev pub is_code : ℕ → Char → Bool
is_code n c = code c == n

abbrev pub within : ℕ → ℕ → Char → Bool
within lo hi c = leb lo (code c) && leb (code c) hi

abbrev pub all_chars : (Char → Bool) → String → Bool
all_chars p String.[] = true
all_chars p (String.◌∷◌ c s) = p c && all_chars p s

abbrev pub any_char : (Char → Bool) → String → Bool
any_char p String.[] = false
any_char p (String.◌∷◌ c s) = p c || any_char p s

abbrev digits : List String
digits = "0" ∷ "1" ∷ "2" ∷ "3" ∷ "4" ∷ "5" ∷ "6" ∷ "7" ∷ "8" ∷ "9" ∷ []

abbrev pub digit : ℕ → String
digit n = get_or (get_elem? digits n) ""

-- `String(n)`, with fuel for its digits
unfoldable pub decimal_within : ℕ → ℕ → String
decimal_within zero n = ""
decimal_within (suc fuel) n =
    let more = decimal_within fuel (n / 10) ++ digit (n % 10) in if ltb n 10 then digit n else more

unfoldable pub decimal : ℕ → String
unfolding decimal_within
decimal n = decimal_within (suc n) n

-- `s.split(sep)[0]`, for a separator of one character
abbrev pub before : ℕ → String → String
before n String.[] = String.[]
before n (String.◌∷◌ c s) = if is_code n c then String.[] else String.◌∷◌ c (before n s)

abbrev pub push_front : Char → Option String → Option String
push_front c none = none
push_front c (some s) = some (String.◌∷◌ c s)

-- What stands before a suffix, where the text ends with it.
abbrev pub strip_suffix : String → String → Option String
strip_suffix suffix String.[] = if str_eq String.[] suffix then some String.[] else none
strip_suffix suffix (String.◌∷◌ c s) =
    let rest = push_front c (strip_suffix suffix s) in
    if str_eq (String.◌∷◌ c s) suffix then some String.[] else rest

pub text_length-append : (s t : String) → text_length (s ++ t) ≡ text_length s + text_length t
text_length-append String.[] t = rw (nil-append t) (omega arith)
text_length-append (String.◌∷◌ c s) t =
    rw (cons-append c s t) (omega (arith, text_length-append s t))

-- Texts of different lengths are not the same.
pub length-ne : (s t : String) → text_length s ≢ text_length t → str_eq s t ≡ false
length-ne s t h = elim (Bool-cases (str_eq s t)) [
  | inl e ↦ absurd (h (ap text_length ((eq_iff s t).0 e)))
  | inr e ↦ e
]

pub longer-ne : (s t : String) → text_length t < text_length s → str_eq s t ≡ false
longer-ne s t h = length-ne s t (omega arith)

pub shorter-ne : (s t : String) → text_length s < text_length t → str_eq s t ≡ false
shorter-ne s t h = length-ne s t (omega arith)

pub strip_suffix-append : (s t : String) → strip_suffix t (s ++ t) ≡ some s
strip_suffix-append String.[] String.[] = rw (nil-append String.[]) refl
strip_suffix-append String.[] (String.◌∷◌ c t) =
    rw (nil-append (String.◌∷◌ c t)) (rw (eq_refl (String.◌∷◌ c t)) refl)
strip_suffix-append (String.◌∷◌ c s) t = rw (cons-append c s t) (
    rw (longer-ne (String.◌∷◌ c (s ++ t)) t (omega (arith, text_length-append s t)))
      (rw (strip_suffix-append s t) refl))

-- What stands before a separator that the first part does not hold.
pub before-append :
    (n : ℕ) (s t : String)
    → any_char (is_code n) s ≡ false
    → before n t ≡ String.[]
    → before n (s ++ t) ≡ s
before-append n String.[] t h e = rw (nil-append t) e
before-append n (String.◌∷◌ c s) t h e =
    rw (cons-append c s t) (ground (arith, before-append n s t))

pub before_self : (n : ℕ) (s : String) → any_char (is_code n) s ≡ false → before n s ≡ s
before_self n String.[] h = refl
before_self n (String.◌∷◌ c s) h = ground (arith, before_self n s)

pub any_char-append :
    (p : Char → Bool) (s t : String) → any_char p (s ++ t) ≡ (any_char p s || any_char p t)
any_char-append p String.[] t = rw (nil-append t) refl
any_char-append p (String.◌∷◌ c s) t =
    rw (cons-append c s t) (ground (arith, any_char-append p s t))

-- No text ends with a longer one.
pub strip_suffix-longer : (s t : String) → text_length s < text_length t → strip_suffix t s ≡ none
strip_suffix-longer String.[] t h = rw (shorter-ne "" t h) refl
strip_suffix-longer (String.◌∷◌ c s) t h =
    rw (shorter-ne (String.◌∷◌ c s) t h) (rw (strip_suffix-longer s t (omega arith)) refl)

pub strip_suffix_self : (s : String) → strip_suffix s s ≡ some ""
strip_suffix_self String.[] = refl
strip_suffix_self (String.◌∷◌ c s) = rw (eq_refl (String.◌∷◌ c s)) refl
