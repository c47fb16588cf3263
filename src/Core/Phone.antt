-- ===== src/Core/Phone.antt =====
-- app/core/phone.py: `normalize_phone_number`, on ASCII text. A text is the list of its characters.
pub mod Canonical
mod Tests
use Prim.Native.Char.{Char, code}
use Prim.Native.String.{◌++◌ as concat}
use multi_agent_ai_system.Prelude.{
  ℕ, suc, ltb, leb, ◌==◌, String, str_eq, Bool, true, false, not, ◌&&◌, ◌||◌, Option, none, some,
  if◌then◌else◌,
}
use multi_agent_ai_system.Prelude.Text.{is_space, strip}
use multi_agent_ai_system.Core.Exceptions.{Result, ok, err, Exception, app_exception}

-- `PhoneNormalizationError`
abbrev pub phone_normalization_error : Exception
phone_normalization_error = app_exception "INVALID_PHONE_FORMAT" 400

-- a character of `[\s\-\+\(\)]`
abbrev pub is_symbol : Char → Bool
unfolding is_space
is_symbol c = is_space c || code c == 45 || code c == 43 || code c == 40 || code c == 41

abbrev pub is_digit : Char → Bool
is_digit c = leb 48 (code c) && leb (code c) 57

-- `re.sub(r"[\s\-\+\(\)]", "", raw)`
unfoldable pub drop_symbols : String → String
drop_symbols String.[] = String.[]
drop_symbols (String.◌∷◌ c s) =
    let rest = drop_symbols s in if is_symbol c then rest else String.◌∷◌ c rest

abbrev pub all_digits : String → Bool
all_digits String.[] = true
all_digits (String.◌∷◌ c s) = is_digit c && all_digits s

-- `cleaned.isdigit()`, which an empty text is not
abbrev pub isdigit : String → Bool
isdigit String.[] = false
isdigit s = all_digits s

abbrev pub characters : String → ℕ
characters String.[] = 0
characters (String.◌∷◌ c s) = suc (characters s)

-- `cleaned.startswith("0")`
abbrev pub starts_with_zero : String → Bool
starts_with_zero String.[] = false
starts_with_zero (String.◌∷◌ c s) = code c == 48

abbrev pub rest_of : String → String
rest_of String.[] = String.[]
rest_of (String.◌∷◌ c s) = s

abbrev pub check_length : String → Result String
check_length cleaned =
    if ltb (characters cleaned) 8 || ltb 15 (characters cleaned)
    then err phone_normalization_error
    else ok cleaned

abbrev pub normalize_digits : String → String → Result String
normalize_digits default_country_code cleaned =
    if starts_with_zero cleaned
    then if ltb (characters cleaned) 9
      then err phone_normalization_error
      else check_length (concat default_country_code (rest_of cleaned))
    else check_length cleaned

unfoldable pub normalize_phone_number : String → Option String → Result String
unfolding drop_symbols strip
normalize_phone_number default_country_code none = err phone_normalization_error
normalize_phone_number default_country_code (some phone) =
    let raw = strip phone in
    let cleaned = drop_symbols raw in
    if str_eq phone "" || str_eq raw ""
    then err phone_normalization_error
    else if not (isdigit cleaned)
    then err phone_normalization_error
    else normalize_digits default_country_code cleaned
