-- ===== src/Prelude/Text.antt =====
-- `str.upper()`, `str.lower()` and `str.strip()` on ASCII text: letters change their case, every
-- other character is left as it is, and only the space and the control characters are stripped.
use Prim.Native.Nat.{ℕ, ◌+◌, ◌-◌, ◌/◌, ◌%◌, ◌<◌, compare, Ordering}
use Prim.Native.Char.{Char, char, code, IsScalar}
use Prim.Native.String.{String}
use mathlib.Core.Path.{◌≡◌, refl}
use mathlib.Core.Bool.{Bool, true, false, ◌&&◌, ◌||◌}
use mathlib.Core.Logic.{dite}
use native.Mathlib.Omega.{arith}
use native.Mathlib.Decide.{dec_lt}
use multi_agent_ai_system.Prelude.Tests.{leb, ltb, ◌==◌, if◌then◌else◌}

pub IsScalar-ascii : (n : ℕ) → n < 128 → IsScalar n
IsScalar-ascii n h = let e : compare n 55296 ≡ Ordering.lt = ground arith in rw e tt

-- The character of a code below 128; a larger code leaves the given character.
ascii : ℕ → Char → Char
unfolding dec_lt
ascii n c = dite (dec_lt n 128) (λ h. char n (IsScalar-ascii n h)) (λ _. c)

lower_char : Char → Char
unfolding ascii
lower_char c = if leb 65 (code c) && leb (code c) 90 then ascii (code c + 32) c else c

upper_char : Char → Char
unfolding ascii
upper_char c = if leb 97 (code c) && leb (code c) 122 then ascii (code c - 32) c else c

unfoldable pub lower : String → String
unfolding lower_char
lower String.[] = String.[]
lower (String.◌∷◌ c s) = String.◌∷◌ (lower_char c) (lower s)

unfoldable pub upper : String → String
unfolding upper_char
upper String.[] = String.[]
upper (String.◌∷◌ c s) = String.◌∷◌ (upper_char c) (upper s)

unfoldable pub is_space : Char → Bool
is_space c =
    code c == 32 || (leb 9 (code c) && leb (code c) 13) || (leb 28 (code c) && leb (code c) 31)

unfoldable pub drop_spaces : String → String
unfolding is_space
drop_spaces String.[] = String.[]
drop_spaces (String.◌∷◌ c s) = if is_space c then drop_spaces s else String.◌∷◌ c s

unfoldable pub is_nil : String → Bool
is_nil String.[] = true
is_nil (String.◌∷◌ c s) = false

-- What is left of a text when the spaces at its end are dropped.
unfoldable pub trim_end : String → String
unfolding is_space is_nil
trim_end String.[] = String.[]
trim_end (String.◌∷◌ c s) =
    let rest = trim_end s in if is_space c && is_nil rest then String.[] else String.◌∷◌ c rest

unfoldable pub strip : String → String
unfolding drop_spaces trim_end
strip s = trim_end (drop_spaces s)

-- `str(n)` of a natural number, with fuel for its digits.
digits : ℕ → ℕ → String → String
unfolding ascii
digits ℕ.zero n s = s
digits (ℕ.suc fuel) n s =
    let s' = String.◌∷◌ (ascii (48 + n % 10) (char 48 tt)) s in
    let more = digits fuel (n / 10) s' in if ltb n 10 then s' else more

unfoldable pub decimal : ℕ → String
unfolding digits
decimal n = digits (ℕ.suc n) n String.[]

decimal_example : decimal 1070 ≡ "1070"
unfolding decimal
decimal_example = refl

lower_example : lower "Yearly-9" ≡ "yearly-9"
unfolding lower
lower_example = refl

upper_example : upper "Yearly-9" ≡ "YEARLY-9"
unfolding upper
upper_example = refl

strip_example : strip "  a b " ≡ "a b"
unfolding strip
strip_example = refl
