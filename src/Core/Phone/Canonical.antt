-- ===== src/Core/Phone/Canonical.antt =====
-- A number in canonical form, what the normalization answers with and leaves alone.
use Prim.Native.Char.{Char}
use Prim.Native.String.{◌++◌ as concat}
use text.Mathlib.TextLemmas.{nil-append, cons-append}
use multi_agent_ai_system.Prelude.{
  suc, ◌≤◌, String, str_eq, true, false, Option, none, some, ◌≡◌, refl, ap, inl, inr, eq_iff, arith,
  Bool-cases,
}
use multi_agent_ai_system.Prelude.Text.{is_space, strip, drop_spaces, trim_end}
use multi_agent_ai_system.Core.Exceptions.{ok}
use multi_agent_ai_system.Core.Phone.{
  drop_symbols, all_digits, isdigit, characters, starts_with_zero, rest_of, check_length,
  normalize_digits, normalize_phone_number,
}

-- Digits only, as many as E.164 allows, and no local prefix.
pub record IsCanonical (s : String) : Type 0 where
  pub digits : all_digits s ≡ true
  pub international : starts_with_zero s ≡ false
  pub shortest : 8 ≤ characters s
  pub longest : characters s ≤ 15

abbrev pub IsCountryCode : String → Type 0
IsCountryCode s = (isdigit s ≡ true) × (starts_with_zero s ≡ false)

all_digits-concat :
    (s t : String) → all_digits s ≡ true → all_digits t ≡ true → all_digits (concat s t) ≡ true
all_digits-concat String.[] t hs ht = rw (nil-append t) ht
all_digits-concat (String.◌∷◌ c s) t hs ht =
    rw (cons-append c s t) (ground (arith, all_digits-concat s t))

all_digits-rest_of : (s : String) → all_digits s ≡ true → all_digits (rest_of s) ≡ true
all_digits-rest_of String.[] h = refl
all_digits-rest_of (String.◌∷◌ c s) h = ground arith

all_digits-isdigit : (s : String) → isdigit s ≡ true → all_digits s ≡ true
all_digits-isdigit String.[] h = ground arith
all_digits-isdigit (String.◌∷◌ c s) h = h

concat-IsCountryCode : (s t : String) → IsCountryCode s → starts_with_zero (concat s t) ≡ false
concat-IsCountryCode String.[] t h = ground arith
concat-IsCountryCode (String.◌∷◌ c s) t h = rw (cons-append c s t) h.1

check_length-IsCanonical :
    (s t : String)
    → all_digits s ≡ true
    → starts_with_zero s ≡ false
    → check_length s ≡ ok t
    → IsCanonical t
check_length-IsCanonical s t hd hz e = ground arith

normalize_digits-IsCanonical :
    (code_of s t : String)
    → IsCountryCode code_of
    → isdigit s ≡ true
    → normalize_digits code_of s ≡ ok t
    → IsCanonical t
normalize_digits-IsCanonical code_of s t hc hd e = elim (Bool-cases (starts_with_zero s)) [
  | inl zero ↦
      check_length-IsCanonical (concat code_of (rest_of s)) t
        (all_digits-concat code_of (rest_of s) (all_digits-isdigit code_of hc.0)
          (all_digits-rest_of s (all_digits-isdigit s hd)))
        (concat-IsCountryCode code_of (rest_of s) hc) (ground arith)
  | inr other ↦ check_length-IsCanonical s t (all_digits-isdigit s hd) other (ground arith)
]

-- What the normalization answers is in canonical form.
pub normalize_phone_number-IsCanonical :
    (code_of : String) (phone : Option String) (t : String)
    → IsCountryCode code_of
    → normalize_phone_number code_of phone ≡ ok t
    → IsCanonical t
unfolding normalize_phone_number
normalize_phone_number-IsCanonical code_of none t hc e = ground arith
normalize_phone_number-IsCanonical code_of (some phone) t hc e =
    ground (arith, normalize_digits-IsCanonical code_of (drop_symbols (strip phone)) t hc)

trim_end-digits : (s : String) → all_digits s ≡ true → trim_end s ≡ s
unfolding trim_end is_space
trim_end-digits String.[] h = refl
trim_end-digits (String.◌∷◌ c s) h = ground (arith, trim_end-digits s)

drop_symbols-digits : (s : String) → all_digits s ≡ true → drop_symbols s ≡ s
unfolding drop_symbols is_space
drop_symbols-digits String.[] h = refl
drop_symbols-digits (String.◌∷◌ c s) h = ground (arith, drop_symbols-digits s)

strip-digits : (s : String) → all_digits s ≡ true → strip s ≡ s
unfolding strip drop_spaces is_space
strip-digits String.[] h = refl
strip-digits (String.◌∷◌ c s) h = ground (arith, trim_end-digits (String.◌∷◌ c s))

isdigit-IsCanonical : (s : String) → IsCanonical s → isdigit s ≡ true
isdigit-IsCanonical String.[] h = ground (arith, h.shortest)
isdigit-IsCanonical (String.◌∷◌ c s) h = h.digits

str_eq-cons : (c : Char) (s : String) → str_eq (String.◌∷◌ c s) "" ≡ false
str_eq-cons c s = elim (Bool-cases (str_eq (String.◌∷◌ c s) "")) [
  | inl h ↦
      let e : suc (characters s) ≡ 0 = ap characters ((eq_iff (String.◌∷◌ c s) "").0 h) in
      ground arith
  | inr h ↦ h
]

check_length-fixed : (s : String) → 8 ≤ characters s → characters s ≤ 15 → check_length s ≡ ok s
check_length-fixed s low high = ground arith

-- A number in canonical form is left alone.
normalize_phone_number-fixed :
    (code_of s : String) → IsCanonical s → normalize_phone_number code_of (some s) ≡ ok s
unfolding normalize_phone_number
normalize_phone_number-fixed code_of String.[] h = ground (arith, h.shortest)
normalize_phone_number-fixed code_of (String.◌∷◌ c s) h =
    rw (strip-digits (String.◌∷◌ c s) h.digits) (
      rw (drop_symbols-digits (String.◌∷◌ c s) h.digits) (
        rw (str_eq-cons c s) (
          rw (isdigit-IsCanonical (String.◌∷◌ c s) h)
            (rw h.international (check_length-fixed (String.◌∷◌ c s) h.shortest h.longest)))))

-- For a country code of digits that does not begin with 0: what the normalization answers is in
-- canonical form, and normalized again it is left as it is.
pub normalize_phone_number-idempotent :
    (code_of : String) (phone : Option String) (t : String)
    → IsCountryCode code_of
    → normalize_phone_number code_of phone ≡ ok t
    → IsCanonical t × (normalize_phone_number code_of (some t) ≡ ok t)
normalize_phone_number-idempotent code_of phone t hc e =
    let canonical = normalize_phone_number-IsCanonical code_of phone t hc e in
    (canonical, normalize_phone_number-fixed code_of t canonical)
