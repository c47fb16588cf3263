-- ===== src/Prelude/Json.antt =====
-- The values that the program keeps in its JSON columns and in the payloads of its events.
use Prim.Native.Nat.{ℕ}
use Prim.Native.String.{String}
use mathlib.Core.Path.{◌≡◌}
use mathlib.Core.Bool.{Bool, true, false, not}
use mathlib.Core.Option.{Option, none, some}
use text.Mathlib.Text.{◌==◌ as str_eq}
use native.Mathlib.Omega.{arith}
use text.Mathlib.TextEquality.{eq_iff}
use multi_agent_ai_system.Prelude.Tests.{if◌then◌else◌}
use multi_agent_ai_system.Prelude.Int.{ℤ, eq_ℤ}

-- `id_text`, `amount_text` and `time_text` are the texts of an identifier, of an amount and of a
-- time, which the program reads back.
mutual
  pub data Json : Type 0 where
    null : Json
    boolean : Bool → Json
    num : ℤ → Json
    str : String → Json
    id_text : ℕ → Json
    amount_text : ℤ → Json
    time_text : ℕ → Json
    arr : Items → Json
    obj : Dict → Json

  pub data Items : Type 0 where
    nil : Items
    cons : Json → Items → Items

  pub data Dict : Type 0 where
    end : Dict
    entry : String → Json → Dict → Dict

-- `d.get(k)`
abbrev pub get : String → Dict → Option Json
get k end = none
get k (entry j v d) = if str_eq k j then some v else get k d

-- `d[k] = v`
abbrev pub put : String → Json → Dict → Dict
put k v end = entry k v end
put k v (entry j w d) = if str_eq k j then entry j v d else entry j w (put k v d)

-- `d.pop(k, None)`
abbrev pub pop : String → Dict → Dict
pop k end = end
pop k (entry j w d) = if str_eq k j then d else entry j w (pop k d)

-- `d or {}` of a column that may be null
abbrev pub or_empty : Option Dict → Dict
or_empty none = end
or_empty (some d) = d

pub get-put :
    (k j : String) (v : Json) (d : Dict)
    → get j (put k v d) ≡ (if str_eq j k then some v else get j d)
get-put k j v end = ground arith
get-put k j v (entry i w d) = ground (arith, eq_iff k i, eq_iff j i, eq_iff j k, get-put k j v d)

-- The truth of a value. The texts of identifiers, amounts and times are not empty.
abbrev pub truthy : Json → Bool
truthy null = false
truthy (boolean b) = b
truthy (num n) = not (eq_ℤ n (ℤ.pos 0))
truthy (str s) = not (str_eq s "")
truthy (arr nil) = false
truthy (obj end) = false
truthy _ = true

-- `d.get(k) == s` for a text that is neither an identifier nor an amount nor a time
abbrev pub is_text : String → Option Json → Bool
is_text s (some (str t)) = str_eq t s
is_text s _ = false
