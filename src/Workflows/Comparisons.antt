-- ===== src/Workflows/Comparisons.antt =====
-- app/core/workflows/conditions.py, `OPERATORS`: what the operators of a condition answer on two JSON
-- values, and where Python refuses to compare them.
use Prim.Native.Nat.{Ordering}
use Prim.Native.String.{compare as compare_text}
use text.Mathlib.Text.{find?}
use multi_agent_ai_system.Prelude.{
  ℕ, suc, ◌==◌, String, str_eq, Bool, true, false, not, ◌&&◌, ◌||◌, Option, none, some, List, [],
  ◌∷◌, if◌then◌else◌,
}
use multi_agent_ai_system.Prelude.Int.{ℤ, eq_ℤ, ltb_ℤ}
use multi_agent_ai_system.Prelude.Json.{
  Json, null, boolean, num, str, id_text, amount_text, time_text, arr, obj, Items, nil, cons, Dict,
  end, entry, get,
}
use multi_agent_ai_system.Core.Exceptions.{Result, ok, err, type_error}

-- How identifiers, amounts and times are written: `str` and `isoformat` of the libraries.
pub record Spelling : Type 0 where
  pub of_id : ℕ → String
  pub of_amount : ℤ → String
  pub of_time : ℕ → String

abbrev pub as_text : Spelling → Json → Option String
as_text spelling (str s) = some s
as_text spelling (id_text n) = some (spelling.of_id n)
as_text spelling (amount_text n) = some (spelling.of_amount n)
as_text spelling (time_text n) = some (spelling.of_time n)
as_text spelling _ = none

-- A truth value counts as 1 or 0.
abbrev pub as_number : Json → Option ℤ
as_number (num n) = some n
as_number (boolean true) = some (ℤ.pos 1)
as_number (boolean false) = some (ℤ.pos 0)
as_number _ = none

abbrev pub both : {A : Type 0} → (A → A → Bool) → Option A → Option A → Bool
both test (some a) (some b) = test a b
both test _ _ = false

abbrev pub dict_size : Dict → ℕ
dict_size end = 0
dict_size (entry k v d) = suc (dict_size d)

abbrev pub order_ℤ : ℤ → ℤ → Ordering
order_ℤ a b = if ltb_ℤ a b then Ordering.lt else if eq_ℤ a b then Ordering.eq else Ordering.gt

abbrev pub is_some : {A : Type 0} → Option A → Bool
is_some none = false
is_some (some a) = true

abbrev pub is_null : Json → Bool
is_null null = true
is_null _ = false

module _ (spelling : Spelling) where
  abbrev pub equal_scalar : Json → Json → Bool
  equal_scalar a b =
      both str_eq (as_text spelling a) (as_text spelling b) || both eq_ℤ (as_number a) (as_number b)

  -- `a == b`: dictionaries are equal in any order of their entries.
  unfoldable mutual
    pub equal : Json → Json → Bool
    equal null null = true
    equal (arr xs) (arr ys) = equal_items xs ys
    equal (obj d) (obj e) = dict_size d == dict_size e && sub_dict d e
    equal a b = equal_scalar a b

    pub equal_items : Items → Items → Bool
    equal_items nil nil = true
    equal_items (cons x xs) (cons y ys) = equal x y && equal_items xs ys
    equal_items _ _ = false

    pub sub_dict : Dict → Dict → Bool
    sub_dict end e = true
    sub_dict (entry k v d) e = elim (get k e) [ none ↦ false | some w ↦ equal v w ] && sub_dict d e

  abbrev pub order_scalar : Json → Json → Result Ordering
  order_scalar a b = elim (as_text spelling a) [
    | some s ↦ elim (as_text spelling b) [ some t ↦ ok (compare_text s t) | none ↦ err type_error ]
    | none ↦ elim (as_number a) [
      | some m ↦ elim (as_number b) [ some n ↦ ok (order_ℤ m n) | none ↦ err type_error ]
      | none ↦ err type_error
    ]
  ]

  -- Lists are compared at their first difference.
  unfoldable mutual
    unfolding equal

    pub order : Json → Json → Result Ordering
    order (arr xs) (arr ys) = order_items xs ys
    order a b = order_scalar a b

    pub order_items : Items → Items → Result Ordering
    order_items nil nil = ok Ordering.eq
    order_items nil (cons y ys) = ok Ordering.lt
    order_items (cons x xs) nil = ok Ordering.gt
    order_items (cons x xs) (cons y ys) =
        let rest = order_items xs ys in let here = order x y in if equal x y then rest else here

  abbrev pub test_order : (Ordering → Bool) → Json → Json → Result Bool
  unfolding order
  test_order test null target = ok false
  test_order test field_val target = elim (order field_val target) [
    | ok o ↦ ok (test o)
    | err e ↦ err e
  ]

  abbrev pub mem_items : Json → Items → Bool
  unfolding equal
  mem_items target nil = false
  mem_items target (cons x xs) = equal x target || mem_items target xs

  abbrev pub key_in : Json → Dict → Result Bool
  key_in (arr xs) d = err type_error
  key_in (obj e) d = err type_error
  key_in target d = elim (as_text spelling target) [
    | some k ↦ ok (is_some (get k d))
    | none ↦ ok false
  ]

  -- `field_val is not None and target in field_val`
  abbrev pub contains : Json → Json → Result Bool
  contains null target = ok false
  contains (arr xs) target = ok (mem_items target xs)
  contains (obj d) target = key_in target d
  contains field_val target = elim (as_text spelling field_val) [
    | some s ↦ elim (as_text spelling target) [
      | some t ↦ ok (is_some (find? s t))
      | none ↦ err type_error
    ]
    | none ↦ err type_error
  ]

  unfoldable pub operators : List (String × (Json → Json → Result Bool))
  unfolding equal
  operators =
      ("equals", λ field_val target. ok (equal field_val target))
      ∷ ("not_equals", λ field_val target. ok (not (equal field_val target)))
      ∷ ("greater_than", test_order (λ o. elim o [ Ordering.gt ↦ true | _ ↦ false ]))
      ∷ ("less_than", test_order (λ o. elim o [ Ordering.lt ↦ true | _ ↦ false ]))
      ∷ ("greater_or_equal", test_order (λ o. elim o [ Ordering.lt ↦ false | _ ↦ true ]))
      ∷ ("less_or_equal", test_order (λ o. elim o [ Ordering.gt ↦ false | _ ↦ true ]))
      ∷ ("exists", λ field_val target. ok (not (is_null field_val)))
      ∷ ("not_exists", λ field_val target. ok (is_null field_val))
      ∷ ("contains", contains)
      ∷ []
