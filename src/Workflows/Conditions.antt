-- ===== src/Workflows/Conditions.antt =====
-- app/core/workflows/conditions.py: `get_nested_value` and `ConditionEvaluator`. Python accepts any JSON
-- value as a condition, and so does the model; what is not a dictionary raises.
pub mod Grammar
use Prim.Native.Char.{code}
use text.Mathlib.Text.{find?}
use multi_agent_ai_system.Prelude.{
  ◌==◌, String, str_eq, mem_str, lookup, Bool, true, false, not, ◌||◌, Option, none, some, List, [],
  ◌∷◌, if◌then◌else◌,
}
use multi_agent_ai_system.Prelude.Json.{
  Json, null, boolean, num, str, arr, obj, Items, nil, cons, Dict, end, entry, get, truthy,
}
use multi_agent_ai_system.Core.Exceptions.{
  Result, ok, err, value_error, attribute_error, type_error,
}
use multi_agent_ai_system.Workflows.Comparisons.{Spelling, as_text, is_some, equal, operators}

-- `path.split(".")`: the part that begins the text, and those after it.
abbrev pub split_dots : String → String × List String
split_dots String.[] = ("", [])
split_dots (String.◌∷◌ c s) =
    let (part, parts) = split_dots s in
    if code c == 46 then ("", part ∷ parts) else (String.◌∷◌ c part, parts)

unfoldable pub descend : List String → Json → Json
descend [] v = v
descend (part ∷ parts) (obj d) = elim (get part d) [ none ↦ null | some v ↦ descend parts v ]
descend (part ∷ parts) v = null

unfoldable pub get_nested_value : Dict → String → Json
unfolding descend
get_nested_value fields path =
    let (part, parts) = split_dots path in descend (part ∷ parts) (obj fields)

abbrev pub or_null : Option Json → Json
or_null none = null
or_null (some v) = v

module _ (spelling : Spelling) where
  -- `condition["AND"]`, or `.get`, of a text
  abbrev pub not_a_dict : String → Result Bool
  not_a_dict s =
      err
        (if is_some (find? s "AND") || is_some (find? s "OR") then type_error else attribute_error)

  abbrev pub mem_text : String → Items → Bool
  mem_text s nil = false
  mem_text s (cons x xs) = elim (as_text spelling x) [
    | some t ↦ str_eq t s || mem_text s xs
    | none ↦ mem_text s xs
  ]

  -- A group that is no list is iterated all the same: over the keys of a dictionary, or over the
  -- characters of a text, neither of which is a condition.
  abbrev pub no_list : Bool → Json → Result Bool
  no_list b (obj end) = ok b
  no_list b (obj (entry k v d)) = not_a_dict k
  no_list b v = elim (as_text spelling v) [
    | some s ↦ if str_eq s "" then ok b else err attribute_error
    | none ↦ err type_error
  ]

  abbrev pub no_condition : Json → Result Bool
  no_condition (arr xs) =
      err (if mem_text "AND" xs || mem_text "OR" xs then type_error else attribute_error)
  no_condition v = elim (as_text spelling v) [ some s ↦ not_a_dict s | none ↦ err type_error ]

  -- `cls.OPERATORS[op]`; a list or a dictionary is no key.
  unfoldable pub operator_of : Json → Result (Json → Json → Result Bool)
  unfolding operators
  operator_of (arr xs) = err type_error
  operator_of (obj d) = err type_error
  operator_of op = elim (as_text spelling op) [
    | some name ↦ elim (lookup name (operators spelling)) [
      | some test ↦ ok test
      | none ↦ err value_error
    ]
    | none ↦ err value_error
  ]

module _ (spelling : Spelling) (context : Dict) where
  -- A condition that is no group.
  unfoldable pub evaluate_test : Dict → Result Bool
  unfolding operator_of get_nested_value
  evaluate_test condition =
      let field_path = or_null (get "field" condition) in
      let op = or_null (get "operator" condition) in
      if not (truthy field_path) || not (truthy op)
      then ok true
      else elim (operator_of spelling op) [
        | err e ↦ err e
        | ok test ↦ elim (as_text spelling field_path) [
          | some path ↦ test (get_nested_value context path) (or_null (get "value" condition))
          | none ↦ err attribute_error
        ]
      ]

  -- The groups are found on the way through the dictionary, so that the recursion is structural.
  unfoldable mutual
    unfolding evaluate_test

    pub evaluate_condition : Json → Result Bool
    evaluate_condition (obj condition) = elim (and_group condition) [
      | some r ↦ r
      | none ↦ elim (or_group condition) [ some r ↦ r | none ↦ evaluate_test condition ]
    ]
    evaluate_condition v = no_condition spelling v

    pub and_group : Dict → Option (Result Bool)
    and_group end = none
    and_group (entry k v d) =
        let rest = and_group d in let here = all_of v in if str_eq "AND" k then some here else rest

    pub or_group : Dict → Option (Result Bool)
    or_group end = none
    or_group (entry k v d) =
        let rest = or_group d in let here = any_of v in if str_eq "OR" k then some here else rest

    pub all_of : Json → Result Bool
    all_of (arr xs) = all_items xs
    all_of v = no_list spelling true v

    pub any_of : Json → Result Bool
    any_of (arr xs) = any_items xs
    any_of v = no_list spelling false v

    -- `all(…)` and `any(…)` stop at the first answer that decides.
    pub all_items : Items → Result Bool
    all_items nil = ok true
    all_items (cons c cs) =
        let rest = all_items cs in
        elim (evaluate_condition c) [ ok b ↦ if b then rest else ok false | err e ↦ err e ]

    pub any_items : Items → Result Bool
    any_items nil = ok false
    any_items (cons c cs) =
        let rest = any_items cs in
        elim (evaluate_condition c) [ ok b ↦ if b then ok true else rest | err e ↦ err e ]

  unfoldable pub evaluate_conditions : Json → Result Bool
  unfolding evaluate_condition
  evaluate_conditions conditions = if truthy conditions then all_of conditions else ok true
