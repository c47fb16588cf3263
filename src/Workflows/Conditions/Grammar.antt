-- ===== src/Workflows/Conditions/Grammar.antt =====
-- What a condition that is written as documented means: an independent reading of the groups and of
-- the tests that cannot fail, which the evaluator is compared with.
use multi_agent_ai_system.Prelude.{
  String, str_eq, Bool, true, false, not, none, some, ◌&&◌, ◌||◌, ◌≡◌, refl, ◌∙◌, if◌then◌else◌,
  arith,
}
use multi_agent_ai_system.Prelude.Json.{
  Json, str, arr, obj, Items, nil, cons, Dict, end, entry, get,
}
use multi_agent_ai_system.Core.Exceptions.{ok}
use multi_agent_ai_system.Workflows.Comparisons.{Spelling, equal, is_null, operators}
use multi_agent_ai_system.Workflows.Conditions.{
  get_nested_value, operator_of, evaluate_test, evaluate_condition, all_items, any_items, all_of,
  any_of, and_group, or_group, evaluate_conditions,
}

-- The operators that answer on any two values.
pub data Test : Type 0 where
  equals : Json → Test
  not_equals : Json → Test
  exists : Test
  not_exists : Test

mutual
  pub data Condition : Type 0 where
    test : String → Test → Condition
    every_one : Conditions → Condition
    some_one : Conditions → Condition

  pub data Conditions : Type 0 where
    none_left : Conditions
    then_one : Condition → Conditions → Conditions

abbrev pub write_test : String → Test → Dict
write_test path (equals v) =
    entry "field" (str path) (entry "operator" (str "equals") (entry "value" v end))
write_test path (not_equals v) =
    entry "field" (str path) (entry "operator" (str "not_equals") (entry "value" v end))
write_test path exists = entry "field" (str path) (entry "operator" (str "exists") end)
write_test path not_exists = entry "field" (str path) (entry "operator" (str "not_exists") end)

unfoldable mutual
  pub write : Condition → Json
  write (test path t) = obj (write_test path t)
  write (every_one cs) = obj (entry "AND" (arr (write_all cs)) end)
  write (some_one cs) = obj (entry "OR" (arr (write_all cs)) end)

  pub write_all : Conditions → Items
  write_all none_left = nil
  write_all (then_one c cs) = cons (write c) (write_all cs)

module _ (spelling : Spelling) (context : Dict) where
  -- A test without a field holds.
  abbrev pub test_holds : String → Test → Bool
  unfolding equal get_nested_value
  test_holds path t = if str_eq path "" then true else elim t [
    | equals v ↦ equal spelling (get_nested_value context path) v
    | not_equals v ↦ not (equal spelling (get_nested_value context path) v)
    | exists ↦ not (is_null (get_nested_value context path))
    | not_exists ↦ is_null (get_nested_value context path)
  ]

  unfoldable mutual
    pub holds : Condition → Bool
    holds (test path t) = test_holds path t
    holds (every_one cs) = every_holds cs
    holds (some_one cs) = some_holds cs

    pub every_holds : Conditions → Bool
    every_holds none_left = true
    every_holds (then_one c cs) = holds c && every_holds cs

    pub some_holds : Conditions → Bool
    some_holds none_left = false
    some_holds (then_one c cs) = holds c || some_holds cs

  test-evaluates :
      (path : String) (t : Test)
      → evaluate_test spelling context (write_test path t) ≡ ok (test_holds path t)
  unfolding evaluate_test operator_of operators
  test-evaluates path (equals v) = ground arith
  test-evaluates path (not_equals v) = ground arith
  test-evaluates path exists = ground arith
  test-evaluates path not_exists = ground arith

  evaluate_condition-test :
      (path : String) (t : Test)
      → evaluate_condition spelling context (obj (write_test path t))
        ≡ evaluate_test spelling context (write_test path t)
  unfolding evaluate_condition
  evaluate_condition-test path (equals v) = refl
  evaluate_condition-test path (not_equals v) = refl
  evaluate_condition-test path exists = refl
  evaluate_condition-test path not_exists = refl

  mutual
    unfolding evaluate_condition write holds

    evaluate_condition-write :
        (c : Condition) → evaluate_condition spelling context (write c) ≡ ok (holds c)
    evaluate_condition-write (test path t) = evaluate_condition-test path t ∙ test-evaluates path t
    evaluate_condition-write (every_one cs) = all_items-write cs
    evaluate_condition-write (some_one cs) = any_items-write cs

    all_items-write :
        (cs : Conditions) → all_items spelling context (write_all cs) ≡ ok (every_holds cs)
    all_items-write none_left = refl
    all_items-write (then_one c cs) = ground (arith, evaluate_condition-write c, all_items-write cs)

    any_items-write :
        (cs : Conditions) → any_items spelling context (write_all cs) ≡ ok (some_holds cs)
    any_items-write none_left = refl
    any_items-write (then_one c cs) = ground (arith, evaluate_condition-write c, any_items-write cs)

  -- The list of a workflow: all of its conditions hold.
  pub evaluate_conditions-write :
      (cs : Conditions)
      → evaluate_conditions spelling context (arr (write_all cs)) ≡ ok (every_holds cs)
  unfolding evaluate_conditions write holds
  evaluate_conditions-write none_left = refl
  evaluate_conditions-write (then_one c cs) = all_items-write (then_one c cs)

  mutual
    unfolding evaluate_condition

    and_group-get :
        (d : Dict)
        → and_group spelling context d
          ≡ elim (get "AND" d) [ none ↦ none | some v ↦ some (all_of spelling context v) ]
    and_group-get end = refl
    and_group-get (entry k v d) = ground (arith, and_group-get d)

    or_group-get :
        (d : Dict)
        → or_group spelling context d
          ≡ elim (get "OR" d) [ none ↦ none | some v ↦ some (any_of spelling context v) ]
    or_group-get end = refl
    or_group-get (entry k v d) = ground (arith, or_group-get d)

  -- A dictionary with the key AND is the conjunction of what stands under it, or else one with the
  -- key OR the disjunction, wherever the key stands; one with neither key is a test.
  pub evaluate_condition-obj :
      (d : Dict)
      → evaluate_condition spelling context (obj d) ≡ elim (get "AND" d) [
        | some v ↦ all_of spelling context v
        | none ↦ elim (get "OR" d) [
          | some v ↦ any_of spelling context v
          | none ↦ evaluate_test spelling context d
        ]
      ]
  unfolding evaluate_condition
  evaluate_condition-obj d = ground (arith, and_group-get d, or_group-get d)
