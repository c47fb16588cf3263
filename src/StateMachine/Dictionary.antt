-- ===== src/StateMachine/Dictionary.antt =====
-- The validators of the statuses that are plain texts: a dictionary from a status to the set of its
-- targets, where a status that is no key has no target.
use multi_agent_ai_system.Prelude.{
  String, str_eq, eq_iff, mem_str, Bool, true, ◌&&◌, List, [], ◌∷◌, ◌≡◌, ◌⊎◌, inl, inr, arith,
  Bool-cases, if◌then◌else◌,
}
use multi_agent_ai_system.Core.Exceptions.{Exception, Result, ok, err}
use multi_agent_ai_system.StateMachine.Table.{every}

abbrev pub Transitions : Type 0
Transitions = List (String × List String)

-- `table.get(status, set())`
abbrev pub targets : Transitions → String → List String
targets [] s = []
targets ((k, ts) ∷ d) s = if str_eq s k then ts else targets d s

module _ (table : Transitions) where
  unfoldable pub validate_in : Exception → String → String → Result (Unit {0})
  validate_in e current target =
      if str_eq current target
      then ok tt
      else if mem_str target (targets table current)
      then ok tt
      else err e

-- A test that passes at every text of a set passes at a text that is in it.
pub every-mem_str :
    (p : String → Bool) (ts : List String) (t : String)
    → mem_str t ts ≡ true
    → every p ts ≡ true
    → p t ≡ true
every-mem_str p [] t h k = cc
every-mem_str p (x ∷ ts) t h k = elim (Bool-cases (str_eq t x)) [
  | inl here ↦ rw ((eq_iff t x).0 here) (ground arith)
  | inr later ↦ ground (arith, every-mem_str p ts t)
]

-- A property of two texts holds at each entry of a table. On a concrete table it computes.
abbrev pub each_entry : (String → String → Bool) → Transitions → Bool
each_entry p [] = true
each_entry p ((k, ts) ∷ d) = every (p k) ts && each_entry p d

entry_at :
    (p : String → String → Bool) (d : Transitions) (s t : String)
    → each_entry p d ≡ true
    → mem_str t (targets d s) ≡ true
    → p s t ≡ true
entry_at p [] s t h m = cc
entry_at p ((k, ts) ∷ d) s t h m = elim (Bool-cases (str_eq s k)) [
  | inl here ↦ rw ((eq_iff s k).0 here) (every-mem_str (p k) ts t (rw here at m) (ground arith))
  | inr later ↦ entry_at p d s t (ground arith) (rw later at m)
]

-- So a property of the table's entries holds of each accepted transition between two statuses.
pub accepted_entry :
    (table : Transitions) (p : String → String → Bool) (e : Exception) (s t : String)
    → each_entry p table ≡ true
    → validate_in table e s t ≡ ok tt
    → (s ≡ t) ⊎ (p s t ≡ true)
unfolding validate_in
accepted_entry table p e s t h k = ground (arith, eq_iff s t, entry_at p table s t h)
