-- ===== src/Space/Order.antt =====
-- `_ordered_parameters` of templates/_shared/search_space.py: a depth-first visit with three
-- states for each name. The recursion of `visit` takes fuel, one more than there are parameters.
mod Rule
pub mod Bounded
pub mod Sorted
pub mod Acyclic
pub mod Active
use looptimum.Prelude.{
  ℕ, zero, suc, Bool, true, false, Option, none, some, String, str_eq, List, [], ◌∷◌, ◌++◌, lookup,
  insert, length, if◌then◌else◌, or_else, ◌==◌,
}
use looptimum.Float.{Float}
use looptimum.Values.{Value, Dict, same_choice}
use looptimum.Prelude.Exec.{Result, ok, err}
use looptimum.Prelude.Answer.{◌>>=◌}
use looptimum.Space.{Param, controllers, omit_inactive, add_unknown}

pub data OrderError : Type 0 where
  cycle : String → OrderError
  unknown : String → OrderError
  out_of_fuel : OrderError

pub record Visit (F : Type 0) : Type 0 where
  -- 1 while a name is being visited, 2 after; an absent name is 0
  pub visit_state : Dict ℕ
  pub ordered : List (Param F)

module _ {F : Type 0} where
  unfoldable pub find_param : String → List (Param F) → Option (Param F)
  find_param name [] = none
  find_param name (p ∷ ps) = if str_eq p.name name then some p else find_param name ps

  -- `for controller_name in when: visit(controller_name)`
  unfoldable pub visit_each :
      (String → Visit F → Result OrderError (Visit F))
      → List String
      → Visit F
      → Result OrderError (Visit F)
  visit_each visit [] v = ok v
  visit_each visit (name ∷ names) v = do next ← visit name v; visit_each visit names next

  unfoldable pub enter : String → Visit F → Visit F
  unfolding insert
  enter name v = record v { visit_state = insert name 1 v.visit_state }

  unfoldable pub leave : Param F → String → Visit F → Visit F
  unfolding insert
  leave param name v = record {
    visit_state = insert name 2 v.visit_state;
    ordered = v.ordered ++ param ∷ [];
  }

  abbrev pub state_of : String → Visit F → ℕ
  state_of name v = or_else (lookup name v.visit_state) 0

  unfoldable pub visit : List (Param F) → ℕ → String → Visit F → Result OrderError (Visit F)
  visit params zero name v = err out_of_fuel
  visit params (suc fuel) name v =
      let go = λ (param : Param F).
        (visit_each (visit params fuel) (controllers param) (enter name v) >>= λ next.
        ok (leave param name next)) in
      if state_of name v == 2
      then ok v
      else if state_of name v == 1
      then err (cycle name)
      else elim (find_param name params) [ none ↦ err (unknown name) | some param ↦ go param ]

  abbrev pub names_of : List (Param F) → List String
  names_of [] = []
  names_of (p ∷ ps) = p.name ∷ names_of ps

  unfoldable pub ordered_parameters : List (Param F) → Result OrderError (List (Param F))
  ordered_parameters params =
      visit_each (visit params (suc (length params))) (names_of params)
        (record { visit_state = []; ordered = [] })
      >>= λ v. ok v.ordered

module _ (fl : Float) where
  unfoldable pub canonicalize_conditional_params :
      Dict (Value fl.F) → List (Param fl.F) → Result OrderError (Dict (Value fl.F))
  unfolding ordered_parameters omit_inactive add_unknown
  canonicalize_conditional_params values params = do
    ordered ← ordered_parameters params
    ok (add_unknown fl params values (omit_inactive fl values ordered []))
