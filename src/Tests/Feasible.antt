-- ===== src/Tests/Feasible.antt =====
-- A candidate under a bound, an inequality and a forbidden combination.
use looptimum.Prelude.{none, some, true, [], ◌∷◌, ◌≡◌, refl, ◌↔◌}
use looptimum.Prelude.Int.{pos}
use looptimum.Float.{integers}
use looptimum.Values.{Value, int, str, Dict}
use looptimum.Constraints.{Constraints, Operator, Evaluation, evaluate_constraints}
use looptimum.Constraints.Feasible.{IsFeasible, evaluate_constraints-IsFeasible}

abbrev rules : Constraints integers.F
unfolding integers
rules = record {
  bound_tightening =
      record { rule_id = "bound_tightening[0]"; param = "x"; min = some (pos 2); max = none } ∷ [];
  linear_inequalities =
      record {
        rule_id = "linear_inequalities[0]";
        terms = ("x", pos 1) ∷ ("y", pos 3) ∷ [];
        operator = Operator.at_most;
        rhs = pos 9;
      }
      ∷ [];
  forbidden_combinations =
      record {
        rule_id = "forbidden_combinations[0]";
        when = ("kind", str "deep" ∷ []) ∷ ("y", int (pos 2) ∷ []) ∷ [];
      }
      ∷ [];
}

abbrev candidate : Dict (Value integers.F)
unfolding integers
candidate = ("kind", str "deep") ∷ ("x", int (pos 3)) ∷ ("y", int (pos 1)) ∷ []

abbrev found : Evaluation
found = record { feasible = true; violations = []; reject_counts = [] }

evaluated : evaluate_constraints integers candidate rules ≡ some found
unfolding evaluate_constraints integers candidate rules
evaluated = refl

evaluate_constraints-IsFeasible_example :
    (found.feasible ≡ true) ↔ IsFeasible integers candidate rules
evaluate_constraints-IsFeasible_example =
    evaluate_constraints-IsFeasible integers candidate rules evaluated
