-- ===== src/Tests/Pareto.antt =====
-- The front of three trials with two objectives.
use looptimum.Prelude.{◌≡◌, refl, List, [], ◌∷◌, some, All, false}
use looptimum.Prelude.Int.{ℤ, pos}
use looptimum.Float.{integers, integers-IsOrdered}
use looptimum.Values.{float}
use looptimum.Objectives.{ObjectiveCfg, Direction, primary_only, objective_names}
use looptimum.Objectives.Order.{RankKey}
use looptimum.Objectives.Optimal.{IsNumberKey}
use looptimum.Objectives.Pareto.{TrialRecord, pareto_front_records}
use looptimum.Objectives.Pareto.Vectors.{AllDiffer}
use looptimum.Objectives.Pareto.Exact.{IsFront, pareto_front_records-IsFront}

abbrev two_goals : ObjectiveCfg integers.F
unfolding integers
two_goals = record {
  primary = record {
    name = "loss";
    direction = Direction.minimize;
    tolerance = pos 0;
    failure_handling = "exclude";
  };
  secondary =
      record {
        name = "gain";
        direction = Direction.maximize;
        tolerance = pos 0;
        failure_handling = "exclude";
      }
      ∷ [];
  scalarization = primary_only;
}

abbrev best_gain : TrialRecord integers.F
unfolding integers
best_gain = record {
  trial_id = 1;
  objectives = ("loss", float (pos 1)) ∷ ("gain", float (pos 5)) ∷ [];
}

abbrev outdone : TrialRecord integers.F
unfolding integers
outdone = record {
  trial_id = 2;
  objectives = ("loss", float (pos 2)) ∷ ("gain", float (pos 3)) ∷ [];
}

abbrev least_loss : TrialRecord integers.F
unfolding integers
least_loss = record {
  trial_id = 3;
  objectives = ("loss", float (pos 0)) ∷ ("gain", float (pos 1)) ∷ [];
}

abbrev trials : List (TrialRecord integers.F)
trials = best_gain ∷ outdone ∷ least_loss ∷ []

abbrev front : List (TrialRecord integers.F)
front = least_loss ∷ best_gain ∷ []

front_found : pareto_front_records integers trials two_goals ≡ some front
unfolding integers two_goals best_gain outdone least_loss pareto_front_records
front_found = refl

names_differ : AllDiffer (objective_names two_goals)
unfolding two_goals objective_names
names_differ = ((refl, tt), (tt, tt))

whole_key : (k : RankKey integers.F) → IsNumberKey integers k
unfolding integers
whole_key k = (refl, all k.lexicographic)
  where
    all : (xs : List ℤ) → All (λ _. false ≡ false) xs
    all [] = tt
    all (x ∷ xs) = (refl, all xs)

pareto_front_records-IsFront_example : IsFront integers two_goals trials front
pareto_front_records-IsFront_example =
    pareto_front_records-IsFront integers two_goals integers-IsOrdered names_differ trials
      (λ k _. whole_key k, (λ k _. whole_key k, (λ k _. whole_key k, tt))) front_found
