-- ===== src/Tests/Checks.antt =====
-- The hard checks on a campaign with two observations and a best record.
use looptimum.Prelude.{ℕ, false, none, some, List, [], ◌∷◌, ◌≡◌, refl, ◌⊎◌, ◌↔◌, ◌≤◌, All}
use looptimum.Prelude.Int.{ℤ, pos}
use looptimum.Float.{integers, integers-IsOrdered}
use looptimum.Values.{float}
use looptimum.Contract.{ok, is_ok}
use looptimum.Objectives.{objective_names}
use looptimum.Objectives.Order.{BestRecord, key_lt}
use looptimum.Objectives.Pareto.Vectors.{AllDiffer}
use looptimum.Trials.{Observation, State}
use looptimum.Trials.Best.{HasNumbers}
use looptimum.Trials.Invariant.Unique.{IsWellFormed}
use looptimum.Trials.Checks.{report_if, validate_state_hard_checks}
use looptimum.Trials.Checks.Exact.{NoIdError, validate_state_hard_checks-IsWellFormed}
use looptimum.Trials.Checks.Chosen.{Correct, validate_state_hard_checks-Correct}
use looptimum.Tests.{cfg}

abbrev measured : ℕ → integers.F → Observation integers.F
unfolding integers
measured id loss = record {
  trial_id = id;
  params = [];
  objectives = ("loss", float loss) ∷ [];
  status = ok;
  terminal_reason = none;
  penalty_objective = none;
  artifact_path = none;
  suggested_at = some (pos 1);
  completed_at = pos 2;
  last_heartbeat_at = none;
  heartbeat_count = none;
  heartbeat_note = none;
  heartbeat_meta = none;
  lease_token = none;
}

abbrev two : integers.F
unfolding integers
two = pos 2

abbrev three : integers.F
unfolding integers
three = pos 3

abbrev checked : State integers.F
unfolding integers measured
checked = record {
  schema_version = none;
  upgrade_pending = false;
  created_at = pos 0;
  seed = none;
  observations = measured 1 (pos 3) ∷ measured 2 (pos 2) ∷ [];
  pending = [];
  next_trial_id = 3;
  best = some (record {
    trial_id = 2;
    objective_name = "loss";
    objective_value = pos 2;
    updated_at = pos 9;
    policy = none;
  });
}

nothing_wrong : validate_state_hard_checks integers cfg checked ≡ some []
unfolding integers cfg checked measured validate_state_hard_checks report_if key_lt
nothing_wrong = refl

validate_state_hard_checks-IsWellFormed_example :
    NoIdError [] ↔ (IsWellFormed (some checked) × (1 ≤ checked.next_trial_id))
validate_state_hard_checks-IsWellFormed_example =
    validate_state_hard_checks-IsWellFormed integers cfg checked nothing_wrong

one_name : AllDiffer (objective_names cfg)
unfolding cfg objective_names
one_name = (tt, tt)

whole : (o : Observation integers.F) → HasNumbers integers cfg o
unfolding integers
whole o k h = (refl, all k.lexicographic)
  where
    all : (xs : List ℤ) → All (λ _. false ≡ false) xs
    all [] = tt
    all (x ∷ xs) = (refl, all xs)

validate_state_hard_checks-Correct_example :
    ((checked.best ≡ none) × All (λ o. is_ok o.status ≡ false) checked.observations)
    ⊎ ((b : BestRecord integers.F) × (checked.best ≡ some b)
        × Correct integers cfg one_name checked.observations b)
unfolding checked integers
validate_state_hard_checks-Correct_example =
    validate_state_hard_checks-Correct integers cfg integers-IsOrdered one_name checked
      (whole (measured 1 three), (whole (measured 2 two), tt)) nothing_wrong
