-- ===== src/Tests/Sampling.antt =====
-- Sampling under a bound.
use looptimum.Prelude.{length, ◌≤◌, ◌+◌, ℕ, none, some, [], ◌∷◌, ◌≡◌, refl}
use looptimum.Prelude.Int.{pos}
use looptimum.Float.{integers}
use looptimum.Values.{Value, int, Dict}
use looptimum.Constraints.{
  Constraints, Sample, sample_feasible_candidates, sample_loop, attempt, evaluate_constraints,
  accumulate_reject_counts,
}
use looptimum.Constraints.Sampled.{IsSample, Ended, total, sample_feasible_candidates-IsSample}

-- Of the losses 0, 1, 2, ... only those from 2 on are allowed.
abbrev lower_bound : Constraints integers.F
unfolding integers
lower_bound = record {
  bound_tightening =
      record { rule_id = "bound_tightening[0]"; param = "x"; min = some (pos 2); max = none } ∷ [];
  linear_inequalities = [];
  forbidden_combinations = [];
}

abbrev draw : ℕ → Dict (Value integers.F)
unfolding integers
draw n = ("x", int (pos n)) ∷ []

abbrev drawn : Sample integers.F
drawn = record {
  candidates = draw 2 ∷ draw 3 ∷ [];
  attempts = 4;
  reject_counts = ("bound_tightening[0]", 2) ∷ [];
}

sampled : sample_feasible_candidates integers draw (some lower_bound) 2 9 ≡ some (drawn, 2)
unfolding integers draw lower_bound sample_feasible_candidates sample_loop attempt
    evaluate_constraints accumulate_reject_counts
sampled = refl

sample_feasible_candidates-IsSample_example :
    IsSample integers draw (some lower_bound) drawn
    × Ended integers draw 2 9 drawn
    × (2 + length drawn.candidates ≡ drawn.attempts)
    × (2 ≤ total drawn.reject_counts)
sample_feasible_candidates-IsSample_example =
    sample_feasible_candidates-IsSample integers draw (some lower_bound) 2 9 sampled
