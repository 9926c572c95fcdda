-- ===== src/Constraints.antt =====
-- templates/_shared/constraints.py: the evaluation of normalized constraints, rejection counts, and
-- the sampling of feasible candidates. A violation is kept by its rule; the texts of messages and
-- their details are left out. `none` stands for a raised exception: the value of a raw numeric
-- parameter is a number, and what `float` makes of a text is not asked.
pub mod Sampled
pub mod Feasible
use looptimum.Prelude.{
  ℕ, zero, suc, ◌+◌, ◌-◌, Bool, true, false, not, Option, none, some, String, List, [], ◌∷◌, ◌++◌,
  lookup, has_key, insert, any_of, all_of, is_nil, ltb, length, or_else, if◌then◌else◌,
}
use looptimum.Prelude.Int.{ℤ}
use looptimum.Prelude.Maybe.{◌>>=◌}
use looptimum.Float.{Float}
use looptimum.Values.{Value, null, bool, int, float, str, Dict, as_int}
use looptimum.Space.{allows}

pub record BoundRule (F : Type 0) : Type 0 where
  pub rule_id : String
  pub param : String
  pub min : Option F
  pub max : Option F

pub data Operator : Type 0 where
  at_most at_least : Operator

pub record LinearRule (F : Type 0) : Type 0 where
  pub rule_id : String
  -- each parameter with its coefficient
  pub terms : Dict F
  pub operator : Operator
  pub rhs : F

pub record ForbiddenRule (F : Type 0) : Type 0 where
  pub rule_id : String
  pub when : Dict (List (Value F))

pub record Constraints (F : Type 0) : Type 0 where
  pub bound_tightening : List (BoundRule F)
  pub linear_inequalities : List (LinearRule F)
  pub forbidden_combinations : List (ForbiddenRule F)

pub data RuleType : Type 0 where
  bound_tightening linear_inequality forbidden_combination : RuleType

pub record Violation : Type 0 where
  pub rule_id : String
  pub rule_type : RuleType

pub record Evaluation : Type 0 where
  pub feasible : Bool
  pub violations : List Violation
  pub reject_counts : Dict ℕ

-- `counts[rule_id] = counts.get(rule_id, 0) + n`
unfoldable pub add_count : String → ℕ → Dict ℕ → Dict ℕ
unfolding insert lookup
add_count rule_id n counts = insert rule_id (or_else (lookup rule_id counts) 0 + n) counts

unfoldable pub count_violations : List Violation → Dict ℕ → Dict ℕ
unfolding add_count
count_violations [] counts = counts
count_violations (v ∷ vs) counts = count_violations vs (add_count v.rule_id 1 counts)

unfoldable pub summarize_reject_counts : List Violation → Dict ℕ
unfolding count_violations
summarize_reject_counts violations = count_violations violations []

unfoldable pub accumulate_reject_counts : Dict ℕ → Dict ℕ → Dict ℕ
unfolding add_count
accumulate_reject_counts counts [] = counts
accumulate_reject_counts counts ((rule_id, n) ∷ more) =
    accumulate_reject_counts (add_count rule_id n counts) more

-- The violations of the rules that are broken; a rule whose test raises ends the evaluation.
unfoldable pub broken_rules :
    {R : Type 0} → (R → Option Bool) → (R → Violation) → List R → Option (List Violation)
broken_rules is_broken violation [] = some []
broken_rules is_broken violation (rule ∷ rules) = do
  broken ← is_broken rule
  rest ← broken_rules is_broken violation rules
  some (if broken then violation rule ∷ rest else rest)

module _ (fl : Float) where
  abbrev pub below_min : Option fl.F → fl.F → Bool
  below_min none value = false
  below_min (some min) value = fl.ltb value (fl.sub min fl.tolerance)

  abbrev pub above_max : Option fl.F → fl.F → Bool
  above_max none value = false
  above_max (some max) value = fl.ltb (fl.add max fl.tolerance) value

  unfoldable pub breaks_bounds : BoundRule fl.F → fl.F → Bool
  breaks_bounds rule value = if below_min rule.min value then true else above_max rule.max value

  -- A value that is there and a finite number; all other values are passed over. `none` is the
  -- error for a whole number that no float can hold.
  unfoldable pub finite_value : Option (Value fl.F) → Option (Option fl.F)
  finite_value (some (int n)) =
      let x = fl.of_int n in if fl.is_finite x then some (some x) else none
  finite_value (some (float x)) = some (if fl.is_finite x then some x else none)
  finite_value _ = some none

  unfoldable pub judge_bound : BoundRule fl.F → Option fl.F → Option Bool
  unfolding breaks_bounds
  judge_bound rule none = some false
  judge_bound rule (some x) = some (breaks_bounds rule x)

  unfoldable pub is_bound_broken : Dict (Value fl.F) → BoundRule fl.F → Option Bool
  unfolding finite_value lookup judge_bound
  is_bound_broken values rule = finite_value (lookup rule.param values) >>= judge_bound rule

  unfoldable pub as_float : Option (Value fl.F) → Option fl.F
  as_float (some (int n)) = let x = fl.of_int n in if fl.is_finite x then some x else none
  as_float (some (float x)) = some x
  as_float (some (bool b)) = some (fl.of_int (as_int b))
  as_float _ = none

  -- The left side, added up from its first term on.
  unfoldable pub left_side : Dict (Value fl.F) → Dict fl.F → fl.F → Option fl.F
  unfolding as_float lookup
  left_side values [] lhs = some lhs
  left_side values ((param, coefficient) ∷ terms) lhs = do
    observed ← as_float (lookup param values)
    left_side values terms (fl.add lhs (fl.mul coefficient observed))

  unfoldable pub side_holds : Operator → fl.F → fl.F → Bool
  side_holds at_most lhs rhs = fl.leb lhs (fl.add rhs fl.tolerance)
  side_holds at_least lhs rhs = fl.leb (fl.sub rhs fl.tolerance) lhs

  unfoldable pub is_linear_broken : Dict (Value fl.F) → LinearRule fl.F → Option Bool
  unfolding left_side side_holds has_key
  is_linear_broken values rule =
      if any_of (λ term. not (has_key term.0 values)) rule.terms then some false else (do
        lhs ← left_side values rule.terms fl.zero
        some (not (side_holds rule.operator lhs rule.rhs)))

  unfoldable pub match_allowed_values : Dict (Value fl.F) → Dict (List (Value fl.F)) → Bool
  unfolding allows lookup
  match_allowed_values values when = all_of (λ c. allows fl (lookup c.0 values) c.1) when

  unfoldable pub evaluate_bound_tightening :
      Dict (Value fl.F) → List (BoundRule fl.F) → Option (List Violation)
  unfolding is_bound_broken broken_rules
  evaluate_bound_tightening values =
      broken_rules (is_bound_broken values)
        (λ rule. record { rule_id = rule.rule_id; rule_type = RuleType.bound_tightening })

  unfoldable pub evaluate_linear_inequalities :
      Dict (Value fl.F) → List (LinearRule fl.F) → Option (List Violation)
  unfolding is_linear_broken broken_rules
  evaluate_linear_inequalities values =
      broken_rules (is_linear_broken values)
        (λ rule. record { rule_id = rule.rule_id; rule_type = RuleType.linear_inequality })

  unfoldable pub evaluate_forbidden_combinations :
      Dict (Value fl.F) → List (ForbiddenRule fl.F) → List Violation
  unfolding match_allowed_values
  evaluate_forbidden_combinations values [] = []
  evaluate_forbidden_combinations values (rule ∷ rules) =
      let rest = evaluate_forbidden_combinations values rules in
      if match_allowed_values values rule.when
      then record { rule_id = rule.rule_id; rule_type = RuleType.forbidden_combination } ∷ rest
      else rest

  abbrev pub evaluation_of : List Violation → Evaluation
  evaluation_of violations = record {
    feasible = is_nil violations;
    violations = violations;
    reject_counts = summarize_reject_counts violations;
  }

  abbrev pub all_violations :
      Dict (Value fl.F) → Constraints fl.F → (bounds linear : List Violation) → List Violation
  all_violations values constraints bounds linear =
      bounds
      ++ (linear ++ evaluate_forbidden_combinations values constraints.forbidden_combinations)

  unfoldable pub evaluate_constraints : Dict (Value fl.F) → Constraints fl.F → Option Evaluation
  unfolding evaluate_bound_tightening evaluate_linear_inequalities evaluate_forbidden_combinations
      summarize_reject_counts
  evaluate_constraints values constraints = do
    bounds ← evaluate_bound_tightening values constraints.bound_tightening
    linear ← evaluate_linear_inequalities values constraints.linear_inequalities
    some (evaluation_of (all_violations values constraints bounds linear))

-- What the loop of the sampling has so far.
pub record Sample (F : Type 0) : Type 0 where
  pub candidates : List (Dict (Value F))
  pub attempts : ℕ
  pub reject_counts : Dict ℕ

-- The sample with the number of the attempts that gave no candidate.
abbrev pub with_infeasible : {F : Type 0} → Sample F → Sample F × ℕ
with_infeasible s = (s, s.attempts - length s.candidates)

module _ (fl : Float) (sample : ℕ → Dict (Value fl.F)) where
  abbrev pub accept : Dict (Value fl.F) → Sample fl.F → Sample fl.F
  accept candidate s = record s {
    candidates = s.candidates ++ candidate ∷ [];
    attempts = suc s.attempts;
  }

  abbrev pub reject : Evaluation → Sample fl.F → Sample fl.F
  reject e s = record s {
    attempts = suc s.attempts;
    reject_counts = accumulate_reject_counts s.reject_counts e.reject_counts;
  }

  -- One more candidate; `sample` gives the one of each attempt.
  unfoldable pub attempt : Option (Constraints fl.F) → Sample fl.F → Option (Sample fl.F)
  unfolding evaluate_constraints accumulate_reject_counts
  attempt none s = some (accept (sample s.attempts) s)
  attempt (some c) s = do
    e ← evaluate_constraints fl (sample s.attempts) c
    some (if e.feasible then accept (sample s.attempts) s else reject e s)

  -- The loop; `left` is what remains of `max_attempts`.
  unfoldable pub sample_loop :
      Option (Constraints fl.F) → (target_count left : ℕ) → Sample fl.F → Option (Sample fl.F)
  unfolding attempt
  sample_loop constraints target_count zero s = some s
  sample_loop constraints target_count (suc left) s =
      let more = (attempt constraints s >>= sample_loop constraints target_count left) in
      if ltb (length s.candidates) target_count then more else some s

  unfoldable pub sample_feasible_candidates :
      Option (Constraints fl.F) → (target_count max_attempts : ℕ) → Option (Sample fl.F × ℕ)
  unfolding sample_loop
  sample_feasible_candidates constraints target_count max_attempts =
      if ltb 0 target_count
      then (if ltb 0 max_attempts
          then (do
            s ←
                sample_loop constraints target_count max_attempts
                  (record { candidates = []; attempts = 0; reject_counts = [] })
            some (with_infeasible s))
          else none)
      else none
