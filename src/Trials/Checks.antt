-- ===== src/Trials/Checks.antt =====
-- `_validate_state_hard_checks` of templates/bo_client/run_bo.py, on a state whose fields have the
-- types that the program writes: what it says of missing keys and of wrong types does not arise. An
-- error is kept by its kind and its place in the list; `none` stands for an exception.
pub mod Ids
pub mod Exact
pub mod Chosen
use looptimum.Prelude.{
  ℕ, zero, suc, ◌≤◌, Bool, true, false, not, ◌&&◌, Option, none, some, String, str_eq, List, [],
  ◌∷◌, ◌++◌, map, length, lookup, ltb, leb, ◌==◌, any_of, all_of, find_first, is_some,
  if◌then◌else◌,
}
use looptimum.Prelude.Maybe.{◌>>=◌}
use looptimum.Float.{Float}
use looptimum.Values.{Value, null, Dict}
use looptimum.Contract.{is_ok}
use looptimum.Objectives.{
  ObjectiveCfg, Policy, objective_names, best_objective_name, canonical_objective_vector,
  scalarize_objectives,
}
use looptimum.Objectives.Order.{RankKey, BestRecord, best_rank_key, min_by}
use looptimum.Objectives.Pareto.{as_values}
use looptimum.Trials.{Pending, Observation, State, normalize_lease_token}

pub data CheckError : Type 0 where
  next_trial_id_low next_trial_id_taken : CheckError
  duplicate_observations duplicate_pending overlap : CheckError
  observation_lease_token observation_objectives : ℕ → CheckError
  observation_not_null : ℕ → String → CheckError
  pending_suggested_at pending_lease_token : ℕ → CheckError
  best_name best_not_finite best_trial best_objectives best_value : CheckError
  best_vector best_without_vector : CheckError
  best_unset best_not_optimal best_not_optimal_value : CheckError

abbrev pub is_member : ℕ → List ℕ → Bool
is_member k ids = any_of (λ id. id == k) ids

-- `set(ids)`
unfoldable pub set_of : List ℕ → List ℕ
set_of [] = []
set_of (id ∷ ids) = let rest = set_of ids in if is_member id ids then rest else id ∷ rest

-- `max(ids, default=0)`
unfoldable pub highest : List ℕ → ℕ
highest [] = 0
highest (id ∷ ids) = let rest = highest ids in if ltb id rest then rest else id

unfoldable pub report_if : Bool → CheckError → List CheckError
report_if true e = e ∷ []
report_if false e = []

-- `len(ids) != len(set(ids))`
unfoldable pub has_duplicates : List ℕ → Bool
unfolding set_of
has_duplicates ids = not (length ids == length (set_of ids))

module _ {F : Type 0} where
  abbrev pub observation_ids : State F → List ℕ
  observation_ids s = map (λ o. o.trial_id) s.observations

  abbrev pub pending_ids : State F → List ℕ
  pending_ids s = map (λ p. p.trial_id) s.pending

  unfoldable pub check_pending : ℕ → List (Pending F) → List CheckError
  unfolding normalize_lease_token
  check_pending idx [] = []
  check_pending idx (row ∷ rows) =
      report_if (not (is_some row.suggested_at)) (pending_suggested_at idx)
      ++ (report_if (not (is_some (normalize_lease_token row.lease_token)))
            (pending_lease_token idx)
          ++ check_pending (suc idx) rows)

  unfoldable pub check_ids : State F → List CheckError
  unfolding highest
  check_ids s =
      report_if (any_of (λ k. is_member k (pending_ids s)) (observation_ids s)) overlap
      ++ report_if (leb s.next_trial_id (highest (observation_ids s ++ pending_ids s)))
          next_trial_id_taken

module _ (fl : Float) (cfg : ObjectiveCfg fl.F) where
  -- The objectives of a trial that is not ok are null.
  unfoldable pub check_nulls : ℕ → Dict (Value fl.F) → List String → List CheckError
  unfolding lookup
  check_nulls idx objectives [] = []
  check_nulls idx objectives (name ∷ names) =
      let rest = check_nulls idx objectives names in
      elim (lookup name objectives) [
        | none ↦ rest
        | some null ↦ rest
        | some _ ↦ observation_not_null idx name ∷ rest
      ]

  unfoldable pub check_objectives : ℕ → Observation fl.F → List CheckError
  unfolding canonical_objective_vector objective_names check_nulls
  check_objectives idx o =
      if is_ok o.status
      then report_if (not (is_some (canonical_objective_vector fl o.objectives cfg)))
          (observation_objectives idx)
      else check_nulls idx o.objectives (objective_names cfg)

  unfoldable pub check_observations : ℕ → List (Observation fl.F) → List CheckError
  unfolding normalize_lease_token check_objectives
  check_observations idx [] = []
  check_observations idx (o ∷ os) =
      report_if (not (is_some (normalize_lease_token o.lease_token))) (observation_lease_token idx)
      ++ (check_objectives idx o ++ check_observations (suc idx) os)

  -- The ok observations that have a vector, with their keys and vectors.
  unfoldable pub ok_ranked :
      List (Observation fl.F) → Option (List (RankKey fl.F × (Observation fl.F × Dict fl.F)))
  unfolding canonical_objective_vector best_rank_key
  ok_ranked [] = some []
  ok_ranked (o ∷ os) =
      let rest = ok_ranked os in
      if is_ok o.status
      then (elim (canonical_objective_vector fl o.objectives cfg) [
        | none ↦ rest
        | some vector ↦ do
          key ← best_rank_key fl (as_values vector) cfg o.trial_id
          others ← rest
          some ((key, (o, vector)) ∷ others)
      ])
      else rest

  abbrev pub differs : fl.F → fl.F → Bool
  differs a b = fl.ltb fl.tolerance (fl.abs (fl.sub a b))

  -- `a == b` of two objective vectors.
  unfoldable pub same_vector : Dict fl.F → Dict fl.F → Bool
  unfolding lookup
  same_vector a b =
      length a == length b
      && all_of (λ entry. elim (lookup entry.0 b) [ none ↦ false | some y ↦ fl.eqb entry.1 y ]) a

  unfoldable pub check_vector : Option (Policy fl.F × Dict fl.F) → Dict fl.F → List CheckError
  unfolding same_vector objective_names
  check_vector none canonical = report_if (ltb 1 (length (objective_names cfg))) best_without_vector
  check_vector (some (_, vector)) canonical =
      report_if (not (same_vector vector canonical)) best_vector

  unfoldable pub check_reference : BestRecord fl.F → Option (Dict fl.F) → Option (List CheckError)
  unfolding scalarize_objectives check_vector
  check_reference best none = some (best_objectives ∷ [])
  check_reference best (some canonical) = do
    expected ← scalarize_objectives fl (as_values canonical) cfg
    some (
        report_if (differs expected best.objective_value) best_value
        ++ check_vector best.policy canonical)

  abbrev pub is_reference : BestRecord fl.F → Observation fl.F → Bool
  is_reference best o = o.trial_id == best.trial_id && is_ok o.status

  unfoldable pub check_matching :
      BestRecord fl.F → Option (Observation fl.F) → Option (List CheckError)
  unfolding canonical_objective_vector check_reference
  check_matching best none = some (best_trial ∷ [])
  check_matching best (some o) = do
    found ← check_reference best (canonical_objective_vector fl o.objectives cfg)
    some (found ++ report_if (not (fl.is_finite best.objective_value)) best_not_finite)

  unfoldable pub check_best :
      Option (BestRecord fl.F) → List (Observation fl.F) → Option (List CheckError)
  unfolding best_objective_name check_matching
  check_best none os = some []
  check_best (some best) os = do
    found ← check_matching best (find_first (is_reference best) os)
    some (
        report_if (not (str_eq best.objective_name (best_objective_name cfg))) best_name
        ++ (report_if (not (fl.is_finite best.objective_value)) best_not_finite ++ found))

  abbrev pub compare_best : Option (BestRecord fl.F) → ℕ → fl.F → List CheckError
  compare_best none expected_id expected_value = best_unset ∷ []
  compare_best (some best) expected_id expected_value =
      if not (best.trial_id == expected_id)
      then best_not_optimal ∷ []
      else report_if
          (fl.is_finite best.objective_value && differs best.objective_value expected_value)
          best_not_optimal_value

  unfoldable pub check_optimal :
      Option (BestRecord fl.F)
      → List (RankKey fl.F × (Observation fl.F × Dict fl.F))
      → Option (List CheckError)
  unfolding min_by scalarize_objectives
  check_optimal best [] = some []
  check_optimal best (x ∷ xs) = do
    let first = min_by fl x xs
    expected ← scalarize_objectives fl (as_values first.1.1) cfg
    some (compare_best best first.1.0.trial_id expected)

  unfoldable pub validate_state_hard_checks : State fl.F → Option (List CheckError)
  unfolding check_observations has_duplicates check_pending check_ids check_best ok_ranked
      check_optimal
  validate_state_hard_checks s = do
    ranked ← ok_ranked s.observations
    of_best ← check_best s.best s.observations
    of_optimum ← check_optimal s.best ranked
    some (
        report_if (ltb s.next_trial_id 1) next_trial_id_low
        ++ (check_observations 0 s.observations
            ++ (report_if (has_duplicates (observation_ids s)) duplicate_observations
                ++ (check_pending 0 s.pending
                    ++ (report_if (has_duplicates (pending_ids s)) duplicate_pending
                        ++ (check_ids s ++ (of_best ++ of_optimum)))))))
