-- ===== src/Trials/Checks/Exact.antt =====
-- Which ids the hard checks of templates/bo_client/run_bo.py accept.
use looptimum.Prelude.{
  ℕ, suc, ◌≤◌, Bool, true, false, not, Option, none, some, String, List, [], ◌∷◌, ◌++◌, ◌≡◌, refl,
  sym, subst, ◌↔◌, All, All-append, lookup, ltb, leb, any_of, ◌==◌, Bool-cases, inl, inr,
  find_first, arith,
}
use looptimum.Prelude.Maybe.{>>=-eq-some, some_injective}
use looptimum.Float.{Float}
use looptimum.Values.{Value, null, Dict}
use looptimum.Contract.{is_ok}
use looptimum.Objectives.{
  ObjectiveCfg, Policy, objective_names, canonical_objective_vector, scalarize_objectives,
}
use looptimum.Objectives.Order.{RankKey, BestRecord}
use looptimum.Objectives.Pareto.{as_values}
use looptimum.Trials.{Pending, Observation, State}
use looptimum.Trials.Invariant.Unique.{IsWellFormed}
use looptimum.Trials.Checks.{
  CheckError, next_trial_id_low, next_trial_id_taken, duplicate_observations, duplicate_pending,
  overlap, report_if, is_member, highest, has_duplicates, observation_ids, pending_ids,
  check_pending, check_ids, check_nulls, check_objectives, check_observations, ok_ranked,
  check_vector, check_reference, is_reference, check_matching, check_best, compare_best,
  check_optimal, validate_state_hard_checks,
}
use looptimum.Trials.Checks.Ids.{IdsPass, IdsPass-IsWellFormed, IsWellFormed-IdsPass}

abbrev pub is_id_error : CheckError → Bool
is_id_error next_trial_id_low = true
is_id_error next_trial_id_taken = true
is_id_error duplicate_observations = true
is_id_error duplicate_pending = true
is_id_error overlap = true
is_id_error _ = false

-- None of the errors is about ids.
pub record NoIdError (errors : List CheckError) : Type 0 where
  pub all : All (λ e. is_id_error e ≡ false) errors

none_at_all : NoIdError []
none_at_all = record { all = tt }

join : {xs ys : List CheckError} → NoIdError xs → NoIdError ys → NoIdError (xs ++ ys)
join {xs} {ys} h k = record { all = All-append (λ e. is_id_error e ≡ false) xs ys h.all k.all }

add :
    {e : CheckError} {es : List CheckError}
    → is_id_error e ≡ false
    → NoIdError es
    → NoIdError (e ∷ es)
add h k = record { all = (h, k.all) }

parts : (xs ys : List CheckError) → NoIdError (xs ++ ys) → NoIdError xs × NoIdError ys
parts [] ys h = (none_at_all, h)
parts (x ∷ xs) ys h =
    let (a, b) = parts xs ys (record { all = h.all.1 }) in (record { all = (h.all.0, a.all) }, b)

report_other : (b : Bool) (e : CheckError) → is_id_error e ≡ false → NoIdError (report_if b e)
unfolding report_if
report_other true e h = record { all = (h, tt) }
report_other false e h = none_at_all

silent : (b : Bool) (e : CheckError) → is_id_error e ≡ true → NoIdError (report_if b e) → b ≡ false
unfolding report_if
silent true e h k = let no_ = k.all.0 in ground arith
silent false e h k = refl

quiet : (b : Bool) (e : CheckError) → b ≡ false → NoIdError (report_if b e)
unfolding report_if
quiet b e h = rw h none_at_all

check_pending-NoIdError :
    {F : Type 0} (i : ℕ) (rows : List (Pending F)) → NoIdError (check_pending i rows)
unfolding check_pending
check_pending-NoIdError i [] = none_at_all
check_pending-NoIdError i (row ∷ rows) =
    join (report_other _ _ refl)
      (join (report_other _ _ refl) (check_pending-NoIdError (suc i) rows))

module _ (fl : Float) (cfg : ObjectiveCfg fl.F) where
  check_nulls-NoIdError :
      (i : ℕ) (d : Dict (Value fl.F)) (names : List String)
      → NoIdError (check_nulls fl cfg i d names)
  unfolding check_nulls
  check_nulls-NoIdError i d [] = none_at_all
  check_nulls-NoIdError i d (name ∷ names) = go (check_nulls-NoIdError i d names) (lookup name d)
    where
      go :
          NoIdError (check_nulls fl cfg i d names)
          → (found : Option (Value fl.F))
          → NoIdError (elim found as (λ _. List CheckError) [
            | none ↦ check_nulls fl cfg i d names
            | some null ↦ check_nulls fl cfg i d names
            | some _ ↦ CheckError.observation_not_null i name ∷ check_nulls fl cfg i d names
          ])
      go ih none = ih
      go ih (some null) = ih
      go ih (some (Value.bool b)) = add refl ih
      go ih (some (Value.int n)) = add refl ih
      go ih (some (Value.float x)) = add refl ih
      go ih (some (Value.str t)) = add refl ih

  check_observations-NoIdError :
      (i : ℕ) (os : List (Observation fl.F)) → NoIdError (check_observations fl cfg i os)
  unfolding check_observations check_objectives
  check_observations-NoIdError i [] = none_at_all
  check_observations-NoIdError i (o ∷ os) = join (report_other _ _ refl) (
      join
        (elim (Bool-cases (is_ok o.status)) [
          | inl e ↦ rw e (report_other _ _ refl)
          | inr e ↦ rw e (check_nulls-NoIdError i o.objectives (objective_names cfg))
        ])
        (check_observations-NoIdError (suc i) os))

  check_vector-NoIdError :
      (given : Option (Policy fl.F × Dict fl.F)) (v : Dict fl.F)
      → NoIdError (check_vector fl cfg given v)
  unfolding check_vector
  check_vector-NoIdError none v = report_other _ _ refl
  check_vector-NoIdError (some (p, u)) v = report_other _ _ refl

  check_reference-NoIdError :
      (best : BestRecord fl.F) (v : Option (Dict fl.F)) {errors : List CheckError}
      → check_reference fl cfg best v ≡ some errors
      → NoIdError errors
  unfolding check_reference
  check_reference-NoIdError best none e =
      subst NoIdError (some_injective _ _ e) (add refl none_at_all)
  check_reference-NoIdError best (some v) {errors} e =
      let (x, _, same) = >>=-eq-some (scalarize_objectives fl (as_values v) cfg) _ e in
      subst NoIdError (some_injective _ errors same)
        (join (report_other _ _ refl) (check_vector-NoIdError best.policy v))

  check_matching-NoIdError :
      (best : BestRecord fl.F) (o : Option (Observation fl.F)) {errors : List CheckError}
      → check_matching fl cfg best o ≡ some errors
      → NoIdError errors
  unfolding check_matching
  check_matching-NoIdError best none e =
      subst NoIdError (some_injective _ _ e) (add refl none_at_all)
  check_matching-NoIdError best (some o) {errors} e =
      let (found, at, same) =
        >>=-eq-some (check_reference fl cfg best (canonical_objective_vector fl o.objectives cfg)) _
          e in
      subst NoIdError (some_injective _ errors same) (
        join (check_reference-NoIdError best (canonical_objective_vector fl o.objectives cfg) at)
          (report_other _ _ refl))

  check_best-NoIdError :
      (best : Option (BestRecord fl.F)) (os : List (Observation fl.F)) {errors : List CheckError}
      → check_best fl cfg best os ≡ some errors
      → NoIdError errors
  unfolding check_best
  check_best-NoIdError none os e = subst NoIdError (some_injective _ _ e) none_at_all
  check_best-NoIdError (some best) os {errors} e =
      let (found, at, same) =
        >>=-eq-some (check_matching fl cfg best (find_first (is_reference fl cfg best) os)) _ e in
      subst NoIdError (some_injective _ errors same) (
        join (report_other _ _ refl) (
          join (report_other _ _ refl)
            (check_matching-NoIdError best (find_first (is_reference fl cfg best) os) at)))

  compare_best-NoIdError :
      (best : Option (BestRecord fl.F)) (id : ℕ) (x : fl.F)
      → NoIdError (compare_best fl cfg best id x)
  compare_best-NoIdError none id x = (add refl none_at_all)
  compare_best-NoIdError (some best) id x = elim (Bool-cases (not (best.trial_id == id))) [
    | inl e ↦ rw e (add refl none_at_all)
    | inr e ↦ rw e (report_other _ _ refl)
  ]

  check_optimal-NoIdError :
      (best : Option (BestRecord fl.F)) (xs : List (RankKey fl.F × (Observation fl.F × Dict fl.F)))
      {errors : List CheckError}
      → check_optimal fl cfg best xs ≡ some errors
      → NoIdError errors
  unfolding check_optimal
  check_optimal-NoIdError best [] e = subst NoIdError (some_injective _ _ e) none_at_all
  check_optimal-NoIdError best (x ∷ xs) {errors} e =
      let (y, _, same) = >>=-eq-some (scalarize_objectives fl _ cfg) _ e in
      subst NoIdError (some_injective _ errors same) (compare_best-NoIdError best _ y)

  IdsPass-NoIdError : (s : State fl.F) → IdsPass s → NoIdError (check_ids s)
  unfolding check_ids
  IdsPass-NoIdError s h = join (quiet _ overlap h.apart) (quiet _ next_trial_id_taken h.above)

  check_ids-parts :
      (s : State fl.F)
      → NoIdError (check_ids s)
      → (any_of (λ k. is_member k (pending_ids s)) (observation_ids s) ≡ false)
        × (leb s.next_trial_id (highest (observation_ids s ++ pending_ids s)) ≡ false)
  unfolding check_ids
  check_ids-parts s h =
      let (a, b) =
        parts (report_if (any_of (λ k. is_member k (pending_ids s)) (observation_ids s)) overlap)
          (report_if (leb s.next_trial_id (highest (observation_ids s ++ pending_ids s)))
            next_trial_id_taken)
          h in
      (silent _ overlap refl a, silent _ next_trial_id_taken refl b)

  -- The list of the errors from its parts.
  abbrev assembled : State fl.F → List CheckError → List CheckError → List CheckError
  assembled s of_best of_optimum =
      report_if (ltb s.next_trial_id 1) next_trial_id_low
      ++ (check_observations fl cfg 0 s.observations
          ++ (report_if (has_duplicates (observation_ids s)) duplicate_observations
              ++ (check_pending 0 s.pending
                  ++ (report_if (has_duplicates (pending_ids s)) duplicate_pending
                      ++ (check_ids s ++ (of_best ++ of_optimum))))))

  assembled_iff :
      (s : State fl.F) (of_best of_optimum : List CheckError)
      → NoIdError of_best
      → NoIdError of_optimum
      → NoIdError (assembled s of_best of_optimum) ↔ IdsPass s
  assembled_iff s of_best of_optimum hb ho = (
    λ h.
        let (low, h1) = parts (report_if (ltb s.next_trial_id 1) next_trial_id_low) _ h in
        let (_, h2) = parts (check_observations fl cfg 0 s.observations) _ h1 in
        let (seen, h3) =
          parts (report_if (has_duplicates (observation_ids s)) duplicate_observations) _ h2 in
        let (_, h4) = parts (check_pending 0 s.pending) _ h3 in
        let (waiting, h5) =
          parts (report_if (has_duplicates (pending_ids s)) duplicate_pending) _ h4 in
        let (ids, _) = parts (check_ids s) _ h5 in
        record {
          low = silent _ next_trial_id_low refl low;
          observed = silent _ duplicate_observations refl seen;
          pending = silent _ duplicate_pending refl waiting;
          apart = (check_ids-parts s ids).0;
          above = (check_ids-parts s ids).1;
        },
    λ p. join (quiet _ next_trial_id_low p.low) (
        join (check_observations-NoIdError 0 s.observations) (
          join (quiet _ duplicate_observations p.observed) (
            join (check_pending-NoIdError 0 s.pending) (
              join (quiet _ duplicate_pending p.pending)
                (join (IdsPass-NoIdError s p) (join hb ho)))))),
  )

  -- If the hard checks come to an end, they report no error about ids exactly if no trial id stands
  -- twice in the state, pending or observed, none from the next one on stands, and the next id is at
  -- least 1.
  pub validate_state_hard_checks-IsWellFormed :
      (s : State fl.F) {errors : List CheckError}
      → validate_state_hard_checks fl cfg s ≡ some errors
      → NoIdError errors ↔ (IsWellFormed (some s) × (1 ≤ s.next_trial_id))
  unfolding validate_state_hard_checks
  validate_state_hard_checks-IsWellFormed s {errors} e =
      let (ranked, _, e2) = >>=-eq-some (ok_ranked fl cfg s.observations) _ e in
      let (of_best, at, e3) = >>=-eq-some (check_best fl cfg s.best s.observations) _ e2 in
      let (of_optimum, to, same) = >>=-eq-some (check_optimal fl cfg s.best ranked) _ e3 in
      let (there, back) =
        assembled_iff s of_best of_optimum (check_best-NoIdError s.best s.observations at)
          (check_optimal-NoIdError s.best ranked to) in
      let into : assembled s of_best of_optimum ≡ errors = some_injective _ errors same in
      (
        λ h. IdsPass-IsWellFormed s (there (subst NoIdError (sym into) h)),
        λ (formed, first). subst NoIdError into (back (IsWellFormed-IdsPass s formed first)),
      )
