-- ===== src/Trials/Checks/Chosen.antt =====
-- The best record in the hard checks of templates/bo_client/run_bo.py.
use looptimum.Prelude.{
  ℕ, suc, str_eq, Bool, true, false, not, ◌&&◌, Option, none, some, List, [], ◌∷◌, ◌++◌, ◌≡◌, refl,
  sym, ap, ◌∙◌, subst, ◌⊎◌, inl, inr, map, All, Among, find_first, is_some, ltb, ◌==◌, Bool-cases,
  arith,
}
use looptimum.Prelude.Maybe.{◌>>=◌, >>=-eq-some, some_injective}
use looptimum.Float.{Float, IsOrdered}
use looptimum.Values.{Dict}
use looptimum.Contract.{is_ok}
use looptimum.Objectives.{
  ObjectiveCfg, objective_names, best_objective_name, canonical_objective_vector,
  scalarize_objectives, lexicographic_key,
}
use looptimum.Objectives.Order.{RankKey, BestRecord, best_rank_key, key_lt, min_by}
use looptimum.Objectives.Pareto.{as_values}
use looptimum.Objectives.Pareto.Vectors.{AllDiffer, canonical_objective_vector-again}
use looptimum.Objectives.Optimal.{min_by-nil, min_by-take, min_by-skip, min_by-All}
use looptimum.Trials.{Observation, State, ranked, normalize_lease_token}
use looptimum.Trials.Best.{HasNumbers, IsBest, first-IsBest, ranked-none}
use looptimum.Trials.Checks.{
  CheckError, report_if, check_observations, check_objectives, ok_ranked, check_best,
  check_matching, has_duplicates, observation_ids, pending_ids, check_pending, check_ids,
  next_trial_id_low, duplicate_observations, duplicate_pending, is_reference, check_optimal,
  compare_best, differs, best_not_finite, best_name, best_not_optimal_value,
  validate_state_hard_checks,
}

append-nil_left : {A : Type 0} (xs ys : List A) → xs ++ ys ≡ [] → xs ≡ []
append-nil_left [] ys e = refl
append-nil_left (x ∷ xs) ys e = absurd (ground arith)

append-nil_right : {A : Type 0} (xs ys : List A) → xs ++ ys ≡ [] → ys ≡ []
append-nil_right [] ys e = e
append-nil_right (x ∷ xs) ys e = absurd (ground arith)

report_if-nil : (b : Bool) (e : CheckError) → report_if b e ≡ [] → b ≡ false
unfolding report_if
report_if-nil true e h = ground arith
report_if-nil false e h = refl

find_first_sound :
    {A : Type 0} (p : A → Bool) (xs : List A) {a : A}
    → find_first p xs ≡ some a
    → Among a xs × (p a ≡ true)
find_first_sound p [] e = cc
find_first_sound p (x ∷ xs) {a} e = elim (Bool-cases (p x)) [
  | inl here ↦ let same : x ≡ a = ground arith in (inl same, subst (λ y. p y ≡ true) same here)
  | inr there ↦
      let (among, holds) = find_first_sound p xs {a = a} (ground arith) in (inr among, holds)
]

module _ (fl : Float) (cfg : ObjectiveCfg fl.F) where
  -- An observation that is ok has an objective vector.
  abbrev HasVector : Observation fl.F → Type 0
  HasVector o =
      is_ok o.status ≡ true
      → (v : Dict fl.F) × (canonical_objective_vector fl o.objectives cfg ≡ some v)

  check_objectives-HasVector :
      (i : ℕ) (o : Observation fl.F) → check_objectives fl cfg i o ≡ [] → HasVector o
  unfolding check_objectives report_if
  check_objectives-HasVector i o e ok_ = go (canonical_objective_vector fl o.objectives cfg) refl
    where
      go :
          (found : Option (Dict fl.F))
          → canonical_objective_vector fl o.objectives cfg ≡ found
          → (v : Dict fl.F) × (canonical_objective_vector fl o.objectives cfg ≡ some v)
      go none h = absurd (ground arith)
      go (some v) h = (v, h)

  check_observations-HasVector :
      (i : ℕ) (os : List (Observation fl.F))
      → check_observations fl cfg i os ≡ []
      → All HasVector os
  unfolding check_observations
  check_observations-HasVector i [] e = tt
  check_observations-HasVector i (o ∷ os) e =
      let rest =
        append-nil_right (report_if (not (is_some (normalize_lease_token o.lease_token))) _) _ e in
      (
        check_objectives-HasVector i o (append-nil_left (check_objectives fl cfg i o) _ rest),
        check_observations-HasVector (suc i) os
            (append-nil_right (check_objectives fl cfg i o) _ rest),
      )

  abbrev forget : RankKey fl.F × (Observation fl.F × Dict fl.F) → RankKey fl.F × Observation fl.F
  forget x = (x.0, x.1.0)

  module _ (differ : AllDiffer (objective_names cfg)) where
    key-again :
        (o : Observation fl.F) (v : Dict fl.F)
        → canonical_objective_vector fl o.objectives cfg ≡ some v
        → best_rank_key fl (as_values v) cfg o.trial_id
          ≡ best_rank_key fl o.objectives cfg o.trial_id
    unfolding best_rank_key scalarize_objectives lexicographic_key
    key-again o v e = rw (e, canonical_objective_vector-again fl cfg differ o.objectives e)

    value-again :
        (o : Observation fl.F) (v : Dict fl.F)
        → canonical_objective_vector fl o.objectives cfg ≡ some v
        → scalarize_objectives fl (as_values v) cfg ≡ scalarize_objectives fl o.objectives cfg
    unfolding scalarize_objectives
    value-again o v e = rw (e, canonical_objective_vector-again fl cfg differ o.objectives e)

    module _ (o : Observation fl.F) (os : List (Observation fl.F)) (v : Dict fl.F) where
      ok_ranked-cons :
          is_ok o.status ≡ true
          → canonical_objective_vector fl o.objectives cfg ≡ some v
          → ok_ranked fl cfg (o ∷ os) ≡ (
              best_rank_key fl (as_values v) cfg o.trial_id
              >>= (λ key. ok_ranked fl cfg os >>= (λ others. some ((key, (o, v)) ∷ others))))
      unfolding ok_ranked
      ok_ranked-cons good at = rw (good, at)

      ranked-cons :
          is_ok o.status ≡ true
          → ranked fl cfg (o ∷ os) ≡ (
              best_rank_key fl o.objectives cfg o.trial_id
              >>= (λ key. ranked fl cfg os >>= (λ others. some ((key, o) ∷ others))))
      unfolding ranked
      ranked-cons good = rw good

    ok_ranked-skip :
        (o : Observation fl.F) (os : List (Observation fl.F))
        → is_ok o.status ≡ false
        → (ok_ranked fl cfg (o ∷ os) ≡ ok_ranked fl cfg os)
          × (ranked fl cfg (o ∷ os) ≡ ranked fl cfg os)
    unfolding ok_ranked ranked
    ok_ranked-skip o os bad = (rw bad, rw bad)

    abbrev Canonical : RankKey fl.F × (Observation fl.F × Dict fl.F) → Type 0
    Canonical x = canonical_objective_vector fl x.1.0.objectives cfg ≡ some x.1.1

    ok_ranked-nil :
        {xs : List (RankKey fl.F × (Observation fl.F × Dict fl.F))}
        → ok_ranked fl cfg [] ≡ some xs
        → [] ≡ xs
    unfolding ok_ranked
    ok_ranked-nil {xs} e = some_injective [] xs e

    ranked-nil : ranked fl cfg [] ≡ some []
    unfolding ranked
    ranked-nil = refl

    -- Where the vectors are there, the ranked observations are those of `update_best`.
    ok_ranked-ranked :
        (os : List (Observation fl.F)) {xs : List (RankKey fl.F × (Observation fl.F × Dict fl.F))}
        → All HasVector os
        → ok_ranked fl cfg os ≡ some xs
        → (ranked fl cfg os ≡ some (map forget xs)) × All Canonical xs
    ok_ranked-ranked [] {xs} h e =
        subst (λ l. (ranked fl cfg [] ≡ some (map forget l)) × All Canonical l) (ok_ranked-nil e)
          (ranked-nil, tt)
    ok_ranked-ranked (o ∷ os) {xs} h e = elim (Bool-cases (is_ok o.status)) [
      | inl good ↦
          let (v, at) = h.0 good in
          let (key, found, more) =
            >>=-eq-some (best_rank_key fl (as_values v) cfg o.trial_id) _
              (sym (ok_ranked-cons o os v good at) ∙ e) in
          let (others, tail, same) = >>=-eq-some (ok_ranked fl cfg os) _ more in
          let (rest, canonical) = ok_ranked-ranked os h.1 tail in
          subst (λ l. (ranked fl cfg (o ∷ os) ≡ some (map forget l)) × All Canonical l)
            (some_injective ((key, (o, v)) ∷ others) xs same)
            (ranked-cons o os v good ∙ rw (sym (key-again o v at) ∙ found, rest), (at, canonical))
      | inr bad ↦
          let (skip, skip') = ok_ranked-skip o os bad in
          let (rest, canonical) = ok_ranked-ranked os h.1 (sym skip ∙ e) in
          (skip' ∙ rest, canonical)
    ]

    min_by-forget :
        (best : RankKey fl.F × (Observation fl.F × Dict fl.F))
        (xs : List (RankKey fl.F × (Observation fl.F × Dict fl.F)))
        → min_by fl (forget best) (map forget xs) ≡ forget (min_by fl best xs)
    min_by-forget best [] = min_by-nil fl (forget best) ∙ ap forget (sym (min_by-nil fl best))
    min_by-forget best (x ∷ xs) = elim (Bool-cases (key_lt fl x.0 best.0)) [
      | inl e ↦
          min_by-take fl (forget best) (forget x) (map forget xs) e
          ∙ min_by-forget x xs
          ∙ ap forget (sym (min_by-take fl best x xs e))
      | inr e ↦
          min_by-skip fl (forget best) (forget x) (map forget xs) e
          ∙ min_by-forget best xs
          ∙ ap forget (sym (min_by-skip fl best x xs e))
    ]

    -- The best record is that of an ok observation that no ok one is ranked before, with its
    -- scalarized value up to the tolerance.
    pub record Correct (os : List (Observation fl.F)) (b : BestRecord fl.F) : Type 0 where
      pub observation : Observation fl.F
      pub is_best : IsBest fl cfg observation os
      pub trial_id : b.trial_id ≡ observation.trial_id
      pub finite : fl.is_finite b.objective_value ≡ true
      pub value : fl.F
      pub scalarized : scalarize_objectives fl observation.objectives cfg ≡ some value
      pub near : differs fl cfg b.objective_value value ≡ false

    compare_best-nil :
        (best : Option (BestRecord fl.F)) (id : ℕ) (x : fl.F)
        → compare_best fl cfg best id x ≡ []
        → (b : BestRecord fl.F) × (best ≡ some b)
          × (b.trial_id ≡ id)
          × (fl.is_finite b.objective_value ≡ true → differs fl cfg b.objective_value x ≡ false)
    compare_best-nil none id x e = absurd (ground arith)
    compare_best-nil (some b) id x e = elim (Bool-cases (not (b.trial_id == id))) [
      | inl other ↦ absurd (ground arith)
      | inr same ↦ (
        b,
        refl,
        ground arith,
        λ finite.
            let b_off = fl.is_finite b.objective_value && differs fl cfg b.objective_value x in
            let off = report_if-nil b_off best_not_optimal_value (ground arith) in ground arith,
      )
    ]

    check_best-finite :
        (b : BestRecord fl.F) (os : List (Observation fl.F))
        → check_best fl cfg (some b) os ≡ some []
        → (fl.is_finite b.objective_value ≡ true)
          × (check_matching fl cfg b (find_first (is_reference fl cfg b) os) ≡ some [])
    unfolding check_best
    check_best-finite b os e =
        let (found, at, same) =
          >>=-eq-some (check_matching fl cfg b (find_first (is_reference fl cfg b) os)) _ e in
        let name = report_if (not (str_eq b.objective_name (best_objective_name cfg))) best_name in
        let finite = report_if (not (fl.is_finite b.objective_value)) best_not_finite in
        let all : name ++ (finite ++ found) ≡ [] = some_injective _ [] same in
        let rest = append-nil_right name (finite ++ found) all in
        let ok_ =
          report_if-nil (not (fl.is_finite b.objective_value)) best_not_finite
            (append-nil_left finite found rest) in
        let none_ = append-nil_right finite found rest in (ground arith, at ∙ ap some none_)

    -- A reference that is accepted is an ok observation.
    check_matching-ok :
        (b : BestRecord fl.F) (os : List (Observation fl.F))
        → check_matching fl cfg b (find_first (is_reference fl cfg b) os) ≡ some []
        → (o : Observation fl.F) × Among o os × (is_ok o.status ≡ true)
    unfolding check_matching
    check_matching-ok b os e = go (find_first (is_reference fl cfg b) os) refl e
      where
        go :
            (found : Option (Observation fl.F))
            → find_first (is_reference fl cfg b) os ≡ found
            → check_matching fl cfg b found ≡ some []
            → (o : Observation fl.F) × Among o os × (is_ok o.status ≡ true)
        go none at m = absurd (ground arith)
        go (some o) at m =
            let (among, holds) = find_first_sound (is_reference fl cfg b) os at in
            (o, among, ground arith)

    none_ok-absurd :
        (os : List (Observation fl.F)) (o : Observation fl.F)
        → All (λ p. is_ok p.status ≡ false) os
        → Among o os
        → is_ok o.status ≡ false
    none_ok-absurd [] o h among = absurd among
    none_ok-absurd (p ∷ os) o h (inl e) = subst (λ q. is_ok q.status ≡ false) e h.0
    none_ok-absurd (p ∷ os) o h (inr among) = none_ok-absurd os o h.1 among

    module _ (ordered : IsOrdered fl) (os : List (Observation fl.F))
        (numbers : All (HasNumbers fl cfg) os) (vectors : All HasVector os) where
      -- What the checks of the best record and of the optimum leave.
      best_checked :
          (best : Option (BestRecord fl.F))
          (xs : List (RankKey fl.F × (Observation fl.F × Dict fl.F)))
          → ok_ranked fl cfg os ≡ some xs
          → check_best fl cfg best os ≡ some []
          → check_optimal fl cfg best xs ≡ some []
          → ((best ≡ none) × All (λ o. is_ok o.status ≡ false) os)
            ⊎ ((b : BestRecord fl.F) × (best ≡ some b) × Correct os b)
      unfolding check_optimal
      best_checked none [] e hb ho =
          inl (refl, ranked-none fl cfg os (ok_ranked-ranked os vectors e).0)
      best_checked (some b) [] e hb ho =
          let (o, among, good) = check_matching-ok b os (check_best-finite b os hb).1 in
          let bad =
            none_ok-absurd os o (ranked-none fl cfg os (ok_ranked-ranked os vectors e).0) among in
          absurd (ground arith)
      best_checked best (x ∷ xs) e hb ho =
          let (ranks, canonical) = ok_ranked-ranked os vectors e in
          let first = min_by fl x xs in
          let at = min_by-All fl Canonical x xs canonical.0 canonical.1 in
          let (value, found, same) =
            >>=-eq-some (scalarize_objectives fl (as_values first.1.1) cfg) _ ho in
          let (b, set, named, near) =
            compare_best-nil best first.1.0.trial_id value (some_injective _ [] same) in
          let finite =
            (check_best-finite b os (subst (λ y. check_best fl cfg y os ≡ some []) set hb)).0 in
          inr (
            b,
            set,
            record {
              observation = first.1.0;
              is_best =
                  first-IsBest fl cfg ordered os (map forget (x ∷ xs)) {m = forget first} numbers
                    ranks (ap some (min_by-forget x xs));
              trial_id = named;
              finite = finite;
              value = value;
              scalarized = sym (value-again first.1.0 first.1.1 at) ∙ found;
              near = near finite;
            },
          )

  -- If the hard checks find nothing wrong, then either no observation is ok and the state has no
  -- best, or its best is recorded with the id of an ok observation that no ok one is ranked before,
  -- and with its scalarized value up to the tolerance. The configured names are different, and no
  -- key of an ok observation holds a nan.
  pub validate_state_hard_checks-Correct :
      IsOrdered fl
      → (differ : AllDiffer (objective_names cfg)) (s : State fl.F)
      → All (HasNumbers fl cfg) s.observations
      → validate_state_hard_checks fl cfg s ≡ some []
      → ((s.best ≡ none) × All (λ o. is_ok o.status ≡ false) s.observations)
        ⊎ ((b : BestRecord fl.F) × (s.best ≡ some b) × Correct differ s.observations b)
  unfolding validate_state_hard_checks
  validate_state_hard_checks-Correct ordered differ s numbers e =
      let (ranked_, ranks, e2) = >>=-eq-some (ok_ranked fl cfg s.observations) _ e in
      let (of_best, hb, e3) = >>=-eq-some (check_best fl cfg s.best s.observations) _ e2 in
      let (of_optimum, ho, e4) = >>=-eq-some (check_optimal fl cfg s.best ranked_) _ e3 in
      let low = report_if (ltb s.next_trial_id 1) next_trial_id_low in
      let twice = report_if (has_duplicates (observation_ids s)) duplicate_observations in
      let twice' = report_if (has_duplicates (pending_ids s)) duplicate_pending in
      let seen = check_observations fl cfg 0 s.observations in
      let after_low = append-nil_right low _ (some_injective _ [] e4) in
      let vectors =
        check_observations-HasVector 0 s.observations (append-nil_left seen _ after_low) in
      let after_twice = append-nil_right twice _ (append-nil_right seen _ after_low) in
      let after_pending = append-nil_right (check_pending 0 s.pending) _ after_twice in
      let after_ids = append-nil_right (check_ids s) _ (append-nil_right twice' _ after_pending) in
      best_checked differ ordered s.observations numbers vectors s.best ranked_ ranks
        (hb ∙ ap some (append-nil_left of_best of_optimum after_ids))
        (ho ∙ ap some (append-nil_right of_best of_optimum after_ids))
