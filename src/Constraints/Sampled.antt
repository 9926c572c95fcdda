-- ===== src/Constraints/Sampled.antt =====
-- What `sample_feasible_candidates` of templates/_shared/constraints.py returns.
use looptimum.Prelude.{
  ℕ, zero, suc, ◌+◌, ◌≤◌, ◌<◌, ◌⊎◌, inl, inr, Bool, true, false, Option, none, some, String, List,
  [], ◌∷◌, ◌≡◌, refl, sym, ap, ◌∙◌, subst, lookup, insert, is_nil, ltb, length, length-append,
  if◌then◌else◌, All, All-append, All-imp, Bool-cases, arith,
}
use looptimum.Prelude.Maybe.{◌>>=◌, >>=-eq-some, some_injective}
use looptimum.Float.{Float}
use looptimum.Values.{Value, Dict}
use looptimum.Constraints.{
  Constraints, all_violations, evaluate_bound_tightening, evaluate_linear_inequalities, Violation,
  Evaluation, add_count, count_violations, summarize_reject_counts, accumulate_reject_counts,
  evaluate_constraints, evaluation_of, Sample, accept, reject, with_infeasible, attempt,
  sample_loop, sample_feasible_candidates,
}

-- All counts together.
abbrev pub total : Dict ℕ → ℕ
total [] = 0
total (entry ∷ counts) = entry.1 + total counts

add_count-total :
    (rule_id : String) (n : ℕ) (counts : Dict ℕ)
    → total (add_count rule_id n counts) ≡ total counts + n
unfolding add_count insert lookup
add_count-total rule_id n [] = omega arith
add_count-total rule_id n (entry ∷ counts) = ground (arith, add_count-total rule_id n counts)

count_violations-total :
    (vs : List Violation) (counts : Dict ℕ)
    → total (count_violations vs counts) ≡ total counts + length vs
unfolding count_violations
count_violations-total [] counts = omega arith
count_violations-total (v ∷ vs) counts = omega (
  arith,
  count_violations-total vs (add_count v.rule_id 1 counts),
  add_count-total v.rule_id 1 counts,
)

summarize_reject_counts-total :
    (vs : List Violation) → total (summarize_reject_counts vs) ≡ length vs
unfolding summarize_reject_counts
summarize_reject_counts-total vs = omega (arith, count_violations-total vs [])

accumulate_reject_counts-total :
    (counts more : Dict ℕ)
    → total (accumulate_reject_counts counts more) ≡ total counts + total more
unfolding accumulate_reject_counts
accumulate_reject_counts-total counts [] = omega arith
accumulate_reject_counts-total counts ((rule_id, n) ∷ more) = omega (
  arith,
  accumulate_reject_counts-total (add_count rule_id n counts) more,
  add_count-total rule_id n counts,
)

module _ (fl : Float) where
  -- There is no violation, and where there is one it is counted.
  evaluate_constraints-counts :
      (values : Dict (Value fl.F)) (c : Constraints fl.F) {e : Evaluation}
      → evaluate_constraints fl values c ≡ some e
      → (e.feasible ≡ is_nil e.violations) × (total e.reject_counts ≡ length e.violations)
  unfolding evaluate_constraints
  evaluate_constraints-counts values c {e} h =
      let (bounds, _, h1) =
        >>=-eq-some (evaluate_bound_tightening fl values c.bound_tightening) _ h in
      let (linear, _, same) =
        >>=-eq-some (evaluate_linear_inequalities fl values c.linear_inequalities)
          (λ linear. some (evaluation_of fl (all_violations fl values c bounds linear))) h1 in
      let violations = all_violations fl values c bounds linear in
      subst
        (λ e. (e.feasible ≡ is_nil e.violations) × (total e.reject_counts ≡ length e.violations))
        (some_injective (evaluation_of fl violations) e same)
        (refl, summarize_reject_counts-total violations)

  -- No rule is violated, where there are rules.
  abbrev pub IsFeasible : Option (Constraints fl.F) → Dict (Value fl.F) → Type 0
  IsFeasible none values = Unit
  IsFeasible (some c) values =
      (e : Evaluation) × (evaluate_constraints fl values c ≡ some e) × (e.violations ≡ [])

module _ (fl : Float) (sample : ℕ → Dict (Value fl.F))
    (constraints : Option (Constraints fl.F)) where
  -- One of the first candidates of the sampler, and a feasible one.
  abbrev pub IsDrawn : ℕ → Dict (Value fl.F) → Type 0
  IsDrawn attempts values =
      ((n : ℕ) × (n < attempts) × (sample n ≡ values)) × IsFeasible fl constraints values

  -- The candidates are drawn in the attempts so far, and each attempt that gave none is counted
  -- at a rule.
  pub record IsSample (s : Sample fl.F) : Type 0 where
    pub drawn : All (IsDrawn s.attempts) s.candidates
    pub no_more : length s.candidates ≤ s.attempts
    pub counted : s.attempts ≤ length s.candidates + total s.reject_counts

  IsDrawn-suc :
      (n : ℕ) (cs : List (Dict (Value fl.F))) → All (IsDrawn n) cs → All (IsDrawn (suc n)) cs
  IsDrawn-suc n cs h =
      All-imp (IsDrawn n) (IsDrawn (suc n)) cs (λ c d. ((d.0.0, omega (arith, d.0.1), d.0.2), d.1))
        h

  accept-IsSample :
      (s : Sample fl.F)
      → IsSample s
      → IsFeasible fl constraints (sample s.attempts)
      → IsSample (accept fl sample (sample s.attempts) s)
  accept-IsSample s h f = record {
    drawn =
        All-append (IsDrawn (suc s.attempts)) s.candidates (sample s.attempts ∷ [])
          (IsDrawn-suc s.attempts s.candidates h.drawn) (((s.attempts, omega arith, refl), f), tt);
    no_more = omega (arith, h.no_more, length-append s.candidates (sample s.attempts ∷ []));
    counted = omega (arith, h.counted, length-append s.candidates (sample s.attempts ∷ []));
  }

  reject-IsSample :
      (s : Sample fl.F) (e : Evaluation)
      → IsSample s
      → 0 < total e.reject_counts
      → IsSample (reject fl sample e s)
  reject-IsSample s e h f = record {
    drawn = IsDrawn-suc s.attempts s.candidates h.drawn;
    no_more = omega (arith, h.no_more);
    counted =
        omega (arith, h.counted, accumulate_reject_counts-total s.reject_counts e.reject_counts);
  }

module _ (fl : Float) (sample : ℕ → Dict (Value fl.F)) where
  -- One attempt more, and at most one candidate more.
  record Next (constraints : Option (Constraints fl.F)) (s t : Sample fl.F) : Type 0 where
    good : IsSample fl sample constraints t
    attempts : t.attempts ≡ suc s.attempts
    candidates : length t.candidates ≤ suc (length s.candidates)

  accept-Next :
      (constraints : Option (Constraints fl.F)) (s : Sample fl.F)
      → IsSample fl sample constraints s
      → IsFeasible fl constraints (sample s.attempts)
      → Next constraints s (accept fl sample (sample s.attempts) s)
  accept-Next constraints s h f = record {
    good = accept-IsSample fl sample constraints s h f;
    attempts = refl;
    candidates = omega (arith, length-append s.candidates (sample s.attempts ∷ []));
  }

  judged-Next :
      (c : Constraints fl.F) (s : Sample fl.F) (e : Evaluation)
      → IsSample fl sample (some c) s
      → evaluate_constraints fl (sample s.attempts) c ≡ some e
      → (violations : List Violation) → e.violations ≡ violations
      → Next (some c) s (
          if is_nil violations
          then accept fl sample (sample s.attempts) s
          else reject fl sample e s)
  judged-Next c s e h found [] same = accept-Next (some c) s h (e, found, same)
  judged-Next c s e h found (v ∷ vs) same =
      let (_, counted) = evaluate_constraints-counts fl (sample s.attempts) c found in
      let long = ap length same in
      record {
        good = reject-IsSample fl sample (some c) s e h (omega (arith, counted, long));
        attempts = refl;
        candidates = omega arith;
      }

  attempt-Next :
      (constraints : Option (Constraints fl.F)) (s : Sample fl.F) {t : Sample fl.F}
      → IsSample fl sample constraints s
      → attempt fl sample constraints s ≡ some t
      → Next constraints s t
  unfolding attempt
  attempt-Next none s {t} h e =
      subst (Next none s) (some_injective (accept fl sample (sample s.attempts) s) t e)
        (accept-Next none s h tt)
  attempt-Next (some c) s {t} h e =
      let (judged, found, same) =
        >>=-eq-some (evaluate_constraints fl (sample s.attempts) c)
          (λ e.
            some
              (if e.feasible then accept fl sample (sample s.attempts) s else reject fl sample e s))
          e in
      let (feasible, _) = evaluate_constraints-counts fl (sample s.attempts) c found in
      subst (Next (some c) s)
        (ap (λ b. if b then accept fl sample (sample s.attempts) s else reject fl sample judged s)
            (sym feasible)
          ∙ some_injective _ t same)
        (judged-Next c s judged h found judged.violations refl)

  -- The candidates and the attempts keep their limits, and one of the two is reached.
  pub record Ended (target_count limit : ℕ) (t : Sample fl.F) : Type 0 where
    pub candidates : length t.candidates ≤ target_count
    pub attempts : t.attempts ≤ limit
    pub reached : (length t.candidates ≡ target_count) ⊎ (t.attempts ≡ limit)

  sample_loop-Ended :
      (constraints : Option (Constraints fl.F)) (target_count left : ℕ) (s : Sample fl.F)
      {t : Sample fl.F}
      → IsSample fl sample constraints s
      → length s.candidates ≤ target_count
      → sample_loop fl sample constraints target_count left s ≡ some t
      → IsSample fl sample constraints t × Ended target_count (s.attempts + left) t
  unfolding sample_loop
  sample_loop-Ended constraints target_count zero s {t} h room e =
      subst (λ t. IsSample fl sample constraints t × Ended target_count (s.attempts + 0) t)
        (some_injective s t e)
        (h, record { candidates = room; attempts = omega arith; reached = inr (omega arith) })
  sample_loop-Ended constraints target_count (suc left) s {t} h room e =
      elim (Bool-cases (ltb (length s.candidates) target_count)) [
        | inl more ↦
            let rest =
              attempt fl sample constraints s
              >>= sample_loop fl sample constraints target_count left in
            let (u, found, ended) =
              >>=-eq-some (attempt fl sample constraints s)
                (sample_loop fl sample constraints target_count left)
                (subst (λ b. (if b then rest else some s) ≡ some t) more e) in
            let next = attempt-Next constraints s h found in
            let fits : length u.candidates ≤ target_count = ground (arith, next.candidates) in
            let (good, end) =
              sample_loop-Ended constraints target_count left u next.good fits ended in
            (good, subst (λ n. Ended target_count n t) (omega (arith, next.attempts)) end)
        | inr full ↦
            let rest =
              attempt fl sample constraints s
              >>= sample_loop fl sample constraints target_count left in
            subst
              (λ t. IsSample fl sample constraints t × Ended target_count (s.attempts + suc left) t)
              (some_injective s t (subst (λ b. (if b then rest else some s) ≡ some t) full e))
              (
                h,
                record { candidates = room; attempts = omega arith; reached = inl (ground arith) },
              )
      ]

  -- If the sampling returns, it has drawn feasible candidates only, each at one of the attempts, no
  -- more than asked for and in no more attempts than allowed, and has stopped at one of these
  -- limits; the number of the other attempts is returned with them, and each of these attempts is
  -- counted at a rule.
  pub sample_feasible_candidates-IsSample :
      (constraints : Option (Constraints fl.F)) (target_count max_attempts : ℕ) {t : Sample fl.F}
      {infeasible : ℕ}
      → sample_feasible_candidates fl sample constraints target_count max_attempts
        ≡ some (t, infeasible)
      → IsSample fl sample constraints t
        × Ended target_count max_attempts t
        × (infeasible + length t.candidates ≡ t.attempts)
        × (infeasible ≤ total t.reject_counts)
  unfolding sample_feasible_candidates
  sample_feasible_candidates-IsSample constraints target_count max_attempts {t} {infeasible} e =
      split (ltb 0 target_count) (ltb 0 max_attempts) e
    where
      start : Sample fl.F
      start = record { candidates = []; attempts = 0; reject_counts = [] }

      split :
          (some_target some_attempts : Bool)
          → (if some_target
              then (if some_attempts
                  then (do
                    s ← sample_loop fl sample constraints target_count max_attempts start
                    some (with_infeasible s))
                  else none)
              else none)
            ≡ some (t, infeasible)
          → IsSample fl sample constraints t
            × Ended target_count max_attempts t
            × (infeasible + length t.candidates ≡ t.attempts)
            × (infeasible ≤ total t.reject_counts)
      split false b e = cc
      split true false e = cc
      split true true e =
          let (s, looped, same) =
            >>=-eq-some (sample_loop fl sample constraints target_count max_attempts start)
              (λ s. some (with_infeasible s)) e in
          let begun : IsSample fl sample constraints start = record {
            drawn = tt;
            no_more = omega arith;
            counted = omega arith;
          } in
          let (good, end) =
            sample_loop-Ended constraints target_count max_attempts start begun (omega arith)
              looped in
          subst
            (λ r.
              IsSample fl sample constraints r.0
              × Ended target_count max_attempts r.0
              × (r.1 + length r.0.candidates ≡ r.0.attempts)
              × (r.1 ≤ total r.0.reject_counts))
            (some_injective (with_infeasible s) (t, infeasible) same)
            (
              good,
              subst (λ n. Ended target_count n s) (omega arith) end,
              omega (arith, good.no_more),
              omega (arith, good.counted),
            )
