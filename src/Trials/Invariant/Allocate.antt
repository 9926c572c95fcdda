-- ===== src/Trials/Invariant/Allocate.antt =====
-- The trial ids and cmd_suggest.
use looptimum.Prelude.{
  ℕ, zero, suc, ◌+◌, ◌⊎◌, inl, inr, Bool, true, Option, none, some, String, List, [], ◌∷◌, ◌≡◌,
  refl, ap, ◌≤◌, arith, length,
}
use looptimum.Prelude.Exec.{pure}
use looptimum.Float.{Float}
use looptimum.Trials.{Pending, Observation, State, retire_stale_pending, new_terminal_observation}
use looptimum.Trials.World.{World, Command, acquisition_log_file, no_feasible_candidate, Action}
use looptimum.Trials.Effects.{Env, time, load_state, refresh_best, save_state}
use looptimum.Trials.Suggest.{
  Planner, Plan, planned, infeasible, add_step, new_suggestion, add_pending, trial_seed, plan,
  log_acquisition, write_pending, record_decision, when, commit_plan, decline, over_limit,
  retire_old, suggest_from, with_seed, suggest_state, cmd_suggest,
}
use looptimum.Trials.Total.{append_governance_violations-runs, when-runs}
use looptimum.Trials.Hoare.{
  Triple, IsQuiet, Triple-quiet, IsQuiet-bind, IsQuiet-if, IsQuiet-pure, IsQuiet-write,
  IsQuiet-for_each, Triple-pure, Triple-raise, Triple-if, Triple-option, Triple-bind, Triple-imp,
}
use looptimum.Trials.Quiet.{
  IsQuiet-time, IsQuiet-append_event, IsQuiet-ensure_pending_manifest,
  IsQuiet-append_governance_override, IsQuiet-append_governance_violations,
}
use looptimum.Trials.Invariant.{hit, count_pending, count_observed, count_pending-append}
use looptimum.Trials.Invariant.Files.{
  Has, FileHas, file_observed, Triple-save_state_few, On, Keeps, Keeps-quiet, Triple-fact,
  Triple-seq, Triple-save_state, Triple-save_state_and_rows, Triple-load_state, Triple-refresh_best,
  Triple-with_lock, Triple-write_obs_csv,
}
use looptimum.Trials.Invariant.Conserve.{retire_all-Has, IsQuiet-record_retired}

module _ {F : Type 0} where
  -- The ids are `n`, `n + 1`, and so on.
  abbrev pub Consecutive : ℕ → List (Pending F) → Type 0
  Consecutive n [] = Unit
  Consecutive n (p ∷ ps) = (p.trial_id ≡ n) × Consecutive (suc n) ps

  -- What is left in the file by a run that returned the suggestions: their ids, once more each,
  -- from the next one on; and there are all the wanted ones or none.
  pub record Granted (c seen : ℕ → ℕ) (n wanted : ℕ) (ps : List (Pending F))
      (file : Option (State F)) : Type 0 where
    pub holds : FileHas (λ k. c k + count_pending k ps) seen (n + length ps) file
    pub ids : Consecutive n ps
    -- No id is observed more often than it stood before: the suggested ones are pending.
    pub few : (k : ℕ) → file_observed k file ≤ c k
    pub all_or_none : (ps ≡ []) ⊎ (length ps ≡ wanted)

  record Planned (os : List (Observation F)) (c seen : ℕ → ℕ) (n wanted : ℕ) (ps : List (Pending F))
      (t : State F) : Type 0 where
    holds : Has (λ k. c k + count_pending k ps) seen (n + length ps) t
    ids : Consecutive n ps
    -- The plan leaves the observations as they are.
    kept : t.observations ≡ os
    all : length ps ≡ wanted

  abbrev IsPlanned : (os : List (Observation F)) (c seen : ℕ → ℕ) (n wanted : ℕ) → Plan F → Type 0
  IsPlanned os c seen n wanted (planned t ps ds) = Planned os c seen n wanted ps t
  IsPlanned os c seen n wanted (infeasible id why) = Unit

  add_step-IsPlanned :
      (os : List (Observation F)) (c seen : ℕ → ℕ) (n wanted : ℕ) (p : Pending F)
      (decision : String) (rest : Plan F)
      → p.trial_id ≡ n
      → IsPlanned os (λ k. c k + hit p.trial_id k) seen (suc n) wanted rest
      → IsPlanned os c seen n (suc wanted) (add_step p decision rest)
  unfolding count_pending
  add_step-IsPlanned os c seen n wanted p decision (planned t ps ds) named h = record {
    holds = record {
      counts = λ k. omega (arith, h.holds.counts k);
      grown = h.holds.grown;
      next = omega (arith, h.holds.next);
    };
    ids = (named, h.ids);
    kept = h.kept;
    all = omega (arith, h.all);
  }
  add_step-IsPlanned os c seen n wanted p decision (infeasible id why) named h = tt

module _ (fl : Float) (env : Env fl.F) (planner : Planner fl.F) where
  add_pending-Has :
      (c seen : ℕ → ℕ) (n : ℕ) (p : Pending fl.F) (s : State fl.F)
      → Has c seen n s
      → p.trial_id ≡ s.next_trial_id
      → Has (λ k. c k + hit p.trial_id k) seen (suc n) (add_pending fl env planner p s)
  add_pending-Has c seen n p s h named = record {
    counts = λ k. omega (arith, h.counts k, count_pending-append k s.pending p);
    grown = h.grown;
    next = omega (arith, h.next);
  }

  plan-IsPlanned :
      (p : Option (State fl.F) → Type 0) (wanted : ℕ) (c seen : ℕ → ℕ) (n : ℕ) (s : State fl.F)
      → Has c seen n s
      → Triple
          (λ w. p w.state_file)
          (plan fl env planner wanted s)
          (λ r w. p w.state_file × IsPlanned s.observations c seen n wanted r)
          (λ w. p w.state_file)
  unfolding plan new_suggestion count_pending
  plan-IsPlanned p zero c seen n s h = Triple-pure (planned s [] []) (λ w g. (
    g,
    record {
      holds = record {
        counts = λ k. omega (arith, h.counts k);
        grown = h.grown;
        next = omega (arith, h.next);
      };
      ids = tt;
      kept = refl;
      all = refl;
    },
  ))
  plan-IsPlanned p (suc wanted) c seen n s h =
      let (candidate, decision) = planner.propose (trial_seed fl env planner s) s in
      Triple-option candidate _ _ (λ _. Triple-pure _ (λ w g. (g, tt)))
        (λ params _. Triple-seq (time fl env) _ (Triple-quiet p _ (IsQuiet-time fl env)) (λ now.
          let q = new_suggestion fl env planner s.next_trial_id params now in
          let added = add_pending-Has c seen n q s h refl in
          Triple-bind (plan fl env planner wanted (add_pending fl env planner q s)) _
            (plan-IsPlanned p wanted (λ k. c k + hit q.trial_id k) seen (suc n) _ added)
            (λ rest. Triple-fact _ (λ good. Triple-pure _ (λ w g. (
              g,
              add_step-IsPlanned s.observations c seen n wanted q decision rest h.next good,
            ))))))

  pub IsQuiet-log_acquisition : (d : ℕ × String) → IsQuiet (log_acquisition fl env planner d)
  unfolding log_acquisition
  IsQuiet-log_acquisition d =
      IsQuiet-bind (time fl env) _ (IsQuiet-time fl env)
        (λ now. IsQuiet-write fl env acquisition_log_file _ (λ w. refl))

  pub IsQuiet-write_pending : (p : Pending fl.F) → IsQuiet (write_pending fl env planner p)
  unfolding write_pending
  IsQuiet-write_pending p = search (IsQuiet-bind, IsQuiet-time, IsQuiet-ensure_pending_manifest)

  pub IsQuiet-record_decision : (d : ℕ × String) → IsQuiet (record_decision fl env planner d)
  unfolding record_decision
  IsQuiet-record_decision d = search (IsQuiet-bind, IsQuiet-log_acquisition, IsQuiet-append_event)

  pub IsQuiet-when :
      (b : Bool) (m : Action fl.F Unit) → IsQuiet m → IsQuiet (when fl env planner b m)
  IsQuiet-when b m h = IsQuiet-if b m (pure tt) h (IsQuiet-pure tt)

  Granted-none :
      (c seen : ℕ → ℕ) (n wanted : ℕ) {file : Option (State fl.F)}
      → FileHas c seen n file
      → Granted c seen n wanted [] file
  unfolding count_pending
  Granted-none c seen n wanted {file} h = record {
    holds = record {
      counts = λ k. omega (arith, h.counts k);
      grown = h.grown;
      next = omega (arith, h.next);
    };
    ids = tt;
    few = λ k. few_of file h k;
    all_or_none = inl refl;
  }
    where
      few_of : (f : Option (State fl.F)) → FileHas c seen n f → (k : ℕ) → file_observed k f ≤ c k
      few_of none h k = omega (arith, h.counts k)
      few_of (some s) h k = omega (arith, h.counts k)

  -- What a raised error leaves: the ids of some granted suggestions, or of none.
  abbrev Failed : (c seen : ℕ → ℕ) (n wanted : ℕ) → World fl.F → Type 0
  Failed c seen n wanted w = (ps : List (Pending fl.F)) × Granted c seen n wanted ps w.state_file

  On-Failed :
      (c seen : ℕ → ℕ) (n wanted : ℕ) (w : World fl.F) → On c seen n w → Failed c seen n wanted w
  On-Failed c seen n wanted w h = ([], Granted-none c seen n wanted h)

  kept_Failed :
      {A : Type 0} (c seen : ℕ → ℕ) (n wanted : ℕ) (m : Action fl.F A)
      → Keeps c seen n m
      → Triple (On c seen n) m (λ _. On c seen n) (Failed c seen n wanted)
  kept_Failed c seen n wanted m t =
      Triple-imp m (λ _ h. h) (λ _ _ h. h) (On-Failed c seen n wanted) t

  quiet_Failed :
      {A : Type 0} (c seen : ℕ → ℕ) (n wanted : ℕ) (m : Action fl.F A)
      → IsQuiet m
      → Triple (On c seen n) m (λ _. On c seen n) (Failed c seen n wanted)
  quiet_Failed c seen n wanted m q = kept_Failed c seen n wanted m (Keeps-quiet c seen n m q)

  commit_plan-Granted :
      (c seen : ℕ → ℕ) (n wanted : ℕ) (s : State fl.F) (retired : Bool) (r : Plan fl.F)
      → Has c seen n s
      → IsPlanned s.observations c seen n wanted r
      → Triple
          (On c seen n)
          (commit_plan fl env planner s retired r)
          (λ ps w. Granted c seen n wanted ps w.state_file)
          (Failed c seen n wanted)
  unfolding commit_plan
  commit_plan-Granted c seen n wanted s retired (infeasible id why) h good =
      let failed = On-Failed c seen n wanted in
      Triple-seq _ _ (quiet_Failed c seen n wanted _ (IsQuiet-log_acquisition (id, why))) (λ _.
        Triple-seq _ _ (kept_Failed c seen n wanted _ (Triple-save_state fl env c seen n s h)) (λ _.
          Triple-seq _ _
            (when-runs fl env planner (FileHas c seen n) (Failed c seen n wanted) retired _ (
              Triple-seq _ _
                (Triple-write_obs_csv fl env (FileHas c seen n) (Failed c seen n wanted) s failed)
                (λ _.
                  append_governance_violations-runs fl env planner (FileHas c seen n)
                    (Failed c seen n wanted) Command.suggest s failed)))
            (λ _. Triple-raise (no_feasible_candidate id) failed)))
  commit_plan-Granted c seen n wanted s retired (planned t ps ds) h good =
      let left : Option (State fl.F) → Type 0 = λ file.
        FileHas (λ k. c k + count_pending k ps) seen (n + length ps) file
        × ((k : ℕ) → file_observed k file ≤ c k) in
      let few : (k : ℕ) → count_observed k t.observations ≤ c k =
        λ k. omega (arith, h.counts k, ap (count_observed k) good.kept) in
      let given : (w : World fl.F) → left w.state_file → Granted c seen n wanted ps w.state_file =
        λ w g. record { holds = g.0; ids = good.ids; few = g.1; all_or_none = inr good.all } in
      let failed : (w : World fl.F) → left w.state_file → Failed c seen n wanted w =
        λ w g. (ps, given w g) in
      Triple-seq _ _ (quiet_Failed c seen n wanted _ (IsQuiet-for_each ps _ IsQuiet-write_pending))
        (λ _.
          Triple-seq _ _
            (quiet_Failed c seen n wanted _ (IsQuiet-for_each ds _ IsQuiet-record_decision))
            (λ _.
              Triple-bind (save_state fl env t) _
                (Triple-save_state_few fl env _ seen _ c t good.holds few
                  (On-Failed c seen n wanted))
                (λ _.
                  Triple-seq _ _
                    (when-runs fl env planner left (Failed c seen n wanted) retired _
                      (Triple-write_obs_csv fl env left (Failed c seen n wanted) t failed))
                    (λ _.
                      Triple-seq _ _
                        (append_governance_violations-runs fl env planner left
                          (Failed c seen n wanted) Command.suggest t failed)
                        (λ _. Triple-pure ps given)))))

  when-Keeps :
      (c seen : ℕ → ℕ) (n : ℕ) (b : Bool) (m : Action fl.F Unit)
      → Keeps c seen n m
      → Keeps c seen n (when fl env planner b m)
  when-Keeps c seen n b m t = Triple-if b m (pure tt) (λ _. t) (λ _. Triple-pure tt (λ _ h. h))

  decline-Granted :
      (c seen : ℕ → ℕ) (n wanted : ℕ) (s : State fl.F) (retired : Bool)
      → Has c seen n s
      → Triple
          (On c seen n)
          (decline fl env planner s retired)
          (λ ps w. Granted c seen n wanted ps w.state_file)
          (Failed c seen n wanted)
  unfolding decline
  decline-Granted c seen n wanted s retired h =
      Triple-seq _ _
        (kept_Failed c seen n wanted _ (
          Triple-if retired _ _
            (λ _.
              Triple-bind (refresh_best fl env s) _ (Triple-refresh_best fl env c seen n s h)
                (λ best. Triple-fact _ (λ has.
                  Triple-seq _ _ (Triple-save_state_and_rows fl env c seen n best has) (λ _.
                    Keeps-quiet c seen n _
                      (IsQuiet-append_governance_violations fl env Command.suggest best)))))
            (λ _. when-Keeps c seen n s.upgrade_pending _ (Triple-save_state fl env c seen n s h))))
        (λ _. Triple-pure [] (λ _ g. Granted-none c seen n wanted g))

  suggest_from-Granted :
      (c seen : ℕ → ℕ) (n : ℕ) (s : State fl.F) (retired : Bool)
      → Has c seen n s
      → Triple
          (On c seen n)
          (suggest_from fl env planner s retired)
          (λ ps w. Granted c seen n planner.requested_count ps w.state_file)
          (Failed c seen n planner.requested_count)
  unfolding suggest_from
  suggest_from-Granted c seen n s retired h =
      Triple-if (over_limit fl env planner s) _ _
        (λ _. decline-Granted c seen n planner.requested_count s retired h)
        (λ _.
          Triple-bind (plan fl env planner planner.requested_count s) _
            (Triple-imp _ (λ _ g. g) (λ _ _ g. g) (On-Failed c seen n planner.requested_count)
              (plan-IsPlanned (FileHas c seen n) planner.requested_count c seen n s h))
            (λ r.
              Triple-fact _
                (λ good. commit_plan-Granted c seen n planner.requested_count s retired r h good)))

  retire_old-Has :
      (c seen : ℕ → ℕ) (n : ℕ) (now : fl.F) (age : Option fl.F) (s : State fl.F)
      → Has c seen n s
      → Has c seen n (retire_old fl env planner now age s).0
  unfolding retire_stale_pending new_terminal_observation
  retire_old-Has c seen n now none s h = h
  retire_old-Has c seen n now (some age) s h = retire_all-Has c seen n _ (λ _ p. refl) _ s h

  suggest_state-Granted :
      (c seen : ℕ → ℕ) (n : ℕ) (s : State fl.F)
      → Has c seen n s
      → Triple
          (On c seen n)
          (suggest_state fl env planner s)
          (λ ps w. Granted c seen n planner.requested_count ps w.state_file)
          (Failed c seen n planner.requested_count)
  unfolding suggest_state
  suggest_state-Granted c seen n s h =
      Triple-seq (time fl env) _
        (quiet_Failed c seen n planner.requested_count _ (IsQuiet-time fl env))
        (λ now.
          let seeded : Has c seen n (with_seed fl env planner s) = record {
            counts = h.counts;
            grown = h.grown;
            next = h.next;
          } in
          let kept =
            retire_old-Has c seen n now planner.max_pending_age (with_seed fl env planner s)
              seeded in
          Triple-seq _ _
            (quiet_Failed c seen n planner.requested_count _
              (IsQuiet-for_each _ _ (IsQuiet-record_retired fl env now true)))
            (λ _.
              Triple-seq _ _
                (quiet_Failed c seen n planner.requested_count _ (
                  IsQuiet-for_each _ _ (IsQuiet-append_governance_override fl env Command.suggest)))
                (λ _. suggest_from-Granted c seen n _ _ kept)))

  pub suggest-Granted :
      (c seen : ℕ → ℕ) (n : ℕ)
      → Triple
          (On c seen n)
          (cmd_suggest fl env planner)
          (λ ps w. Granted c seen n planner.requested_count ps w.state_file)
          (Failed c seen n planner.requested_count)
  unfolding cmd_suggest
  suggest-Granted c seen n =
      Triple-with_lock fl env (FileHas c seen n)
        (λ file. (ps : List (Pending fl.F)) × Granted c seen n planner.requested_count ps file)
        (Granted c seen n planner.requested_count) Command.suggest _
        (λ _ h. ([], Granted-none c seen n planner.requested_count h)) (λ ps _ h. (ps, h))
        (Triple-bind (load_state fl env) (suggest_state fl env planner)
          (Triple-imp _ (λ _ h. h) (λ _ _ h. h) (On-Failed c seen n planner.requested_count)
            (Triple-load_state fl env c seen n))
          (λ s. Triple-fact _ (suggest_state-Granted c seen n s)))
