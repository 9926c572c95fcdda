-- ===== src/Trials/Mirror/Suggested.antt =====
-- observations.csv and cmd_suggest, which writes it after a retirement.
use looptimum.Prelude.{
  ℕ, zero, suc, not, Bool, true, false, Option, none, some, List, [], ◌∷◌, ◌≡◌, refl, sym, ap, ◌∙◌,
  is_nil, arith,
}
use looptimum.Prelude.Exec.{◌>>◌}
use looptimum.Float.{Float}
use looptimum.Trials.{
  Pending, Observation, State, pop_pending, retire_all, retire_stale_pending, add_observation,
}
use looptimum.Trials.World.{World, Command, no_feasible_candidate, Action}
use looptimum.Trials.Effects.{Env, observation_rows, time, refresh_best, write_obs_csv}
use looptimum.Trials.Suggest.{
  Planner, Plan, planned, infeasible, new_suggestion, add_pending, trial_seed, plan, when,
  commit_plan, decline, over_limit, retire_old, suggest_from, with_seed, suggest_state, cmd_suggest,
}
use looptimum.Trials.Hoare.{
  Triple, IsQuiet, IsQuiet-pure, IsQuiet-bind, IsQuiet-for_each, Triple-pure, Triple-raise,
  Triple-if, Triple-imp, Triple-bind, Triple-both,
}
use looptimum.Trials.Quiet.{
  IsQuiet-time, IsQuiet-refresh_best, IsQuiet-append_governance_override,
  IsQuiet-append_governance_violations,
}
use looptimum.Trials.Invariant.Files.{Triple-seq, Triple-fact}
use looptimum.Trials.Invariant.Conserve.{IsQuiet-record_retired}
use looptimum.Trials.Invariant.Allocate.{
  IsQuiet-log_acquisition, IsQuiet-write_pending, IsQuiet-record_decision,
}
use looptimum.Trials.Limits.{Grown, plan-Grown}
use looptimum.Trials.Mirror.{
  CsvWritten, Triple-write_rows, Mirrored, Mirroring, Mirroring-quiet,
  Mirroring-save_state_and_rows,
}
use looptimum.Trials.Mirror.Writes.{
  Sees, Sees-quiet, Saved, save_state-Saved, save_state-Mirrored, loaded-Mirroring,
}

IsQuiet-option :
    {F A B : Type 0} (o : Option B) (m : Action F A) (f : B → Action F A)
    → IsQuiet m
    → ((b : B) → IsQuiet (f b))
    → IsQuiet (elim o [ none ↦ m | some b ↦ f b ])
IsQuiet-option none m f h k = h
IsQuiet-option (some b) m f h k = k b

module _ {F : Type 0} where
  -- If no trial was retired, the observations are the old ones.
  retire_all-none :
      (make : ℕ → Pending F → Observation F) (ids : List ℕ) (s : State F)
      → is_nil (retire_all make ids s).1 ≡ true
      → (retire_all make ids s).0.observations ≡ s.observations
  unfolding retire_all
  retire_all-none make [] s e = refl
  retire_all-none make (id ∷ ids) s e = split (retire_all-none make ids s) (pop_pending s id) e
    where
      split :
          (is_nil (retire_all make ids s).1 ≡ true
            → (retire_all make ids s).0.observations ≡ s.observations)
          → (popped : Option (Pending F × State F))
          → is_nil
              (elim popped as (λ _. State F × List (Observation F)) [
                | none ↦ retire_all make ids s
                | some (p, t) ↦
                    let o = make id p in
                    let (after, retired) = retire_all make ids (add_observation o t) in
                    (after, o ∷ retired)
              ]).1
            ≡ true
          → (elim popped as (λ _. State F × List (Observation F)) [
            | none ↦ retire_all make ids s
            | some (p, t) ↦
                let o = make id p in
                let (after, retired) = retire_all make ids (add_observation o t) in
                (after, o ∷ retired)
          ]).0.observations
            ≡ s.observations
      split rest none e = rest e
      split rest (some (p, t)) e = cc

module _ (fl : Float) (env : Env fl.F) (planner : Planner fl.F) (written : CsvWritten fl env) where
  IsQuiet-plan : (wanted : ℕ) (s : State fl.F) → IsQuiet (plan fl env planner wanted s)
  unfolding plan
  IsQuiet-plan zero s = IsQuiet-pure _
  IsQuiet-plan (suc wanted) s =
      let (candidate, decision) = planner.propose (trial_seed fl env planner s) s in
      IsQuiet-option candidate _ _ (IsQuiet-pure _) (λ params.
        IsQuiet-bind (time fl env) _ (IsQuiet-time fl env) (λ now.
          let q = new_suggestion fl env planner s.next_trial_id params now in
          IsQuiet-bind (plan fl env planner wanted (add_pending fl env planner q s)) _
            (IsQuiet-plan wanted (add_pending fl env planner q s)) (λ rest. IsQuiet-pure _)))

  plan-Sees :
      (retired : Bool) (wanted : ℕ) (s : State fl.F)
      → Triple
          (Sees retired s)
          (plan fl env planner wanted s)
          (λ r w. Sees retired s w × Grown s wanted r)
          Mirrored
  plan-Sees retired wanted s =
      Triple-imp _ (λ _ h. (h, tt)) (λ _ _ h. (h.0, h.1.1)) (λ _ h. h.0)
        (Triple-both _ (Sees-quiet retired s _ (IsQuiet-plan wanted s))
          (plan-Grown fl env planner wanted s))

  write_obs_csv-Mirrored :
      {E : World fl.F → Type 0} (t : State fl.F)
      → Triple (Saved true t) (write_obs_csv fl env t) (λ _. Mirrored) E
  write_obs_csv-Mirrored t = Triple-write_rows fl env written t (λ w h. h.0)

  -- The rows are written if trials were retired, and need not be written otherwise.
  rows-Mirrored :
      (retired : Bool) (t : State fl.F) (more : Action fl.F Unit)
      → IsQuiet more
      → Triple
          (Saved retired t)
          (when fl env planner retired (write_obs_csv fl env t >> more))
          (λ _. Mirrored)
          Mirrored
  rows-Mirrored true t more q =
      Triple-bind (write_obs_csv fl env t) _ (write_obs_csv-Mirrored t)
        (λ _. Mirroring-quiet more q)
  rows-Mirrored false t more q =
      Triple-pure tt (λ w h. record { rows = h.1 refl ∙ ap observation_rows (sym h.0) })

  just_rows-Mirrored :
      (retired : Bool) (t : State fl.F)
      → Triple
          (Saved retired t)
          (when fl env planner retired (write_obs_csv fl env t))
          (λ _. Mirrored)
          Mirrored
  just_rows-Mirrored true t = write_obs_csv-Mirrored t
  just_rows-Mirrored false t =
      Triple-pure tt (λ w h. record { rows = h.1 refl ∙ ap observation_rows (sym h.0) })

  commit_plan-Mirrored :
      (wanted : ℕ) (s : State fl.F) (retired : Bool) (r : Plan fl.F)
      → Grown s wanted r
      → Triple (Sees retired s) (commit_plan fl env planner s retired r) (λ _. Mirrored) Mirrored
  unfolding commit_plan
  commit_plan-Mirrored wanted s retired (infeasible id why) grown =
      Triple-bind _ _ (Sees-quiet retired s _ (IsQuiet-log_acquisition fl env planner (id, why)))
        (λ _. Triple-bind _ _ (save_state-Saved fl env written retired s s refl) (λ _.
          Triple-bind _ _
            (rows-Mirrored retired s _
              (IsQuiet-append_governance_violations fl env Command.suggest s))
            (λ _. Triple-raise (no_feasible_candidate id) (λ _ h. h))))
  commit_plan-Mirrored wanted s retired (planned t ps ds) grown =
      Triple-bind _ _
        (Sees-quiet retired s _ (IsQuiet-for_each ps _ (IsQuiet-write_pending fl env planner)))
        (λ _.
          Triple-bind _ _
            (Sees-quiet retired s _
              (IsQuiet-for_each ds _ (IsQuiet-record_decision fl env planner)))
            (λ _. Triple-bind _ _ (save_state-Saved fl env written retired s t grown.1) (λ _.
              Triple-bind _ _ (just_rows-Mirrored retired t) (λ _.
                Triple-seq _ _
                  (Mirroring-quiet _
                    (IsQuiet-append_governance_violations fl env Command.suggest t))
                  (λ _. Triple-pure ps (λ _ h. h))))))

  decline-Mirrored :
      (s : State fl.F) (retired : Bool)
      → Triple (Sees retired s) (decline fl env planner s retired) (λ _. Mirrored) Mirrored
  unfolding decline
  decline-Mirrored s true =
      Triple-bind _ _
        (Triple-bind (refresh_best fl env s) _ (Sees-quiet true s _ (IsQuiet-refresh_best fl env s))
          (λ best.
            Triple-imp _ (λ _ h. h.0) (λ _ _ h. h) (λ _ h. h)
              (Triple-seq _ _ (Mirroring-save_state_and_rows fl env written best) (λ _.
                Mirroring-quiet _
                  (IsQuiet-append_governance_violations fl env Command.suggest best)))))
        (λ _. Triple-pure [] (λ _ h. h))
  decline-Mirrored s false =
      Triple-bind _ _
        (Triple-if s.upgrade_pending _ _ (λ _. save_state-Mirrored fl env written s s refl)
          (λ _. Triple-pure tt (λ _ h. h.0)))
        (λ _. Triple-pure [] (λ _ h. h))

  suggest_from-Mirrored :
      (s : State fl.F) (retired : Bool)
      → Triple (Sees retired s) (suggest_from fl env planner s retired) (λ _. Mirrored) Mirrored
  unfolding suggest_from
  suggest_from-Mirrored s retired =
      Triple-if (over_limit fl env planner s) _ _ (λ _. decline-Mirrored s retired)
        (λ _.
          Triple-bind (plan fl env planner planner.requested_count s) _
            (plan-Sees retired planner.requested_count s)
            (λ r.
              Triple-fact _
                (λ grown. commit_plan-Mirrored planner.requested_count s retired r grown)))

  retire_old-none :
      (now : fl.F) (age : Option fl.F) (s : State fl.F)
      → not (is_nil (retire_old fl env planner now age s).1) ≡ false
      → (retire_old fl env planner now age s).0.observations ≡ s.observations
  unfolding retire_stale_pending
  retire_old-none now none s e = refl
  retire_old-none now (some age) s e = retire_all-none _ _ s (ground arith)

  suggest_state-Mirrored :
      (s : State fl.F)
      → Triple (Sees false s) (suggest_state fl env planner s) (λ _. Mirrored) Mirrored
  unfolding suggest_state
  suggest_state-Mirrored s =
      Triple-bind (time fl env) _ (Sees-quiet false s _ (IsQuiet-time fl env)) (λ now.
        let seeded = with_seed fl env planner s in
        let (t, old) = retire_old fl env planner now planner.max_pending_age seeded in
        let retired = not (is_nil old) in
        Triple-imp _
          (λ w h. (
            h.0,
            λ kept.
                h.1 refl
                ∙ ap observation_rows
                    (sym (retire_old-none now planner.max_pending_age seeded kept)),
          ))
          (λ _ _ h. h) (λ _ h. h)
          (Triple-bind _ _
            (Sees-quiet retired t _
              (IsQuiet-for_each old _ (IsQuiet-record_retired fl env now true)))
            (λ _.
              Triple-bind _ _
                (Sees-quiet retired t _ (
                  IsQuiet-for_each old _
                    (IsQuiet-append_governance_override fl env Command.suggest)))
                (λ _. suggest_from-Mirrored t retired))))

  pub suggest-Mirroring : Mirroring (cmd_suggest fl env planner)
  unfolding cmd_suggest
  suggest-Mirroring = loaded-Mirroring fl env written Command.suggest _ suggest_state-Mirrored
