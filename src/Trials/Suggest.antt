-- ===== src/Trials/Suggest.antt =====
-- `cmd_suggest` of templates/bo_client/run_bo.py, from the lock on, for the backends other than
-- Ax. The proposer is an argument: `none` stands for ConstraintSamplingFailure.
use looptimum.Prelude.{
  ℕ, zero, suc, ◌+◌, Bool, true, false, ◌||◌, Option, none, some, String, List, [], ◌∷◌, ◌++◌,
  length, is_nil, not, ltb, or_else, if◌then◌else◌,
}
use looptimum.Prelude.Int.{ℤ, pos, ◌+ℤ◌}
use looptimum.Prelude.Exec.{pure, raise, for_each, ◌>>=◌, ◌>>◌}
use looptimum.Float.{Float}
use looptimum.Values.{Value, Dict}
use looptimum.Trials.{Pending, Observation, State, retire_stale_pending}
use looptimum.Trials.World.{
  Command, acquisition_log_file, no_feasible_candidate, suggestion_created, Action,
}
use looptimum.Trials.Effects.{
  Env, time, write, append_event, load_state, refresh_best, save_state, write_obs_csv,
  ensure_pending_manifest, save_state_and_rows, append_governance_override,
  append_governance_violations, with_lock,
}
use looptimum.Trials.Retire.{record_retired}

pub record Planner (F : Type 0) : Type 0 where
  pub seed : ℤ
  pub max_pending_age : Option F
  pub max_pending_trials : Option ℕ
  pub max_trials : ℕ
  pub worker_leases : Bool
  pub requested_count : ℕ
  -- from the seed of the trial and the planning state: the values, and the decision record; or the
  -- decision that tells why no candidate is feasible
  pub propose : ℤ → State F → Option (Dict (Value F)) × String
  -- the token made for a trial
  pub token : ℕ → String

pub data Plan (F : Type 0) : Type 0 where
  planned : State F → List (Pending F) → List (ℕ × String) → Plan F
  infeasible : ℕ → String → Plan F

abbrev pub add_step : {F : Type 0} → Pending F → String → Plan F → Plan F
add_step p decision (planned state ps ds) = planned state (p ∷ ps) ((p.trial_id, decision) ∷ ds)
add_step p decision (infeasible trial_id why) = infeasible trial_id why

module _ (fl : Float) (env : Env fl.F) (planner : Planner fl.F) where
  unfoldable pub new_suggestion : ℕ → Dict (Value fl.F) → fl.F → Pending fl.F
  new_suggestion trial_id params now = record {
    trial_id = trial_id;
    params = params;
    suggested_at = some now;
    last_heartbeat_at = none;
    heartbeat_count = none;
    heartbeat_note = none;
    heartbeat_meta = none;
    lease_token = if planner.worker_leases then some (planner.token trial_id) else none;
  }

  abbrev pub add_pending : Pending fl.F → State fl.F → State fl.F
  add_pending p state = record state {
    pending = state.pending ++ p ∷ [];
    next_trial_id = suc p.trial_id;
  }

  abbrev pub trial_seed : State fl.F → ℤ
  trial_seed state = or_else state.seed planner.seed +ℤ pos state.next_trial_id

  -- The planning loop: nothing is written until all suggestions are made.
  unfoldable pub plan : ℕ → State fl.F → Action fl.F (Plan fl.F)
  unfolding new_suggestion ◌+ℤ◌
  plan zero state = pure (planned state [] [])
  plan (suc count) state =
      let (candidate, decision) = planner.propose (trial_seed state) state in
      let id = state.next_trial_id in
      elim candidate [
        | none ↦ pure (infeasible id decision)
        | some params ↦ time fl env >>= λ now.
            let p = new_suggestion id params now in
            plan count (add_pending p state) >>= λ rest. pure (add_step p decision rest)
      ]

  unfoldable pub log_acquisition : ℕ × String → Action fl.F Unit
  log_acquisition (trial_id, decision) = do
    now ← time fl env
    write fl env acquisition_log_file (λ w. record w {
      acquisition_log =
          w.acquisition_log
          ++ record { trial_id = trial_id; decision = decision; timestamp = now } ∷ [];
    })

  unfoldable pub write_pending : Pending fl.F → Action fl.F Unit
  write_pending p = do now ← time fl env; ensure_pending_manifest fl env p now

  unfoldable pub record_decision : ℕ × String → Action fl.F Unit
  unfolding log_acquisition
  record_decision d = do log_acquisition d; append_event fl env (suggestion_created d.0)

  abbrev pub when : Bool → Action fl.F Unit → Action fl.F Unit
  when test m = if test then m else pure tt

  -- What is done with a plan; `state` is the one before planning.
  unfoldable pub commit_plan : State fl.F → Bool → Plan fl.F → Action fl.F (List (Pending fl.F))
  unfolding log_acquisition write_pending record_decision
  commit_plan state retired (infeasible trial_id decision) = do
    log_acquisition (trial_id, decision)
    save_state fl env state
    when retired
        (write_obs_csv fl env state >> append_governance_violations fl env Command.suggest state)
    raise (no_feasible_candidate trial_id)
  commit_plan state retired (planned after ps ds) = do
    for_each ps write_pending
    for_each ds record_decision
    save_state fl env after
    when retired (write_obs_csv fl env after)
    append_governance_violations fl env Command.suggest after
    pure ps

  -- Nothing is suggested; what the retirement or the schema upgrade changed is written.
  unfoldable pub decline : State fl.F → Bool → Action fl.F (List (Pending fl.F))
  decline state retired =
      (if retired
        then (refresh_best fl env state >>= λ best.
            save_state_and_rows fl env best
            >> append_governance_violations fl env Command.suggest best)
        else when state.upgrade_pending (save_state fl env state))
      >> pure []

  abbrev pub exceeds : Option ℕ → ℕ → Bool
  exceeds none n = false
  exceeds (some limit) n = ltb limit n

  -- Both limits, the pending one first.
  unfoldable pub over_limit : State fl.F → Bool
  over_limit state =
      let wanted = length state.pending + planner.requested_count in
      exceeds planner.max_pending_trials wanted
      || ltb planner.max_trials (length state.observations + wanted)

  abbrev pub retire_old : fl.F → Option fl.F → State fl.F → State fl.F × List (Observation fl.F)
  retire_old now none state = (state, [])
  retire_old now (some max_age) state =
      retire_stale_pending fl env.objective_cfg max_age now "retired_stale_auto" state

  unfoldable pub suggest_from : State fl.F → Bool → Action fl.F (List (Pending fl.F))
  unfolding over_limit decline commit_plan plan
  suggest_from state retired =
      if over_limit state
      then decline state retired
      else (plan planner.requested_count state >>= commit_plan state retired)

  abbrev pub with_seed : State fl.F → State fl.F
  with_seed state = record state { seed = some (or_else state.seed planner.seed) }

  unfoldable pub suggest_state : State fl.F → Action fl.F (List (Pending fl.F))
  unfolding suggest_from retire_stale_pending record_retired
  suggest_state loaded = do
    now ← time fl env
    let (state, retired) = retire_old now planner.max_pending_age (with_seed loaded)
    for_each retired (record_retired fl env now true)
    for_each retired (append_governance_override fl env Command.suggest)
    suggest_from state (not (is_nil retired))

  unfoldable pub cmd_suggest : Action fl.F (List (Pending fl.F))
  unfolding suggest_state
  cmd_suggest = with_lock fl env Command.suggest (load_state fl env >>= suggest_state)
