-- ===== src/Trials/Effects.antt =====
-- The helpers of templates/bo_client/run_bo.py that read or write the campaign's files.
use looptimum.Prelude.{
  ℕ, suc, Bool, false, Option, none, some, String, List, [], ◌∷◌, ◌++◌, map, lookup, any_of,
  if◌then◌else◌, is_nil, is_some, or_else, str_eq,
}
use looptimum.Prelude.Exec.{ok, err, pure, raise, gets, try_finally, ◌>>=◌, ◌>>◌}
use looptimum.Float.{Float}
use looptimum.Values.{Value, float, Dict}
use looptimum.Objectives.{
  ObjectiveCfg, objective_names, has_policy_fields, nullable_objective_vector, scalarize_objectives,
}
use looptimum.Contract.{Status, same_status}
use looptimum.Runtime.Version.{current_version, normalize_version}
use looptimum.Trials.{Pending, Observation, State, choose_best, update_best, normalize_lease_token}
use looptimum.Trials.World.{
  World, Row, Written, state_json, observations_rows, trial_manifest, event_log_file, write_failed,
  invalid_governance, Command, Error, lock_timeout, unsupported_state, invalid_objectives,
  invalid_lease_token, lease_required, lease_mismatch, Metadata, Manifest, EventKind, lock_acquired,
  lock_released, governance_override_used, governance_violations_detected, lookup_id, insert_id,
  Action,
}

-- What a run of a command is given from outside: the successive readings of the clock, the wait
-- for the lock (`none` where it is not acquired), the resolved configuration, the path of a trial's
-- payload copy, what the governance configuration allows and which policies a governance snapshot of
-- a state finds violated (`none` where normalize_governance_config raises), and at which readings of
-- the clock the writing of which file fails.
pub record Env (F : Type 0) : Type 0 where
  pub clock : ℕ → F
  pub lock_wait : Option F
  pub objective_cfg : ObjectiveCfg F
  pub allowed_statuses : Option (List Status)
  pub payload_path : ℕ → String
  pub violations : State F → F → Option (List String)
  pub write_fails : Written → ℕ → Bool

-- A raised ValueError where the value is missing.
abbrev pub require : {F A : Type 0} → Error → Option A → Action F A
require e none w = (err e, w)
require e (some a) w = (ok a, w)

-- `_observation_rows`: the times of suggestion and the heartbeats' count, note and meta stay out.
unfoldable pub observation_rows : {F : Type 0} → List (Observation F) → List (Row F)
observation_rows [] = []
observation_rows (o ∷ os) =
    record {
      trial_id = o.trial_id;
      status = o.status;
      completed_at = o.completed_at;
      params = o.params;
      objectives = o.objectives;
      penalty_objective = o.penalty_objective;
      terminal_reason = o.terminal_reason;
      last_heartbeat_at = o.last_heartbeat_at;
      artifact_path = o.artifact_path;
      lease_token = o.lease_token;
    }
    ∷ observation_rows os

module _ (fl : Float) (env : Env fl.F) where
  -- `time.time()`
  unfoldable pub time : Action fl.F fl.F
  time w = (ok (env.clock w.ticks), record w { ticks = suc w.ticks })

  -- `atomic_write_text` and `append_jsonl`: the file is written, or stays as it was.
  unfoldable pub write : Written → (World fl.F → World fl.F) → Action fl.F Unit
  write file f w =
      if env.write_fails file w.ticks then (err (write_failed file), w) else (ok tt, f w)

  unfoldable pub append_event : EventKind fl.F → Action fl.F Unit
  unfolding time write
  append_event kind = do
    now ← time
    write event_log_file
        (λ w. record w { events = w.events ++ record { kind = kind; timestamp = now } ∷ [] })

  abbrev fresh_state : fl.F → State fl.F
  fresh_state now = record {
    schema_version = some current_version;
    upgrade_pending = false;
    created_at = now;
    seed = none;
    observations = [];
    pending = [];
    next_trial_id = 1;
    best = none;
  }

  unfoldable pub normalize_state : State fl.F → Action fl.F (State fl.F)
  unfolding normalize_version
  normalize_state state = do
    version ← require unsupported_state (normalize_version state.schema_version)
    pure (record state { schema_version = some version.0; upgrade_pending = version.1 })

  unfoldable pub load_from : Option (State fl.F) → Action fl.F (State fl.F)
  load_from none = do now ← time; normalize_state (fresh_state now)
  load_from (some state) = normalize_state state

  unfoldable pub load_state : Action fl.F (State fl.F)
  unfolding time normalize_state load_from
  load_state = do file ← gets (λ w. w.state_file); load_from file

  -- `atomic_write_json(path, state_for_persist(state))`: the flag is not written.
  unfoldable pub save_state : State fl.F → Action fl.F Unit
  unfolding write
  save_state state =
      write state_json
        (λ w. record w { state_file = some (record state { upgrade_pending = false }) })

  unfoldable pub write_obs_csv : State fl.F → Action fl.F Unit
  unfolding write observation_rows
  write_obs_csv state =
      write observations_rows
        (λ w. record w { observations_csv = observation_rows state.observations })

  unfoldable pub save_state_and_rows : State fl.F → Action fl.F Unit
  unfolding save_state write_obs_csv
  save_state_and_rows state = do save_state state; write_obs_csv state

  -- `update_best`: the clock is read only if there is an ok observation.
  unfoldable pub refresh_best : State fl.F → Action fl.F (State fl.F)
  unfolding time
  refresh_best state = do
    chosen ← require invalid_objectives (choose_best fl env.objective_cfg state.observations)
    if is_some chosen
        then (do
          now ← time
          require invalid_objectives (update_best fl env.objective_cfg now state))
        else pure (record state { best = none })

  abbrev values_of : Dict (Option fl.F) → Option (Dict (Value fl.F))
  values_of [] = some []
  values_of ((name, none) ∷ rest) = none
  values_of ((name, some x) ∷ rest) = elim (values_of rest) [
    | none ↦ none
    | some vs ↦ some ((name, float x) ∷ vs)
  ]

  unfoldable pub scalarized : Option (Dict (Value fl.F)) → Action fl.F (Option fl.F)
  unfolding scalarize_objectives
  scalarized none = pure none
  scalarized (some vector) = do
    value ← require invalid_objectives (scalarize_objectives fl vector env.objective_cfg)
    pure (some value)

  abbrev null_vector : List String → Dict (Option fl.F)
  null_vector names = map (λ name. (name, none)) names

  abbrev metadata_of : Dict (Option fl.F) → Option fl.F → Metadata fl.F
  metadata_of vector scalar = record {
    objective_name = env.objective_cfg.primary.name;
    objective_value = or_else (lookup env.objective_cfg.primary.name vector) none;
    objective_vector = vector;
    scalarized_objective = scalar;
    scalarization_policy =
        (if has_policy_fields env.objective_cfg
          then some env.objective_cfg.scalarization
          else none);
  }

  unfoldable pub vector_of : Option (Dict (Value fl.F)) → Action fl.F (Dict (Option fl.F))
  unfolding objective_names nullable_objective_vector
  vector_of none = pure (null_vector (objective_names env.objective_cfg))
  vector_of (some raw) =
      require invalid_objectives (nullable_objective_vector fl raw env.objective_cfg)

  -- `build_objective_metadata`, of no vector or of a stored one.
  unfoldable pub objective_metadata : Option (Dict (Value fl.F)) → Action fl.F (Metadata fl.F)
  unfolding vector_of scalarized lookup has_policy_fields
  objective_metadata raw = do
    vector ← vector_of raw
    scalar ← scalarized (values_of vector)
    pure (metadata_of vector scalar)

  abbrev created : fl.F → Option (Manifest fl.F) → fl.F
  created now none = now
  created now (some m) = m.created_at

  abbrev or_old :
      {A : Type 0} → Option A → (Manifest fl.F → Option A) → Option (Manifest fl.F) → Option A
  or_old (some a) field m = some a
  or_old none field none = none
  or_old none field (some m) = field m

  unfoldable pub save_manifest : Manifest fl.F → Action fl.F Unit
  unfolding insert_id write
  save_manifest m =
      write trial_manifest (λ w. record w { manifests = insert_id m.trial_id m w.manifests })

  unfoldable pub ensure_pending_manifest : Pending fl.F → fl.F → Action fl.F Unit
  unfolding lookup_id objective_metadata save_manifest
  ensure_pending_manifest p now = do
    old ← gets (λ w. lookup_id p.trial_id w.manifests)
    objective ← objective_metadata none
    save_manifest (record {
      created_at = created now old;
      trial_id = p.trial_id;
      status = none;
      terminal_reason = none;
      params = p.params;
      objective = objective;
      penalty_objective = none;
      suggested_at = some (or_else p.suggested_at now);
      completed_at = none;
      last_heartbeat_at = p.last_heartbeat_at;
      heartbeat_count = or_else p.heartbeat_count 0;
      heartbeat_note = or_old p.heartbeat_note (λ m. m.heartbeat_note) old;
      heartbeat_meta = or_old p.heartbeat_meta (λ m. m.heartbeat_meta) old;
      lease_token = p.lease_token;
      artifact_path = none;
      ingest_payload = or_old none (λ m. m.ingest_payload) old;
      updated_at = now;
    })

  -- `payload_copy` is the relative path of the copied payload, where there is one.
  unfoldable pub ensure_terminal_manifest :
      Observation fl.F → Option String → fl.F → Action fl.F Unit
  unfolding lookup_id objective_metadata save_manifest
  ensure_terminal_manifest o payload_copy now = do
    old ← gets (λ w. lookup_id o.trial_id w.manifests)
    objective ← objective_metadata (some o.objectives)
    save_manifest (record {
      created_at = created now old;
      trial_id = o.trial_id;
      status = some o.status;
      terminal_reason = o.terminal_reason;
      params = o.params;
      objective = objective;
      penalty_objective = o.penalty_objective;
      suggested_at = o.suggested_at;
      completed_at = some o.completed_at;
      last_heartbeat_at = o.last_heartbeat_at;
      heartbeat_count = or_else o.heartbeat_count 0;
      heartbeat_note = or_old o.heartbeat_note (λ m. m.heartbeat_note) old;
      heartbeat_meta = or_old o.heartbeat_meta (λ m. m.heartbeat_meta) old;
      lease_token = o.lease_token;
      artifact_path = elim payload_copy [ none ↦ o.artifact_path | some path ↦ some path ];
      ingest_payload = or_old payload_copy (λ m. m.ingest_payload) old;
      updated_at = now;
    })

  unfoldable pub check_lease : ℕ → Option String → Option String → Action fl.F Unit
  check_lease trial_id none provided = pure tt
  check_lease trial_id (some expected) none = raise (lease_required trial_id)
  check_lease trial_id (some expected) (some token) =
      if str_eq token expected then pure tt else raise (lease_mismatch trial_id)

  unfoldable pub require_matching_lease_token : Pending fl.F → Option String → Action fl.F Unit
  unfolding normalize_lease_token check_lease
  require_matching_lease_token p provided = do
    expected ← require invalid_lease_token (normalize_lease_token p.lease_token)
    check_lease p.trial_id expected provided

  unfoldable pub append_governance_override : Command → Observation fl.F → Action fl.F Unit
  unfolding append_event
  append_governance_override command o = do
    allowed ← require invalid_governance env.allowed_statuses
    if any_of (same_status o.status) allowed
        then pure tt
        else append_event (governance_override_used command o.trial_id o.status o.terminal_reason)

  unfoldable pub append_governance_violations : Command → State fl.F → Action fl.F Unit
  unfolding time append_event
  append_governance_violations command state = do
    now ← time
    found ← require invalid_governance (env.violations state now)
    if is_nil found then pure tt else append_event (governance_violations_detected command found)

  unfoldable pub locked : {A : Type 0} → Command → Option fl.F → Action fl.F A → Action fl.F A
  locked command none body = raise lock_timeout
  locked command (some wait) body = do
    append_event (lock_acquired command wait)
    try_finally (append_event (lock_released command)) body

  -- `with hold_exclusive_lock(...)`, its first event, and the last one under `finally`.
  unfoldable pub with_lock : {A : Type 0} → Command → Action fl.F A → Action fl.F A
  unfolding append_event locked
  with_lock command body = locked command env.lock_wait body
