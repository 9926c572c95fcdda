-- ===== src/Trials/Ingest.antt =====
-- `cmd_ingest` of templates/bo_client/run_bo.py, from the lock on, for campaigns without measured
-- outcomes (contract version 1).
use looptimum.Prelude.{
  ℕ, Bool, not, ◌&&◌, Option, none, some, String, List, [], ◌∷◌, lookup, has_key, all_of,
  find_first, is_nil, ◌==◌, if◌then◌else◌,
}
use looptimum.Prelude.Exec.{Result, ok, err, raise, ◌>>=◌, ◌>>◌}
use looptimum.Float.{Float}
use looptimum.Values.{Value, Dict, require_finite_number}
use looptimum.Space.{Param}
use looptimum.Space.Order.{canonicalize_conditional_params}
use looptimum.Contract.{Payload, Report, normalize_ingest_payload}
use looptimum.Contract.Replay.{same_entry, build_observation_contract, diff_contract_records}
use looptimum.Trials.{
  Pending, Observation, State, pop_pending, add_observation, normalize_lease_token,
}
use looptimum.Trials.World.{
  Command, invalid_payload, invalid_heartbeat, invalid_lease_token, params_mismatch, not_pending,
  conflicting_duplicate, ingest_applied, ingest_duplicate_noop, Action, insert_id, payload_json,
}
use looptimum.Trials.Effects.{
  Env, require, time, write, append_event, load_state, refresh_best, ensure_terminal_manifest,
  save_state_and_rows, require_matching_lease_token, append_governance_violations, with_lock,
}
use looptimum.Trials.Heartbeat.{given_or}

pub record HeartbeatFields (F : Type 0) : Type 0 where
  pub at : Option F
  pub beat_note : Option String
  pub meta : Option (Dict (Value F))

-- The last pending entry with the id, as a dictionary over the entries holds it.
unfoldable pub pending_row : {F : Type 0} → ℕ → List (Pending F) → Option (Pending F)
pending_row trial_id [] = none
pending_row trial_id (p ∷ ps) = elim (pending_row trial_id ps) [
  | none ↦ if p.trial_id == trial_id then some p else none
  | some q ↦ some q
]

-- The stored fields that a repeated ingest is compared with.
unfoldable pub stored_report : {F : Type 0} → Observation F → Report F
stored_report o = record {
  trial_id = o.trial_id;
  params = o.params;
  objectives = o.objectives;
  status = o.status;
  penalty_objective = o.penalty_objective;
  terminal_reason = o.terminal_reason;
}

abbrev pub ok_or : {E A : Type 0} → Result E A → Option A
ok_or (ok a) = some a
ok_or (err _) = none

module _ (fl : Float) where
  -- `==` on dictionaries: the same keys with equal values, in any order.
  unfoldable pub same_dict : Dict (Value fl.F) → Dict (Value fl.F) → Bool
  unfolding same_entry lookup has_key
  same_dict left right =
      all_of (λ e. same_entry fl (some e.1) (lookup e.0 right)) left
      && all_of (λ e. has_key e.0 left) right

  abbrev beat_at : Option (Value fl.F) → Option (Option fl.F)
  beat_at none = some none
  beat_at (some raw) = elim (require_finite_number fl raw) [ none ↦ none | some x ↦ some (some x) ]

  -- `_load_heartbeat_fields`
  unfoldable pub load_heartbeat_fields : Payload fl.F → Option (HeartbeatFields fl.F)
  unfolding require_finite_number
  load_heartbeat_fields payload = elim (beat_at payload.heartbeat_at) [
    | none ↦ none
    | some at ↦
        some (record { at = at; beat_note = payload.heartbeat_note; meta = payload.heartbeat_meta })
  ]

  -- The observation that is stored. The source adds the path of the payload copy to the object
  -- that the state already holds; here it is there from the start.
  unfoldable pub new_observation :
      Report fl.F → Pending fl.F → HeartbeatFields fl.F → String → fl.F → Observation fl.F
  new_observation report p beat path now = record {
    trial_id = report.trial_id;
    params = report.params;
    objectives = report.objectives;
    status = report.status;
    terminal_reason = report.terminal_reason;
    penalty_objective = report.penalty_objective;
    artifact_path = some path;
    suggested_at = p.suggested_at;
    completed_at = now;
    last_heartbeat_at = given_or beat.at p.last_heartbeat_at;
    heartbeat_count = p.heartbeat_count;
    heartbeat_note = given_or beat.beat_note p.heartbeat_note;
    heartbeat_meta = given_or beat.meta p.heartbeat_meta;
    lease_token = p.lease_token;
  }

module _ (fl : Float) (env : Env fl.F) (space : List (Param fl.F)) where
  abbrev pub canonical_params : Dict (Value fl.F) → Action fl.F (Dict (Value fl.F))
  canonical_params params =
      require invalid_payload (ok_or (canonicalize_conditional_params fl params space))

  -- A trial that is no longer pending: the same payload again changes nothing.
  unfoldable pub replay_ingest : Report fl.F → Observation fl.F → Action fl.F Unit
  unfolding stored_report build_observation_contract diff_contract_records
  replay_ingest report prior = do
    params ← canonical_params prior.params
    expected ← require invalid_payload (
        build_observation_contract fl (record (stored_report prior) { params = params })
          env.objective_cfg)
    if is_nil (diff_contract_records fl expected report)
        then append_event fl env (ingest_duplicate_noop report.trial_id)
        else raise (conflicting_duplicate report.trial_id)

  unfoldable pub save_payload : Report fl.F → Action fl.F Unit
  unfolding insert_id
  save_payload report =
      write fl env payload_json
        (λ w. record w { ingest_payloads = insert_id report.trial_id report w.ingest_payloads })

  unfoldable pub apply_ingest :
      Report fl.F → HeartbeatFields fl.F → Pending fl.F → State fl.F → Action fl.F Unit
  unfolding new_observation save_payload
  apply_ingest report beat p popped = do
    now ← time fl env
    let path = env.payload_path report.trial_id
    let o = new_observation fl report p beat path now
    state ← refresh_best fl env (add_observation o popped)
    save_payload report
    ensure_terminal_manifest fl env o (some path) now
    save_state_and_rows fl env state
    append_event fl env (ingest_applied report.trial_id o.status)
    append_governance_violations fl env Command.ingest state

  unfoldable pub ingest_pending :
      Report fl.F
      → HeartbeatFields fl.F
      → Option String
      → Pending fl.F
      → State fl.F
      → Action fl.F Unit
  unfolding same_dict apply_ingest pop_pending
  ingest_pending report beat token row state = do
    require_matching_lease_token fl env row token
    params ← canonical_params row.params
    if not (same_dict fl report.params params)
        then raise params_mismatch
        else elim (pop_pending state report.trial_id) [
          | none ↦ raise (not_pending report.trial_id)
          | some (p, popped) ↦ apply_ingest report beat p popped
        ]

  unfoldable pub ingest_done : Report fl.F → State fl.F → Action fl.F Unit
  unfolding replay_ingest
  ingest_done report state =
      elim (find_first (λ o. o.trial_id == report.trial_id) state.observations) [
        | none ↦ raise (not_pending report.trial_id)
        | some prior ↦ replay_ingest report prior
      ]

  unfoldable pub ingest_report :
      Report fl.F → HeartbeatFields fl.F → Option String → State fl.F → Action fl.F Unit
  unfolding pending_row ingest_done ingest_pending
  ingest_report report beat token state = elim (pending_row report.trial_id state.pending) [
    | none ↦ ingest_done report state
    | some row ↦ ingest_pending report beat token row state
  ]

  unfoldable pub ingest_state : Payload fl.F → Option String → State fl.F → Action fl.F Unit
  unfolding normalize_ingest_payload load_heartbeat_fields ingest_report
  ingest_state payload token state = do
    raw ← require invalid_payload (normalize_ingest_payload fl payload env.objective_cfg)
    params ← canonical_params raw.params
    beat ← require invalid_heartbeat (load_heartbeat_fields fl payload)
    ingest_report (record raw { params = params }) beat token state

  unfoldable pub cmd_ingest : Payload fl.F → Option String → Action fl.F Unit
  unfolding ingest_state normalize_lease_token
  cmd_ingest payload lease_token = do
    token ← require invalid_lease_token (normalize_lease_token lease_token)
    with_lock fl env Command.ingest (do state ← load_state fl env; ingest_state payload token state)
