-- ===== src/Trials/World.antt =====
-- What the commands of templates/bo_client/run_bo.py read and write outside: the files of a
-- campaign, and the clock. Each file is kept as the records that are written to it.
use looptimum.Prelude.{ℕ, Bool, Option, none, some, String, List, [], ◌∷◌, ◌==◌, if◌then◌else◌}
use looptimum.Prelude.Exec.{Exec}
use looptimum.Values.{Value, Dict}
use looptimum.Objectives.{Policy}
use looptimum.Contract.{Status, Report}
use looptimum.Trials.{State}

pub data Command : Type 0 where
  suggest ingest cancel retire heartbeat : Command

-- The files that are replaced as a whole, by `atomic_write_text`.
pub data Written : Type 0 where
  state_json observations_rows trial_manifest payload_json event_log_file acquisition_log_file :
      Written

-- The ways in which a command fails; the texts of the messages are left out.
pub data Error : Type 0 where
  lock_timeout missing_trial_id unsupported_state invalid_objectives invalid_payload : Error
  invalid_heartbeat invalid_lease_token params_mismatch nothing_to_retire : Error
  not_pending lease_required lease_mismatch conflicting_duplicate : ℕ → Error
  no_feasible_candidate : ℕ → Error
  -- the configuration of the governance policies is invalid
  invalid_governance : Error
  -- an OSError at the writing of a file
  write_failed : Written → Error

-- A row of observations.csv: params and objectives by the columns `param_` and `objective_`.
pub record Row (F : Type 0) : Type 0 where
  pub trial_id : ℕ
  pub status : Status
  pub completed_at : F
  pub params : Dict (Value F)
  pub objectives : Dict (Value F)
  pub penalty_objective : Option F
  pub terminal_reason : Option String
  pub last_heartbeat_at : Option F
  pub artifact_path : Option String
  pub lease_token : Option String

-- `build_objective_metadata`
pub record Metadata (F : Type 0) : Type 0 where
  pub objective_name : String
  pub objective_value : Option F
  pub objective_vector : Dict (Option F)
  pub scalarized_objective : Option F
  pub scalarization_policy : Option (Policy F)

-- The status of a manifest: `none` is "pending".
pub record Manifest (F : Type 0) : Type 0 where
  pub created_at : F
  pub trial_id : ℕ
  pub status : Option Status
  pub terminal_reason : Option String
  pub params : Dict (Value F)
  pub objective : Metadata F
  pub penalty_objective : Option F
  pub suggested_at : Option F
  pub completed_at : Option F
  pub last_heartbeat_at : Option F
  pub heartbeat_count : ℕ
  pub heartbeat_note : Option String
  pub heartbeat_meta : Option (Dict (Value F))
  pub lease_token : Option String
  pub artifact_path : Option String
  pub ingest_payload : Option String
  pub updated_at : F

pub data EventKind (F : Type 0) : Type 0 where
  lock_acquired : Command → F → EventKind F
  lock_released : Command → EventKind F
  trial_retired : (trial_id : ℕ) (reason : Option String) (auto_stale : Bool) → EventKind F
  trial_canceled : (trial_id : ℕ) (reason : String) → EventKind F
  suggestion_created : (trial_id : ℕ) → EventKind F
  ingest_applied : (trial_id : ℕ) → Status → EventKind F
  ingest_duplicate_noop : (trial_id : ℕ) → EventKind F
  heartbeat_event : (trial_id : ℕ) → F → EventKind F
  governance_override_used :
      Command → (trial_id : ℕ) → Status → (reason : Option String) → EventKind F
  governance_violations_detected : Command → (policy_ids : List String) → EventKind F

pub record Event (F : Type 0) : Type 0 where
  pub kind : EventKind F
  pub timestamp : F

-- A row of the acquisition log, its telemetry left out; the decision is the proposer's text.
pub record Acquisition (F : Type 0) : Type 0 where
  pub trial_id : ℕ
  pub decision : String
  pub timestamp : F

pub record World (F : Type 0) : Type 0 where
  -- how often the clock has been read
  pub ticks : ℕ
  pub state_file : Option (State F)
  pub observations_csv : List (Row F)
  pub manifests : List (ℕ × Manifest F)
  pub ingest_payloads : List (ℕ × Report F)
  pub events : List (Event F)
  pub acquisition_log : List (Acquisition F)

-- A dictionary with trial ids as keys.
module _ {V : Type 0} where
  unfoldable pub lookup_id : ℕ → List (ℕ × V) → Option V
  lookup_id id [] = none
  lookup_id id (entry ∷ d) =
      let rest = lookup_id id d in if entry.0 == id then some entry.1 else rest

  unfoldable pub insert_id : ℕ → V → List (ℕ × V) → List (ℕ × V)
  insert_id id value [] = (id, value) ∷ []
  insert_id id value (entry ∷ d) =
      let rest = insert_id id value d in if entry.0 == id then (id, value) ∷ d else entry ∷ rest

abbrev pub Action : Type 0 → Type 0 → Type 0
Action F A = Exec (World F) Error A
