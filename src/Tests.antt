-- ===== src/Tests.antt =====
-- Runs of the model on a small campaign: one objective and two parameters, over whole numbers.
mod Leases
mod Checks
mod Pareto
mod Encoding
mod Feasible
mod Auth
mod Registry
mod Shared
mod Sampling
mod Stale
mod Campaign
use looptimum.Prelude.{ℕ, Bool, true, false, Option, none, some, String, List, [], ◌∷◌}
use looptimum.Prelude.Int.{ℤ, pos, ◌+ℤ◌}
use looptimum.Float.{Float, integers}
use looptimum.Values.{Value, null, bool, int, float, str, Dict}
use looptimum.Objectives.{Objective, ObjectiveCfg, Direction, primary_only}
use looptimum.Space.{Param, Kind, Scale}
use looptimum.Contract.{Status, Payload}
use looptimum.Trials.{Pending, State}
use looptimum.Trials.World.{World}
use looptimum.Trials.Effects.{Env}
use looptimum.Trials.Heartbeat.{Beat}
use looptimum.Trials.Suggest.{Planner}

abbrev pub cfg : ObjectiveCfg integers.F
unfolding integers
cfg = record {
  primary = record {
    name = "loss";
    direction = Direction.minimize;
    tolerance = pos 0;
    failure_handling = "exclude";
  };
  secondary = [];
  scalarization = primary_only;
}

abbrev pub env : Env integers.F
unfolding integers
env = record {
  clock = λ n. pos n;
  lock_wait = some (pos 0);
  objective_cfg = cfg;
  allowed_statuses = some (Status.ok ∷ []);
  payload_path = λ _. "state/trials/ingest_payload.json";
  violations = λ _ _. some [];
  write_fails = λ _ _. false;
}

-- `depth` counts only if `kind` is "deep".
abbrev pub deep : Param integers.F
unfolding integers
deep = record {
  name = "depth";
  kind = Kind.whole (pos 1) (pos 9) Scale.linear;
  conditions = some (("kind", str "deep" ∷ []) ∷ []);
}

abbrev pub kind : Param integers.F
unfolding integers
kind = record {
  name = "kind";
  kind = Kind.categorical (str "flat" ∷ str "deep" ∷ []);
  conditions = none;
}

abbrev pub space : List (Param integers.F)
space = deep ∷ kind ∷ []

abbrev pub flat : Dict (Value integers.F)
unfolding integers
flat = ("kind", str "flat") ∷ []

abbrev pub planner : Planner integers.F
unfolding integers
planner = record {
  seed = pos 7;
  max_pending_age = some (pos 100);
  max_pending_trials = some 4;
  max_trials = 10;
  worker_leases = true;
  requested_count = 2;
  propose = λ _ _. (some flat, "random");
  token = λ _. "t0";
}

abbrev pub no_files : World integers.F
unfolding integers
no_files = record {
  ticks = 0;
  state_file = none;
  observations_csv = [];
  manifests = [];
  ingest_payloads = [];
  events = [];
  acquisition_log = [];
}

abbrev pub payload : Payload integers.F
unfolding integers
payload = record {
  trial_id = 1;
  params = flat;
  objectives = ("loss", int (pos 3)) ∷ [];
  status = some "success";
  penalty_objective = none;
  terminal_reason = none;
  failure_reason = none;
  heartbeat_at = none;
  heartbeat_note = none;
  heartbeat_meta = none;
}

abbrev pub beat : Beat integers.F
unfolding integers
beat = record {
  trial_id = some 2;
  at = some (pos 50);
  beat_note = none;
  meta = some none;
  lease_token = some "t0";
}

abbrev pub waiting : Pending integers.F
unfolding integers
waiting = record {
  trial_id = 1;
  params = flat;
  suggested_at = some (pos 1);
  last_heartbeat_at = none;
  heartbeat_count = none;
  heartbeat_note = none;
  heartbeat_meta = none;
  lease_token = some " t0 ";
}
