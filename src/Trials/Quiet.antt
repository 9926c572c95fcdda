-- ===== src/Trials/Quiet.antt =====
-- Which effects leave the state file and the CSV alone: all but `save_state`, `write_obs_csv` and
-- what calls them.
use looptimum.Prelude.{ℕ, Option, none, some, String, refl}
use looptimum.Float.{Float}
use looptimum.Values.{Value, Dict}
use looptimum.Trials.{Pending, Observation, State}
use looptimum.Trials.World.{
  invalid_objectives, lease_required, Command, EventKind, Manifest, trial_manifest, event_log_file,
}
use looptimum.Trials.Effects.{
  Env, time, append_event, normalize_state, load_state, refresh_best, save_manifest,
  objective_metadata, vector_of, scalarized, check_lease, load_from, ensure_pending_manifest,
  ensure_terminal_manifest, require_matching_lease_token, append_governance_override,
  append_governance_violations,
}
use looptimum.Trials.Hoare.{
  IsQuiet, IsQuiet-pure, IsQuiet-raise, IsQuiet-gets, IsQuiet-require, IsQuiet-bind, IsQuiet-if,
  quiet_rules, IsQuiet-write,
}

module _ (fl : Float) (env : Env fl.F) where
  pub IsQuiet-time : IsQuiet (time fl env)
  unfolding time
  IsQuiet-time = record { keeps = λ w. refl }

  pub IsQuiet-append_event : (kind : EventKind fl.F) → IsQuiet (append_event fl env kind)
  unfolding append_event
  IsQuiet-append_event kind =
      IsQuiet-bind _ _ IsQuiet-time (λ now. IsQuiet-write fl env event_log_file _ (λ w. refl))

  IsQuiet-save_manifest : (m : Manifest fl.F) → IsQuiet (save_manifest fl env m)
  unfolding save_manifest
  IsQuiet-save_manifest m = IsQuiet-write fl env trial_manifest _ (λ w. refl)

  IsQuiet-vector_of : (raw : Option (Dict (Value fl.F))) → IsQuiet (vector_of fl env raw)
  unfolding vector_of
  IsQuiet-vector_of none = IsQuiet-pure _
  IsQuiet-vector_of (some raw) = IsQuiet-require invalid_objectives _

  IsQuiet-scalarized : (vector : Option (Dict (Value fl.F))) → IsQuiet (scalarized fl env vector)
  unfolding scalarized
  IsQuiet-scalarized none = IsQuiet-pure none
  IsQuiet-scalarized (some vector) = search (IsQuiet-bind, IsQuiet-require, IsQuiet-pure)

  IsQuiet-objective_metadata :
      (raw : Option (Dict (Value fl.F))) → IsQuiet (objective_metadata fl env raw)
  unfolding objective_metadata
  IsQuiet-objective_metadata raw =
      search (IsQuiet-bind, IsQuiet-pure, IsQuiet-vector_of, IsQuiet-scalarized)

  pub IsQuiet-ensure_pending_manifest :
      (p : Pending fl.F) (now : fl.F) → IsQuiet (ensure_pending_manifest fl env p now)
  unfolding ensure_pending_manifest
  IsQuiet-ensure_pending_manifest p now =
      search (IsQuiet-gets, IsQuiet-bind, IsQuiet-objective_metadata, IsQuiet-save_manifest)

  pub IsQuiet-ensure_terminal_manifest :
      (o : Observation fl.F) (copy : Option String) (now : fl.F)
      → IsQuiet (ensure_terminal_manifest fl env o copy now)
  unfolding ensure_terminal_manifest
  IsQuiet-ensure_terminal_manifest o copy now =
      search (IsQuiet-gets, IsQuiet-bind, IsQuiet-objective_metadata, IsQuiet-save_manifest)

  IsQuiet-check_lease :
      (id : ℕ) (expected token : Option String) → IsQuiet (check_lease fl env id expected token)
  unfolding check_lease
  IsQuiet-check_lease id none token = IsQuiet-pure tt
  IsQuiet-check_lease id (some e) none = IsQuiet-raise (lease_required id)
  IsQuiet-check_lease id (some e) (some t) = search (IsQuiet-if, IsQuiet-pure, IsQuiet-raise)

  pub IsQuiet-require_matching_lease_token :
      (p : Pending fl.F) (token : Option String)
      → IsQuiet (require_matching_lease_token fl env p token)
  unfolding require_matching_lease_token
  IsQuiet-require_matching_lease_token p token =
      search (IsQuiet-bind, IsQuiet-require, IsQuiet-check_lease)

  pub IsQuiet-append_governance_override :
      (c : Command) (o : Observation fl.F) → IsQuiet (append_governance_override fl env c o)
  unfolding append_governance_override
  IsQuiet-append_governance_override c o =
      search (IsQuiet-bind, IsQuiet-require, IsQuiet-if, IsQuiet-pure, IsQuiet-append_event)

  pub IsQuiet-append_governance_violations :
      (c : Command) (s : State fl.F) → IsQuiet (append_governance_violations fl env c s)
  unfolding append_governance_violations
  IsQuiet-append_governance_violations c s =
      search (
        IsQuiet-bind, IsQuiet-require, IsQuiet-if, IsQuiet-pure, IsQuiet-time, IsQuiet-append_event,
      )

  pub IsQuiet-refresh_best : (s : State fl.F) → IsQuiet (refresh_best fl env s)
  unfolding refresh_best
  IsQuiet-refresh_best s = search (quiet_rules, IsQuiet-time)

  IsQuiet-normalize_state : (s : State fl.F) → IsQuiet (normalize_state fl env s)
  unfolding normalize_state
  IsQuiet-normalize_state s = search (IsQuiet-bind, IsQuiet-require, IsQuiet-pure)

  IsQuiet-load_from : (file : Option (State fl.F)) → IsQuiet (load_from fl env file)
  unfolding load_from
  IsQuiet-load_from none = search (IsQuiet-bind, IsQuiet-time, IsQuiet-normalize_state)
  IsQuiet-load_from (some s) = IsQuiet-normalize_state s

  pub IsQuiet-load_state : IsQuiet (load_state fl env)
  unfolding load_state
  IsQuiet-load_state = search (IsQuiet-bind, IsQuiet-gets, IsQuiet-load_from)
