-- ===== src/Trials/Cancel.antt =====
-- `cmd_cancel` of templates/_shared/controller_operations.py, from the lock on.
use looptimum.Prelude.{ℕ, Option, none, some, String, str_eq, if◌then◌else◌}
use looptimum.Prelude.Exec.{raise, ◌>>=◌, ◌>>◌}
use looptimum.Float.{Float}
use looptimum.Trials.{Pending, State, pop_pending, new_terminal_observation, add_observation}
use looptimum.Trials.World.{Command, missing_trial_id, not_pending, trial_canceled, Action}
use looptimum.Trials.Effects.{
  Env, time, append_event, load_state, refresh_best, ensure_terminal_manifest, save_state_and_rows,
  append_governance_override, append_governance_violations, with_lock,
}

-- `args.reason or default`: an empty text counts as none.
abbrev pub reason_or : Option String → String → String
reason_or none default = default
reason_or (some reason) default = if str_eq reason "" then default else reason

module _ (fl : Float) (env : Env fl.F) where
  -- The work on the loaded state, once the trial has left the pending ones.
  unfoldable pub finish_cancel : Option String → Pending fl.F → State fl.F → Action fl.F Unit
  finish_cancel reason p popped = do
    now ← time fl env
    let why = reason_or reason "canceled"
    let o = new_terminal_observation env.objective_cfg why now p
    state ← refresh_best fl env (add_observation o popped)
    ensure_terminal_manifest fl env o none now
    save_state_and_rows fl env state
    append_event fl env (trial_canceled o.trial_id why)
    append_governance_override fl env Command.cancel o
    append_governance_violations fl env Command.cancel state

  unfoldable pub cancel_state : ℕ → Option String → State fl.F → Action fl.F Unit
  unfolding finish_cancel
  cancel_state trial_id reason state = elim (pop_pending state trial_id) [
    | none ↦ raise (not_pending trial_id)
    | some (p, popped) ↦ finish_cancel reason p popped
  ]

  unfoldable pub cmd_cancel : Option ℕ → Option String → Action fl.F Unit
  unfolding cancel_state
  cmd_cancel none reason = raise missing_trial_id
  cmd_cancel (some trial_id) reason =
      with_lock fl env Command.cancel
        (do state ← load_state fl env; cancel_state trial_id reason state)
