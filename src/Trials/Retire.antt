-- ===== src/Trials/Retire.antt =====
-- `cmd_retire` of templates/bo_client/run_bo.py, from the lock on.
use Prim.Native.Nat.{Ordering, compare}
use looptimum.Prelude.{
  ℕ, Bool, false, not, ◌&&◌, Option, none, some, String, List, [], ◌∷◌, ◌==◌, any_of, keep, is_nil,
  is_some, if◌then◌else◌,
}
use looptimum.Prelude.Exec.{pure, raise, for_each, ◌>>=◌, ◌>>◌}
use looptimum.Float.{Float}
use looptimum.Trials.{
  Pending, Observation, State, pending_index, retire_all, stale_ids, new_terminal_observation,
}
use looptimum.Trials.World.{Command, nothing_to_retire, not_pending, trial_retired, Action}
use looptimum.Trials.Effects.{
  Env, time, append_event, load_state, refresh_best, ensure_terminal_manifest, save_state_and_rows,
  append_governance_override, append_governance_violations, with_lock,
}
use looptimum.Trials.Cancel.{reason_or}

-- `sorted(set(...))`
unfoldable pub insert_sorted : ℕ → List ℕ → List ℕ
insert_sorted k [] = k ∷ []
insert_sorted k (j ∷ js) =
    let rest = insert_sorted k js in
    elim (compare k j) [ Ordering.lt ↦ k ∷ j ∷ js | Ordering.eq ↦ j ∷ js | Ordering.gt ↦ j ∷ rest ]

unfoldable pub sort_ids : List ℕ → List ℕ
unfolding insert_sorted
sort_ids [] = []
sort_ids (k ∷ ks) = insert_sorted k (sort_ids ks)

abbrev pub id_mem : ℕ → List ℕ → Bool
id_mem k ks = any_of (λ j. j == k) ks

-- The named trial first, then the stale ones by their ids.
unfoldable pub target_ids : Option ℕ → List ℕ → List ℕ
unfolding sort_ids
target_ids none stale = sort_ids stale
target_ids (some trial_id) stale = trial_id ∷ keep (λ j. not (j == trial_id)) (sort_ids stale)

module _ (fl : Float) (env : Env fl.F) where
  abbrev pub retired_reason : Option String → List ℕ → ℕ → String
  retired_reason reason stale trial_id =
      reason_or reason (if id_mem trial_id stale then "retired_stale" else "retired_manual")

  unfoldable pub retired_observation :
      Option String → List ℕ → fl.F → ℕ → Pending fl.F → Observation fl.F
  unfolding new_terminal_observation
  retired_observation reason stale now trial_id p =
      new_terminal_observation env.objective_cfg (retired_reason reason stale trial_id) now p

  unfoldable pub record_retired : fl.F → Bool → Observation fl.F → Action fl.F Unit
  record_retired now auto_stale o = do
    ensure_terminal_manifest fl env o none now
    append_event fl env (trial_retired o.trial_id o.terminal_reason auto_stale)

  unfoldable pub finish_retire : fl.F → State fl.F × List (Observation fl.F) → Action fl.F Unit
  finish_retire now (state, retired) = if is_nil retired then pure tt else do
    best ← refresh_best fl env state
    for_each retired (record_retired now false)
    for_each retired (append_governance_override fl env Command.retire)
    save_state_and_rows fl env best
    append_governance_violations fl env Command.retire best

  -- The named trial, if there is one, must be pending; it is the first target.
  abbrev pub is_missing : Option ℕ → State fl.F → Bool
  is_missing none state = false
  is_missing (some trial_id) state = not (is_some (pending_index state.pending trial_id))

  abbrev stale_targets : Option fl.F → fl.F → State fl.F → List ℕ
  stale_targets none now state = []
  stale_targets (some max_age) now state = stale_ids fl max_age now state.pending

  unfoldable pub retire_state :
      Option ℕ → Option fl.F → Option String → State fl.F → Action fl.F Unit
  unfolding finish_retire retired_observation target_ids retire_all stale_ids record_retired
  retire_state trial_id max_age reason state = do
    now ← time fl env
    let stale = stale_targets max_age now state
    if is_missing trial_id state
        then raise (elim trial_id [ none ↦ nothing_to_retire | some i ↦ not_pending i ])
        else finish_retire now
            (retire_all (retired_observation reason stale now) (target_ids trial_id stale) state)

  -- `max_age` is the resolved age limit if `--stale` was given.
  unfoldable pub cmd_retire : Option ℕ → Option fl.F → Option String → Action fl.F Unit
  unfolding retire_state
  cmd_retire trial_id max_age reason =
      if not (is_some trial_id) && not (is_some max_age)
      then raise nothing_to_retire
      else with_lock fl env Command.retire
          (do state ← load_state fl env; retire_state trial_id max_age reason state)
