-- ===== src/Trials/Mirror.antt =====
-- The rows of observations.csv beside the observations of the state file: cancel and retire, and
-- what the other commands share with them.
pub mod Writes
pub mod Suggested
pub mod Commands
use looptimum.Prelude.{
  ℕ, zero, suc, ◌+◌, not, ◌||◌, ◌&&◌, ◌==◌, Bool, true, false, Option, none, some, String, List, [],
  ◌∷◌, ◌≡◌, refl, sym, ◌∙◌, ap, is_some, is_nil, if◌then◌else◌, find_first, arith,
}
use looptimum.Prelude.Exec.{Result, ok, err, pure, raise, modify, gets, for_each, ◌>>=◌, ◌>>◌}
use looptimum.Float.{Float}
use looptimum.Space.{Param}
use looptimum.Contract.{Payload, Report}
use looptimum.Trials.{
  Pending, Observation, State, pop_pending, pending_index, retire_all, add_observation,
  normalize_lease_token,
}
use looptimum.Trials.World.{
  World, Row, state_json, observations_rows, Command, not_pending, missing_trial_id,
  nothing_to_retire, invalid_payload, invalid_heartbeat, invalid_lease_token, params_mismatch,
  lock_acquired, lock_released, lock_timeout, Action,
}
use looptimum.Trials.Effects.{
  Env, require, write, observation_rows, time, append_event, load_state, refresh_best, save_state,
  save_state_and_rows, write_obs_csv, locked, with_lock, ensure_terminal_manifest,
  append_governance_override, append_governance_violations,
}
use looptimum.Trials.Cancel.{finish_cancel, cancel_state, cmd_cancel}
use looptimum.Trials.Retire.{record_retired, finish_retire, is_missing, retire_state, cmd_retire}
use looptimum.Trials.Ingest.{
  apply_ingest, ingest_pending, ingest_done, ingest_report, ingest_state, cmd_ingest, pending_row,
  same_dict, HeartbeatFields,
}
use looptimum.Trials.Hoare.{
  After, Triple, IsQuiet, tables, IsQuiet-bind, IsQuiet-require, IsQuiet-for_each, Triple-pure,
  Triple-raise, Triple-if, Triple-imp, Triple-option, Triple-bind, Triple-still, Triple-try_finally,
  Triple-write,
}
use looptimum.Trials.Quiet.{
  IsQuiet-time, IsQuiet-append_event, IsQuiet-load_state, IsQuiet-refresh_best,
  IsQuiet-ensure_terminal_manifest, IsQuiet-append_governance_override,
  IsQuiet-append_governance_violations, IsQuiet-require_matching_lease_token,
}
use looptimum.Trials.Invariant.Files.{Triple-seq}
use looptimum.Trials.Invariant.Conserve.{IsQuiet-record_retired}
use looptimum.Trials.Invariant.Update.{
  IsQuiet-canonical, IsQuiet-save_payload, IsQuiet-replay_ingest,
}

module _ {F : Type 0} where
  abbrev pub file_observations : Option (State F) → List (Observation F)
  file_observations none = []
  file_observations (some s) = s.observations

  -- The CSV has the rows of the state file's observations; no file stands for a new state, which
  -- has none.
  pub record Mirrors (t : Option (State F) × List (Row F)) : Type 0 where
    pub rows : t.1 ≡ observation_rows (file_observations t.0)

  abbrev pub Mirrored : World F → Type 0
  Mirrored w = Mirrors (tables w)

  -- An action that keeps the two alike, whether it returns or raises.
  abbrev pub Mirroring : {A : Type 0} → Action F A → Type 0
  Mirroring m = Triple Mirrored m (λ _. Mirrored) Mirrored

  pub Mirroring-quiet : {A : Type 0} (m : Action F A) → IsQuiet m → Mirroring m
  Mirroring-quiet m q = Triple-still Mirrors m q

module _ (fl : Float) (env : Env fl.F) where
  -- No writing of observations.csv fails.
  abbrev pub CsvWritten : Type 0
  CsvWritten = (ticks : ℕ) → env.write_fails observations_rows ticks ≡ false

  -- A write that does not fail.
  pub Triple-write_rows :
      {P E : World fl.F → Type 0}
      → CsvWritten
      → (s : State fl.F)
      → ((w : World fl.F) → P w → file_observations w.state_file ≡ s.observations)
      → Triple P (write_obs_csv fl env s) (λ _. Mirrored) E
  unfolding write_obs_csv write
  Triple-write_rows written s saved = record {
    at = λ w h. rw (written w.ticks) (record { rows = sym (ap observation_rows (saved w h)) });
  }

module _ (fl : Float) (env : Env fl.F) (written : CsvWritten fl env) where
  pub Mirroring-save_state_and_rows : (s : State fl.F) → Mirroring (save_state_and_rows fl env s)
  unfolding save_state_and_rows save_state
  Mirroring-save_state_and_rows s =
      Triple-bind (save_state fl env s) _
        (Triple-write fl env {Q = λ _ w. file_observations w.state_file ≡ s.observations} state_json
          _ (λ w _. refl) (λ _ h. h))
        (λ _. Triple-write_rows fl env written s (λ w h. h))

  Mirroring-locked :
      {A : Type 0} (command : Command) (wait : Option fl.F) (m : Action fl.F A)
      → Mirroring m
      → Mirroring (locked fl env command wait m)
  unfolding locked
  Mirroring-locked command none m t = Triple-raise lock_timeout (λ _ h. h)
  Mirroring-locked command (some wait) m t =
      Triple-seq (append_event fl env (lock_acquired command wait)) _
        (Mirroring-quiet _ (IsQuiet-append_event fl env (lock_acquired command wait)))
        (λ _.
          Triple-try_finally (append_event fl env (lock_released command)) m
            (λ _. Mirroring-quiet _ (IsQuiet-append_event fl env (lock_released command)))
            (Mirroring-quiet _ (IsQuiet-append_event fl env (lock_released command))) t)

  pub Mirroring-with_lock :
      {A : Type 0} (command : Command) (m : Action fl.F A)
      → Mirroring m
      → Mirroring (with_lock fl env command m)
  unfolding with_lock
  Mirroring-with_lock command m t = Mirroring-locked command env.lock_wait m t

  pub command-Mirroring :
      {A : Type 0} (command : Command) (m : State fl.F → Action fl.F A)
      → ((s : State fl.F) → Mirroring (m s))
      → Mirroring (with_lock fl env command (do state ← load_state fl env; m state))
  command-Mirroring command m k =
      Mirroring-with_lock command _
        (Triple-seq (load_state fl env) m (Mirroring-quiet _ (IsQuiet-load_state fl env)) k)

  finish_cancel-Mirroring :
      (reason : Option String) (p : Pending fl.F) (t : State fl.F)
      → Mirroring (finish_cancel fl env reason p t)
  unfolding finish_cancel
  finish_cancel-Mirroring reason p t =
      Triple-seq (time fl env) _ (Mirroring-quiet _ (IsQuiet-time fl env)) (λ now.
        Triple-seq (refresh_best fl env _) _ (Mirroring-quiet _ (IsQuiet-refresh_best fl env _))
          (λ best.
            Triple-seq _ _ (Mirroring-quiet _ (IsQuiet-ensure_terminal_manifest fl env _ none now))
              (λ _. Triple-seq _ _ (Mirroring-save_state_and_rows best) (λ _. Mirroring-quiet _ (
                search (
                  IsQuiet-bind, IsQuiet-append_event, IsQuiet-append_governance_override,
                  IsQuiet-append_governance_violations,
                ))))))

  pub cancel-Mirroring :
      (id : Option ℕ) (reason : Option String) → Mirroring (cmd_cancel fl env id reason)
  unfolding cmd_cancel cancel_state
  cancel-Mirroring none reason = Triple-raise missing_trial_id (λ _ h. h)
  cancel-Mirroring (some id) reason = command-Mirroring Command.cancel _ (λ s.
      Triple-option (pop_pending s id) _ _ (λ _. Triple-raise (not_pending id) (λ _ h. h))
        (λ (p, t) _. finish_cancel-Mirroring reason p t))

  finish_retire-Mirroring :
      (now : fl.F) (s : State fl.F) (retired : List (Observation fl.F))
      → Mirroring (finish_retire fl env now (s, retired))
  unfolding finish_retire
  finish_retire-Mirroring now s retired =
      Triple-if (is_nil retired) _ _ (λ _. Triple-pure tt (λ _ h. h))
        (λ _.
          Triple-seq (refresh_best fl env s) _ (Mirroring-quiet _ (IsQuiet-refresh_best fl env s))
            (λ best.
              Triple-seq _ _
                (Mirroring-quiet _
                  (IsQuiet-for_each retired _ (IsQuiet-record_retired fl env now false)))
                (λ _.
                  Triple-seq _ _
                    (Mirroring-quiet _ (
                      IsQuiet-for_each retired _
                        (IsQuiet-append_governance_override fl env Command.retire)))
                    (λ _. Triple-seq _ _ (Mirroring-save_state_and_rows best) (λ _.
                      Mirroring-quiet _
                        (IsQuiet-append_governance_violations fl env Command.retire best))))))

  pub retire-Mirroring :
      (id : Option ℕ) (age : Option fl.F) (reason : Option String)
      → Mirroring (cmd_retire fl env id age reason)
  unfolding cmd_retire retire_state
  retire-Mirroring id age reason =
      Triple-if (not (is_some id) && not (is_some age)) _ _
        (λ _. Triple-raise nothing_to_retire (λ _ h. h))
        (λ _. command-Mirroring Command.retire _ (λ s.
          Triple-seq (time fl env) _ (Mirroring-quiet _ (IsQuiet-time fl env)) (λ now.
            Triple-if (is_missing fl env id s) _ _ (λ _. Triple-raise _ (λ _ h. h))
              (λ _. finish_retire-Mirroring now _ _))))
