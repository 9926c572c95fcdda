-- ===== src/Trials/Mirror/Commands.antt =====
-- observations.csv and cmd_ingest, and runs of all commands.
use looptimum.Prelude.{not, ◌==◌, Option, String, List, find_first}
use looptimum.Prelude.Exec.{Result, ok, err}
use looptimum.Float.{Float}
use looptimum.Space.{Param}
use looptimum.Contract.{Payload, Report}
use looptimum.Trials.{Pending, State, pop_pending, normalize_lease_token}
use looptimum.Trials.World.{
  World, Error, Command, not_pending, invalid_payload, invalid_heartbeat, invalid_lease_token,
  params_mismatch, Action,
}
use looptimum.Trials.Effects.{Env, require, time, refresh_best}
use looptimum.Trials.Ingest.{
  apply_ingest, ingest_pending, ingest_done, ingest_report, ingest_state, cmd_ingest, pending_row,
  same_dict, HeartbeatFields,
}
use looptimum.Trials.Hoare.{
  After, IsQuiet-bind, IsQuiet-require, Triple-raise, Triple-if, Triple-option,
}
use looptimum.Trials.Quiet.{
  IsQuiet-time, IsQuiet-append_event, IsQuiet-refresh_best, IsQuiet-ensure_terminal_manifest,
  IsQuiet-append_governance_violations, IsQuiet-require_matching_lease_token,
}
use looptimum.Trials.Invariant.Files.{Triple-seq}
use looptimum.Trials.Invariant.Update.{
  IsQuiet-canonical, IsQuiet-save_payload, IsQuiet-replay_ingest,
}
use looptimum.Trials.Invariant.Unique.{
  Step, cancels, retires, beats, ingests, suggests, Runs, start, then_step,
}
use looptimum.Trials.Mirror.{
  CsvWritten, Mirrored, Mirroring, Mirroring-quiet, Mirroring-save_state_and_rows,
  command-Mirroring, cancel-Mirroring, retire-Mirroring,
}
use looptimum.Trials.Mirror.Writes.{heartbeat-Mirroring}
use looptimum.Trials.Mirror.Suggested.{suggest-Mirroring}

module _ (fl : Float) (env : Env fl.F) (space : List (Param fl.F))
    (written : CsvWritten fl env) where
  apply_ingest-Mirroring :
      (report : Report fl.F) (beat : HeartbeatFields fl.F) (p : Pending fl.F) (t : State fl.F)
      → Mirroring (apply_ingest fl env space report beat p t)
  unfolding apply_ingest
  apply_ingest-Mirroring report beat p t =
      Triple-seq (time fl env) _ (Mirroring-quiet _ (IsQuiet-time fl env)) (λ now.
        Triple-seq (refresh_best fl env _) _ (Mirroring-quiet _ (IsQuiet-refresh_best fl env _))
          (λ best.
            Triple-seq _ _ (Mirroring-quiet _ (IsQuiet-save_payload fl env space report)) (λ _.
              Triple-seq _ _ (Mirroring-quiet _ (IsQuiet-ensure_terminal_manifest fl env _ _ now))
                (λ _. Triple-seq _ _ (Mirroring-save_state_and_rows fl env written best) (λ _.
                  Mirroring-quiet _ (
                    search (
                      IsQuiet-bind, IsQuiet-append_event, IsQuiet-append_governance_violations,
                    )))))))

  ingest_report-Mirroring :
      (report : Report fl.F) (beat : HeartbeatFields fl.F) (token : Option String) (s : State fl.F)
      → Mirroring (ingest_report fl env space report beat token s)
  unfolding ingest_report ingest_done ingest_pending
  ingest_report-Mirroring report beat token s =
      Triple-option (pending_row report.trial_id s.pending) _ _
        (λ _.
          Triple-option (find_first (λ o. o.trial_id == report.trial_id) s.observations) _ _
            (λ _. Triple-raise (not_pending report.trial_id) (λ _ h. h))
            (λ prior _. Mirroring-quiet _ (IsQuiet-replay_ingest fl env space report prior)))
        (λ row _.
          Triple-seq _ _ (Mirroring-quiet _ (IsQuiet-require_matching_lease_token fl env row token))
            (λ _.
              Triple-seq _ _ (Mirroring-quiet _ (IsQuiet-canonical fl env space row.params))
                (λ params.
                  Triple-if (not (same_dict fl report.params params)) _ _
                    (λ _. Triple-raise params_mismatch (λ _ h. h))
                    (λ _.
                      Triple-option (pop_pending s report.trial_id) _ _
                        (λ _. Triple-raise (not_pending report.trial_id) (λ _ h. h))
                        (λ (p, t) _. apply_ingest-Mirroring report beat p t)))))

  ingest-Mirroring :
      (payload : Payload fl.F) (token : Option String)
      → Mirroring (cmd_ingest fl env space payload token)
  unfolding cmd_ingest ingest_state
  ingest-Mirroring payload lease_token =
      Triple-seq (require invalid_lease_token (normalize_lease_token lease_token)) _
        (Mirroring-quiet _ (IsQuiet-require invalid_lease_token _))
        (λ token. command-Mirroring fl env written Command.ingest _ (λ s.
          Triple-seq (require invalid_payload _) _ (Mirroring-quiet _ (IsQuiet-require _ _)) (λ raw.
            Triple-seq _ _ (Mirroring-quiet _ (IsQuiet-canonical fl env space raw.params))
              (λ params.
                Triple-seq (require invalid_heartbeat _) _ (Mirroring-quiet _ (IsQuiet-require _ _))
                  (λ beat.
                    ingest_report-Mirroring (record raw { params = params }) beat token s)))))

module _ {F : Type 0} where
  Mirroring-world :
      {A : Type 0} (w : World F) (m : Action F A) → Mirroring m → Mirrored w → Mirrored (m w).1
  Mirroring-world {A} w m t h = split (m w) (t.at w h)
    where
      split :
          (r : Result Error A × World F) → After {A = A} (λ _. Mirrored) Mirrored r → Mirrored r.1
      split (ok a, v) h = h
      split (err e, v) h = h

module _ (fl : Float) (space : List (Param fl.F)) where
  -- The command's environment fails no writing of observations.csv.
  abbrev pub StepWritten : {v w : World fl.F} → Step fl space v w → Type 0
  StepWritten (cancels env id reason) = CsvWritten fl env
  StepWritten (retires env id age reason) = CsvWritten fl env
  StepWritten (beats env beat) = CsvWritten fl env
  StepWritten (ingests env payload token) = CsvWritten fl env
  StepWritten (suggests env planner) = CsvWritten fl env

  -- No command of the run fails to write observations.csv.
  abbrev pub RunWritten : {v w : World fl.F} → Runs fl space v w → Type 0
  RunWritten start = Unit
  RunWritten (then_step run s) = RunWritten run × StepWritten s

  Step-Mirrored :
      {v w : World fl.F} (s : Step fl space v w) → StepWritten s → Mirrored v → Mirrored w
  Step-Mirrored {v} (cancels env id reason) written =
      Mirroring-world v _ (cancel-Mirroring fl env written id reason)
  Step-Mirrored {v} (retires env id age reason) written =
      Mirroring-world v _ (retire-Mirroring fl env written id age reason)
  Step-Mirrored {v} (beats env beat) written =
      Mirroring-world v _ (heartbeat-Mirroring fl env written beat)
  Step-Mirrored {v} (ingests env payload token) written =
      Mirroring-world v _ (ingest-Mirroring fl env space written payload token)
  Step-Mirrored {v} (suggests env planner) written =
      Mirroring-world v _ (suggest-Mirroring fl env planner written)

  -- After any number of commands, each of which may return or raise, observations.csv has the rows
  -- of the observations of the state file, in its order, if it had them before and no writing of
  -- observations.csv itself failed; other writes may fail. No state file counts as one with no
  -- observations.
  pub run-Mirrored :
      {v w : World fl.F} (run : Runs fl space v w) → RunWritten run → Mirrored v → Mirrored w
  run-Mirrored start written h = h
  run-Mirrored (then_step run s) written h =
      Step-Mirrored s written.1 (run-Mirrored run written.0 h)
