-- ===== src/Trials/Mirror/Writes.antt =====
-- observations.csv and the writes of the state file alone: cmd_heartbeat.
use looptimum.Prelude.{
  ℕ, not, ◌||◌, Bool, false, Option, none, some, String, List, [], ◌≡◌, refl, sym, ap, ◌∙◌,
}
use looptimum.Prelude.Exec.{gets, ◌>>=◌}
use looptimum.Float.{Float}
use looptimum.Runtime.Version.{normalize_version}
use looptimum.Trials.{Pending, State, normalize_lease_token}
use looptimum.Trials.World.{
  World, Row, state_json, Command, not_pending, missing_trial_id, unsupported_state,
  invalid_heartbeat, invalid_lease_token, Action,
}
use looptimum.Trials.Effects.{
  Env, observation_rows, require, time, normalize_state, load_from, load_state, save_state,
  with_lock,
}
use looptimum.Trials.Heartbeat.{
  Beat, touch, finish_heartbeat, heartbeat_entry, beat_time, entry_at, heartbeat_state,
  heartbeat_for, cmd_heartbeat,
}
use looptimum.Trials.Hoare.{
  Triple, IsQuiet, tables, IsQuiet-bind, IsQuiet-require, Triple-pure, Triple-raise, Triple-if,
  Triple-imp, Triple-option, Triple-bind, Triple-still, Triple-write,
}
use looptimum.Trials.Quiet.{
  IsQuiet-time, IsQuiet-append_event, IsQuiet-ensure_pending_manifest,
  IsQuiet-append_governance_violations, IsQuiet-require_matching_lease_token,
}
use looptimum.Trials.Invariant.Files.{Triple-seq}
use looptimum.Trials.Invariant.Update.{IsQuiet-beat_time}
use looptimum.Trials.Mirror.{
  file_observations, CsvWritten, Mirrors, Mirrored, Mirroring, Mirroring-quiet, Mirroring-with_lock,
}

module _ {F : Type 0} where
  -- The CSV mirrors the file and, unless trials were retired, the state in memory.
  abbrev pub SeesIn : Bool → State F → Option (State F) × List (Row F) → Type 0
  SeesIn retired s t = Mirrors t × (retired ≡ false → t.1 ≡ observation_rows s.observations)

  abbrev pub Sees : Bool → State F → World F → Type 0
  Sees retired s w = SeesIn retired s (tables w)

  pub Sees-quiet :
      {A : Type 0} (retired : Bool) (s : State F) (m : Action F A)
      → IsQuiet m
      → Triple (Sees retired s) m (λ _. Sees retired s) Mirrored
  Sees-quiet retired s m q =
      Triple-imp m (λ _ h. h) (λ _ _ h. h) (λ _ h. h.0) (Triple-still (SeesIn retired s) m q)

  -- The state has been written; the CSV may wait for the retired trials.
  abbrev pub Saved : Bool → State F → World F → Type 0
  Saved retired s w =
      (file_observations w.state_file ≡ s.observations)
      × (retired ≡ false → w.observations_csv ≡ observation_rows s.observations)

module _ (fl : Float) (env : Env fl.F) (written : CsvWritten fl env) where
  normalize_state-Sees :
      (s : State fl.F)
      → Triple (Sees false s) (normalize_state fl env s) (λ t. Sees false t) Mirrored
  unfolding normalize_state
  normalize_state-Sees s =
      Triple-bind (require unsupported_state (normalize_version s.schema_version)) _
        (Sees-quiet false s _ (IsQuiet-require unsupported_state _))
        (λ version. Triple-pure _ (λ w h. h))

  load_from-Sees :
      (file : Option (State fl.F))
      → Triple
          (λ w. Mirrored w × (w.observations_csv ≡ observation_rows (file_observations file)))
          (load_from fl env file)
          (λ t. Sees false t)
          Mirrored
  unfolding load_from
  load_from-Sees none =
      Triple-imp _ (λ w h. (h.0, λ _. h.1)) (λ _ _ h. h) (λ _ h. h)
        (Triple-bind (time fl env) _
          (Triple-imp _ (λ _ h. h) (λ _ _ h. h) (λ _ h. h.0)
            (Triple-still (λ t. Mirrors t × (false ≡ false → t.1 ≡ observation_rows [])) _
              (IsQuiet-time fl env)))
          (λ now. normalize_state-Sees _))
  load_from-Sees (some s) =
      Triple-imp _ (λ w h. (h.0, λ _. h.1)) (λ _ _ h. h) (λ _ h. h) (normalize_state-Sees s)

  load_state-Sees : Triple Mirrored (load_state fl env) (λ s. Sees false s) Mirrored
  unfolding load_state ◌>>=◌ gets
  load_state-Sees = record { at = λ w h. (load_from-Sees w.state_file).at w (h, h.rows) }

  pub save_state-Saved :
      (retired : Bool) (s t : State fl.F)
      → t.observations ≡ s.observations
      → Triple (Sees retired s) (save_state fl env t) (λ _. Saved retired t) Mirrored
  unfolding save_state
  save_state-Saved retired s t e =
      Triple-write fl env state_json _
        (λ w h. (refl, λ kept. h.1 kept ∙ ap observation_rows (sym e))) (λ _ h. h.0)

  -- Where no trial was retired, the saved state is mirrored at once.
  pub save_state-Mirrored :
      (s t : State fl.F)
      → t.observations ≡ s.observations
      → Triple (Sees false s) (save_state fl env t) (λ _. Mirrored) Mirrored
  unfolding save_state
  save_state-Mirrored s t e =
      Triple-write fl env state_json _
        (λ w h. record { rows = h.1 refl ∙ ap observation_rows (sym e) }) (λ _ h. h.0)

  pub loaded-Mirroring :
      {A : Type 0} (command : Command) (m : State fl.F → Action fl.F A)
      → ((s : State fl.F) → Triple (Sees false s) (m s) (λ _. Mirrored) Mirrored)
      → Mirroring (with_lock fl env command (do state ← load_state fl env; m state))
  loaded-Mirroring command m k =
      Mirroring-with_lock fl env written command _
        (Triple-bind (load_state fl env) m load_state-Sees k)

  finish_heartbeat-Mirrored :
      (i : ℕ) (q : Pending fl.F) (at : fl.F) (s : State fl.F)
      → Triple (Sees false s) (finish_heartbeat fl env i q at s) (λ _. Mirrored) Mirrored
  unfolding finish_heartbeat
  finish_heartbeat-Mirrored i q at s =
      Triple-bind (time fl env) _ (Sees-quiet false s _ (IsQuiet-time fl env)) (λ now.
        Triple-bind _ _ (Sees-quiet false s _ (IsQuiet-ensure_pending_manifest fl env q now)) (λ _.
          Triple-bind _ _ (save_state-Mirrored s _ refl) (λ _.
            Mirroring-quiet _
              (search (IsQuiet-bind, IsQuiet-append_event, IsQuiet-append_governance_violations)))))

  heartbeat_entry-Mirrored :
      (beat : Beat fl.F) (token : Option String) (i : ℕ) (p : Pending fl.F) (s : State fl.F)
      → Triple (Sees false s) (heartbeat_entry fl env beat token i p s) (λ _. Mirrored) Mirrored
  unfolding heartbeat_entry
  heartbeat_entry-Mirrored beat token i p s =
      Triple-bind (beat_time fl env beat.at) _
        (Sees-quiet false s _ (IsQuiet-beat_time fl env beat.at))
        (λ at.
          Triple-if (fl.leb at fl.zero || not (fl.is_finite at)) _ _
            (λ _. Triple-raise invalid_heartbeat (λ _ h. h.0))
            (λ _.
              Triple-bind (require invalid_heartbeat beat.meta) _
                (Sees-quiet false s _ (IsQuiet-require invalid_heartbeat beat.meta))
                (λ meta.
                  Triple-bind _ _
                    (Sees-quiet false s _ (IsQuiet-require_matching_lease_token fl env p token))
                    (λ _. finish_heartbeat-Mirrored i (touch fl env beat at meta p) at s))))

  heartbeat_for-Mirroring :
      (id : Option ℕ) (beat : Beat fl.F) → Mirroring (heartbeat_for fl env id beat)
  unfolding heartbeat_state
  heartbeat_for-Mirroring none beat = Triple-raise missing_trial_id (λ _ h. h)
  heartbeat_for-Mirroring (some id) beat =
      Triple-seq (require invalid_lease_token (normalize_lease_token beat.lease_token)) _
        (Mirroring-quiet _ (IsQuiet-require invalid_lease_token _))
        (λ token. loaded-Mirroring Command.heartbeat _ (λ s.
          Triple-option (entry_at fl env id s) _ _ (λ _. Triple-raise (not_pending id) (λ _ h. h.0))
            (λ (i, p) _. heartbeat_entry-Mirrored beat token i p s)))

  pub heartbeat-Mirroring : (beat : Beat fl.F) → Mirroring (cmd_heartbeat fl env beat)
  unfolding cmd_heartbeat
  heartbeat-Mirroring beat = heartbeat_for-Mirroring beat.trial_id beat
