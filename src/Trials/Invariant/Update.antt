-- ===== src/Trials/Invariant/Update.antt =====
-- The trial ids and the commands cmd_heartbeat and cmd_ingest.
use looptimum.Prelude.{
  ℕ, zero, suc, not, ◌||◌, Option, none, some, String, List, [], ◌∷◌, ◌≡◌, refl, sym, arith, set,
  get_elem?, find_first, ◌==◌,
}
use looptimum.Float.{Float}
use looptimum.Values.{Value, Dict}
use looptimum.Space.{Param}
use looptimum.Contract.{Payload, Report}
use looptimum.Trials.{
  Pending, Observation, State, pop_pending, add_observation, normalize_lease_token,
}
use looptimum.Trials.World.{
  Command, not_pending, params_mismatch, missing_trial_id, invalid_heartbeat, invalid_lease_token,
  invalid_payload, payload_json,
}
use looptimum.Trials.Effects.{Env, require, time, refresh_best}
use looptimum.Trials.Heartbeat.{
  Beat, touch, finish_heartbeat, heartbeat_entry, beat_time, entry_at, heartbeat_state,
  heartbeat_for, cmd_heartbeat,
}
use looptimum.Trials.Ingest.{
  HeartbeatFields, new_observation, pending_row, same_dict, canonical_params, replay_ingest,
  save_payload, apply_ingest, ingest_pending, ingest_done, ingest_report, ingest_state, cmd_ingest,
}
use looptimum.Trials.Hoare.{
  IsQuiet, IsQuiet-bind, IsQuiet-pure, IsQuiet-write, IsQuiet-raise, IsQuiet-if, IsQuiet-require,
  Triple-raise, Triple-if, Triple-option, Triple-bind,
}
use looptimum.Trials.Quiet.{
  IsQuiet-time, IsQuiet-append_event, IsQuiet-ensure_pending_manifest,
  IsQuiet-ensure_terminal_manifest, IsQuiet-append_governance_violations,
  IsQuiet-require_matching_lease_token,
}
use looptimum.Trials.Invariant.{pop_pending-count, count_pending}
use looptimum.Trials.Invariant.Files.{
  Has, Keeps, Keeps-quiet, Triple-fact, Triple-seq, Triple-save_state, Triple-save_state_and_rows,
  Triple-refresh_best,
}
use looptimum.Trials.Invariant.Conserve.{add_observation-Has, command-Keeps}

set-count :
    {F : Type 0} (k : ℕ) (ps : List (Pending F)) (i : ℕ) (p q : Pending F)
    → get_elem? ps i ≡ some p
    → q.trial_id ≡ p.trial_id
    → count_pending k (set ps i q) ≡ count_pending k ps
unfolding count_pending
set-count k [] i p q e named = refl
set-count k (x ∷ ps) zero p q e named = ground arith
set-count k (x ∷ ps) (suc i) p q e named = omega (arith, set-count k ps i p q e named)

module _ (fl : Float) (env : Env fl.F) where
  pub IsQuiet-beat_time : (at : Option fl.F) → IsQuiet (beat_time fl env at)
  IsQuiet-beat_time none = IsQuiet-time fl env
  IsQuiet-beat_time (some at) = IsQuiet-pure at

module _ (fl : Float) (env : Env fl.F) (space : List (Param fl.F)) where
  pub IsQuiet-canonical :
      (params : Dict (Value fl.F)) → IsQuiet (canonical_params fl env space params)
  IsQuiet-canonical params = IsQuiet-require invalid_payload _

  pub IsQuiet-save_payload : (report : Report fl.F) → IsQuiet (save_payload fl env space report)
  unfolding save_payload
  IsQuiet-save_payload report = IsQuiet-write fl env payload_json _ (λ w. refl)

  pub IsQuiet-replay_ingest :
      (report : Report fl.F) (prior : Observation fl.F)
      → IsQuiet (replay_ingest fl env space report prior)
  unfolding replay_ingest
  IsQuiet-replay_ingest report prior = search (
    IsQuiet-canonical, IsQuiet-bind, IsQuiet-if, IsQuiet-raise, IsQuiet-require,
    IsQuiet-append_event,
  )

module _ (fl : Float) (env : Env fl.F) (c seen : ℕ → ℕ) (n : ℕ) where
  finish_heartbeat-Keeps :
      (i : ℕ) (p q : Pending fl.F) (at : fl.F) (s : State fl.F)
      → Has c seen n s
      → get_elem? s.pending i ≡ some p
      → q.trial_id ≡ p.trial_id
      → Keeps c seen n (finish_heartbeat fl env i q at s)
  unfolding finish_heartbeat
  finish_heartbeat-Keeps i p q at s h e named =
      let after = record s { pending = set s.pending i q } in
      let has : Has c seen n after = record {
        counts = λ k. omega (arith, set-count k s.pending i p q e named, h.counts k);
        grown = h.grown;
        next = h.next;
      } in
      Triple-seq (time fl env) _ (Keeps-quiet c seen n _ (IsQuiet-time fl env)) (λ now.
        Triple-seq _ _ (Keeps-quiet c seen n _ (IsQuiet-ensure_pending_manifest fl env q now)) (λ _.
          Triple-seq _ _ (Triple-save_state fl env c seen n after has) (λ _.
            Keeps-quiet c seen n _
              (search (IsQuiet-bind, IsQuiet-append_event, IsQuiet-append_governance_violations)))))

  heartbeat_entry-Keeps :
      (beat : Beat fl.F) (token : Option String) (i : ℕ) (p : Pending fl.F) (s : State fl.F)
      → Has c seen n s
      → get_elem? s.pending i ≡ some p
      → Keeps c seen n (heartbeat_entry fl env beat token i p s)
  unfolding heartbeat_entry touch
  heartbeat_entry-Keeps beat token i p s h e =
      Triple-seq (beat_time fl env beat.at) _
        (Keeps-quiet c seen n _ (IsQuiet-beat_time fl env beat.at))
        (λ at.
          Triple-if (fl.leb at fl.zero || not (fl.is_finite at)) _ _
            (λ _. Triple-raise invalid_heartbeat (λ _ g. g))
            (λ _.
              Triple-seq (require invalid_heartbeat beat.meta) _
                (Keeps-quiet c seen n _ (IsQuiet-require invalid_heartbeat beat.meta))
                (λ meta.
                  Triple-seq _ _
                    (Keeps-quiet c seen n _ (IsQuiet-require_matching_lease_token fl env p token))
                    (λ _. finish_heartbeat-Keeps i p (touch fl env beat at meta p) at s h e refl))))

  entry_at-eq :
      (id : ℕ) (s : State fl.F) {i : ℕ} {p : Pending fl.F}
      → entry_at fl env id s ≡ some (i, p)
      → get_elem? s.pending i ≡ some p
  entry_at-eq id s {i} {p} e = ground arith

  heartbeat_state-Keeps :
      (id : ℕ) (beat : Beat fl.F) (token : Option String) (s : State fl.F)
      → Has c seen n s
      → Keeps c seen n (heartbeat_state fl env id beat token s)
  unfolding heartbeat_state
  heartbeat_state-Keeps id beat token s h =
      Triple-option (entry_at fl env id s) _ _ (λ _. Triple-raise (not_pending id) (λ _ g. g))
        (λ (i, p) e. heartbeat_entry-Keeps beat token i p s h (entry_at-eq id s e))

  heartbeat_for-Keeps :
      (id : Option ℕ) (beat : Beat fl.F) → Keeps c seen n (heartbeat_for fl env id beat)
  heartbeat_for-Keeps none beat = Triple-raise missing_trial_id (λ _ h. h)
  heartbeat_for-Keeps (some id) beat =
      Triple-seq (require invalid_lease_token (normalize_lease_token beat.lease_token)) _
        (Keeps-quiet c seen n _ (IsQuiet-require invalid_lease_token _))
        (λ token.
          command-Keeps fl env c seen n Command.heartbeat _ (heartbeat_state-Keeps id beat token))

  pub heartbeat-Keeps : (beat : Beat fl.F) → Keeps c seen n (cmd_heartbeat fl env beat)
  unfolding cmd_heartbeat
  heartbeat-Keeps beat = heartbeat_for-Keeps beat.trial_id beat

module _ (fl : Float) (env : Env fl.F) (space : List (Param fl.F)) (c seen : ℕ → ℕ) (n : ℕ) where
  apply_ingest-Keeps :
      (report : Report fl.F) (beat : HeartbeatFields fl.F) (s : State fl.F) (id : ℕ)
      (p : Pending fl.F) (t : State fl.F)
      → Has c seen n s
      → pop_pending s id ≡ some (p, t)
      → report.trial_id ≡ p.trial_id
      → Keeps c seen n (apply_ingest fl env space report beat p t)
  unfolding apply_ingest new_observation
  apply_ingest-Keeps report beat s id p t h e named =
      Triple-seq (time fl env) _ (Keeps-quiet c seen n _ (IsQuiet-time fl env)) (λ now.
        let path = env.payload_path report.trial_id in
        let o = new_observation fl report p beat path now in
        let kept = add_observation-Has c seen n s id o h e named in
        Triple-bind (refresh_best fl env (add_observation o t)) _
          (Triple-refresh_best fl env c seen n (add_observation o t) kept)
          (λ best. Triple-fact _ (λ has.
            Triple-seq _ _ (Keeps-quiet c seen n _ (IsQuiet-save_payload fl env space report)) (λ _.
              Triple-seq _ _
                (Keeps-quiet c seen n _ (IsQuiet-ensure_terminal_manifest fl env o (some path) now))
                (λ _. Triple-seq _ _ (Triple-save_state_and_rows fl env c seen n best has) (λ _.
                  Keeps-quiet c seen n _ (
                    search (
                      IsQuiet-bind, IsQuiet-append_event, IsQuiet-append_governance_violations,
                    ))))))))

  ingest_pending-Keeps :
      (report : Report fl.F) (beat : HeartbeatFields fl.F) (token : Option String)
      (row : Pending fl.F) (s : State fl.F)
      → Has c seen n s
      → Keeps c seen n (ingest_pending fl env space report beat token row s)
  unfolding ingest_pending
  ingest_pending-Keeps report beat token row s h =
      Triple-seq _ _
        (Keeps-quiet c seen n _ (IsQuiet-require_matching_lease_token fl env row token))
        (λ _.
          Triple-seq _ _ (Keeps-quiet c seen n _ (IsQuiet-canonical fl env space row.params))
            (λ params.
              Triple-if (not (same_dict fl report.params params)) _ _
                (λ _. Triple-raise params_mismatch (λ _ g. g))
                (λ _.
                  Triple-option (pop_pending s report.trial_id) _ _
                    (λ _. Triple-raise (not_pending report.trial_id) (λ _ g. g))
                    (λ (p, t) e.
                      apply_ingest-Keeps report beat s report.trial_id p t h e
                        (sym (pop_pending-count 0 s report.trial_id e).0)))))

  ingest_done-Keeps :
      (report : Report fl.F) (s : State fl.F) → Keeps c seen n (ingest_done fl env space report s)
  unfolding ingest_done
  ingest_done-Keeps report s =
      Triple-option (find_first (λ o. o.trial_id == report.trial_id) s.observations) _ _
        (λ _. Triple-raise (not_pending report.trial_id) (λ _ g. g))
        (λ prior _. Keeps-quiet c seen n _ (IsQuiet-replay_ingest fl env space report prior))

  ingest_report-Keeps :
      (report : Report fl.F) (beat : HeartbeatFields fl.F) (token : Option String) (s : State fl.F)
      → Has c seen n s
      → Keeps c seen n (ingest_report fl env space report beat token s)
  unfolding ingest_report
  ingest_report-Keeps report beat token s h =
      Triple-option (pending_row report.trial_id s.pending) _ _ (λ _. ingest_done-Keeps report s)
        (λ row _. ingest_pending-Keeps report beat token row s h)

  ingest_state-Keeps :
      (payload : Payload fl.F) (token : Option String) (s : State fl.F)
      → Has c seen n s
      → Keeps c seen n (ingest_state fl env space payload token s)
  unfolding ingest_state
  ingest_state-Keeps payload token s h =
      Triple-seq (require invalid_payload _) _ (Keeps-quiet c seen n _ (IsQuiet-require _ _))
        (λ raw.
          Triple-seq _ _ (Keeps-quiet c seen n _ (IsQuiet-canonical fl env space raw.params))
            (λ params.
              Triple-seq (require invalid_heartbeat _) _
                (Keeps-quiet c seen n _ (IsQuiet-require _ _))
                (λ beat. ingest_report-Keeps (record raw { params = params }) beat token s h)))

  pub ingest-Keeps :
      (payload : Payload fl.F) (token : Option String)
      → Keeps c seen n (cmd_ingest fl env space payload token)
  unfolding cmd_ingest
  ingest-Keeps payload lease_token =
      Triple-seq (require invalid_lease_token (normalize_lease_token lease_token)) _
        (Keeps-quiet c seen n _ (IsQuiet-require invalid_lease_token _))
        (λ token. command-Keeps fl env c seen n Command.ingest _ (ingest_state-Keeps payload token))
