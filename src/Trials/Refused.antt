-- ===== src/Trials/Refused.antt =====
-- Calls that are refused, and repeated ingests: the lease check and the branch of cmd_ingest for
-- a trial that is not pending.
use looptimum.Prelude.{
  ℕ, suc, Bool, true, false, Option, none, some, String, str_eq, strip, eq_iff, ap, List, ◌≡◌, ◌≢◌,
  refl, ◌∙◌, if◌then◌else◌, is_nil, find_first, ◌==◌,
}
use looptimum.Prelude.Maybe.{some_injective}
use looptimum.Trials.Invariant.Files.{Triple-fact}
use looptimum.Prelude.Exec.{Result, ok, err, pure, raise, continue, ◌>>=◌}
use looptimum.Float.{Float}
use looptimum.Values.{Value, Dict}
use looptimum.Space.{Param}
use looptimum.Space.Order.{canonicalize_conditional_params}
use looptimum.Trials.Hoare.{
  After, Triple, Triple-bind, Triple-require, Triple-if, Triple-option, Triple-raise, Triple-imp,
}
use looptimum.Contract.{Report}
use looptimum.Contract.Repeated.{SaySame, diff_contract_records-SaySame}
use looptimum.Contract.Replay.{build_observation_contract, diff_contract_records}
use looptimum.Trials.{Pending, Observation, State, normalize_lease_token}
use looptimum.Trials.World.{
  World, Error, EventKind, invalid_lease_token, lease_mismatch, invalid_payload, not_pending,
  conflicting_duplicate, event_log_file, write_failed, Action,
}
use looptimum.Trials.Effects.{
  Env, require, time, write, append_event, check_lease, require_matching_lease_token,
}
use looptimum.Trials.Ingest.{replay_ingest, ingest_done, ok_or, stored_report}

module _ {F : Type 0} where
  -- All files but the event log are the same.
  pub record SameFiles (u v : World F) : Type 0 where
    pub state_file : v.state_file ≡ u.state_file
    pub observations_csv : v.observations_csv ≡ u.observations_csv
    pub manifests : v.manifests ≡ u.manifests
    pub ingest_payloads : v.ingest_payloads ≡ u.ingest_payloads
    pub acquisition_log : v.acquisition_log ≡ u.acquisition_log

  SameFiles-refl : (u : World F) → SameFiles u u
  SameFiles-refl u = record {
    state_file = refl;
    observations_csv = refl;
    manifests = refl;
    ingest_payloads = refl;
    acquisition_log = refl;
  }

  SameFiles-trans : (u v w : World F) → SameFiles u v → SameFiles v w → SameFiles u w
  SameFiles-trans u v w h k = record {
    state_file = k.state_file ∙ h.state_file;
    observations_csv = k.observations_csv ∙ h.observations_csv;
    manifests = k.manifests ∙ h.manifests;
    ingest_payloads = k.ingest_payloads ∙ h.ingest_payloads;
    acquisition_log = k.acquisition_log ∙ h.acquisition_log;
  }

  -- The action writes to no file but the event log.
  record IsReadOnly {A : Type 0} (m : Action F A) : Type 0 where
    same : (w : World F) → SameFiles w (m w).1

  readonly-pure : {A : Type 0} (a : A) → IsReadOnly (pure a)
  unfolding pure
  readonly-pure a = record { same = λ w. SameFiles-refl w }

  readonly-raise : {A : Type 0} (e : Error) → IsReadOnly {A = A} (raise e)
  unfolding raise
  readonly-raise e = record { same = λ w. SameFiles-refl w }

  readonly-require : {A : Type 0} (e : Error) (o : Option A) → IsReadOnly (require {F = F} e o)
  readonly-require e none = record { same = λ w. SameFiles-refl w }
  readonly-require e (some a) = record { same = λ w. SameFiles-refl w }

  readonly-if :
      {A : Type 0} (b : Bool) (m n : Action F A)
      → IsReadOnly m
      → IsReadOnly n
      → IsReadOnly (if b then m else n)
  readonly-if true m n h k = h
  readonly-if false m n h k = k

  readonly-option :
      {A B : Type 0} (o : Option B) (m : Action F A) (f : B → Action F A)
      → IsReadOnly m
      → ((b : B) → IsReadOnly (f b))
      → IsReadOnly (elim o [ none ↦ m | some b ↦ f b ])
  readonly-option none m f h k = h
  readonly-option (some b) m f h k = k b

  readonly-bind :
      {A B : Type 0} (m : Action F A) (f : A → Action F B)
      → IsReadOnly m
      → ((a : A) → IsReadOnly (f a))
      → IsReadOnly (m >>= f)
  unfolding ◌>>=◌
  readonly-bind {A} m f h k = record { same = λ w. split w (m w) (h.same w) }
    where
      split :
          (w : World F) (r : Result Error A × World F)
          → SameFiles w r.1
          → SameFiles w (continue r.0 f r.1).1
      split w (ok a, v) s = SameFiles-trans w v _ s ((k a).same v)
      split w (err e, v) s = s

module _ (fl : Float) (env : Env fl.F) where
  -- Writing the event log.
  readonly-write :
      (f : World fl.F → World fl.F)
      → ((w : World fl.F) → SameFiles w (f w))
      → IsReadOnly (write fl env event_log_file f)
  unfolding write
  readonly-write f h = record { same = λ w. split (env.write_fails event_log_file w.ticks) w }
    where
      split :
          (b : Bool) (w : World fl.F)
          → SameFiles w
              (if◌then◌else◌ {A = Result Error Unit × World fl.F} b
                (err (write_failed event_log_file), w)
                (ok tt, f w)).1
      split true w = SameFiles-refl w
      split false w = h w

  readonly-time : IsReadOnly (time fl env)
  unfolding time
  readonly-time = record { same = λ w. same_tables w }
    where
      same_tables : (w : World fl.F) → SameFiles w (record w { ticks = suc w.ticks })
      same_tables w = record {
        state_file = refl;
        observations_csv = refl;
        manifests = refl;
        ingest_payloads = refl;
        acquisition_log = refl;
      }

  readonly-append_event : (kind : EventKind fl.F) → IsReadOnly (append_event fl env kind)
  unfolding append_event
  readonly-append_event kind = readonly-bind _ _ readonly-time (λ now. readonly-write _ (λ w.
      record {
        state_file = refl;
        observations_csv = refl;
        manifests = refl;
        ingest_payloads = refl;
        acquisition_log = refl;
      }))

  -- The lease token of a pending trial, as it is stored, admits the given one: there is none, or it
  -- is not blank, and the given one is the same but for white space around the stored one.
  abbrev Admits : Option String → Option String → Type 0
  Admits none provided = Unit
  Admits (some raw) provided = (strip raw ≢ "") × (provided ≡ some (strip raw))

  abbrev pub LeaseFits : Pending fl.F → Option String → Type 0
  LeaseFits p provided = Admits p.lease_token provided

  check_lease-Admits :
      (w : World fl.F) (id : ℕ) (raw : String) (provided : Option String)
      → strip raw ≢ ""
      → After
          (λ _ v. (v ≡ w) × Admits (some raw) provided)
          (λ v. (v ≡ w) × ¬ (Admits (some raw) provided))
          (check_lease fl env id (some (strip raw)) provided w)
  unfolding check_lease pure raise
  check_lease-Admits w id raw none filled = (refl, λ h. let same = h.1 in cc)
  check_lease-Admits w id raw (some token) filled = split (str_eq token (strip raw)) refl
    where
      split :
          (b : Bool)
          → str_eq token (strip raw) ≡ b
          → After
              (λ _ v. (v ≡ w) × Admits (some raw) (some token))
              (λ v. (v ≡ w) × ¬ (Admits (some raw) (some token)))
              ((if b then pure tt else raise (lease_mismatch id)) w)
      split true e = (refl, (filled, ap some ((eq_iff token (strip raw)).0 e)))
      split false e = (
        refl,
        λ h. let same = (eq_iff token (strip raw)).1 (some_injective token (strip raw) h.1) in cc,
      )

  stored_After :
      (w : World fl.F) (id : ℕ) (stored provided : Option String)
      → After
          (λ _ v. (v ≡ w) × Admits stored provided)
          (λ v. (v ≡ w) × ¬ (Admits stored provided))
          ((require invalid_lease_token (normalize_lease_token stored) >>= λ expected.
              check_lease fl env id expected provided)
            w)
  unfolding normalize_lease_token ◌>>=◌ check_lease pure raise
  stored_After w id none provided = (refl, tt)
  stored_After w id (some raw) provided = split (str_eq (strip raw) "") refl
    where
      split :
          (b : Bool)
          → str_eq (strip raw) "" ≡ b
          → After
              (λ _ v. (v ≡ w) × Admits (some raw) provided)
              (λ v. (v ≡ w) × ¬ (Admits (some raw) provided))
              ((require invalid_lease_token (if b then none else some (some (strip raw)))
                  >>= λ expected. check_lease fl env id expected provided)
                w)
      split true e = (refl, λ h. h.0 ((eq_iff (strip raw) "").0 e))
      split false e =
          check_lease-Admits w id raw provided
            (λ blank. let same = (eq_iff (strip raw) "").1 blank in cc)

  -- The lease check returns exactly where the pending trial has no token, or has one that is not
  -- blank and the given token is that one, trimmed; it raises in all other cases, and never changes
  -- anything.
  pub require_matching_lease_token-LeaseFits :
      (w : World fl.F) (p : Pending fl.F) (provided : Option String)
      → After
          (λ _ v. (v ≡ w) × LeaseFits p provided)
          (λ v. (v ≡ w) × ¬ (LeaseFits p provided))
          (require_matching_lease_token fl env p provided w)
  unfolding require_matching_lease_token
  require_matching_lease_token-LeaseFits w p provided =
      stored_After w p.trial_id p.lease_token provided

  readonly-replay_ingest :
      (space : List (Param fl.F)) (report : Report fl.F) (prior : Observation fl.F)
      → IsReadOnly (replay_ingest fl env space report prior)
  unfolding replay_ingest
  readonly-replay_ingest space report prior =
      search (readonly-bind, readonly-if, readonly-raise, readonly-require, readonly-append_event)

  -- The stored observation of the trial, in its canonical form, says the same as the report.
  pub record Repeats (space : List (Param fl.F)) (s : State fl.F) (report : Report fl.F)
      : Type 0 where
    pub prior : Observation fl.F
    pub found : find_first (λ o. o.trial_id == report.trial_id) s.observations ≡ some prior
    pub params : Dict (Value fl.F)
    pub canonical : ok_or (canonicalize_conditional_params fl prior.params space) ≡ some params
    pub expected : Report fl.F
    pub built :
        build_observation_contract fl
          (record (stored_report prior) { params = params })
          env.objective_cfg
        ≡ some expected
    pub same : SaySame fl expected report

  -- What holds whatever an action does.
  Triple-returned :
      {A : Type 0} {B : Type 0} (m : Action fl.F A)
      → B
      → Triple (λ _. Unit) m (λ _ _. B) (λ _. Unit)
  Triple-returned {A} {B} m b = record { at = λ w _. split (m w) }
    where
      split : (r : Result Error A × World fl.F) → After (λ _ _. B) (λ _. Unit) r
      split (ok a, v) = b
      split (err e, v) = tt

  replay_ingest-Repeats :
      (space : List (Param fl.F)) (report : Report fl.F) (s : State fl.F) (prior : Observation fl.F)
      → find_first (λ o. o.trial_id == report.trial_id) s.observations ≡ some prior
      → Triple
          (λ _. Unit)
          (replay_ingest fl env space report prior)
          (λ _ _. Repeats space s report)
          (λ _. Unit)
  unfolding replay_ingest append_event
  replay_ingest-Repeats space report s prior found =
      Triple-bind
        (require invalid_payload (ok_or (canonicalize_conditional_params fl prior.params space))) _
        (Triple-imp _ (λ _ h. h) (λ _ _ h. h) (λ _ _. tt) (Triple-require invalid_payload _))
        (λ params. Triple-fact _ (λ canonical.
          Triple-bind (require invalid_payload _) _
            (Triple-imp _ (λ _ h. h) (λ _ _ h. h) (λ _ _. tt) (Triple-require invalid_payload _))
            (λ expected. Triple-fact _ (λ built.
              Triple-if (is_nil (diff_contract_records fl expected report)) _ _
                (λ same. Triple-returned _ (record {
                  prior = prior;
                  found = found;
                  params = params;
                  canonical = canonical;
                  expected = expected;
                  built = built;
                  same = diff_contract_records-SaySame fl expected report same;
                }))
                (λ _. Triple-raise (conflicting_duplicate report.trial_id) (λ _ _. tt))))))

  -- An ingest for a trial that is not pending writes to no file but the event log, and returns
  -- only if the trial has a stored observation whose canonical form has the trial's id, the status
  -- and the terminal reason of the report, and at every key the same parameter and objective and
  -- the same penalty, as Python's `==` compares them.
  pub ingest_done-Repeats :
      (space : List (Param fl.F)) (report : Report fl.F) (s : State fl.F) (w : World fl.F)
      → SameFiles w (ingest_done fl env space report s w).1
        × After (λ _ _. Repeats space s report) (λ _. Unit) (ingest_done fl env space report s w)
  unfolding ingest_done
  ingest_done-Repeats space report s w =
      let stored = find_first (λ o. o.trial_id == report.trial_id) s.observations in
      (
        (readonly-option stored _ _ (readonly-raise (not_pending report.trial_id))
              (λ prior. readonly-replay_ingest space report prior)).same
            w,
        (Triple-option stored _ _ (λ _. Triple-raise (not_pending report.trial_id) (λ _ _. tt))
              (replay_ingest-Repeats space report s)).at
            w tt,
      )
