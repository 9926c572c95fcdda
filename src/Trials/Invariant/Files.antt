-- ===== src/Trials/Invariant/Files.antt =====
-- The ids in the state that a campaign's file holds, and the effects that read and write it.
use looptimum.Prelude.{ℕ, ◌≤◌, Option, none, some, ◌≡◌, subst, is_some}
use looptimum.Prelude.Maybe.{>>=-eq-some, some_injective}
use looptimum.Prelude.Exec.{gets, ◌>>=◌}
use looptimum.Float.{Float}
use looptimum.Objectives.{ObjectiveCfg}
use looptimum.Trials.{State, choose_best, best_record, update_best}
use looptimum.Trials.World.{
  World, Command, invalid_objectives, lock_acquired, lock_released, lock_timeout, unsupported_state,
  Action, state_json, observations_rows,
}
use looptimum.Runtime.Version.{normalize_version}
use looptimum.Trials.Effects.{
  Env, require, time, append_event, normalize_state, load_from, load_state, save_state,
  write_obs_csv, save_state_and_rows, refresh_best, locked, with_lock,
}
use looptimum.Trials.Hoare.{
  Triple, IsQuiet, Triple-pure, Triple-raise, Triple-require, Triple-if, Triple-imp, Triple-quiet,
  Triple-try_finally, Triple-bind, Triple-write,
}
use looptimum.Trials.Quiet.{IsQuiet-time, IsQuiet-append_event}
use looptimum.Trials.Invariant.{count_pending, count_observed, occurs}

module _ {F : Type 0} where
  -- How often an id stands in the file's state; a file that is not there stands for a new state.
  abbrev pub file_occurs : ℕ → Option (State F) → ℕ
  file_occurs k none = 0
  file_occurs k (some s) = occurs k s

  abbrev pub file_observed : ℕ → Option (State F) → ℕ
  file_observed k none = 0
  file_observed k (some s) = count_observed k s.observations

  abbrev pub file_next : Option (State F) → ℕ
  file_next none = 1
  file_next (some s) = s.next_trial_id

  pub record Has (c seen : ℕ → ℕ) (n : ℕ) (s : State F) : Type 0 where
    pub counts : (k : ℕ) → occurs k s ≡ c k
    -- As many observations as seen before, or more.
    pub grown : (k : ℕ) → seen k ≤ count_observed k s.observations
    pub next : s.next_trial_id ≡ n

  pub record FileHas (c seen : ℕ → ℕ) (n : ℕ) (file : Option (State F)) : Type 0 where
    pub counts : (k : ℕ) → file_occurs k file ≡ c k
    pub grown : (k : ℕ) → seen k ≤ file_observed k file
    pub next : file_next file ≡ n

  abbrev pub On : (ℕ → ℕ) → (ℕ → ℕ) → ℕ → World F → Type 0
  On c seen n w = FileHas c seen n w.state_file

  -- An action that leaves the ids in the file as they are, whatever it returns or raises.
  abbrev pub Keeps : {A : Type 0} → (ℕ → ℕ) → (ℕ → ℕ) → ℕ → Action F A → Type 0
  Keeps c seen n m = Triple (On c seen n) m (λ _. On c seen n) (On c seen n)

  pub Keeps-quiet :
      {A : Type 0} (c seen : ℕ → ℕ) (n : ℕ) (m : Action F A) → IsQuiet m → Keeps c seen n m
  Keeps-quiet c seen n m q = Triple-quiet (FileHas c seen n) m q

  -- What is known of the state, taken out of the precondition.
  pub Triple-fact :
      {A X : Type 0} {P E : World F → Type 0} {Q : A → World F → Type 0} (m : Action F A)
      → (X → Triple P m Q E)
      → Triple (λ w. P w × X) m Q E
  Triple-fact m t = record { at = λ w h. (t h.1).at w h.0 }

  pub Triple-seq :
      {A B : Type 0} {P E : World F → Type 0} {R : B → World F → Type 0} (m : Action F A)
      (f : A → Action F B)
      → Triple P m (λ _. P) E
      → ((a : A) → Triple P (f a) R E)
      → Triple P (m >>= f) R E
  Triple-seq m f t k = Triple-bind m f t k

module _ (fl : Float) (env : Env fl.F) where
  pub Triple-save_state :
      (c seen : ℕ → ℕ) (n : ℕ) (s : State fl.F)
      → Has c seen n s
      → Keeps c seen n (save_state fl env s)
  unfolding save_state
  Triple-save_state c seen n s h =
      Triple-write fl env state_json _
        (λ w _. record { counts = h.counts; grown = h.grown; next = h.next }) (λ _ g. g)

  -- The written state is observed no more often than that.
  pub Triple-save_state_few :
      {P E : World fl.F → Type 0} (c seen : ℕ → ℕ) (n : ℕ) (top : ℕ → ℕ) (s : State fl.F)
      → Has c seen n s
      → ((k : ℕ) → count_observed k s.observations ≤ top k)
      → ((w : World fl.F) → P w → E w)
      → Triple P
          (save_state fl env s)
          (λ _ w. On c seen n w × ((k : ℕ) → file_observed k w.state_file ≤ top k))
          E
  unfolding save_state
  Triple-save_state_few c seen n top s h few weaken =
      Triple-write fl env state_json _
        (λ w _. (record { counts = h.counts; grown = h.grown; next = h.next }, few)) weaken

  -- The CSV is no state file.
  pub Triple-write_obs_csv :
      (p : Option (State fl.F) → Type 0) (E : World fl.F → Type 0) (s : State fl.F)
      → ((w : World fl.F) → p w.state_file → E w)
      → Triple (λ w. p w.state_file) (write_obs_csv fl env s) (λ _ w. p w.state_file) E
  unfolding write_obs_csv
  Triple-write_obs_csv p E s weaken = Triple-write fl env observations_rows _ (λ w h. h) weaken

  pub Triple-save_state_and_rows :
      (c seen : ℕ → ℕ) (n : ℕ) (s : State fl.F)
      → Has c seen n s
      → Keeps c seen n (save_state_and_rows fl env s)
  unfolding save_state_and_rows
  Triple-save_state_and_rows c seen n s h =
      Triple-seq (save_state fl env s) _ (Triple-save_state c seen n s h)
        (λ _. Triple-write_obs_csv (FileHas c seen n) (On c seen n) s (λ _ g. g))

  normalize_state-Has :
      (c seen : ℕ → ℕ) (n : ℕ) (s : State fl.F)
      → Has c seen n s
      → Triple
          (On c seen n)
          (normalize_state fl env s)
          (λ t w. On c seen n w × Has c seen n t)
          (On c seen n)
  unfolding normalize_state
  normalize_state-Has c seen n s h =
      Triple-bind (require unsupported_state (normalize_version s.schema_version)) _
        (Triple-require unsupported_state (normalize_version s.schema_version))
        (λ version.
          Triple-pure _
            (λ w g. (g.0, record { counts = h.counts; grown = h.grown; next = h.next })))

  load_from-Has :
      (c seen : ℕ → ℕ) (n : ℕ) (file : Option (State fl.F))
      → FileHas c seen n file
      → Triple
          (On c seen n)
          (load_from fl env file)
          (λ t w. On c seen n w × Has c seen n t)
          (On c seen n)
  unfolding load_from count_pending count_observed
  load_from-Has c seen n none h =
      Triple-seq (time fl env) _ (Keeps-quiet c seen n _ (IsQuiet-time fl env)) (λ now.
        normalize_state-Has c seen n _
          (record { counts = h.counts; grown = h.grown; next = h.next }))
  load_from-Has c seen n (some s) h =
      normalize_state-Has c seen n s (record { counts = h.counts; grown = h.grown; next = h.next })

  pub Triple-load_state :
      (c seen : ℕ → ℕ) (n : ℕ)
      → Triple
          (On c seen n)
          (load_state fl env)
          (λ t w. On c seen n w × Has c seen n t)
          (On c seen n)
  unfolding load_state ◌>>=◌ gets
  Triple-load_state c seen n = record { at = λ w h. (load_from-Has c seen n w.state_file h).at w h }

  update_best-Has :
      (c seen : ℕ → ℕ) (n : ℕ) (cfg : ObjectiveCfg fl.F) (now : fl.F) (s : State fl.F)
      {t : State fl.F}
      → Has c seen n s
      → update_best fl cfg now s ≡ some t
      → Has c seen n t
  unfolding update_best
  update_best-Has c seen n cfg now s {t} h e =
      let (chosen, _, rest) = >>=-eq-some (choose_best fl cfg s.observations) _ e in
      let (best, _, same) =
        >>=-eq-some (best_record fl cfg now chosen) (λ best. some (record s { best = best }))
          rest in
      subst (Has c seen n) (some_injective (record s { best = best }) t same)
        (record { counts = h.counts; grown = h.grown; next = h.next })

  pub Triple-refresh_best :
      (c seen : ℕ → ℕ) (n : ℕ) (s : State fl.F)
      → Has c seen n s
      → Triple
          (On c seen n)
          (refresh_best fl env s)
          (λ t w. On c seen n w × Has c seen n t)
          (On c seen n)
  unfolding refresh_best
  Triple-refresh_best c seen n s h =
      Triple-seq (require invalid_objectives (choose_best fl env.objective_cfg s.observations)) _
        (Triple-imp _ (λ _ g. g) (λ _ _ g. g.0) (λ _ g. g) (Triple-require invalid_objectives _))
        (λ chosen.
          Triple-if (is_some chosen) _ _
            (λ _. Triple-seq (time fl env) _ (Keeps-quiet c seen n _ (IsQuiet-time fl env)) (λ now.
              Triple-imp _ (λ _ g. g)
                (λ t _ g. (g.0, update_best-Has c seen n env.objective_cfg now s h g.1)) (λ _ g. g)
                (Triple-require invalid_objectives _)))
            (λ _.
              Triple-pure _
                (λ w g. (g, record { counts = h.counts; grown = h.grown; next = h.next }))))

  Triple-locked :
      {A : Type 0} (p e : Option (State fl.F) → Type 0) (q : A → Option (State fl.F) → Type 0)
      (command : Command) (wait : Option fl.F) (m : Action fl.F A)
      → ((file : Option (State fl.F)) → p file → e file)
      → ((a : A) (file : Option (State fl.F)) → q a file → e file)
      → Triple (λ w. p w.state_file) m (λ a w. q a w.state_file) (λ w. e w.state_file)
      → Triple
          (λ w. p w.state_file)
          (locked fl env command wait m)
          (λ a w. q a w.state_file)
          (λ w. e w.state_file)
  unfolding locked
  Triple-locked p e q command none m weaken fail t =
      Triple-raise lock_timeout (λ w h. weaken w.state_file h)
  Triple-locked p e q command (some wait) m weaken fail t =
      Triple-bind (append_event fl env (lock_acquired command wait)) _
        (Triple-imp _ (λ _ h. h) (λ _ _ h. h) (λ w h. weaken w.state_file h)
          (Triple-quiet p _ (IsQuiet-append_event fl env (lock_acquired command wait))))
        (λ _.
          Triple-try_finally (append_event fl env (lock_released command)) m
            (λ a.
              Triple-imp _ (λ _ h. h) (λ _ _ h. h) (λ w h. fail a w.state_file h)
                (Triple-quiet (q a) _ (IsQuiet-append_event fl env (lock_released command))))
            (Triple-quiet e _ (IsQuiet-append_event fl env (lock_released command))) t)

  pub Triple-with_lock :
      {A : Type 0} (p e : Option (State fl.F) → Type 0) (q : A → Option (State fl.F) → Type 0)
      (command : Command) (m : Action fl.F A)
      → ((file : Option (State fl.F)) → p file → e file)
      → ((a : A) (file : Option (State fl.F)) → q a file → e file)
      → Triple (λ w. p w.state_file) m (λ a w. q a w.state_file) (λ w. e w.state_file)
      → Triple
          (λ w. p w.state_file)
          (with_lock fl env command m)
          (λ a w. q a w.state_file)
          (λ w. e w.state_file)
  unfolding with_lock
  Triple-with_lock p e q command m weaken fail t =
      Triple-locked p e q command env.lock_wait m weaken fail t
