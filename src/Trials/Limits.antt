-- ===== src/Trials/Limits.antt =====
-- The limits of cmd_suggest on pending trials and on all trials.
use looptimum.Prelude.{
  ℕ, zero, suc, ◌+◌, ◌≤◌, ◌||◌, ◌⊎◌, inl, inr, Bool, false, Option, none, some, String, List, [],
  ◌∷◌, ◌≡◌, refl, sym, ap, subst, arith, length, length-append,
}
use looptimum.Prelude.Exec.{Result, ok, err}
use looptimum.Float.{Float}
use looptimum.Trials.{Pending, State}
use looptimum.Trials.World.{World, Error, Command, state_json, Action}
use looptimum.Trials.Effects.{Env, time, load_state, save_state}
use looptimum.Trials.Suggest.{
  Planner, Plan, planned, infeasible, add_step, new_suggestion, add_pending, trial_seed, plan,
  commit_plan, decline, exceeds, over_limit, suggest_from, suggest_state, cmd_suggest,
}
use looptimum.Trials.Hoare.{
  After, Triple, Triple-pure, Triple-raise, Triple-if, Triple-option, Triple-bind, Triple-write,
}
use looptimum.Trials.Invariant.Files.{
  Triple-fact, Triple-seq, Triple-with_lock, Triple-write_obs_csv,
}
use looptimum.Trials.Total.{append_governance_violations-runs, when-runs}

abbrev pub UnderLimit : Option ℕ → ℕ → Type 0
UnderLimit none n = Unit
UnderLimit (some limit) n = n ≤ limit

module _ {F : Type 0} where
  -- The file is there, and its state keeps both limits.
  abbrev pub Within : Option ℕ → ℕ → Option (State F) → Type 0
  Within limit max_trials none = ⊥
  Within limit max_trials (some s) =
      UnderLimit limit (length s.pending) × (length s.observations + length s.pending ≤ max_trials)

  abbrev pub Grown : State F → ℕ → Plan F → Type 0
  Grown s wanted (planned t ps ds) =
      (length t.pending ≡ length s.pending + wanted) × (t.observations ≡ s.observations)
  Grown s wanted (infeasible id why) = Unit

  -- Nothing is asked of the world.
  abbrev pub Any : World F → Type 0
  Any w = Unit

  Triple-Any : {A : Type 0} (m : Action F A) → Triple Any m (λ _. Any) Any
  Triple-Any {A} m = record { at = λ w h. split (m w) }
    where
      split : (r : Result Error A × World F) → After {A = A} (λ _. Any) Any r
      split (ok a, w) = tt
      split (err e, w) = tt

either_false : (a b : Bool) → (a || b) ≡ false → (a ≡ false) × (b ≡ false)
either_false a b e = ground arith

module _ (fl : Float) (env : Env fl.F) (planner : Planner fl.F) where
  add_step-Grown :
      (s : State fl.F) (wanted : ℕ) (p : Pending fl.F) (decision : String) (r : Plan fl.F)
      → Grown (add_pending fl env planner p s) wanted r
      → Grown s (suc wanted) (add_step p decision r)
  add_step-Grown s wanted p decision (planned t ps ds) h =
      (omega (arith, h.0, length-append s.pending (p ∷ [])), h.1)
  add_step-Grown s wanted p decision (infeasible id why) h = tt

  pub plan-Grown :
      (wanted : ℕ) (s : State fl.F)
      → Triple Any (plan fl env planner wanted s) (λ r w. Any w × Grown s wanted r) Any
  unfolding plan
  plan-Grown zero s = Triple-pure (planned s [] []) (λ w g. (g, (omega arith, refl)))
  plan-Grown (suc wanted) s =
      let (candidate, decision) = planner.propose (trial_seed fl env planner s) s in
      Triple-option candidate _ _ (λ _. Triple-pure _ (λ w g. (g, tt)))
        (λ params _. Triple-seq (time fl env) _ (Triple-Any (time fl env)) (λ now.
          let q = new_suggestion fl env planner s.next_trial_id params now in
          Triple-bind (plan fl env planner wanted (add_pending fl env planner q s)) _
            (plan-Grown wanted (add_pending fl env planner q s))
            (λ rest.
              Triple-fact _ (λ good.
                Triple-pure _ (λ w g. (g, add_step-Grown s wanted q decision rest good))))))

  -- Nothing was suggested, or the limits hold.
  abbrev Outcome : List (Pending fl.F) → Option (State fl.F) → Type 0
  Outcome ps file = (ps ≡ []) ⊎ Within planner.max_pending_trials planner.max_trials file

  Triple-save :
      (t : State fl.F) (q : Option (State fl.F) → Type 0)
      → q (some (record t { upgrade_pending = false }))
      → Triple Any (save_state fl env t) (λ _ w. q w.state_file) Any
  unfolding save_state
  Triple-save t q h = Triple-write fl env state_json _ (λ w _. h) (λ _ g. g)

  commit_plan-Outcome :
      (s : State fl.F) (retired : Bool) (r : Plan fl.F)
      → ((t : State fl.F)
          → Grown s planner.requested_count (planned t [] [])
          → Within planner.max_pending_trials planner.max_trials
              (some (record t { upgrade_pending = false })))
      → Grown s planner.requested_count r
      → Triple Any (commit_plan fl env planner s retired r) (λ ps w. Outcome ps w.state_file) Any
  unfolding commit_plan
  commit_plan-Outcome s retired (infeasible id why) room grown = Triple-seq _ _ (Triple-Any _) (λ _.
      Triple-seq _ _ (Triple-Any _)
        (λ _. Triple-seq _ _ (Triple-Any _) (λ _. Triple-raise _ (λ _ g. g))))
  commit_plan-Outcome s retired (planned t ps ds) room grown =
      let kept : Option (State fl.F) → Type 0 =
        Within planner.max_pending_trials planner.max_trials in
      Triple-seq _ _ (Triple-Any _) (λ _. Triple-seq _ _ (Triple-Any _) (λ _.
        Triple-bind (save_state fl env t) _ (Triple-save t kept (room t grown)) (λ _.
          Triple-seq _ _
            (when-runs fl env planner kept Any retired _
              (Triple-write_obs_csv fl env kept Any t (λ _ _. tt)))
            (λ _.
              Triple-seq _ _
                (append_governance_violations-runs fl env planner kept Any Command.suggest t
                  (λ _ _. tt))
                (λ _. Triple-pure ps (λ w g. inr g))))))

  exceeds-eq-false :
      (limit : Option ℕ) (n : ℕ) → exceeds fl env planner limit n ≡ false → UnderLimit limit n
  exceeds-eq-false none n e = tt
  exceeds-eq-false (some limit) n e = ground arith

  has_room :
      (s : State fl.F)
      → over_limit fl env planner s ≡ false
      → (t : State fl.F) → Grown s planner.requested_count (planned t [] [])
      → Within planner.max_pending_trials planner.max_trials
          (some (record t { upgrade_pending = false }))
  unfolding over_limit
  has_room s e t (pending, same) =
      let wanted = length s.pending + planner.requested_count in
      let (first, second) =
        either_false (exceeds fl env planner planner.max_pending_trials wanted) _ e in
      let limit = exceeds-eq-false planner.max_pending_trials wanted first in
      let observed = ap length same in
      (subst (UnderLimit planner.max_pending_trials) (sym pending) limit, ground arith)

  suggest_from-Outcome :
      (s : State fl.F) (retired : Bool)
      → Triple Any (suggest_from fl env planner s retired) (λ ps w. Outcome ps w.state_file) Any
  unfolding suggest_from decline
  suggest_from-Outcome s retired =
      Triple-if (over_limit fl env planner s) _ _
        (λ _. Triple-seq _ _ (Triple-Any _) (λ _. Triple-pure [] (λ _ _. inl refl)))
        (λ room.
          Triple-bind _ _ (plan-Grown planner.requested_count s)
            (λ r. Triple-fact _ (λ good. commit_plan-Outcome s retired r (has_room s room) good)))

  -- When suggest returns suggestions, the written state keeps both limits: no more trials are
  -- pending than allowed, and pending and observed ones together are no more than the budget.
  pub suggest-Within :
      (w : World fl.F)
      → After
          (λ ps v. (ps ≡ []) ⊎ Within planner.max_pending_trials planner.max_trials v.state_file)
          (λ v. Unit)
          (cmd_suggest fl env planner w)
  unfolding cmd_suggest suggest_state
  suggest-Within w =
      (Triple-with_lock fl env (λ _. Unit) (λ _. Unit) Outcome Command.suggest _ (λ _ h. h)
          (λ _ _ h. tt)
          (Triple-seq (load_state fl env) (suggest_state fl env planner) (Triple-Any _) (λ s.
            Triple-seq (time fl env) _ (Triple-Any _) (λ now.
              Triple-seq _ _ (Triple-Any _)
                (λ _. Triple-seq _ _ (Triple-Any _) (λ _. suggest_from-Outcome _ _)))))).at
        w tt
