-- ===== src/Trials/Total.antt =====
-- The effects of Trials/Effects that leave the state file, with what holds where they raise.
use looptimum.Prelude.{Bool, Option, is_nil}
use looptimum.Prelude.Exec.{pure}
use looptimum.Float.{Float}
use looptimum.Trials.{State}
use looptimum.Trials.World.{
  World, Command, EventKind, governance_violations_detected, event_log_file, invalid_governance,
  Action,
}
use looptimum.Trials.Effects.{Env, require, time, append_event, append_governance_violations}
use looptimum.Trials.Suggest.{Planner, when}
use looptimum.Trials.Hoare.{
  Triple, Triple-pure, Triple-if, Triple-imp, Triple-require, Triple-write,
}
use looptimum.Trials.Invariant.Files.{Triple-seq}

module _ (fl : Float) (env : Env fl.F) (planner : Planner fl.F) where
  time-runs :
      (p : Option (State fl.F) → Type 0) (E : World fl.F → Type 0)
      → Triple (λ w. p w.state_file) (time fl env) (λ _ w. p w.state_file) E
  unfolding time
  time-runs p E = record { at = λ w h. h }

  append_event-runs :
      (p : Option (State fl.F) → Type 0) (E : World fl.F → Type 0) (kind : EventKind fl.F)
      → ((w : World fl.F) → p w.state_file → E w)
      → Triple (λ w. p w.state_file) (append_event fl env kind) (λ _ w. p w.state_file) E
  unfolding append_event
  append_event-runs p E kind weaken =
      Triple-seq (time fl env) _ (time-runs p E)
        (λ now. Triple-write fl env {Q = λ _ w. p w.state_file} event_log_file _ (λ w h. h) weaken)

  pub append_governance_violations-runs :
      (p : Option (State fl.F) → Type 0) (E : World fl.F → Type 0) (command : Command)
      (s : State fl.F)
      → ((w : World fl.F) → p w.state_file → E w)
      → Triple
          (λ w. p w.state_file)
          (append_governance_violations fl env command s)
          (λ _ w. p w.state_file)
          E
  unfolding append_governance_violations
  append_governance_violations-runs p E command s weaken =
      Triple-seq (time fl env) _ (time-runs p E) (λ now.
        Triple-seq (require invalid_governance (env.violations s now)) _
          (Triple-imp _ (λ _ h. h) (λ _ _ h. h.0) weaken (Triple-require invalid_governance _))
          (λ found.
            Triple-if (is_nil found) _ _ (λ _. Triple-pure tt (λ _ h. h))
              (λ _. append_event-runs p E (governance_violations_detected command found) weaken)))

  pub when-runs :
      (p : Option (State fl.F) → Type 0) (E : World fl.F → Type 0) (b : Bool) (m : Action fl.F Unit)
      → Triple (λ w. p w.state_file) m (λ _ w. p w.state_file) E
      → Triple (λ w. p w.state_file) (when fl env planner b m) (λ _ w. p w.state_file) E
  when-runs p E b m t = Triple-if b m (pure tt) (λ _. t) (λ _. Triple-pure tt (λ _ h. h))
