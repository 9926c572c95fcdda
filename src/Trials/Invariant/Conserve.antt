-- ===== src/Trials/Invariant/Conserve.antt =====
-- The trial ids and the commands cmd_cancel and cmd_retire.
use looptimum.Prelude.{
  ℕ, not, ◌&&◌, Bool, false, Option, none, some, String, List, [], ◌∷◌, ◌≡◌, refl, ◌∙◌, ap, is_some,
  is_nil, arith,
}
use looptimum.Prelude.Exec.{◌>>=◌}
use looptimum.Float.{Float}
use looptimum.Trials.{
  Pending, Observation, State, pop_pending, retire_all, add_observation, new_terminal_observation,
}
use looptimum.Trials.World.{Command, not_pending, missing_trial_id, nothing_to_retire, Action}
use looptimum.Trials.Effects.{Env, time, load_state, refresh_best, with_lock}
use looptimum.Trials.Cancel.{reason_or, finish_cancel, cancel_state, cmd_cancel}
use looptimum.Trials.Retire.{
  retired_observation, record_retired, finish_retire, is_missing, retire_state, cmd_retire,
}
use looptimum.Trials.Hoare.{
  IsQuiet, IsQuiet-for_each, IsQuiet-bind, Triple-pure, Triple-raise, Triple-if, Triple-option,
  Triple-bind,
}
use looptimum.Trials.Quiet.{
  IsQuiet-time, IsQuiet-append_event, IsQuiet-ensure_terminal_manifest,
  IsQuiet-append_governance_override, IsQuiet-append_governance_violations,
}
use looptimum.Trials.Invariant.{hit, count_observed, count_observed-append, pop_pending-count}
use looptimum.Trials.Invariant.Files.{
  Has, FileHas, Keeps, Keeps-quiet, Triple-fact, Triple-seq, Triple-save_state_and_rows,
  Triple-load_state, Triple-refresh_best, Triple-with_lock,
}

module _ {F : Type 0} (c seen : ℕ → ℕ) (n : ℕ) where
  -- A popped trial that comes back as an observation stands as often as before.
  pub add_observation-Has :
      (s : State F) (id : ℕ) {p : Pending F} {t : State F} (o : Observation F)
      → Has c seen n s
      → pop_pending s id ≡ some (p, t)
      → o.trial_id ≡ p.trial_id
      → Has c seen n (add_observation o t)
  add_observation-Has s id {p} {t} o h e named = record {
    counts = λ k.
        let (_, moved, same, _) = pop_pending-count k s id e in
        let added = count_observed-append k t.observations o in
        let old = ap (count_observed k) same in
        let id_kept = ap (λ i. hit i k) named in let before = h.counts k in omega arith;
    grown = λ k.
        let (_, _, same, _) = pop_pending-count k s id e in
        let added = count_observed-append k t.observations o in
        let old = ap (count_observed k) same in let before = h.grown k in omega arith;
    next = let (_, _, _, same) = pop_pending-count 0 s id e in same ∙ h.next;
  }

  pub retire_all-Has :
      (make : ℕ → Pending F → Observation F)
      → ((id : ℕ) (p : Pending F) → (make id p).trial_id ≡ p.trial_id)
      → (ids : List ℕ) (s : State F) → Has c seen n s
      → Has c seen n (retire_all make ids s).0
  unfolding retire_all
  retire_all-Has make named [] s h = h
  retire_all-Has make named (id ∷ ids) s h =
      split (λ t k. retire_all-Has make named ids t k) (pop_pending s id) refl
    where
      split :
          ((t : State F) → Has c seen n t → Has c seen n (retire_all make ids t).0)
          → (popped : Option (Pending F × State F)) → pop_pending s id ≡ popped
          → Has c seen n
              (elim popped as (λ _. State F × List (Observation F)) [
                | none ↦ retire_all make ids s
                | some (p, t) ↦
                    let o = make id p in
                    let (after, retired) = retire_all make ids (add_observation o t) in
                    (after, o ∷ retired)
              ]).0
      split rest none e = rest s h
      split rest (some (p, t)) e =
          rest (add_observation (make id p) t)
            (add_observation-Has s id (make id p) h e (named id p))

module _ (fl : Float) (env : Env fl.F) where
  pub IsQuiet-record_retired :
      (now : fl.F) (auto : Bool) (o : Observation fl.F) → IsQuiet (record_retired fl env now auto o)
  unfolding record_retired
  IsQuiet-record_retired now auto o =
      search (IsQuiet-bind, IsQuiet-append_event, IsQuiet-ensure_terminal_manifest)

module _ (fl : Float) (env : Env fl.F) (c seen : ℕ → ℕ) (n : ℕ) where
  finish_cancel-Keeps :
      (reason : Option String) (s : State fl.F) (id : ℕ) (p : Pending fl.F) (t : State fl.F)
      → Has c seen n s
      → pop_pending s id ≡ some (p, t)
      → Keeps c seen n (finish_cancel fl env reason p t)
  unfolding finish_cancel new_terminal_observation
  finish_cancel-Keeps reason s id p t h e =
      Triple-seq (time fl env) _ (Keeps-quiet c seen n _ (IsQuiet-time fl env)) (λ now.
        let o = new_terminal_observation env.objective_cfg (reason_or reason "canceled") now p in
        let kept = add_observation-Has c seen n s id o h e refl in
        Triple-bind (refresh_best fl env (add_observation o t)) _
          (Triple-refresh_best fl env c seen n (add_observation o t) kept)
          (λ best. Triple-fact _ (λ has.
            Triple-seq _ _
              (Keeps-quiet c seen n _ (IsQuiet-ensure_terminal_manifest fl env o none now))
              (λ _. Triple-seq _ _ (Triple-save_state_and_rows fl env c seen n best has) (λ _.
                Keeps-quiet c seen n _ (
                  search (
                    IsQuiet-bind, IsQuiet-append_event, IsQuiet-append_governance_override,
                    IsQuiet-append_governance_violations,
                  )))))))

  cancel_state-Keeps :
      (id : ℕ) (reason : Option String) (s : State fl.F)
      → Has c seen n s
      → Keeps c seen n (cancel_state fl env id reason s)
  unfolding cancel_state
  cancel_state-Keeps id reason s h =
      Triple-option (pop_pending s id) _ _ (λ _. Triple-raise (not_pending id) (λ _ g. g))
        (λ (p, t) e. finish_cancel-Keeps reason s id p t h e)

  -- A command that works on the loaded state under the lock.
  pub command-Keeps :
      (command : Command) (m : State fl.F → Action fl.F Unit)
      → ((s : State fl.F) → Has c seen n s → Keeps c seen n (m s))
      → Keeps c seen n (with_lock fl env command (do state ← load_state fl env; m state))
  command-Keeps command m k =
      Triple-with_lock fl env (FileHas c seen n) (FileHas c seen n) (λ _. FileHas c seen n) command
        _ (λ _ h. h) (λ _ _ h. h)
        (Triple-bind (load_state fl env) m (Triple-load_state fl env c seen n)
          (λ s. Triple-fact (m s) (k s)))

  pub cancel-Keeps :
      (id : Option ℕ) (reason : Option String) → Keeps c seen n (cmd_cancel fl env id reason)
  unfolding cmd_cancel
  cancel-Keeps none reason = Triple-raise missing_trial_id (λ _ h. h)
  cancel-Keeps (some id) reason = command-Keeps Command.cancel _ (cancel_state-Keeps id reason)

  finish_retire-Keeps :
      (now : fl.F) (s : State fl.F) (retired : List (Observation fl.F))
      → Has c seen n s
      → Keeps c seen n (finish_retire fl env now (s, retired))
  unfolding finish_retire
  finish_retire-Keeps now s retired h =
      Triple-if (is_nil retired) _ _ (λ _. Triple-pure tt (λ _ g. g))
        (λ _.
          Triple-bind (refresh_best fl env s) _ (Triple-refresh_best fl env c seen n s h) (λ best.
            Triple-fact _ (λ has.
              Triple-seq _ _
                (Keeps-quiet c seen n _
                  (IsQuiet-for_each retired _ (IsQuiet-record_retired fl env now false)))
                (λ _.
                  Triple-seq _ _
                    (Keeps-quiet c seen n _ (
                      IsQuiet-for_each retired _
                        (IsQuiet-append_governance_override fl env Command.retire)))
                    (λ _. Triple-seq _ _ (Triple-save_state_and_rows fl env c seen n best has) (λ _.
                      Keeps-quiet c seen n _
                        (IsQuiet-append_governance_violations fl env Command.retire best)))))))

  retire_state-Keeps :
      (id : Option ℕ) (age : Option fl.F) (reason : Option String) (s : State fl.F)
      → Has c seen n s
      → Keeps c seen n (retire_state fl env id age reason s)
  unfolding retire_state retired_observation new_terminal_observation
  retire_state-Keeps id age reason s h =
      Triple-seq (time fl env) _ (Keeps-quiet c seen n _ (IsQuiet-time fl env)) (λ now.
        Triple-if (is_missing fl env id s) _ _ (λ _. Triple-raise _ (λ _ g. g))
          (λ _. finish_retire-Keeps now _ _ (retire_all-Has c seen n _ (λ _ p. refl) _ s h)))

  pub retire-Keeps :
      (id : Option ℕ) (age : Option fl.F) (reason : Option String)
      → Keeps c seen n (cmd_retire fl env id age reason)
  unfolding cmd_retire
  retire-Keeps id age reason =
      Triple-if (not (is_some id) && not (is_some age)) _ _
        (λ _. Triple-raise nothing_to_retire (λ _ h. h))
        (λ _. command-Keeps Command.retire _ (retire_state-Keeps id age reason))
