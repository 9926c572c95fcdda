-- ===== src/Trials/Invariant/Unique.antt =====
-- Runs of the five commands, one after another under the lock, and the trial ids over them.
use looptimum.Prelude.{
  ℕ, suc, ◌+◌, ◌≤◌, ◌<◌, Option, String, List, [], ◌∷◌, ◌≡◌, refl, ◌∙◌, arith, length,
}
use looptimum.Prelude.Exec.{Result, ok, err}
use looptimum.Float.{Float}
use looptimum.Space.{Param}
use looptimum.Contract.{Payload}
use looptimum.Trials.{Pending, State}
use looptimum.Trials.World.{World, Error, Action}
use looptimum.Trials.Effects.{Env}
use looptimum.Trials.Cancel.{cmd_cancel}
use looptimum.Trials.Retire.{cmd_retire}
use looptimum.Trials.Heartbeat.{Beat, cmd_heartbeat}
use looptimum.Trials.Ingest.{cmd_ingest}
use looptimum.Trials.Suggest.{Planner, cmd_suggest}
use looptimum.Trials.Hoare.{After}
use looptimum.Trials.Invariant.{count_pending}
use looptimum.Trials.Invariant.Files.{FileHas, Keeps, file_occurs, file_observed, file_next}
use looptimum.Trials.Invariant.Conserve.{cancel-Keeps, retire-Keeps}
use looptimum.Trials.Invariant.Update.{heartbeat-Keeps, ingest-Keeps}
use looptimum.Trials.Invariant.Allocate.{Consecutive, Granted, suggest-Granted}

module _ {F : Type 0} where
  -- The two files hold the same ids, each as often, and have the same next id; the second has the
  -- observed ids of the first, and it may have others.
  pub record SameIds (f g : Option (State F)) : Type 0 where
    pub same : (k : ℕ) → file_occurs k g ≡ file_occurs k f
    pub grown : (k : ℕ) → file_observed k f ≤ file_observed k g
    pub next : file_next g ≡ file_next f

  -- No id stands twice, and none from the next one on stands at all.
  pub record IsWellFormed (f : Option (State F)) : Type 0 where
    pub unique : (k : ℕ) → file_occurs k f ≤ 1
    pub fresh : (k : ℕ) → file_next f ≤ k → file_occurs k f ≡ 0

  -- The ids of the first file are in the second, and its next id is no smaller.
  pub record Extends (f g : Option (State F)) : Type 0 where
    pub kept : (k : ℕ) → file_occurs k f ≤ file_occurs k g
    pub next : file_next f ≤ file_next g

  Keeps-SameIds :
      {A : Type 0} (w : World F) (m : Action F A)
      → Keeps
          (λ k. file_occurs k w.state_file)
          (λ k. file_observed k w.state_file)
          (file_next w.state_file)
          m
      → SameIds w.state_file (m w).1.state_file
  Keeps-SameIds {A} w m t =
      split (m w) (t.at w (record { counts = λ k. refl; grown = λ k. omega arith; next = refl }))
    where
      split :
          (r : Result Error A × World F)
          → After
              (λ _ v.
                FileHas
                  (λ k. file_occurs k w.state_file)
                  (λ k. file_observed k w.state_file)
                  (file_next w.state_file)
                  v.state_file)
              (λ v.
                FileHas
                  (λ k. file_occurs k w.state_file)
                  (λ k. file_observed k w.state_file)
                  (file_next w.state_file)
                  v.state_file)
              r
          → SameIds w.state_file r.1.state_file
      split (ok a, v) h = record { same = h.counts; grown = h.grown; next = h.next }
      split (err e, v) h = record { same = h.counts; grown = h.grown; next = h.next }

-- One command, in any environment; its result is dropped.
pub data Step (fl : Float) (space : List (Param fl.F)) (w : World fl.F) : World fl.F → Type 1 where
  cancels :
      (env : Env fl.F) (id : Option ℕ) (reason : Option String)
      → Step fl space w (cmd_cancel fl env id reason w).1
  retires :
      (env : Env fl.F) (id : Option ℕ) (age : Option fl.F) (reason : Option String)
      → Step fl space w (cmd_retire fl env id age reason w).1
  beats : (env : Env fl.F) (beat : Beat fl.F) → Step fl space w (cmd_heartbeat fl env beat w).1
  ingests :
      (env : Env fl.F) (payload : Payload fl.F) (token : Option String)
      → Step fl space w (cmd_ingest fl env space payload token w).1
  suggests :
      (env : Env fl.F) (planner : Planner fl.F) → Step fl space w (cmd_suggest fl env planner w).1

-- Any number of commands.
pub data Runs (fl : Float) (space : List (Param fl.F)) (u : World fl.F) : World fl.F → Type 1 where
  start : Runs fl space u u
  then_step : {v w : World fl.F} → Runs fl space u v → Step fl space v w → Runs fl space u w

module _ {F : Type 0} where
  Consecutive-count :
      (k n : ℕ) (ps : List (Pending F))
      → Consecutive n ps
      → (count_pending k ps ≤ 1)
        × (k < n → count_pending k ps ≡ 0)
        × (n + length ps ≤ k → count_pending k ps ≡ 0)
  unfolding count_pending
  Consecutive-count k n [] h = (omega arith, λ _. refl, λ _. refl)
  Consecutive-count k n (p ∷ ps) (named, h) =
      let (once, below, above) = Consecutive-count k (suc n) ps h in
      (ground arith, λ before. ground arith, λ after. ground arith)

  SameIds-IsWellFormed : (f g : Option (State F)) → SameIds f g → IsWellFormed f → IsWellFormed g
  SameIds-IsWellFormed f g s h = record {
    unique = λ k. omega (arith, s.same k, h.unique k);
    fresh = λ k after. s.same k ∙ h.fresh k (omega (arith, s.next));
  }

  SameIds-Extends : (f g : Option (State F)) → SameIds f g → Extends f g
  SameIds-Extends f g s = record {
    kept = λ k. omega (arith, s.same k);
    next = omega (arith, s.next);
  }

  Granted-IsWellFormed :
      (f g : Option (State F)) (wanted : ℕ) (ps : List (Pending F))
      → Granted (λ k. file_occurs k f) (λ k. file_observed k f) (file_next f) wanted ps g
      → IsWellFormed f
      → IsWellFormed g
  Granted-IsWellFormed f g wanted ps r h = record {
    unique = λ k.
        let (once, below, _) = Consecutive-count k (file_next f) ps r.ids in
        let counted = r.holds.counts k in let u = h.unique k in let e = h.fresh k in ground arith;
    fresh = λ k after.
        let (_, _, above) = Consecutive-count k (file_next f) ps r.ids in
        let counted = r.holds.counts k in
        let next = r.holds.next in let e = h.fresh k in ground arith;
  }

  Granted-Extends :
      (f g : Option (State F)) (wanted : ℕ) (ps : List (Pending F))
      → Granted (λ k. file_occurs k f) (λ k. file_observed k f) (file_next f) wanted ps g
      → Extends f g
  Granted-Extends f g wanted ps r = record {
    kept = λ k. omega (arith, r.holds.counts k);
    next = omega (arith, r.holds.next);
  }

module _ (fl : Float) where
  -- Cancel, retire and heartbeat leave every trial id in the state as often as it stood there, among
  -- the observations no less often, and the next id as it is, whatever they are called with and
  -- whether they return or raise.
  pub settle_lem :
      (env : Env fl.F) (w : World fl.F) (id : Option ℕ) (age : Option fl.F) (reason : Option String)
      (beat : Beat fl.F)
      → SameIds w.state_file (cmd_cancel fl env id reason w).1.state_file
        × SameIds w.state_file (cmd_retire fl env id age reason w).1.state_file
        × SameIds w.state_file (cmd_heartbeat fl env beat w).1.state_file
  settle_lem env w id age reason beat = (
    Keeps-SameIds w _ (cancel-Keeps fl env _ _ _ id reason),
    Keeps-SameIds w _ (retire-Keeps fl env _ _ _ id age reason),
    Keeps-SameIds w _ (heartbeat-Keeps fl env _ _ _ beat),
  )

  -- Ingest leaves every trial id in the state as often as it stood there, among the observations no
  -- less often, and the next id as it is, for every payload and lease token, whether it returns or
  -- raises.
  pub ingest_lem :
      (env : Env fl.F) (space : List (Param fl.F)) (w : World fl.F) (payload : Payload fl.F)
      (token : Option String)
      → SameIds w.state_file (cmd_ingest fl env space payload token w).1.state_file
  ingest_lem env space w payload token =
      Keeps-SameIds w _ (ingest-Keeps fl env space _ _ _ payload token)

  -- Suggest that returns hands out the next ids in order, as many as were asked for or none: the
  -- state then holds them once more each, all other ids as before, and the next id is past them. No
  -- id is observed less often than before, or more often than it stood. Suggest that raises, also
  -- where a write fails or the governance configuration is refused after the state was written,
  -- leaves the state of such an outcome: all of the requested ids more, or none.
  pub suggest_lem :
      (env : Env fl.F) (planner : Planner fl.F) (w : World fl.F)
      → After
          (λ ps v.
            Granted
              (λ k. file_occurs k w.state_file)
              (λ k. file_observed k w.state_file)
              (file_next w.state_file)
              planner.requested_count
              ps
              v.state_file)
          (λ v.
            (ps : List (Pending fl.F)) × Granted
              (λ k. file_occurs k w.state_file)
              (λ k. file_observed k w.state_file)
              (file_next w.state_file)
              planner.requested_count
              ps
              v.state_file)
          (cmd_suggest fl env planner w)
  suggest_lem env planner w =
      (suggest-Granted fl env planner (λ k. file_occurs k w.state_file)
          (λ k. file_observed k w.state_file) (file_next w.state_file)).at
        w (record { counts = λ k. refl; grown = λ k. omega arith; next = refl })

  module _ (space : List (Param fl.F)) where
    -- What a command does, as far as well-formedness and loss are concerned.
    Both : World fl.F → World fl.F → Type 0
    Both v w =
        (IsWellFormed v.state_file → IsWellFormed w.state_file) × Extends v.state_file w.state_file

    SameIds-Both : (v w : World fl.F) → SameIds v.state_file w.state_file → Both v w
    unfolding Both
    SameIds-Both v w s = (SameIds-IsWellFormed _ _ s, SameIds-Extends _ _ s)

    suggest-Both :
        (planner : Planner fl.F) (v : World fl.F)
        (r : Result Error (List (Pending fl.F)) × World fl.F)
        → After
            (λ ps w.
              Granted
                (λ k. file_occurs k v.state_file)
                (λ k. file_observed k v.state_file)
                (file_next v.state_file)
                planner.requested_count
                ps
                w.state_file)
            (λ w.
              (ps : List (Pending fl.F)) × Granted
                (λ k. file_occurs k v.state_file)
                (λ k. file_observed k v.state_file)
                (file_next v.state_file)
                planner.requested_count
                ps
                w.state_file)
            r
        → Both v r.1
    unfolding Both
    suggest-Both planner v (ok ps, w) g =
        (Granted-IsWellFormed _ _ _ ps g, Granted-Extends _ _ _ ps g)
    suggest-Both planner v (err e, w) (ps, g) =
        (Granted-IsWellFormed _ _ _ ps g, Granted-Extends _ _ _ ps g)

    Step-Both : {v w : World fl.F} → Step fl space v w → Both v w
    Step-Both {v} (cancels env id reason) =
        SameIds-Both _ _ (Keeps-SameIds v _ (cancel-Keeps fl env _ _ _ id reason))
    Step-Both {v} (retires env id age reason) =
        SameIds-Both _ _ (Keeps-SameIds v _ (retire-Keeps fl env _ _ _ id age reason))
    Step-Both {v} (beats env beat) =
        SameIds-Both _ _ (Keeps-SameIds v _ (heartbeat-Keeps fl env _ _ _ beat))
    Step-Both {v} (ingests env payload token) =
        SameIds-Both _ _ (ingest_lem env space v payload token)
    Step-Both {v} (suggests env planner) =
        suggest-Both planner v (cmd_suggest fl env planner v) (suggest_lem env planner v)

    -- After any number of commands, each in its own environment, a state in which no trial id
    -- stands twice and none from the next one on stands is such a state again.
    pub run-IsWellFormed :
        {v w : World fl.F}
        → Runs fl space v w
        → IsWellFormed v.state_file
        → IsWellFormed w.state_file
    unfolding Both
    run-IsWellFormed start h = h
    run-IsWellFormed (then_step run s) h = (Step-Both s).0 (run-IsWellFormed run h)

    -- No number of commands loses a trial: an id of the state at the start stands, pending or
    -- observed, at least as often at the end, and the next id has not gone down.
    pub run-Extends : {v w : World fl.F} → Runs fl space v w → Extends v.state_file w.state_file
    unfolding Both
    run-Extends start = record { kept = λ k. omega arith; next = omega arith }
    run-Extends (then_step run s) = record {
      kept = λ k. omega (arith, (run-Extends run).kept k, (Step-Both s).1.kept k);
      next = omega (arith, (run-Extends run).next, (Step-Both s).1.next);
    }
