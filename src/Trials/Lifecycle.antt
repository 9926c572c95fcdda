-- ===== src/Trials/Lifecycle.antt =====
-- The life of one trial over the commands of templates/bo_client/run_bo.py: it is not handed out
-- yet, it is pending, or it is done. Which step a command takes is left open.
use looptimum.Prelude.{ℕ, zero, suc, ◌≤◌, Option, none, some, List, arith}
use looptimum.Prelude.Exec.{Result, ok, err}
use looptimum.Float.{Float}
use looptimum.Space.{Param}
use looptimum.Trials.{State, Pending}
use looptimum.Trials.World.{World, Error}
use looptimum.Trials.Heartbeat.{Beat}
use looptimum.Trials.Suggest.{cmd_suggest}
use looptimum.Trials.Hoare.{After}
use looptimum.Trials.Invariant.Files.{file_occurs, file_observed, file_next}
use looptimum.Trials.Invariant.Allocate.{Granted}
use looptimum.Trials.Invariant.Unique.{
  SameIds, Step, cancels, retires, beats, ingests, suggests, Runs, start, then_step, settle_lem,
  ingest_lem, suggest_lem,
}

pub data Life : Type 0 where
  unknown pending done : Life

-- The abstract machine of one trial.
pub data LifeStep : Life → Life → Type 0 where
  stay : (a : Life) → LifeStep a a
  hand_out : LifeStep unknown pending
  finish : LifeStep pending done

pub data LifeRun (a : Life) : Life → Type 0 where
  begin : LifeRun a a
  go_on : {b c : Life} → LifeRun a b → LifeStep b c → LifeRun a c

-- How often the trial's id is observed, and how often it stands at all.
abbrev life_of : (observed occurs : ℕ) → Life
life_of (suc _) _ = done
life_of zero (suc _) = pending
life_of zero zero = unknown

life_of-LifeStep : (o n p m : ℕ) → n ≤ m → o ≤ p → p ≤ n → LifeStep (life_of o n) (life_of p m)
life_of-LifeStep (suc o) n zero m kept grown few = absurd (omega arith)
life_of-LifeStep (suc o) n (suc p) m kept grown few = stay done
life_of-LifeStep zero zero zero zero kept grown few = stay unknown
life_of-LifeStep zero zero zero (suc m) kept grown few = hand_out
life_of-LifeStep zero zero (suc p) m kept grown few = absurd (omega arith)
life_of-LifeStep zero (suc n) zero zero kept grown few = absurd (omega arith)
life_of-LifeStep zero (suc n) zero (suc m) kept grown few = stay pending
life_of-LifeStep zero (suc n) (suc p) m kept grown few = finish

module _ {F : Type 0} where
  -- What the state file says of the trial.
  unfoldable pub life : ℕ → Option (State F) → Life
  life k file = life_of (file_observed k file) (file_occurs k file)

  observed-le-occurs : (k : ℕ) (f : Option (State F)) → file_observed k f ≤ file_occurs k f
  observed-le-occurs k none = omega arith
  observed-le-occurs k (some s) = omega arith

  -- What every command does to an id.
  record Follows (f g : Option (State F)) : Type 0 where
    kept : (k : ℕ) → file_occurs k f ≤ file_occurs k g
    grown : (k : ℕ) → file_observed k f ≤ file_observed k g
    few : (k : ℕ) → file_observed k g ≤ file_occurs k f

  SameIds-Follows : (f g : Option (State F)) → SameIds f g → Follows f g
  SameIds-Follows f g s = record {
    kept = λ k. omega (arith, s.same k);
    grown = s.grown;
    few = λ k. omega (arith, s.same k, observed-le-occurs k g);
  }

  Granted-Follows :
      (f g : Option (State F)) (wanted : ℕ) (ps : List (Pending F))
      → Granted (λ k. file_occurs k f) (λ k. file_observed k f) (file_next f) wanted ps g
      → Follows f g
  Granted-Follows f g wanted ps r = record {
    kept = λ k. omega (arith, r.holds.counts k);
    grown = r.holds.grown;
    few = r.few;
  }

  Follows-LifeStep : (k : ℕ) (f g : Option (State F)) → Follows f g → LifeStep (life k f) (life k g)
  unfolding life
  Follows-LifeStep k f g h =
      life_of-LifeStep (file_observed k f) (file_occurs k f) (file_observed k g) (file_occurs k g)
        (h.kept k) (h.grown k) (h.few k)

abbrev idle_beat : {F : Type 0} → Beat F
idle_beat = record { trial_id = none; at = none; beat_note = none; meta = none; lease_token = none }

module _ (fl : Float) (space : List (Param fl.F)) where
  suggest-Follows :
      (wanted : ℕ) (v : World fl.F) (r : Result Error (List (Pending fl.F)) × World fl.F)
      → After
          (λ ps w.
            Granted
              (λ k. file_occurs k v.state_file)
              (λ k. file_observed k v.state_file)
              (file_next v.state_file)
              wanted
              ps
              w.state_file)
          (λ w.
            (ps : List (Pending fl.F)) × Granted
              (λ k. file_occurs k v.state_file)
              (λ k. file_observed k v.state_file)
              (file_next v.state_file)
              wanted
              ps
              w.state_file)
          r
      → Follows v.state_file r.1.state_file
  suggest-Follows wanted v (ok ps, w) g = Granted-Follows _ _ wanted ps g
  suggest-Follows wanted v (err e, w) (ps, g) = Granted-Follows _ _ wanted ps g

  Step-Follows : {v w : World fl.F} → Step fl space v w → Follows v.state_file w.state_file
  Step-Follows {v} (cancels env id reason) =
      SameIds-Follows _ _ (settle_lem fl env v id none reason idle_beat).0
  Step-Follows {v} (retires env id age reason) =
      SameIds-Follows _ _ (settle_lem fl env v id age reason idle_beat).1
  Step-Follows {v} (beats env beat) =
      SameIds-Follows _ _ (settle_lem fl env v none none none beat).2
  Step-Follows {v} (ingests env payload token) =
      SameIds-Follows _ _ (ingest_lem fl env space v payload token)
  Step-Follows {v} (suggests env planner) =
      suggest-Follows planner.requested_count v (cmd_suggest fl env planner v)
        (suggest_lem fl env planner v)

  run-LifeRun :
      {u v : World fl.F}
      → Runs fl space u v
      → (k : ℕ) → LifeRun (life k u.state_file) (life k v.state_file)
  run-LifeRun start k = begin
  run-LifeRun (then_step run s) k =
      go_on (run-LifeRun run k) (Follows-LifeStep k _ _ (Step-Follows s))

  -- Each command, whether it returns or raises, does to each trial one step of the abstract machine
  -- or none: a trial that was not handed out is that or pending, a pending one is pending or done,
  -- and one that is done is done. So the commands before it are for each trial a run of the machine.
  pub run-LifeStep :
      {u v w : World fl.F}
      → Runs fl space u v
      → Step fl space v w
      → (k : ℕ)
      → LifeRun (life k u.state_file) (life k v.state_file)
        × LifeStep (life k v.state_file) (life k w.state_file)
  run-LifeStep run s k = (run-LifeRun run k, Follows-LifeStep k _ _ (Step-Follows s))
