-- ===== src/Tests/Campaign.antt =====
-- Suggest, ingest and the other commands on a new campaign.
use looptimum.Prelude.{none, some, List, [], ◌∷◌, map, ◌⊎◌, ◌≡◌, refl, arith}
use looptimum.Prelude.Exec.{◌>>=◌, try_finally, gets, pure, for_each, modify}
use looptimum.Trials.Effects.{
  with_lock, load_state, ensure_pending_manifest, observation_rows, write, save_state,
  append_governance_violations,
}
use looptimum.Float.{integers}
use looptimum.Trials.{Pending}
use looptimum.Trials.World.{World}
use looptimum.Trials.Mirror.{Mirrors}
use looptimum.Trials.Mirror.Commands.{run-Mirrored}
use looptimum.Trials.Limits.{Within, suggest-Within}
use looptimum.Trials.Cancel.{cmd_cancel}
use looptimum.Trials.Retire.{cmd_retire}
use looptimum.Trials.Heartbeat.{cmd_heartbeat}
use looptimum.Trials.Ingest.{cmd_ingest}
use looptimum.Trials.Suggest.{cmd_suggest}
use looptimum.Trials.Hoare.{After, tables}
use looptimum.Trials.Invariant.Files.{file_occurs, file_observed, file_next}
use looptimum.Trials.Invariant.Allocate.{Granted}
use looptimum.Trials.Invariant.Unique.{
  SameIds, IsWellFormed, Extends, Runs, start, then_step, suggests, ingests, run-IsWellFormed,
  run-Extends, suggest_lem, ingest_lem, settle_lem,
}
use looptimum.Trials.Lifecycle.{LifeRun, LifeStep, life, run-LifeStep}
use looptimum.Tests.{env, space, planner, no_files, payload, beat}

abbrev pending_of : World integers.F → List (Pending integers.F)
pending_of w = elim w.state_file [ none ↦ [] | some s ↦ s.pending ]

abbrev suggested : World integers.F
unfolding integers
suggested = (cmd_suggest integers env planner no_files).1

abbrev ingested : World integers.F
unfolding integers
ingested = (cmd_ingest integers env space payload (some "t0") suggested).1

no_files-IsWellFormed : IsWellFormed no_files.state_file
unfolding no_files integers
no_files-IsWellFormed = record { unique = λ k. omega arith; fresh = λ k h. refl }

two_steps : Runs integers space no_files ingested
unfolding integers
two_steps = then_step (then_step start (suggests env planner)) (ingests env payload (some "t0"))

run-IsWellFormed_example : IsWellFormed ingested.state_file
run-IsWellFormed_example = run-IsWellFormed integers space two_steps no_files-IsWellFormed

run-Extends_example : Extends no_files.state_file ingested.state_file
run-Extends_example = run-Extends integers space two_steps

no_files-Mirrors : Mirrors (tables no_files)
unfolding no_files integers observation_rows
no_files-Mirrors = record { rows = refl }

run-Mirrored_example : Mirrors (tables ingested)
unfolding integers two_steps
run-Mirrored_example =
    run-Mirrored integers space two_steps ((tt, λ _. refl), λ _. refl) no_files-Mirrors

suggest_lem_example :
    After
      (λ ps v.
        Granted
          (λ k. file_occurs k no_files.state_file)
          (λ k. file_observed k no_files.state_file)
          (file_next no_files.state_file)
          planner.requested_count
          ps
          v.state_file)
      (λ v.
        (ps : List (Pending integers.F)) × Granted
          (λ k. file_occurs k no_files.state_file)
          (λ k. file_observed k no_files.state_file)
          (file_next no_files.state_file)
          planner.requested_count
          ps
          v.state_file)
      (cmd_suggest integers env planner no_files)
suggest_lem_example = suggest_lem integers env planner no_files

ingest_lem_example : SameIds suggested.state_file ingested.state_file
unfolding ingested cmd_ingest
ingest_lem_example = ingest_lem integers env space suggested payload (some "t0")

settle_lem_example :
    SameIds ingested.state_file (cmd_cancel integers env (some 2) none ingested).1.state_file
    × SameIds ingested.state_file (cmd_retire integers env (some 2) none none ingested).1.state_file
    × SameIds ingested.state_file (cmd_heartbeat integers env beat ingested).1.state_file
settle_lem_example = settle_lem integers env ingested (some 2) none none beat

suggest-Within_example :
    After
      (λ ps v. (ps ≡ []) ⊎ Within planner.max_pending_trials planner.max_trials v.state_file)
      (λ v. Unit)
      (cmd_suggest integers env planner no_files)
suggest-Within_example = suggest-Within integers env planner no_files

-- The two suggestions.
suggested_ids : map (λ p. p.trial_id) (pending_of suggested) ≡ 1 ∷ 2 ∷ []
unfolding integers suggested planner env no_files cmd_suggest with_lock ◌>>=◌ try_finally load_state
    gets pure for_each ensure_pending_manifest modify save_state append_governance_violations write
suggested_ids = refl

one_step : Runs integers space no_files suggested
unfolding integers
one_step = then_step start (suggests env planner)

run-LifeStep_example :
    LifeRun (life 1 no_files.state_file) (life 1 suggested.state_file)
    × LifeStep (life 1 suggested.state_file) (life 1 ingested.state_file)
unfolding integers
run-LifeStep_example = run-LifeStep integers space one_step (ingests env payload (some "t0")) 1
