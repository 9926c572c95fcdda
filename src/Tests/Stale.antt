-- ===== src/Tests/Stale.antt =====
-- The automatic retirement of one of two pending trials.
use looptimum.Prelude.{keep, map, not, ◌++◌, false, none, some, [], ◌∷◌, ◌≡◌, refl, arith}
use looptimum.Prelude.Int.{pos}
use looptimum.Float.{integers}
use looptimum.Runtime.{pending_age_seconds}
use looptimum.Trials.Invariant.{count_pending}
use looptimum.Trials.Stale.{Distinct, retire_stale_pending_lem}
use looptimum.Trials.{Pending, is_stale, new_terminal_observation, retire_stale_pending, State}
use looptimum.Tests.{cfg, waiting}

abbrev young : Pending integers.F
unfolding integers waiting
young = record waiting { trial_id = 2; suggested_at = some (pos 45) }

abbrev two_pending : State integers.F
unfolding integers
two_pending = record {
  schema_version = none;
  upgrade_pending = false;
  created_at = pos 0;
  seed = none;
  observations = [];
  pending = waiting ∷ young ∷ [];
  next_trial_id = 3;
  best = none;
}

abbrev ten : integers.F
unfolding integers
ten = pos 10

abbrev fifty : integers.F
unfolding integers
fifty = pos 50

two_pending-Distinct : Distinct two_pending.pending
unfolding two_pending integers waiting young count_pending
two_pending-Distinct k = ground arith

retire_stale_pending_lem_example :
    let stale = keep (is_stale integers ten fifty) two_pending.pending in
    let fresh = keep (λ p. not (is_stale integers ten fifty p)) two_pending.pending in
    let retired = map (new_terminal_observation cfg "retired_stale_auto" fifty) stale in
    retire_stale_pending integers cfg ten fifty "retired_stale_auto" two_pending ≡ (
      record two_pending { pending = fresh; observations = two_pending.observations ++ retired },
      retired,
    )
retire_stale_pending_lem_example =
    retire_stale_pending_lem integers cfg ten fifty "retired_stale_auto" two_pending
      two_pending-Distinct

two_pending_fresh :
    map (λ p. p.trial_id) (keep (λ p. not (is_stale integers ten fifty p)) two_pending.pending)
    ≡ 2 ∷ []
unfolding integers two_pending waiting young ten fifty pending_age_seconds
two_pending_fresh = refl
