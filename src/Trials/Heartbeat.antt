-- ===== src/Trials/Heartbeat.antt =====
-- `cmd_heartbeat` of templates/bo_client/run_bo.py, from the lock on.
use looptimum.Prelude.{
  ℕ, ◌+◌, not, ◌||◌, Option, none, some, String, set, get_elem?, or_else, if◌then◌else◌,
}
use looptimum.Prelude.Exec.{pure, raise, ◌>>=◌, ◌>>◌}
use looptimum.Float.{Float}
use looptimum.Values.{Value, Dict}
use looptimum.Trials.{Pending, State, pending_index, normalize_lease_token}
use looptimum.Trials.World.{
  Command, missing_trial_id, not_pending, invalid_heartbeat, invalid_lease_token, heartbeat_event,
  Action,
}
use looptimum.Trials.Effects.{
  Env, require, time, append_event, load_state, save_state, ensure_pending_manifest,
  require_matching_lease_token, append_governance_violations, with_lock,
}

-- The command line; the outer `none` of `meta` is JSON that is no object.
pub record Beat (F : Type 0) : Type 0 where
  pub trial_id : Option ℕ
  pub at : Option F
  pub beat_note : Option String
  pub meta : Option (Option (Dict (Value F)))
  pub lease_token : Option String

abbrev pub given_or : {A : Type 0} → Option A → Option A → Option A
given_or none old = old
given_or (some a) old = some a

module _ (fl : Float) (env : Env fl.F) where
  unfoldable pub touch : Beat fl.F → fl.F → Option (Dict (Value fl.F)) → Pending fl.F → Pending fl.F
  touch beat at meta p = record p {
    last_heartbeat_at = some at;
    heartbeat_count = some (or_else p.heartbeat_count 0 + 1);
    heartbeat_note = given_or beat.beat_note p.heartbeat_note;
    heartbeat_meta = given_or meta p.heartbeat_meta;
  }

  abbrev pub beat_time : Option fl.F → Action fl.F fl.F
  beat_time none = time fl env
  beat_time (some at) = pure at

  unfoldable pub finish_heartbeat : ℕ → Pending fl.F → fl.F → State fl.F → Action fl.F Unit
  finish_heartbeat i p at state = do
    let after = record state { pending = set state.pending i p }
    now ← time fl env
    ensure_pending_manifest fl env p now
    save_state fl env after
    append_event fl env (heartbeat_event p.trial_id at)
    append_governance_violations fl env Command.heartbeat after

  unfoldable pub heartbeat_entry :
      Beat fl.F → Option String → ℕ → Pending fl.F → State fl.F → Action fl.F Unit
  unfolding touch finish_heartbeat
  heartbeat_entry beat token i p state = do
    at ← beat_time beat.at
    if fl.leb at fl.zero || not (fl.is_finite at) then raise invalid_heartbeat else do
      meta ← require invalid_heartbeat beat.meta
      require_matching_lease_token fl env p token
      finish_heartbeat i (touch beat at meta p) at state

  abbrev pub entry_at : ℕ → State fl.F → Option (ℕ × Pending fl.F)
  entry_at trial_id state = elim (pending_index state.pending trial_id) [
    | none ↦ none
    | some i ↦ elim (get_elem? state.pending i) [ none ↦ none | some p ↦ some (i, p) ]
  ]

  unfoldable pub heartbeat_state : ℕ → Beat fl.F → Option String → State fl.F → Action fl.F Unit
  unfolding heartbeat_entry pending_index
  heartbeat_state trial_id beat token state = elim (entry_at trial_id state) [
    | none ↦ raise (not_pending trial_id)
    | some (i, p) ↦ heartbeat_entry beat token i p state
  ]

  abbrev pub heartbeat_for : Option ℕ → Beat fl.F → Action fl.F Unit
  heartbeat_for none beat = raise missing_trial_id
  heartbeat_for (some trial_id) beat = do
    token ← require invalid_lease_token (normalize_lease_token beat.lease_token)
    with_lock fl env Command.heartbeat
        (do state ← load_state fl env; heartbeat_state trial_id beat token state)

  unfoldable pub cmd_heartbeat : Beat fl.F → Action fl.F Unit
  unfolding heartbeat_state normalize_lease_token
  cmd_heartbeat beat = heartbeat_for beat.trial_id beat
