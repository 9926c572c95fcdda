-- ===== src/Trials.antt =====
-- The campaign state of templates/bo_client/run_bo.py and the functions on it. A stored field that
-- is absent or null is `none`. Trial ids are natural numbers: the ids that are handed out start at
-- 1, and the ingest schema asks for at least 1.
pub mod World
pub mod Effects
pub mod Cancel
pub mod Retire
pub mod Heartbeat
pub mod Ingest
pub mod Suggest
pub mod Hoare
pub mod Quiet
pub mod Total
pub mod Invariant
pub mod Best
pub mod Limits
pub mod Refused
pub mod Stale
pub mod Mirror
pub mod Lifecycle
pub mod Checks
use looptimum.Prelude.{
  ℕ, zero, suc, Bool, true, false, Option, none, some, String, str_eq, List, [], ◌∷◌, ◌++◌, map,
  ◌==◌, if◌then◌else◌, is_some, keep, strip,
}
use looptimum.Prelude.Int.{ℤ}
use looptimum.Prelude.Maybe.{◌>>=◌}
use looptimum.Float.{Float}
use looptimum.Values.{Value, null, Dict}
use looptimum.Objectives.{ObjectiveCfg, objective_names}
use looptimum.Objectives.Order.{RankKey, BestRecord, best_rank_key, build_best_record, min_by}
use looptimum.Contract.{Status, ok, killed, is_ok}
use looptimum.Runtime.{pending_age_seconds}
use looptimum.Runtime.Version.{Version}

pub record Pending (F : Type 0) : Type 0 where
  pub trial_id : ℕ
  pub params : Dict (Value F)
  pub suggested_at : Option F
  pub last_heartbeat_at : Option F
  pub heartbeat_count : Option ℕ
  pub heartbeat_note : Option String
  pub heartbeat_meta : Option (Dict (Value F))
  pub lease_token : Option String

pub record Observation (F : Type 0) : Type 0 where
  pub trial_id : ℕ
  pub params : Dict (Value F)
  pub objectives : Dict (Value F)
  pub status : Status
  pub terminal_reason : Option String
  pub penalty_objective : Option F
  pub artifact_path : Option String
  pub suggested_at : Option F
  pub completed_at : F
  pub last_heartbeat_at : Option F
  pub heartbeat_count : Option ℕ
  pub heartbeat_note : Option String
  pub heartbeat_meta : Option (Dict (Value F))
  pub lease_token : Option String

pub record State (F : Type 0) : Type 0 where
  pub schema_version : Option Version
  -- the private flag that asks for the upgraded version to be written
  pub upgrade_pending : Bool
  pub created_at : F
  pub seed : Option ℤ
  pub observations : List (Observation F)
  pub pending : List (Pending F)
  pub next_trial_id : ℕ
  pub best : Option (BestRecord F)

module _ {F : Type 0} where
  unfoldable pub pending_index : List (Pending F) → ℕ → Option ℕ
  pending_index [] trial_id = none
  pending_index (p ∷ ps) trial_id =
      let rest = pending_index ps trial_id in
      if p.trial_id == trial_id then some 0 else (do i ← rest; some (suc i))

  -- `pending.pop(idx)`: the entry, and the list without it.
  unfoldable pub pop_at : List (Pending F) → ℕ → Option (Pending F × List (Pending F))
  pop_at [] i = none
  pop_at (p ∷ ps) zero = some (p, ps)
  pop_at (p ∷ ps) (suc i) = do rest ← pop_at ps i; some (rest.0, p ∷ rest.1)

  unfoldable pub pop_pending : State F → ℕ → Option (Pending F × State F)
  unfolding pending_index pop_at
  pop_pending state trial_id = do
    i ← pending_index state.pending trial_id
    popped ← pop_at state.pending i
    some (popped.0, record state { pending = popped.1 })

  unfoldable pub new_terminal_observation : ObjectiveCfg F → String → F → Pending F → Observation F
  unfolding objective_names
  new_terminal_observation cfg reason now p = record {
    trial_id = p.trial_id;
    params = p.params;
    objectives = map (λ name. (name, null)) (objective_names cfg);
    status = killed;
    terminal_reason = some reason;
    penalty_objective = none;
    artifact_path = none;
    suggested_at = p.suggested_at;
    completed_at = now;
    last_heartbeat_at = p.last_heartbeat_at;
    heartbeat_count = p.heartbeat_count;
    heartbeat_note = p.heartbeat_note;
    heartbeat_meta = p.heartbeat_meta;
    lease_token = p.lease_token;
  }

  abbrev pub add_observation : Observation F → State F → State F
  add_observation o state = record state { observations = state.observations ++ o ∷ [] }

  -- Moves the named trials that are pending, in the given order, to the observations.
  unfoldable pub retire_all :
      (ℕ → Pending F → Observation F) → List ℕ → State F → State F × List (Observation F)
  retire_all make [] state = (state, [])
  retire_all make (trial_id ∷ ids) state = elim (pop_pending state trial_id) [
    | none ↦ retire_all make ids state
    | some (p, popped) ↦
        let o = make trial_id p in
        let (after, retired) = retire_all make ids (add_observation o popped) in
        (after, o ∷ retired)
  ]

module _ (fl : Float) where
  abbrev pub is_stale : fl.F → fl.F → Pending fl.F → Bool
  is_stale max_age now p =
      fl.ltb max_age (pending_age_seconds fl p.suggested_at p.last_heartbeat_at now)

  unfoldable pub stale_ids : fl.F → fl.F → List (Pending fl.F) → List ℕ
  unfolding pending_age_seconds
  stale_ids max_age now pending = map (λ p. p.trial_id) (keep (is_stale max_age now) pending)

  unfoldable pub retire_stale_pending :
      ObjectiveCfg fl.F → fl.F → fl.F → String → State fl.F → State fl.F × List (Observation fl.F)
  unfolding stale_ids retire_all
  retire_stale_pending cfg max_age now reason state =
      retire_all (λ _. new_terminal_observation cfg reason now)
        (stale_ids max_age now state.pending) state

  -- The ok observations beside their keys; `none` where one of them cannot be ranked.
  unfoldable pub ranked :
      ObjectiveCfg fl.F → List (Observation fl.F) → Option (List (RankKey fl.F × Observation fl.F))
  unfolding best_rank_key
  ranked cfg [] = some []
  ranked cfg (o ∷ os) =
      let rest = ranked cfg os in
      if is_ok o.status
      then (do
        key ← best_rank_key fl o.objectives cfg o.trial_id
        others ← rest
        some ((key, o) ∷ others))
      else rest

  abbrev pub first_of_ranked :
      List (RankKey fl.F × Observation fl.F) → Option (RankKey fl.F × Observation fl.F)
  first_of_ranked [] = none
  first_of_ranked (x ∷ xs) = some (min_by fl x xs)

  -- The chosen best observation, or that there is none; the outer `none` is the ValueError.
  unfoldable pub choose_best :
      ObjectiveCfg fl.F
      → List (Observation fl.F)
      → Option (Option (RankKey fl.F × Observation fl.F))
  unfolding ranked
  choose_best cfg observations = do keyed ← ranked cfg observations; some (first_of_ranked keyed)

  abbrev pub best_record :
      ObjectiveCfg fl.F
      → fl.F
      → Option (RankKey fl.F × Observation fl.F)
      → Option (Option (BestRecord fl.F))
  best_record cfg now none = some none
  best_record cfg now (some (key, o)) = do
    best ← build_best_record fl o.objectives cfg o.trial_id now
    some (some best)

  -- `update_best`, with the time that it reads.
  unfoldable pub update_best : ObjectiveCfg fl.F → fl.F → State fl.F → Option (State fl.F)
  unfolding choose_best build_best_record
  update_best cfg now state = do
    chosen ← choose_best cfg state.observations
    best ← best_record cfg now chosen
    some (record state { best = best })

-- A stored or given token is trimmed, and must not be blank; `none` is the ValueError.
unfoldable pub normalize_lease_token : Option String → Option (Option String)
unfolding strip
normalize_lease_token none = some none
normalize_lease_token (some raw) =
    let token = strip raw in if str_eq token "" then none else some (some token)
