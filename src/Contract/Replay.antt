-- ===== src/Contract/Replay.antt =====
-- `build_observation_contract` and `diff_contract_records` of templates/_shared/contract.py.
use Prim.Native.Nat.{Ordering}
use Prim.Native.String.{compare}
use looptimum.Prelude.{
  Bool, true, false, Option, none, some, String, str_eq, List, [], ◌∷◌, ◌++◌, lookup, ◌==◌,
  if◌then◌else◌,
}
use looptimum.Prelude.Maybe.{◌>>=◌}
use looptimum.Float.{Float}
use looptimum.Values.{Value, float, Dict, py_eq}
use looptimum.Objectives.{ObjectiveCfg}
use looptimum.Contract.{same_status, Report, normalize_objectives, normalize_terminal_reason}

-- A place at which two records differ: `$.field`, or `$.field.key`.
pub data Place : Type 0 where
  at_field : String → Place
  at_key : String → String → Place

unfoldable pub sort_insert : String → List String → List String
sort_insert k [] = k ∷ []
sort_insert k (j ∷ js) =
    let rest = sort_insert k js in
    elim (compare k j) [ Ordering.lt ↦ k ∷ j ∷ js | Ordering.eq ↦ j ∷ js | Ordering.gt ↦ j ∷ rest ]

-- `sorted(set(left.keys()) | set(right.keys()))`
unfoldable pub sorted_keys : {V : Type 0} → Dict V → List String → List String
unfolding sort_insert
sorted_keys [] keys = keys
sorted_keys ((k, _) ∷ m) keys = sort_insert k (sorted_keys m keys)

module _ (fl : Float) where
  -- Both absent, or both there and equal.
  unfoldable pub same_entry : Option (Value fl.F) → Option (Value fl.F) → Bool
  unfolding py_eq
  same_entry none none = true
  same_entry (some a) (some b) = py_eq fl a b
  same_entry _ _ = false

  unfoldable pub diff_dicts :
      String → List String → Dict (Value fl.F) → Dict (Value fl.F) → List Place
  unfolding same_entry lookup
  diff_dicts field [] left right = []
  diff_dicts field (key ∷ keys) left right =
      let rest = diff_dicts field keys left right in
      if same_entry (lookup key left) (lookup key right) then rest else at_key field key ∷ rest

  abbrev pub same_number : Option fl.F → Option fl.F → Bool
  same_number none none = true
  same_number (some a) (some b) = fl.eqb a b
  same_number _ _ = false

  abbrev pub same_reason : Option String → Option String → Bool
  same_reason none none = true
  same_reason (some a) (some b) = str_eq a b
  same_reason _ _ = false

  abbrev pub note : Bool → String → List Place
  note true field = []
  note false field = at_field field ∷ []

  -- The fields in the order of their names, as `sorted` lists them.
  unfoldable pub diff_contract_records : Report fl.F → Report fl.F → List Place
  unfolding diff_dicts sorted_keys
  diff_contract_records expected received =
      diff_dicts "objectives" (sorted_keys expected.objectives (sorted_keys received.objectives []))
        expected.objectives received.objectives
      ++ (diff_dicts "params" (sorted_keys expected.params (sorted_keys received.params []))
            expected.params received.params
          ++ (note (same_number expected.penalty_objective received.penalty_objective)
                "penalty_objective"
              ++ (note (same_status expected.status received.status) "status"
                  ++ (note (same_reason expected.terminal_reason received.terminal_reason)
                        "terminal_reason"
                      ++ note (expected.trial_id == received.trial_id) "trial_id"))))

  abbrev pub penalty_value : Option fl.F → Option (Value fl.F)
  penalty_value none = none
  penalty_value (some x) = some (float x)

  -- From the fields of a stored observation; a stored null penalty is read as an absent one.
  unfoldable pub build_observation_contract : Report fl.F → ObjectiveCfg fl.F → Option (Report fl.F)
  unfolding normalize_objectives normalize_terminal_reason
  build_observation_contract stored cfg = do
    outcome ←
        normalize_objectives fl stored.objectives (penalty_value stored.penalty_objective)
          stored.status cfg
    some (record stored {
      objectives = outcome.0;
      penalty_objective = outcome.1;
      terminal_reason = normalize_terminal_reason stored.terminal_reason none stored.status;
    })
