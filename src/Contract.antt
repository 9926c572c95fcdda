-- ===== src/Contract.antt =====
-- templates/_shared/contract.py: statuses, reasons and objective vectors of evaluator payloads,
-- and the comparison of a repeated ingest with what is stored. A payload is one that the ingest
-- schema admits, so its fields have their types; `none` stands for the ValueError. Measured
-- outcomes (contract version 2) are not modelled.
pub mod Repeated
pub mod Replay
pub mod Sound
use Prim.Native.Nat.{Ordering}
use Prim.Native.String.{compare}
use looptimum.Prelude.{
  ℕ, Bool, true, false, not, ◌&&◌, ◌+◌, Option, none, some, String, str_eq, List, [], ◌∷◌, ◌++◌,
  map, lookup, insert, has_key, strip, codes, same_codes, leb, ◌==◌, if◌then◌else◌, any_of, or_else,
  is_some,
}
use looptimum.Prelude.Maybe.{◌>>=◌}
use looptimum.Float.{Float}
use looptimum.Values.{Value, null, float, Dict, py_eq, require_finite_number}
use looptimum.Objectives.{ObjectiveCfg, objective_names, same_names}

pub data Status : Type 0 where
  ok failed killed timeout : Status

abbrev pub status_text : Status → String
status_text ok = "ok"
status_text failed = "failed"
status_text killed = "killed"
status_text timeout = "timeout"

abbrev pub is_ok : Status → Bool
is_ok ok = true
is_ok _ = false

abbrev pub same_status : Status → Status → Bool
same_status ok ok = true
same_status failed failed = true
same_status killed killed = true
same_status timeout timeout = true
same_status _ _ = false

-- `str.lower` on the letters of the canonical names.
unfoldable pub lower : ℕ → ℕ
lower c = if leb b'A' c && leb c b'Z' then c + 32 else c

unfoldable pub normalize_status : Option String → Option Status
unfolding strip same_codes lower
normalize_status none = some ok
normalize_status (some raw) =
    let text = map lower (codes (strip raw)) in
    if same_codes text (codes "success")
    then some ok
    else if same_codes text (codes "ok")
    then some ok
    else if same_codes text (codes "failed")
    then some failed
    else if same_codes text (codes "killed")
    then some killed
    else if same_codes text (codes "timeout")
    then some timeout
    else none

-- The fields of an evaluator's payload; an absent field is `none`.
pub record Payload (F : Type 0) : Type 0 where
  pub trial_id : ℕ
  pub params : Dict (Value F)
  pub objectives : Dict (Value F)
  pub status : Option String
  pub penalty_objective : Option (Value F)
  pub terminal_reason : Option String
  pub failure_reason : Option String
  pub heartbeat_at : Option (Value F)
  pub heartbeat_note : Option String
  pub heartbeat_meta : Option (Dict (Value F))

-- What `normalize_ingest_payload` returns, its heartbeat fields left as they came.
pub record Report (F : Type 0) : Type 0 where
  pub trial_id : ℕ
  pub params : Dict (Value F)
  pub objectives : Dict (Value F)
  pub status : Status
  pub penalty_objective : Option F
  pub terminal_reason : Option String

-- A blank reason counts as none.
unfoldable pub normalize_reason : Option String → Option String
unfolding strip
normalize_reason none = none
normalize_reason (some raw) = let text = strip raw in if str_eq text "" then none else some text

abbrev pub fallback_reason : Status → String
fallback_reason ok = "status=ok"
fallback_reason failed = "status=failed"
fallback_reason killed = "status=killed"
fallback_reason timeout = "status=timeout"

abbrev pub first_reason : Option String → Option String → Status → String
first_reason (some reason) legacy status = reason
first_reason none (some legacy) status = legacy
first_reason none none status = fallback_reason status

unfoldable pub normalize_terminal_reason : Option String → Option String → Status → Option String
unfolding normalize_reason
normalize_terminal_reason terminal legacy status =
    if is_ok status
    then none
    else some (first_reason (normalize_reason terminal) (normalize_reason legacy) status)

module _ (fl : Float) where
  -- Every named value becomes a finite float, in place.
  unfoldable pub normalize_numbers : List String → Dict (Value fl.F) → Option (Dict (Value fl.F))
  unfolding lookup insert require_finite_number
  normalize_numbers [] objectives = some objectives
  normalize_numbers (name ∷ names) objectives = do
    value ← require_finite_number fl (or_else (lookup name objectives) null)
    normalize_numbers names (insert name (float value) objectives)

  unfoldable pub clear_values : List String → Dict (Value fl.F) → Dict (Value fl.F)
  unfolding insert
  clear_values [] objectives = objectives
  clear_values (name ∷ names) objectives = clear_values names (insert name null objectives)

  abbrev pub is_null : Option (Value fl.F) → Bool
  is_null none = true
  is_null (some null) = true
  is_null (some _) = false

  unfoldable pub normalize_penalty : Option (Value fl.F) → Option (Option fl.F)
  unfolding require_finite_number
  normalize_penalty none = some none
  normalize_penalty (some raw) = do value ← require_finite_number fl raw; some (some value)

  unfoldable pub normalize_objectives :
      Dict (Value fl.F)
      → Option (Value fl.F)
      → Status
      → ObjectiveCfg fl.F
      → Option (Dict (Value fl.F) × Option fl.F)
  unfolding same_names objective_names normalize_numbers clear_values normalize_penalty lookup
  normalize_objectives objectives penalty status cfg =
      let names = objective_names cfg in
      let numbers = normalize_numbers names objectives in
      let penalties = normalize_penalty penalty in
      if not (same_names fl names objectives)
      then none
      else if is_ok status
      then (if is_some penalty then none else (do values ← numbers; some (values, none)))
      else (do
        value ← penalties
        if any_of (λ name. not (is_null (lookup name objectives))) names
            then none
            else some (clear_values names objectives, value))

  unfoldable pub normalize_ingest_payload : Payload fl.F → ObjectiveCfg fl.F → Option (Report fl.F)
  unfolding normalize_status normalize_objectives normalize_terminal_reason
  normalize_ingest_payload payload cfg = do
    status ← normalize_status payload.status
    outcome ← normalize_objectives payload.objectives payload.penalty_objective status cfg
    some (record {
      trial_id = payload.trial_id;
      params = payload.params;
      objectives = outcome.0;
      status = status;
      penalty_objective = outcome.1;
      terminal_reason =
          normalize_terminal_reason payload.terminal_reason payload.failure_reason status;
    })
