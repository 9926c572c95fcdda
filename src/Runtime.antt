-- ===== src/Runtime.antt =====
-- templates/_shared/runtime.py: the age of a pending trial, the options that are read from
-- bo_config, and the schema version of a state file.
pub mod Version
use looptimum.Prelude.{
  ℕ, zero, suc, Bool, true, false, Option, none, some, String, List, [], ◌∷◌, leb, ◌==◌, ◌&&◌,
  if◌then◌else◌,
}
use looptimum.Prelude.Int.{ℤ, pos, negsuc}
use looptimum.Prelude.Maybe.{◌>>=◌}
use looptimum.Float.{Float}
use looptimum.Values.{Value, null, bool, int, float, str}

abbrev pub default_max_pending_age : ℕ
default_max_pending_age = 86400

module _ (fl : Float) where
  -- The later of the two touches; a value that is no number counts for nothing.
  abbrev pub later_touch : Option fl.F → Option fl.F → Option fl.F
  later_touch none heartbeat = heartbeat
  later_touch (some suggested) none = some suggested
  later_touch (some suggested) (some heartbeat) =
      if fl.ltb suggested heartbeat then some heartbeat else some suggested

  -- `max(0.0, now - last_touch)`, where Python's `max` keeps its first argument on a tie.
  unfoldable pub elapsed : fl.F → Option fl.F → fl.F
  elapsed now none = fl.zero
  elapsed now (some touch) =
      let age = fl.sub now touch in if fl.ltb fl.zero age then age else fl.zero

  -- The entry's `suggested_at` and `last_heartbeat_at`, each `none` where it is no number.
  unfoldable pub pending_age_seconds : Option fl.F → Option fl.F → fl.F → fl.F
  unfolding elapsed
  pending_age_seconds suggested_at last_heartbeat_at now =
      elapsed now (later_touch suggested_at last_heartbeat_at)

  -- `none` stands for the ValueError.
  unfoldable pub as_nonnegative_float : Value fl.F → Option fl.F
  as_nonnegative_float (int n) =
      let out = fl.of_int n in
      if fl.is_finite out then (if fl.ltb out fl.zero then none else some out) else none
  as_nonnegative_float (float x) =
      if fl.is_finite x then (if fl.ltb x fl.zero then none else some x) else none
  as_nonnegative_float _ = none

  unfoldable pub as_positive_int : Value fl.F → Option ℕ
  as_positive_int (int (pos zero)) = none
  as_positive_int (int (pos (suc n))) = some (suc n)
  as_positive_int _ = none

  -- The result is `some none` where no age limit is set: a null or a zero. An absent entry has
  -- the default.
  unfoldable pub resolve_max_pending_age_seconds : Option (Value fl.F) → Option (Option fl.F)
  unfolding as_nonnegative_float
  resolve_max_pending_age_seconds none = some (some (fl.of_int (pos default_max_pending_age)))
  resolve_max_pending_age_seconds (some null) = some none
  resolve_max_pending_age_seconds (some raw) = do
    value ← as_nonnegative_float raw
    if fl.eqb value fl.zero then some none else some (some value)

  unfoldable pub resolve_retire_max_age_seconds :
      Option (Value fl.F) → Option (Value fl.F) → Option fl.F
  unfolding as_nonnegative_float resolve_max_pending_age_seconds
  resolve_retire_max_age_seconds configured (some override) = do
    value ← as_nonnegative_float override
    if fl.eqb value fl.zero then none else some value
  resolve_retire_max_age_seconds configured none = do
    age ← resolve_max_pending_age_seconds configured
    age

  unfoldable pub resolve_max_pending_trials : Option (Value fl.F) → Option (Option ℕ)
  unfolding as_positive_int
  resolve_max_pending_trials none = some none
  resolve_max_pending_trials (some null) = some none
  resolve_max_pending_trials (some raw) = do n ← as_positive_int raw; some (some n)
