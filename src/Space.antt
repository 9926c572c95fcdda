-- ===== src/Space.antt =====
-- templates/_shared/search_space.py: normalized parameters, conditional activity, the order in
-- which controllers come before what they control, and the canonical form of a trial's values.
pub mod Order
pub mod Encoding
use looptimum.Prelude.{
  ℕ, Bool, true, false, Option, none, some, String, str_eq, List, [], ◌∷◌, map, lookup, insert,
  has_key, text_mem, any_of, all_of, keep, if◌then◌else◌, is_some,
}
use looptimum.Prelude.Int.{ℤ}
use looptimum.Float.{Float}
use looptimum.Values.{Value, Dict, same_choice}

pub data Scale : Type 0 where
  linear log : Scale

-- The fields that each parameter type has after normalization.
pub data Kind (F : Type 0) : Type 0 where
  real : (lo hi : F) → Scale → Kind F
  whole : (lo hi : ℤ) → Scale → Kind F
  boolean : Kind F
  categorical : List (Value F) → Kind F

pub record Param (F : Type 0) : Type 0 where
  pub name : String
  pub kind : Kind F
  -- `when`: each controller with the values that activate the parameter
  pub conditions : Option (Dict (List (Value F)))

abbrev pub conditions_of : {F : Type 0} → Option (Dict (List (Value F))) → Dict (List (Value F))
conditions_of none = []
conditions_of (some conditions) = conditions

abbrev pub controllers : {F : Type 0} → Param F → List String
controllers param = map (λ c. c.0) (conditions_of param.conditions)

module _ (fl : Float) where
  unfoldable pub allows : Option (Value fl.F) → List (Value fl.F) → Bool
  unfolding same_choice
  allows none allowed = false
  allows (some value) allowed = any_of (same_choice fl value) allowed

  -- Every controller has a value, and one that its condition lists.
  unfoldable pub is_parameter_active : Param fl.F → Dict (Value fl.F) → Bool
  unfolding allows lookup
  is_parameter_active param values =
      all_of (λ c. allows (lookup c.0 values) c.1) (conditions_of param.conditions)

  -- The loop of `omit_inactive_params` over the ordered parameters.
  unfoldable pub omit_inactive :
      Dict (Value fl.F) → List (Param fl.F) → Dict (Value fl.F) → Dict (Value fl.F)
  unfolding lookup insert
  omit_inactive values [] out = out
  omit_inactive values (param ∷ params) out =
      omit_inactive values params (elim (lookup param.name values) [
        | none ↦ out
        | some value ↦ if is_parameter_active param values then insert param.name value out else out
      ])

  -- The keys that no parameter has are kept behind the others.
  unfoldable pub add_unknown :
      List (Param fl.F) → Dict (Value fl.F) → Dict (Value fl.F) → Dict (Value fl.F)
  unfolding text_mem insert
  add_unknown params [] out = out
  add_unknown params ((key, value) ∷ rest) out =
      add_unknown params rest
        (if text_mem key (map (λ p. p.name) params) then out else insert key value out)
