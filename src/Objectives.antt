-- ===== src/Objectives.antt =====
-- templates/_shared/objectives.py: objective vectors, their scalarization and the order by which
-- the best trial is chosen. A configuration is one that `normalize_objective_schema` returned;
-- `none` stands for the ValueError (or KeyError) of the source.
pub mod Order
pub mod Optimal
pub mod Pareto
use looptimum.Prelude.{
  ℕ, Bool, true, false, not, ◌&&◌, ◌||◌, Option, none, some, String, str_eq, List, [], ◌∷◌, map,
  length, lookup, has_key, text_mem, ltb, leb, ◌==◌, if◌then◌else◌, any_of, all_of, or_else,
}
use looptimum.Prelude.Maybe.{◌>>=◌}
use looptimum.Float.{Float}
use looptimum.Values.{Value, null, float, Dict, require_finite_number}

pub data Direction : Type 0 where
  minimize maximize : Direction

pub record Objective (F : Type 0) : Type 0 where
  pub name : String
  pub direction : Direction
  pub tolerance : F
  pub failure_handling : String

-- The normalized `scalarization` entry, with the fields that its policy has.
pub data Policy (F : Type 0) : Type 0 where
  primary_only lexicographic : Policy F
  weighted_sum : (weights : Dict F) → Policy F
  weighted_tchebycheff : (weights : Dict F) (reference : Option (Dict F)) → Policy F

pub record ObjectiveCfg (F : Type 0) : Type 0 where
  pub primary : Objective F
  pub secondary : List (Objective F)
  pub scalarization : Policy F

-- `objectives` of the normalized schema: `[primary, *secondary]`
unfoldable pub objective_descriptors : {F : Type 0} → ObjectiveCfg F → List (Objective F)
objective_descriptors cfg = cfg.primary ∷ cfg.secondary

unfoldable pub objective_names : {F : Type 0} → ObjectiveCfg F → List String
unfolding objective_descriptors
objective_names cfg = map (λ o. o.name) (objective_descriptors cfg)

unfoldable pub is_weighted : {F : Type 0} → Policy F → Bool
is_weighted primary_only = false
is_weighted lexicographic = false
is_weighted (weighted_sum _) = true
is_weighted (weighted_tchebycheff _ _) = true

unfoldable pub scalarized_direction : {F : Type 0} → ObjectiveCfg F → Direction
unfolding is_weighted
scalarized_direction cfg = if is_weighted cfg.scalarization then minimize else cfg.primary.direction

unfoldable pub best_objective_name : {F : Type 0} → ObjectiveCfg F → String
unfolding is_weighted
best_objective_name cfg = if is_weighted cfg.scalarization then "scalarized" else cfg.primary.name

unfoldable pub is_primary_only : {F : Type 0} → Policy F → Bool
is_primary_only primary_only = true
is_primary_only _ = false

-- Whether a record carries the policy: several objectives, or a policy other than the default.
unfoldable pub has_policy_fields : {F : Type 0} → ObjectiveCfg F → Bool
unfolding is_primary_only
has_policy_fields cfg = ltb 0 (length cfg.secondary) || not (is_primary_only cfg.scalarization)

module _ (fl : Float) where
  -- Reads the configured names in their order; the caller has checked the key sets.
  unfoldable pub collect_values : List String → Dict (Value fl.F) → Option (Dict fl.F)
  unfolding require_finite_number lookup
  collect_values [] raw = some []
  collect_values (name ∷ names) raw = do
    value ← require_finite_number fl (or_else (lookup name raw) null)
    rest ← collect_values names raw
    some ((name, value) ∷ rest)

  -- No configured name is missing, and no other name is there.
  unfoldable pub same_names : List String → Dict (Value fl.F) → Bool
  unfolding has_key text_mem
  same_names names raw =
      all_of (λ name. has_key name raw) names && all_of (λ entry. text_mem entry.0 names) raw

  unfoldable pub canonical_objective_vector :
      Dict (Value fl.F) → ObjectiveCfg fl.F → Option (Dict fl.F)
  unfolding objective_names same_names collect_values
  canonical_objective_vector raw cfg =
      let names = objective_names cfg in
      if same_names names raw then collect_values names raw else none

  unfoldable pub nullable_value : Value fl.F → Option (Option fl.F)
  unfolding require_finite_number
  nullable_value null = some none
  nullable_value v = do x ← require_finite_number fl v; some (some x)

  unfoldable pub collect_nullable : List String → Dict (Value fl.F) → Option (Dict (Option fl.F))
  unfolding nullable_value lookup
  collect_nullable [] raw = some []
  collect_nullable (name ∷ names) raw = do
    value ← nullable_value (or_else (lookup name raw) null)
    rest ← collect_nullable names raw
    some ((name, value) ∷ rest)

  -- `nullable_objective_vector` of a vector that is there.
  unfoldable pub nullable_objective_vector :
      Dict (Value fl.F) → ObjectiveCfg fl.F → Option (Dict (Option fl.F))
  unfolding objective_names same_names collect_nullable
  nullable_objective_vector raw cfg =
      let names = objective_names cfg in
      if same_names names raw then collect_nullable names raw else none

  unfoldable pub transformed_value : Direction → fl.F → fl.F
  transformed_value minimize value = value
  transformed_value maximize value = fl.neg value

  -- One transformed number for each objective, read from the vector by name.
  unfoldable pub transformed_values : Dict fl.F → List (Objective fl.F) → Option (List fl.F)
  unfolding lookup transformed_value
  transformed_values vector [] = some []
  transformed_values vector (o ∷ os) = do
    value ← lookup o.name vector
    rest ← transformed_values vector os
    some (transformed_value o.direction value ∷ rest)

  unfoldable pub lexicographic_key : Dict (Value fl.F) → ObjectiveCfg fl.F → Option (List fl.F)
  unfolding canonical_objective_vector transformed_values objective_descriptors
  lexicographic_key raw cfg = do
    vector ← canonical_objective_vector raw cfg
    transformed_values vector (objective_descriptors cfg)

  unfoldable pub weighted_terms : Dict fl.F → Dict fl.F → List (Objective fl.F) → Option (List fl.F)
  unfolding lookup transformed_value
  weighted_terms weights vector [] = some []
  weighted_terms weights vector (o ∷ os) = do
    weight ← lookup o.name weights
    value ← lookup o.name vector
    rest ← weighted_terms weights vector os
    some (fl.mul weight (transformed_value o.direction value) ∷ rest)

  -- `reference.get(name, 0.0)`, where an absent reference point is 0.0 everywhere.
  unfoldable pub reference_value : Option (Dict fl.F) → String → fl.F
  unfolding lookup
  reference_value none name = fl.zero
  reference_value (some reference) name = or_else (lookup name reference) fl.zero

  unfoldable pub distances :
      Dict fl.F → Option (Dict fl.F) → Dict fl.F → List (Objective fl.F) → Option (List fl.F)
  unfolding lookup transformed_value reference_value
  distances weights reference vector [] = some []
  distances weights reference vector (o ∷ os) = do
    weight ← lookup o.name weights
    value ← lookup o.name vector
    rest ← distances weights reference vector os
    let at = transformed_value o.direction (reference_value reference o.name)
    some (fl.mul weight (fl.abs (fl.sub (transformed_value o.direction value) at)) ∷ rest)

  -- `max(...)` of a non-empty list: the first of the greatest items.
  unfoldable pub max_of : fl.F → List fl.F → fl.F
  max_of best [] = best
  max_of best (x ∷ xs) = max_of (if fl.ltb best x then x else best) xs

  unfoldable pub max_of_list : List fl.F → Option fl.F
  unfolding max_of
  max_of_list [] = none
  max_of_list (x ∷ xs) = some (max_of x xs)

  unfoldable pub scalarize_by : Policy fl.F → ObjectiveCfg fl.F → Dict fl.F → Option fl.F
  unfolding lookup weighted_terms distances max_of_list objective_descriptors
  scalarize_by primary_only cfg vector = lookup cfg.primary.name vector
  scalarize_by lexicographic cfg vector = lookup cfg.primary.name vector
  scalarize_by (weighted_sum weights) cfg vector = do
    terms ← weighted_terms weights vector (objective_descriptors cfg)
    some (fl.sum terms)
  scalarize_by (weighted_tchebycheff weights reference) cfg vector = do
    terms ← distances weights reference vector (objective_descriptors cfg)
    max_of_list terms

  unfoldable pub scalarize_objectives : Dict (Value fl.F) → ObjectiveCfg fl.F → Option fl.F
  unfolding canonical_objective_vector scalarize_by
  scalarize_objectives raw cfg = do
    vector ← canonical_objective_vector raw cfg
    scalarize_by cfg.scalarization cfg vector
