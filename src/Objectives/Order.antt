-- ===== src/Objectives/Order.antt =====
-- `best_rank_key` and `build_best_record` of templates/_shared/objectives.py, the order of the
-- keys, and the first minimum, which Python's `min` returns.
use looptimum.Prelude.{
  ℕ, Bool, true, false, Option, none, some, String, List, [], ◌∷◌, ltb, if◌then◌else◌,
}
use looptimum.Prelude.Maybe.{◌>>=◌}
use looptimum.Float.{Float}
use looptimum.Values.{Value, Dict}
use looptimum.Objectives.{
  ObjectiveCfg, Policy, scalarize_objectives, scalarized_direction, transformed_value,
  lexicographic_key, canonical_objective_vector, best_objective_name, has_policy_fields,
}

pub record RankKey (F : Type 0) : Type 0 where
  pub scalar : F
  pub lexicographic : List F
  pub trial_id : ℕ

pub record BestRecord (F : Type 0) : Type 0 where
  pub trial_id : ℕ
  pub objective_name : String
  pub objective_value : F
  pub updated_at : F
  -- `scalarization_policy` and `objective_vector`, which only some campaigns record
  pub policy : Option (Policy F × Dict F)

module _ (fl : Float) where
  unfoldable pub best_rank_key : Dict (Value fl.F) → ObjectiveCfg fl.F → ℕ → Option (RankKey fl.F)
  unfolding scalarize_objectives scalarized_direction transformed_value lexicographic_key
  best_rank_key raw cfg trial_id = do
    scalar ← scalarize_objectives fl raw cfg
    lex ← lexicographic_key fl raw cfg
    some (record {
      scalar = transformed_value fl (scalarized_direction cfg) scalar;
      lexicographic = lex;
      trial_id = trial_id;
    })

  unfoldable pub list_eq : List fl.F → List fl.F → Bool
  list_eq [] [] = true
  list_eq (x ∷ xs) (y ∷ ys) = let rest = list_eq xs ys in if fl.eqb x y then rest else false
  list_eq _ _ = false

  -- Tuples compare at the first place where they differ.
  unfoldable pub list_lt : List fl.F → List fl.F → Bool
  list_lt [] [] = false
  list_lt [] (_ ∷ _) = true
  list_lt (_ ∷ _) [] = false
  list_lt (x ∷ xs) (y ∷ ys) = let rest = list_lt xs ys in if fl.eqb x y then rest else fl.ltb x y

  unfoldable pub key_lt : RankKey fl.F → RankKey fl.F → Bool
  unfolding list_eq list_lt
  key_lt a b =
      if fl.eqb a.scalar b.scalar
      then (if list_eq a.lexicographic b.lexicographic
          then ltb a.trial_id b.trial_id
          else list_lt a.lexicographic b.lexicographic)
      else fl.ltb a.scalar b.scalar

  unfoldable pub build_best_record :
      Dict (Value fl.F) → ObjectiveCfg fl.F → ℕ → fl.F → Option (BestRecord fl.F)
  unfolding canonical_objective_vector scalarize_objectives best_objective_name has_policy_fields
  build_best_record raw cfg trial_id updated_at = do
    vector ← canonical_objective_vector fl raw cfg
    value ← scalarize_objectives fl raw cfg
    some (record {
      trial_id = trial_id;
      objective_name = best_objective_name cfg;
      objective_value = value;
      updated_at = updated_at;
      policy = if has_policy_fields cfg then some (cfg.scalarization, vector) else none;
    })

  -- `min(..., key=...)` over items that stand beside their keys.
  unfoldable pub min_by :
      {A : Type 0} → RankKey fl.F × A → List (RankKey fl.F × A) → RankKey fl.F × A
  min_by best [] = best
  min_by best (x ∷ xs) = min_by (if key_lt x.0 best.0 then x else best) xs
