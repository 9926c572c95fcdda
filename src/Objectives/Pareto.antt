-- ===== src/Objectives/Pareto.antt =====
-- `pareto_front_records` of templates/_shared/objectives.py, and what it calls. A record is a trial
-- id with its objectives; `none` stands for the ValueError.
pub mod Vectors
pub mod Dominance
pub mod Front
pub mod Sorted
pub mod Exact
use looptimum.Prelude.{
  ℕ, Bool, true, false, Option, none, some, String, List, [], ◌∷◌, ◌++◌, map, lookup, if◌then◌else◌,
}
use looptimum.Prelude.Maybe.{◌>>=◌}
use looptimum.Float.{Float}
use looptimum.Values.{Value, float, Dict}
use looptimum.Objectives.{
  Objective, ObjectiveCfg, objective_descriptors, objective_names, canonical_objective_vector,
  transformed_value,
}
use looptimum.Objectives.Order.{RankKey, best_rank_key, key_lt}

pub record TrialRecord (F : Type 0) : Type 0 where
  pub trial_id : ℕ
  pub objectives : Dict (Value F)

-- A canonical vector, given again as objectives.
abbrev pub as_values : {F : Type 0} → Dict F → Dict (Value F)
as_values vector = map (λ entry. (entry.0, float entry.1)) vector

abbrev pub Prepared : Type 0 → Type 0
Prepared F = TrialRecord F × Dict F

module _ (fl : Float) where
  unfoldable pub transform : Dict fl.F → List (Objective fl.F) → Option (Dict fl.F)
  unfolding lookup transformed_value
  transform vector [] = some []
  transform vector (o ∷ os) = do
    value ← lookup o.name vector
    rest ← transform vector os
    some ((o.name, transformed_value fl o.direction value) ∷ rest)

  unfoldable pub transformed_vector : Dict fl.F → ObjectiveCfg fl.F → Option (Dict fl.F)
  unfolding canonical_objective_vector objective_descriptors transform
  transformed_vector raw_objectives cfg = do
    vector ← canonical_objective_vector fl (as_values raw_objectives) cfg
    transform vector (objective_descriptors cfg)

  unfoldable pub all_at_most : List String → Dict fl.F → Dict fl.F → Option Bool
  unfolding lookup
  all_at_most [] left right = some true
  all_at_most (name ∷ names) left right = do
    x ← lookup name left
    y ← lookup name right
    let rest = all_at_most names left right
    if fl.leb x y then rest else some false

  unfoldable pub any_below : List String → Dict fl.F → Dict fl.F → Option Bool
  unfolding lookup
  any_below [] left right = some false
  any_below (name ∷ names) left right = do
    x ← lookup name left
    y ← lookup name right
    let rest = any_below names left right
    if fl.ltb x y then some true else rest

  unfoldable pub dominates : Dict fl.F → Dict fl.F → ObjectiveCfg fl.F → Option Bool
  unfolding transformed_vector objective_names all_at_most any_below
  dominates left right cfg = do
    transformed_left ← transformed_vector left cfg
    transformed_right ← transformed_vector right cfg
    everywhere ← all_at_most (objective_names cfg) transformed_left transformed_right
    let somewhere = any_below (objective_names cfg) transformed_left transformed_right
    if everywhere then somewhere else some false

  module _ (cfg : ObjectiveCfg fl.F) where
    unfoldable pub prepare : List (TrialRecord fl.F) → Option (List (Prepared fl.F))
    unfolding canonical_objective_vector
    prepare [] = some []
    prepare (record_ ∷ records) = do
      vector ← canonical_objective_vector fl record_.objectives cfg
      rest ← prepare records
      some ((record_, vector) ∷ rest)

    unfoldable pub is_dominated : List (Prepared fl.F) → Dict fl.F → Option Bool
    unfolding dominates
    is_dominated [] vector = some false
    is_dominated (other ∷ others) vector = do
      found ← dominates other.1 vector cfg
      let rest = is_dominated others vector
      if found then some true else rest

    -- The frontier of the records of the second list, each against all the others.
    unfoldable pub frontier :
        List (Prepared fl.F) → List (Prepared fl.F) → Option (List (Prepared fl.F))
    unfolding is_dominated
    frontier before [] = some []
    frontier before (item ∷ after) = do
      dominated ← is_dominated (before ++ after) item.1
      rest ← frontier (before ++ item ∷ []) after
      some (if dominated then rest else item ∷ rest)

    unfoldable pub with_keys :
        List (Prepared fl.F) → Option (List (RankKey fl.F × TrialRecord fl.F))
    unfolding best_rank_key
    with_keys [] = some []
    with_keys (item ∷ items) = do
      key ← best_rank_key fl (as_values item.1) cfg item.0.trial_id
      rest ← with_keys items
      some ((key, item.0) ∷ rest)

  module _ {A : Type 0} where
    -- `sort` by keys, which keeps the order of equal ones.
    unfoldable pub insert_keyed :
        RankKey fl.F × A → List (RankKey fl.F × A) → List (RankKey fl.F × A)
    unfolding key_lt
    insert_keyed x [] = x ∷ []
    insert_keyed x (y ∷ ys) =
        let rest = insert_keyed x ys in if key_lt fl y.0 x.0 then y ∷ rest else x ∷ y ∷ ys

    unfoldable pub sort_keyed : List (RankKey fl.F × A) → List (RankKey fl.F × A)
    unfolding insert_keyed
    sort_keyed [] = []
    sort_keyed (x ∷ xs) = insert_keyed x (sort_keyed xs)

  unfoldable pub pareto_front_records :
      List (TrialRecord fl.F) → ObjectiveCfg fl.F → Option (List (TrialRecord fl.F))
  unfolding prepare frontier with_keys sort_keyed
  pareto_front_records records cfg = do
    prepared ← prepare cfg records
    front ← frontier cfg [] prepared
    keyed ← with_keys cfg front
    some (map (λ item. item.1) (sort_keyed keyed))
