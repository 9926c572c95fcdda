-- ===== src/Trials/Best/Returns.antt =====
-- When `update_best` of templates/bo_client/run_bo.py returns.
use looptimum.Prelude.{
  true, inl, inr, Bool-cases, Option, none, some, List, [], ◌∷◌, ◌≡◌, refl, sym, ◌∙◌, ap, subst,
  All, All-imp, All-Among, Among, if◌then◌else◌,
}
use looptimum.Prelude.Maybe.{◌>>=◌, >>=-eq-some}
use looptimum.Float.{Float}
use looptimum.Values.{Dict}
use looptimum.Objectives.{
  ObjectiveCfg, scalarize_objectives, canonical_objective_vector, best_objective_name,
  has_policy_fields,
}
use looptimum.Objectives.Order.{RankKey, BestRecord, best_rank_key, build_best_record, min_by}
use looptimum.Objectives.Optimal.{min_by-All}
use looptimum.Contract.{is_ok}
use looptimum.Trials.{
  Observation, State, ranked, choose_best, first_of_ranked, best_record, update_best,
}
use looptimum.Trials.Best.{Ranks, with_key, ranked-from}

module _ (fl : Float) (cfg : ObjectiveCfg fl.F) where
  -- The observation is not ok, or has a key.
  abbrev pub CanRank : Observation fl.F → Type 0
  CanRank o =
      is_ok o.status ≡ true
      → (k : RankKey fl.F) × (best_rank_key fl o.objectives cfg o.trial_id ≡ some k)

  ranked_total :
      (os : List (Observation fl.F))
      → All CanRank os
      → (keyed : List (RankKey fl.F × Observation fl.F)) × (ranked fl cfg os ≡ some keyed)
  unfolding ranked
  ranked_total [] h = ([], refl)
  ranked_total (o ∷ os) h =
      let (keyed, e) = ranked_total os h.1 in
      let key = best_rank_key fl o.objectives cfg o.trial_id in
      let rest = ranked fl cfg os in
      elim (Bool-cases (is_ok o.status)) [
        | inl counts ↦
            let (k, found) = h.0 counts in
            (
              (k, o) ∷ keyed,
              subst
                  (λ b.
                    (if b then (key >>= with_key fl cfg o rest) else rest) ≡ some ((k, o) ∷ keyed))
                  (sym counts)
                  (ap (λ x. x >>= with_key fl cfg o rest) found
                    ∙ ap (λ r. r >>= λ others. some ((k, o) ∷ others)) e),
            )
        | inr out ↦ (
          keyed,
          subst (λ b. (if b then (key >>= with_key fl cfg o rest) else rest) ≡ some keyed) (sym out)
              e,
        )
      ]

  best_rank_key-scalar :
      (o : Observation fl.F) {k : RankKey fl.F}
      → best_rank_key fl o.objectives cfg o.trial_id ≡ some k
      → (x : fl.F) × (scalarize_objectives fl o.objectives cfg ≡ some x)
  unfolding best_rank_key
  best_rank_key-scalar o e =
      let (x, found, _) = >>=-eq-some (scalarize_objectives fl o.objectives cfg) _ e in (x, found)

  scalarize_objectives-vector :
      (o : Observation fl.F) {x : fl.F}
      → scalarize_objectives fl o.objectives cfg ≡ some x
      → (v : Dict fl.F) × (canonical_objective_vector fl o.objectives cfg ≡ some v)
  unfolding scalarize_objectives
  scalarize_objectives-vector o e =
      let (v, found, _) = >>=-eq-some (canonical_objective_vector fl o.objectives cfg) _ e in
      (v, found)

  abbrev record_of : Observation fl.F → fl.F → Dict fl.F → fl.F → BestRecord fl.F
  record_of o now vector value = record {
    trial_id = o.trial_id;
    objective_name = best_objective_name cfg;
    objective_value = value;
    updated_at = now;
    policy = if has_policy_fields cfg then some (cfg.scalarization, vector) else none;
  }

  build_best_record_total :
      (o : Observation fl.F) (now : fl.F) {k : RankKey fl.F}
      → Ranks fl cfg o k
      → (b : BestRecord fl.F) × (build_best_record fl o.objectives cfg o.trial_id now ≡ some b)
  unfolding build_best_record
  build_best_record_total o now r =
      let (x, scalar) = best_rank_key-scalar o r.1 in
      let (v, vector) = scalarize_objectives-vector o scalar in
      (
        record_of o now v x,
        ap
              (λ r. r >>= λ vector. scalarize_objectives fl o.objectives cfg >>= λ value.
                some (record_of o now vector value))
              vector
            ∙ ap (λ r. r >>= λ value. some (record_of o now v value)) scalar,
      )

  best_record_total :
      (now : fl.F) (keyed : List (RankKey fl.F × Observation fl.F))
      → All (λ x. Ranks fl cfg x.1 x.0) keyed
      → (b : Option (BestRecord fl.F)) × (best_record fl cfg now (first_of_ranked fl keyed)
          ≡ some b)
  best_record_total now [] h = (none, refl)
  best_record_total now (x ∷ xs) h =
      let chosen = min_by-All fl (λ y. Ranks fl cfg y.1 y.0) x xs h.0 h.1 in
      let (b, e) = build_best_record_total (min_by fl x xs).1 now chosen in
      (some b, ap (λ r. r >>= λ b. some (some b)) e)

  -- If every ok observation has a key, `update_best` returns.
  pub update_best_total :
      (now : fl.F) (s : State fl.F)
      → All CanRank s.observations
      → (t : State fl.F) × (update_best fl cfg now s ≡ some t)
  unfolding update_best choose_best
  update_best_total now s h =
      let (keyed, e) = ranked_total s.observations h in
      let from =
        ranked-from fl cfg (λ o. Among o s.observations) s.observations e
          (All-Among s.observations) in
      let (b, made) =
        best_record_total now keyed
          (All-imp _ (λ x. Ranks fl cfg x.1 x.0) keyed (λ x r. r.1) from) in
      (
        record s { best = b },
        ap
              (λ r. (r >>= λ keyed. some (first_of_ranked fl keyed)) >>= λ chosen.
                best_record fl cfg now chosen >>= λ best. some (record s { best = best }))
              e
            ∙ ap (λ r. r >>= λ best. some (record s { best = best })) made,
      )
