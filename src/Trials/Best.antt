-- ===== src/Trials/Best.antt =====
-- What `update_best` of templates/bo_client/run_bo.py chooses.
pub mod Returns
use looptimum.Prelude.{
  true, false, ◌⊎◌, inl, inr, Option, none, some, List, [], ◌∷◌, ◌≡◌, refl, sym, ◌∙◌, subst,
  Bool-cases, if◌then◌else◌, All, All-imp, All-Among, Among, arith,
}
use looptimum.Prelude.Maybe.{◌>>=◌, >>=-eq-some, some_injective}
use looptimum.Float.{Float, IsOrdered}
use looptimum.Objectives.{ObjectiveCfg, scalarize_objectives, canonical_objective_vector}
use looptimum.Objectives.Order.{
  RankKey, BestRecord, best_rank_key, build_best_record, key_lt, min_by,
}
use looptimum.Objectives.Optimal.{IsNumberKey, HasNumberKey, min_by-IsLeast, min_by-All}
use looptimum.Contract.{is_ok}
use looptimum.Trials.{
  Observation, State, ranked, choose_best, first_of_ranked, best_record, update_best,
}

module _ (fl : Float) (cfg : ObjectiveCfg fl.F) where
  -- The observation counts, and has the key.
  abbrev pub Ranks : Observation fl.F → RankKey fl.F → Type 0
  Ranks o k = (is_ok o.status ≡ true) × (best_rank_key fl o.objectives cfg o.trial_id ≡ some k)

  -- The keys of the observation, if there are any, hold no nan.
  abbrev pub HasNumbers : Observation fl.F → Type 0
  HasNumbers o = (k : RankKey fl.F) → Ranks o k → IsNumberKey fl k

  -- An ok observation of the list that no ok one of the list is ranked before.
  pub record IsBest (o : Observation fl.F) (os : List (Observation fl.F)) : Type 0 where
    pub key : RankKey fl.F
    pub among : Among o os
    pub ranks : Ranks o key
    pub least : All (λ p. (k : RankKey fl.F) → Ranks p k → key_lt fl k key ≡ false) os

  module _ (P : RankKey fl.F × Observation fl.F → Type 0) where
    -- What every ranked observation has beside its key.
    abbrev Covered : Observation fl.F → Type 0
    Covered o = (k : RankKey fl.F) → Ranks o k → P (k, o)

  ranked-nil :
      {keyed : List (RankKey fl.F × Observation fl.F)} → ranked fl cfg [] ≡ some keyed → [] ≡ keyed
  unfolding ranked
  ranked-nil {keyed} e = some_injective [] keyed e

  abbrev pub with_key :
      Observation fl.F
      → Option (List (RankKey fl.F × Observation fl.F))
      → RankKey fl.F
      → Option (List (RankKey fl.F × Observation fl.F))
  with_key o rest k = rest >>= λ others. some ((k, o) ∷ others)

  ranked-split :
      (o : Observation fl.F) (os : List (Observation fl.F))
      {keyed : List (RankKey fl.F × Observation fl.F)}
      → ranked fl cfg (o ∷ os) ≡ some keyed
      → ((is_ok o.status ≡ false) × (ranked fl cfg os ≡ some keyed))
        ⊎ ((k : RankKey fl.F) × (others : List (RankKey fl.F × Observation fl.F)) × Ranks o k
            × (ranked fl cfg os ≡ some others)
            × (keyed ≡ (k, o) ∷ others))
  unfolding ranked
  ranked-split o os {keyed} e =
      let key = best_rank_key fl o.objectives cfg o.trial_id in
      let rest = ranked fl cfg os in
      elim (Bool-cases (is_ok o.status)) [
        | inl counts ↦
            let taken =
              subst (λ b. (if b then (key >>= with_key o rest) else rest) ≡ some keyed) counts e in
            let (k, found, more) = >>=-eq-some key (with_key o rest) taken in
            let (others, tail, same) = >>=-eq-some rest (λ others. some ((k, o) ∷ others)) more in
            inr
              (k, others, (counts, found), tail, sym (some_injective ((k, o) ∷ others) keyed same))
        | inr out ↦
            inl
              (out, subst (λ b. (if b then (key >>= with_key o rest) else rest) ≡ some keyed) out e)
      ]

  -- Each ranked item is an observation of the list with its key.
  pub ranked-from :
      (Q : Observation fl.F → Type 0) (os : List (Observation fl.F))
      {keyed : List (RankKey fl.F × Observation fl.F)}
      → ranked fl cfg os ≡ some keyed
      → All Q os
      → All (λ x. Q x.1 × Ranks x.1 x.0) keyed
  ranked-from Q [] {keyed} e h = subst (All (λ x. Q x.1 × Ranks x.1 x.0)) (ranked-nil e) tt
  ranked-from Q (o ∷ os) {keyed} e h = elim (ranked-split o os e) [
    | inl (_, tail) ↦ ranked-from Q os tail h.1
    | inr (k, others, good, tail, same) ↦
        subst (All (λ x. Q x.1 × Ranks x.1 x.0)) (sym same) ((h.0, good), ranked-from Q os tail h.1)
  ]

  -- What holds of all ranked items holds of each observation that counts, with its key.
  ranked-covers :
      (P : RankKey fl.F × Observation fl.F → Type 0) (os : List (Observation fl.F))
      {keyed : List (RankKey fl.F × Observation fl.F)}
      → ranked fl cfg os ≡ some keyed
      → All P keyed
      → All (Covered P) os
  ranked-covers P [] e h = tt
  ranked-covers P (o ∷ os) {keyed} e h = elim (ranked-split o os e) [
    | inl (out, tail) ↦ (λ k r. let (counts, _) = r in cc, ranked-covers P os tail h)
    | inr (k, others, good, tail, same) ↦
        let (first, rest) : All P ((k, o) ∷ others) = subst (All P) same h in
        (
          λ j r. subst (λ i. P (i, o)) (some_injective k j (sym good.1 ∙ r.1)) first,
          ranked-covers P os tail rest,
        )
  ]

  pub first-IsBest :
      IsOrdered fl
      → (os : List (Observation fl.F)) (keyed : List (RankKey fl.F × Observation fl.F))
        {m : RankKey fl.F × Observation fl.F}
      → All HasNumbers os
      → ranked fl cfg os ≡ some keyed
      → first_of_ranked fl keyed ≡ some m
      → IsBest m.1 os
  first-IsBest ordered os [] {m} numbers e f = cc
  first-IsBest ordered os (x ∷ xs) {m} numbers e f =
      let same : min_by fl x xs ≡ m = some_injective (min_by fl x xs) m f in
      let from = ranked-from (λ o. Among o os) os e (All-Among os) in
      let keys =
        All-imp _ (HasNumberKey fl ordered) (x ∷ xs) (λ y h. h.0 y.0 h.1)
          (ranked-from HasNumbers os e numbers) in
      let chosen = min_by-All fl (λ y. Among y.1 os × Ranks y.1 y.0) x xs from.0 from.1 in
      let least = min_by-IsLeast fl ordered x xs keys.0 keys.1 in
      subst (λ y. IsBest y.1 os) same
        (record {
          key = (min_by fl x xs).0;
          among = chosen.0;
          ranks = chosen.1;
          least = ranked-covers (λ y. key_lt fl y.0 (min_by fl x xs).0 ≡ false) os e least;
        })

  -- The first minimum of the ranked items is a best observation.
  chosen-IsBest :
      IsOrdered fl
      → (os : List (Observation fl.F)) {m : RankKey fl.F × Observation fl.F} → All HasNumbers os
      → choose_best fl cfg os ≡ some (some m)
      → IsBest m.1 os
  unfolding choose_best
  chosen-IsBest ordered os {m} numbers e =
      let (keyed, ranks, chosen) =
        >>=-eq-some (ranked fl cfg os) (λ keyed. some (first_of_ranked fl keyed)) e in
      first-IsBest ordered os keyed numbers ranks
        (some_injective (first_of_ranked fl keyed) (some m) chosen)

  pub ranked-none :
      (os : List (Observation fl.F))
      → ranked fl cfg os ≡ some []
      → All (λ o. is_ok o.status ≡ false) os
  ranked-none [] e = tt
  ranked-none (o ∷ os) e = elim (ranked-split o os e) [
    | inl (out, tail) ↦ (out, ranked-none os tail)
    | inr (k, others, good, tail, same) ↦ ground arith
  ]

  chosen_none :
      (os : List (Observation fl.F))
      → choose_best fl cfg os ≡ some none
      → All (λ o. is_ok o.status ≡ false) os
  unfolding choose_best
  chosen_none os e =
      let (keyed, ranks, chosen) =
        >>=-eq-some (ranked fl cfg os) (λ keyed. some (first_of_ranked fl keyed)) e in
      empty os keyed ranks (some_injective (first_of_ranked fl keyed) none chosen)
    where
      empty :
          (os : List (Observation fl.F)) (keyed : List (RankKey fl.F × Observation fl.F))
          → ranked fl cfg os ≡ some keyed
          → first_of_ranked fl keyed ≡ none
          → All (λ o. is_ok o.status ≡ false) os
      empty os [] ranks f = ranked-none os ranks
      empty os (x ∷ xs) ranks f = ground arith

  -- What is recorded as the best: nothing, if no observation is ok, and else a best observation
  -- with its scalarized value.
  pub record Recorded (os : List (Observation fl.F)) (b : BestRecord fl.F) : Type 0 where
    pub observation : Observation fl.F
    pub is_best : IsBest observation os
    pub trial_id : b.trial_id ≡ observation.trial_id
    pub value : scalarize_objectives fl observation.objectives cfg ≡ some b.objective_value

  build-Recorded :
      (os : List (Observation fl.F)) (o : Observation fl.F) (now : fl.F) {b : BestRecord fl.F}
      → IsBest o os
      → build_best_record fl o.objectives cfg o.trial_id now ≡ some b
      → Recorded os b
  unfolding build_best_record
  build-Recorded os o now {b} best e =
      let (vector, _, rest) = >>=-eq-some (canonical_objective_vector fl o.objectives cfg) _ e in
      let (value, found, same) = >>=-eq-some (scalarize_objectives fl o.objectives cfg) _ rest in
      subst (Recorded os) (some_injective _ b same)
        (record { observation = o; is_best = best; trial_id = refl; value = found })

  -- Where no key of an ok observation holds a nan: if `update_best` returns, either no observation
  -- is ok and the state has no best, or the best is an ok observation that no ok one is ranked
  -- before, recorded with its id and its scalarized value; nothing else of the trials changes.
  pub update_best-IsBest :
      IsOrdered fl
      → (now : fl.F) (s : State fl.F) {t : State fl.F} → All HasNumbers s.observations
      → update_best fl cfg now s ≡ some t
      → (t.observations ≡ s.observations)
        × (t.pending ≡ s.pending)
        × (((t.best ≡ none) × All (λ o. is_ok o.status ≡ false) s.observations)
            ⊎ ((b : BestRecord fl.F) × (t.best ≡ some b) × Recorded s.observations b))
  unfolding update_best
  update_best-IsBest ordered now s {t} numbers e =
      let (chosen, choice, rest) = >>=-eq-some (choose_best fl cfg s.observations) _ e in
      let (best, made, same) =
        >>=-eq-some (best_record fl cfg now chosen) (λ best. some (record s { best = best }))
          rest in
      subst
        (λ t.
          (t.observations ≡ s.observations)
          × (t.pending ≡ s.pending)
          × (((t.best ≡ none) × All (λ o. is_ok o.status ≡ false) s.observations)
              ⊎ ((b : BestRecord fl.F) × (t.best ≡ some b) × Recorded s.observations b)))
        (some_injective (record s { best = best }) t same)
        (refl, refl, outcome ordered now s numbers chosen best choice made)
    where
      outcome :
          IsOrdered fl
          → (now : fl.F) (s : State fl.F) → All HasNumbers s.observations
          → (chosen : Option (RankKey fl.F × Observation fl.F)) (best : Option (BestRecord fl.F))
          → choose_best fl cfg s.observations ≡ some chosen
          → best_record fl cfg now chosen ≡ some best
          → ((best ≡ none) × All (λ o. is_ok o.status ≡ false) s.observations)
            ⊎ ((b : BestRecord fl.F) × (best ≡ some b) × Recorded s.observations b)
      outcome ordered now s numbers none best choice made =
          inl (sym (some_injective none best made), chosen_none s.observations choice)
      outcome ordered now s numbers (some (k, o)) best choice made =
          let (b, built, same) =
            >>=-eq-some (build_best_record fl o.objectives cfg o.trial_id now) (λ b. some (some b))
              made in
          inr (
            b,
            sym (some_injective (some b) best same),
            build-Recorded s.observations o now
                (chosen-IsBest ordered s.observations numbers choice) built,
          )
