-- ===== src/Objectives/Pareto/Front.antt =====
-- The members of the front of `pareto_front_records` in templates/_shared/objectives.py.
use mathlib.Core.List.{append_assoc}
use looptimum.Prelude.{
  true, false, some, List, [], ◌∷◌, ◌++◌, ◌≡◌, refl, ap, ◌∙◌, subst, ◌⊎◌, inl, inr, All, Among,
  Bool-cases, arith,
}
use looptimum.Prelude.Maybe.{>>=-eq-some, some_injective}
use looptimum.Float.{Float}
use looptimum.Values.{Dict}
use looptimum.Objectives.{ObjectiveCfg, canonical_objective_vector}
use looptimum.Objectives.Pareto.{TrialRecord, Prepared, prepare, dominates, is_dominated, frontier}

module _ {A : Type 0} where
  Among-middle : (o x : A) (xs ys : List A) → Among o (xs ++ x ∷ ys) → (x ≡ o) ⊎ Among o (xs ++ ys)
  Among-middle o x [] ys h = h
  Among-middle o x (y ∷ xs) ys (inl e) = inr (inl e)
  Among-middle o x (y ∷ xs) ys (inr h) = elim (Among-middle o x xs ys h) [
    | inl e ↦ inl e
    | inr rest ↦ inr (inr rest)
  ]

  Among-add : (o x : A) (xs ys : List A) → Among o (xs ++ ys) → Among o (xs ++ x ∷ ys)
  Among-add o x [] ys h = inr h
  Among-add o x (y ∷ xs) ys (inl e) = inl e
  Among-add o x (y ∷ xs) ys (inr h) = inr (Among-add o x xs ys h)

module _ (fl : Float) (cfg : ObjectiveCfg fl.F) where
  pub prepare-from :
      (Q : TrialRecord fl.F → Type 0) (records : List (TrialRecord fl.F))
      {ps : List (Prepared fl.F)}
      → prepare fl cfg records ≡ some ps
      → All Q records
      → All (λ p. Q p.0 × (canonical_objective_vector fl p.0.objectives cfg ≡ some p.1)) ps
  unfolding prepare
  prepare-from Q [] e h = subst (All _) (some_injective _ _ e) tt
  prepare-from Q (r ∷ records) {ps} e h =
      let (v, found, more) = >>=-eq-some (canonical_objective_vector fl r.objectives cfg) _ e in
      let (rest, tail, same) = >>=-eq-some (prepare fl cfg records) _ more in
      subst (All (λ p. Q p.0 × (canonical_objective_vector fl p.0.objectives cfg ≡ some p.1)))
        (some_injective ((r, v) ∷ rest) ps same) ((h.0, found), prepare-from Q records tail h.1)

  pub prepare-covers :
      (r : TrialRecord fl.F) (records : List (TrialRecord fl.F)) {ps : List (Prepared fl.F)}
      → prepare fl cfg records ≡ some ps
      → Among r records
      → (v : Dict fl.F) × Among (r, v) ps
  unfolding prepare
  prepare-covers r [] e h = absurd h
  prepare-covers r (x ∷ records) {ps} e h =
      let (v, found, more) = >>=-eq-some (canonical_objective_vector fl x.objectives cfg) _ e in
      let (rest, tail, same) = >>=-eq-some (prepare fl cfg records) _ more in
      let into : (x, v) ∷ rest ≡ ps = some_injective ((x, v) ∷ rest) ps same in
      elim h [
        | inl here ↦ (v, subst (Among (r, v)) into (inl (ap (λ y. (y, v)) here)))
        | inr there ↦
            let (w, among) = prepare-covers r records tail there in
            (w, subst (Among (r, w)) into (inr among))
      ]

  -- Another of the items dominates this one, by the code.
  abbrev pub Beaten : List (Prepared fl.F) → Prepared fl.F → Type 0
  Beaten all p = (o : Prepared fl.F) × Among o all × (dominates fl o.1 p.1 cfg ≡ some true)

  abbrev pub Unbeaten : List (Prepared fl.F) → Prepared fl.F → Type 0
  Unbeaten all p =
      (o : Prepared fl.F) → Among o all → (dominates fl o.1 p.1 cfg ≡ some false) ⊎ (p ≡ o)

  is_dominated-true :
      (others : List (Prepared fl.F)) (p : Prepared fl.F)
      → is_dominated fl cfg others p.1 ≡ some true
      → Beaten others p
  unfolding is_dominated
  is_dominated-true [] p e = absurd (ground arith)
  is_dominated-true (o ∷ others) p e =
      let (b, found, more) = >>=-eq-some (dominates fl o.1 p.1 cfg) _ e in
      elim (Bool-cases b) [
        | inl beats ↦ (o, inl refl, found ∙ ap some beats)
        | inr no_ ↦
            let (x, among, beats) = is_dominated-true others p (ground arith) in
            (x, inr among, beats)
      ]

  is_dominated-false :
      (others : List (Prepared fl.F)) (p : Prepared fl.F)
      → is_dominated fl cfg others p.1 ≡ some false
      → Unbeaten others p
  unfolding is_dominated
  is_dominated-false [] p e x h = absurd h
  is_dominated-false (o ∷ others) p e x h =
      let (b, found, more) = >>=-eq-some (dominates fl o.1 p.1 cfg) _ e in
      let b_false : b ≡ false = ground arith in
      elim h [
        | inl here ↦
            inl (subst (λ y. dominates fl y.1 p.1 cfg ≡ some false) here (found ∙ ap some b_false))
        | inr there ↦ is_dominated-false others p (ground arith) x there
      ]

  frontier-split :
      (before after : List (Prepared fl.F)) (item : Prepared fl.F) {out : List (Prepared fl.F)}
      → frontier fl cfg before (item ∷ after) ≡ some out
      → (rest : List (Prepared fl.F)) × (frontier fl cfg (before ++ item ∷ []) after ≡ some rest)
        × ((Beaten (before ++ after) item × (out ≡ rest))
            ⊎ (Unbeaten (before ++ after) item × (out ≡ item ∷ rest)))
  unfolding frontier
  frontier-split before after item {out} e =
      let (b, found, more) = >>=-eq-some (is_dominated fl cfg (before ++ after) item.1) _ e in
      let (rest, tail, same) = >>=-eq-some (frontier fl cfg (before ++ item ∷ []) after) _ more in
      (
        rest,
        tail,
        elim (Bool-cases b) [
          | inl beaten ↦
              inl (is_dominated-true (before ++ after) item (found ∙ ap some beaten), ground arith)
          | inr kept ↦
              inr (is_dominated-false (before ++ after) item (found ∙ ap some kept), ground arith)
        ],
      )

  frontier-nil :
      (before : List (Prepared fl.F)) {out : List (Prepared fl.F)}
      → frontier fl cfg before [] ≡ some out
      → [] ≡ out
  unfolding frontier
  frontier-nil before {out} e = some_injective [] out e

  shift :
      (before after : List (Prepared fl.F)) (item : Prepared fl.F)
      → (before ++ item ∷ []) ++ after ≡ before ++ item ∷ after
  shift before after item = append_assoc before (item ∷ []) after

  pub frontier_sound :
      (Q : Prepared fl.F → Type 0) (before after : List (Prepared fl.F))
      {out : List (Prepared fl.F)}
      → frontier fl cfg before after ≡ some out
      → All Q after
      → All (λ p. Q p × Unbeaten (before ++ after) p) out
  frontier_sound Q before [] {out} e h =
      subst (All (λ p. Q p × Unbeaten (before ++ []) p)) (frontier-nil before e) tt
  frontier_sound Q before (item ∷ after) {out} e h =
      let (rest, tail, way) = frontier-split before after item e in
      let later =
        subst (λ all. All (λ p. Q p × Unbeaten all p) rest) (shift before after item)
          (frontier_sound Q (before ++ item ∷ []) after tail h.1) in
      elim way [
        | inl (_, same) ↦ rw same later
        | inr (free, same) ↦ rw same (
          (
            h.0,
            λ o among. elim (Among-middle o item before after among) [
              | inl itself ↦ inr itself
              | inr other ↦ free o other
            ],
          ),
          later,
        )
      ]

  pub frontier_complete :
      (p : Prepared fl.F) (before after : List (Prepared fl.F)) {out : List (Prepared fl.F)}
      → frontier fl cfg before after ≡ some out
      → Among p after
      → Among p out ⊎ Beaten (before ++ after) p
  frontier_complete p before [] e h = absurd h
  frontier_complete p before (item ∷ after) {out} e h =
      let (rest, tail, way) = frontier-split before after item e in
      elim h [
        | inl here ↦
            subst (λ q. Among q out ⊎ Beaten (before ++ item ∷ after) q) here
              (elim way [
                | inl ((o, among, beats), _) ↦ inr (o, Among-add o item before after among, beats)
                | inr (_, same) ↦ inl (rw same (inl refl))
              ])
        | inr there ↦ elim (frontier_complete p (before ++ item ∷ []) after tail there) [
          | inl found ↦
              inl (elim way [ inl (_, same) ↦ rw same found | inr (_, same) ↦ rw same (inr found) ])
          | inr beaten ↦ inr (subst (λ all. Beaten all p) (shift before after item) beaten)
        ]
      ]
