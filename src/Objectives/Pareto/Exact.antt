-- ===== src/Objectives/Pareto/Exact.antt =====
-- What `pareto_front_records` of templates/_shared/objectives.py returns.
use looptimum.Prelude.{
  Bool, true, false, some, List, [], ◌∷◌, ◌≡◌, refl, sym, ap, ◌∙◌, subst, ◌⊎◌, ◌↔◌, inl, inr, map,
  All, All-imp, All-Among, Among, arith,
}
use looptimum.Prelude.Maybe.{>>=-eq-some, some_injective}
use looptimum.Float.{Float, IsOrdered}
use looptimum.Values.{Dict}
use looptimum.Objectives.{
  ObjectiveCfg, objective_names, canonical_objective_vector, scalarize_objectives,
  lexicographic_key,
}
use looptimum.Objectives.Order.{RankKey, best_rank_key, key_lt}
use looptimum.Objectives.Optimal.{IsNumberKey}
use looptimum.Objectives.Pareto.{
  TrialRecord, Prepared, as_values, prepare, dominates, frontier, with_keys, sort_keyed,
  pareto_front_records,
}
use looptimum.Objectives.Pareto.Vectors.{AllDiffer, canonical_objective_vector-again}
use looptimum.Objectives.Pareto.Dominance.{Dominates, dominates_iff, Dominates-irrefl}
use looptimum.Objectives.Pareto.Front.{
  Beaten, Unbeaten, prepare-from, prepare-covers, frontier_sound, frontier_complete,
}
use looptimum.Objectives.Pareto.Sorted.{
  InKeyOrder, NotBefore, sort_keyed-All, sort_keyed-Among, sort_keyed-InKeyOrder,
}

module _ (fl : Float) (cfg : ObjectiveCfg fl.F) where
  abbrev pub Ranks : TrialRecord fl.F → RankKey fl.F → Type 0
  Ranks r k = best_rank_key fl r.objectives cfg r.trial_id ≡ some k

  -- Both records have objective vectors, and the first dominates the second.
  pub record Outdoes (s r : TrialRecord fl.F) : Type 0 where
    pub left : Dict fl.F
    pub right : Dict fl.F
    pub at_left : canonical_objective_vector fl s.objectives cfg ≡ some left
    pub at_right : canonical_objective_vector fl r.objectives cfg ≡ some right
    pub dominates_it : Dominates fl cfg left right

  -- Each record of the list is not ranked behind a later one.
  abbrev pub InRankOrder : List (TrialRecord fl.F) → Type 0
  InRankOrder [] = Unit
  InRankOrder (r ∷ rs) =
      All (λ s. (j k : RankKey fl.F) → Ranks r j → Ranks s k → key_lt fl k j ≡ false) rs
      × InRankOrder rs

  pub record IsFront (records front : List (TrialRecord fl.F)) : Type 0 where
    -- A member is one of the records, and none of them dominates it.
    pub sound :
        All
          (λ r. Among r records × ((s : TrialRecord fl.F) → Among s records → ¬ Outdoes s r))
          front
    -- A record that is no member is dominated by one of the records.
    pub complete :
        (r : TrialRecord fl.F)
        → Among r records
        → Among r front ⊎ ((s : TrialRecord fl.F) × Among s records × Outdoes s r)
    pub order : InRankOrder front

  with_keys-from :
      (Q : Prepared fl.F → Type 0) (ps : List (Prepared fl.F))
      {keyed : List (RankKey fl.F × TrialRecord fl.F)}
      → with_keys fl cfg ps ≡ some keyed
      → All Q ps
      → All
          (λ x.
            (v : Dict fl.F) × Q (x.1, v)
            × (best_rank_key fl (as_values v) cfg x.1.trial_id ≡ some x.0))
          keyed
  unfolding with_keys
  with_keys-from Q [] e h = subst (All _) (some_injective _ _ e) tt
  with_keys-from Q (p ∷ ps) {keyed} e h =
      let (k, found, more) = >>=-eq-some (best_rank_key fl (as_values p.1) cfg p.0.trial_id) _ e in
      let (rest, tail, same) = >>=-eq-some (with_keys fl cfg ps) _ more in
      subst
        (All (λ x.
          (v : Dict fl.F) × Q (x.1, v)
          × (best_rank_key fl (as_values v) cfg x.1.trial_id ≡ some x.0)))
        (some_injective ((k, p.0) ∷ rest) keyed same)
        ((p.1, h.0, found), with_keys-from Q ps tail h.1)

  with_keys-covers :
      (r : TrialRecord fl.F) (v : Dict fl.F) (ps : List (Prepared fl.F))
      {keyed : List (RankKey fl.F × TrialRecord fl.F)}
      → with_keys fl cfg ps ≡ some keyed
      → Among (r, v) ps
      → (k : RankKey fl.F) × Among (k, r) keyed
  unfolding with_keys
  with_keys-covers r v [] e h = absurd h
  with_keys-covers r v (p ∷ ps) {keyed} e h =
      let (k, found, more) = >>=-eq-some (best_rank_key fl (as_values p.1) cfg p.0.trial_id) _ e in
      let (rest, tail, same) = >>=-eq-some (with_keys fl cfg ps) _ more in
      let into : (k, p.0) ∷ rest ≡ keyed = some_injective ((k, p.0) ∷ rest) keyed same in
      elim h [
        | inl here ↦ (k, subst (Among (k, r)) into (inl (ap (λ q. (k, q.0)) here)))
        | inr there ↦
            let (j, among) = with_keys-covers r v ps tail there in
            (j, subst (Among (j, r)) into (inr among))
      ]

  best_rank_key-again :
      (r : TrialRecord fl.F) (v : Dict fl.F)
      → AllDiffer (objective_names cfg)
      → canonical_objective_vector fl r.objectives cfg ≡ some v
      → best_rank_key fl (as_values v) cfg r.trial_id ≡ best_rank_key fl r.objectives cfg r.trial_id
  unfolding best_rank_key scalarize_objectives lexicographic_key
  best_rank_key-again r v differ e =
      rw (e, canonical_objective_vector-again fl cfg differ r.objectives e)

  abbrev Canonical : Prepared fl.F → Type 0
  Canonical p = canonical_objective_vector fl p.0.objectives cfg ≡ some p.1

  module _ (ordered : IsOrdered fl) (differ : AllDiffer (objective_names cfg))
      (s : TrialRecord fl.F) (u : Dict fl.F) (r : TrialRecord fl.F) (v : Dict fl.F)
      (cs : Canonical (s, u)) (cr : Canonical (r, v)) where
    Dominates-Outdoes : Dominates fl cfg u v → Outdoes s r
    Dominates-Outdoes d = record {
      left = u;
      right = v;
      at_left = cs;
      at_right = cr;
      dominates_it = d;
    }

    Outdoes-Dominates : Outdoes s r → Dominates fl cfg u v
    Outdoes-Dominates h =
        subst (λ y. Dominates fl cfg y v) (some_injective h.left u (sym h.at_left ∙ cs))
          (subst (Dominates fl cfg h.left) (some_injective h.right v (sym h.at_right ∙ cr))
            h.dominates_it)

    beats : {b : Bool} → dominates fl u v cfg ≡ some b → (b ≡ true) ↔ Dominates fl cfg u v
    beats {b} e =
        dominates_iff fl ordered cfg differ u v {b = b}
          (canonical_objective_vector-again fl cfg differ s.objectives cs)
          (canonical_objective_vector-again fl cfg differ r.objectives cr) e

    Outdoes-of_true : dominates fl u v cfg ≡ some true → Outdoes s r
    Outdoes-of_true e = Dominates-Outdoes ((beats {b = true} e).0 refl)

    not-Outdoes :
        (dominates fl u v cfg ≡ some false) ⊎ (◌≡◌ {A = Prepared fl.F} (r, v) (s, u))
        → ¬ Outdoes s r
    not-Outdoes (inl e) h =
        let got : false ≡ true = (beats {b = false} e).1 (Outdoes-Dominates h) in
        absurd (ground arith)
    not-Outdoes (inr e) h =
        Dominates-irrefl fl ordered cfg differ u
          (canonical_objective_vector-again fl cfg differ s.objectives cs)
          (subst (Dominates fl cfg u) (ap (λ q. q.1) e) (Outdoes-Dominates h))

  All-at : {A : Type 0} (P : A → Type 0) (xs : List A) (a : A) → All P xs → Among a xs → P a
  All-at P [] a h among = absurd among
  All-at P (x ∷ xs) a h (inl e) = subst P e h.0
  All-at P (x ∷ xs) a h (inr among) = All-at P xs a h.1 among

  All-map :
      {A B : Type 0} (f : A → B) (P : B → Type 0) (xs : List A)
      → All (λ x. P (f x)) xs
      → All P (map f xs)
  All-map f P [] h = tt
  All-map f P (x ∷ xs) h = (h.0, All-map f P xs h.1)

  Among-map : {A B : Type 0} (f : A → B) (a : A) (xs : List A) → Among a xs → Among (f a) (map f xs)
  Among-map f a (x ∷ xs) (inl e) = inl (ap f e)
  Among-map f a (x ∷ xs) (inr h) = inr (Among-map f a xs h)
  Among-map f a [] h = absurd h

  map-InRankOrder :
      (keyed : List (RankKey fl.F × TrialRecord fl.F))
      → All (λ x. Ranks x.1 x.0) keyed
      → InKeyOrder fl keyed
      → InRankOrder (map (λ x. x.1) keyed)
  map-InRankOrder [] ranks h = tt
  map-InRankOrder (x ∷ keyed) ranks h =
      (All-map (λ y. y.1) _ keyed (later keyed ranks.1 h.0), map-InRankOrder keyed ranks.1 h.1)
    where
      later :
          (ys : List (RankKey fl.F × TrialRecord fl.F))
          → All (λ y. Ranks y.1 y.0) ys
          → All (NotBefore fl x) ys
          → All (λ y. (j k : RankKey fl.F) → Ranks x.1 j → Ranks y.1 k → key_lt fl k j ≡ false) ys
      later [] r n = tt
      later (y ∷ ys) r n = (
        λ j k hj hk.
            rw (some_injective j x.0 (sym hj ∙ ranks.0), some_injective k y.0 (sym hk ∙ r.0)) n.0,
        later ys r.1 n.1,
      )

  module _ (ordered : IsOrdered fl) (differ : AllDiffer (objective_names cfg))
      (records : List (TrialRecord fl.F)) {ps : List (Prepared fl.F)}
      (prepared : prepare fl cfg records ≡ some ps) where
    abbrev Given : Prepared fl.F → Type 0
    Given p = Among p.0 records × Canonical p

    all_Given : All Given ps
    all_Given = prepare-from fl cfg (λ r. Among r records) records prepared (All-Among records)

    -- Each record with its vector stands among the prepared ones.
    record Found (r : TrialRecord fl.F) : Type 0 where
      vector : Dict fl.F
      among : Among (r, vector) ps
      canonical : Canonical (r, vector)

    find : (r : TrialRecord fl.F) → Among r records → Found r
    find r among =
        let (v, at) = prepare-covers fl cfg r records prepared among in
        record { vector = v; among = at; canonical = (All-at Given ps (r, v) all_Given at).1 }

    Unbeaten-sound :
        (p : Prepared fl.F)
        → Given p
        → Unbeaten fl cfg ps p
        → (s : TrialRecord fl.F) → Among s records
        → ¬ Outdoes s p.0
    Unbeaten-sound p given free s among =
        let f = find s among in
        not-Outdoes ordered differ s f.vector p.0 p.1 f.canonical given.1
          (free (s, f.vector) f.among)

    Beaten-Outdoes :
        (p : Prepared fl.F)
        → Canonical p
        → Beaten fl cfg ps p
        → (s : TrialRecord fl.F) × Among s records × Outdoes s p.0
    Beaten-Outdoes p canonical (o, among, beats_it) =
        let given = All-at Given ps o all_Given among in
        (o.0, given.0, Outdoes-of_true ordered differ o.0 o.1 p.0 p.1 given.1 canonical beats_it)

    module _ (numbers : All (λ r. (k : RankKey fl.F) → Ranks r k → IsNumberKey fl k) records)
        {fr : List (Prepared fl.F)} {keyed : List (RankKey fl.F × TrialRecord fl.F)}
        (found : frontier fl cfg [] ps ≡ some fr) (named : with_keys fl cfg fr ≡ some keyed) where
      abbrev Kept : RankKey fl.F × TrialRecord fl.F → Type 0
      Kept x =
          (v : Dict fl.F) × (Given (x.1, v) × Unbeaten fl cfg ps (x.1, v))
          × (best_rank_key fl (as_values v) cfg x.1.trial_id ≡ some x.0)

      all_Kept : All Kept keyed
      all_Kept =
          with_keys-from (λ p. Given p × Unbeaten fl cfg ps p) fr named
            (frontier_sound fl cfg Given [] ps found all_Given)

      Kept-Ranks : (x : RankKey fl.F × TrialRecord fl.F) → Kept x → Ranks x.1 x.0
      Kept-Ranks x (v, kept, key) = sym (best_rank_key-again x.1 v differ kept.0.1) ∙ key

      Kept-numbers : (x : RankKey fl.F × TrialRecord fl.F) → Kept x → IsNumberKey fl x.0
      Kept-numbers x (v, kept, key) =
          All-at (λ r. (k : RankKey fl.F) → Ranks r k → IsNumberKey fl k) records x.1 numbers
            kept.0.0 x.0 (Kept-Ranks x (v, kept, key))

      Kept-sound :
          (x : RankKey fl.F × TrialRecord fl.F)
          → Kept x
          → Among x.1 records × ((s : TrialRecord fl.F) → Among s records → ¬ Outdoes s x.1)
      Kept-sound x (v, kept, key) =
          (kept.0.0, λ s among. Unbeaten-sound (x.1, v) kept.0 kept.1 s among)

      front_complete :
          (r : TrialRecord fl.F)
          → Among r records
          → Among r (map (λ x. x.1) (sort_keyed fl keyed))
            ⊎ ((s : TrialRecord fl.F) × Among s records × Outdoes s r)
      front_complete r among =
          let f = find r among in
          elim (frontier_complete fl cfg (r, f.vector) [] ps found f.among) [
            | inl member ↦
                let (k, at) = with_keys-covers r f.vector fr named member in
                inl (
                  Among-map (λ x. x.1) (k, r) (sort_keyed fl keyed)
                    (sort_keyed-Among fl (k, r) keyed at))
            | inr beaten ↦ inr (Beaten-Outdoes (r, f.vector) f.canonical beaten)
          ]

      IsFront-of : IsFront records (map (λ x. x.1) (sort_keyed fl keyed))
      IsFront-of = record {
        sound =
            All-map (λ x. x.1) _ (sort_keyed fl keyed)
              (All-imp Kept _ (sort_keyed fl keyed) Kept-sound
                (sort_keyed-All fl Kept keyed all_Kept));
        complete = front_complete;
        order =
            map-InRankOrder (sort_keyed fl keyed)
              (All-imp Kept _ (sort_keyed fl keyed) Kept-Ranks
                (sort_keyed-All fl Kept keyed all_Kept))
              (sort_keyed-InKeyOrder fl ordered keyed (All-imp Kept _ keyed Kept-numbers all_Kept));
      }

  -- If `pareto_front_records` returns, each record that it returns is one of the given ones, and no
  -- given one dominates it; each given record is returned or dominated by a given one; and no
  -- record is ranked before an earlier one. The configured names are different, and no key of a
  -- record holds a nan.
  pub pareto_front_records-IsFront :
      IsOrdered fl
      → AllDiffer (objective_names cfg)
      → (records : List (TrialRecord fl.F)) {front : List (TrialRecord fl.F)}
      → All (λ r. (k : RankKey fl.F) → Ranks r k → IsNumberKey fl k) records
      → pareto_front_records fl records cfg ≡ some front
      → IsFront records front
  unfolding pareto_front_records
  pareto_front_records-IsFront ordered differ records {front} numbers e =
      let (ps, prepared, e2) = >>=-eq-some (prepare fl cfg records) _ e in
      let (fr, found, e3) = >>=-eq-some (frontier fl cfg [] ps) _ e2 in
      let (keyed, named, e4) = >>=-eq-some (with_keys fl cfg fr) _ e3 in
      let into : map (λ x. x.1) (sort_keyed fl keyed) ≡ front = some_injective _ front e4 in
      subst (IsFront records) into (IsFront-of ordered differ records prepared numbers found named)
