-- ===== src/Trials/Stale.antt =====
-- The trials that _retire_stale_pending of templates/bo_client/run_bo.py moves.
use looptimum.Prelude.{
  ℕ, ◌+◌, ◌≤◌, Bool, not, none, some, String, List, [], ◌∷◌, ◌++◌, map, ◌≡◌, refl, sym, ◌∙◌, ap,
  subst, if◌then◌else◌, length, keep, Bool-cases, inl, inr, arith,
}
use mathlib.Core.List.{append_assoc, append-nil}
use looptimum.Prelude.Maybe.{◌>>=◌}
use looptimum.Float.{Float}
use looptimum.Objectives.{ObjectiveCfg}
use looptimum.Trials.{
  Pending, Observation, State, pending_index, pop_at, pop_pending, add_observation, retire_all,
  is_stale, stale_ids, retire_stale_pending, new_terminal_observation,
}
use looptimum.Trials.Invariant.{hit, count_pending}

module _ {F : Type 0} where
  -- The ids of the trials are different.
  abbrev pub Distinct : List (Pending F) → Type 0
  Distinct ps = (k : ℕ) → count_pending k ps ≤ 1

  count_pending-middle :
      (k : ℕ) (done rest : List (Pending F)) (p : Pending F)
      → count_pending k (done ++ p ∷ rest) ≡ hit p.trial_id k + count_pending k (done ++ rest)
  unfolding count_pending
  count_pending-middle k [] rest p = refl
  count_pending-middle k (d ∷ done) rest p = omega (arith, count_pending-middle k done rest p)

  count_pending-prefix :
      (k : ℕ) (done rest : List (Pending F)) → count_pending k done ≤ count_pending k (done ++ rest)
  unfolding count_pending
  count_pending-prefix k [] rest = omega arith
  count_pending-prefix k (d ∷ done) rest = omega (arith, count_pending-prefix k done rest)

  pending_index-middle :
      (done rest : List (Pending F)) (p : Pending F)
      → count_pending p.trial_id done ≡ 0
      → pending_index (done ++ p ∷ rest) p.trial_id ≡ some (length done)
  unfolding pending_index count_pending
  pending_index-middle [] rest p h = ground arith
  pending_index-middle (d ∷ done) rest p h = ground (arith, pending_index-middle done rest p)

  pop_at-middle :
      (done rest : List (Pending F)) (p : Pending F)
      → pop_at (done ++ p ∷ rest) (length done) ≡ some (p, done ++ rest)
  unfolding pop_at
  pop_at-middle [] rest p = refl
  pop_at-middle (d ∷ done) rest p =
      ap (λ r. r >>= λ q. some (q.0, d ∷ q.1)) (pop_at-middle done rest p)

  -- The state with the other pending trials and observations.
  abbrev moved : State F → List (Pending F) → List (Observation F) → State F
  moved s ps os = record s { pending = ps; observations = os }

  pop_pending-middle :
      (s : State F) (done rest : List (Pending F)) (os : List (Observation F)) (p : Pending F)
      → Distinct (done ++ p ∷ rest)
      → pop_pending (moved s (done ++ p ∷ rest) os) p.trial_id ≡ some (p, moved s (done ++ rest) os)
  unfolding pop_pending
  pop_pending-middle s done rest os p h =
      let absent : count_pending p.trial_id done ≡ 0 = ground (
        arith,
        h p.trial_id,
        count_pending-middle p.trial_id done rest p,
        count_pending-prefix p.trial_id done rest,
      ) in
      ap
        (λ i.
          i >>= λ i. pop_at (done ++ p ∷ rest) i >>= λ popped. some (popped.0, moved s popped.1 os))
        (pending_index-middle done rest p absent)
      ∙ ap (λ r. r >>= λ popped. some (popped.0, moved s popped.1 os)) (pop_at-middle done rest p)

  retire_all-nil :
      (make : ℕ → Pending F → Observation F) (s : State F) → retire_all make [] s ≡ (s, [])
  unfolding retire_all
  retire_all-nil make s = refl

  retire_all-pop :
      (make : ℕ → Pending F → Observation F) (id : ℕ) (ids : List ℕ) (s : State F) {p : Pending F}
      {t : State F}
      → pop_pending s id ≡ some (p, t)
      → retire_all make (id ∷ ids) s ≡ (
          let (after, retired) = retire_all make ids (add_observation (make id p) t) in
          (after, make id p ∷ retired))
  unfolding retire_all
  retire_all-pop make id ids s {p} {t} e =
      ap
        (λ r. elim r as (λ _. State F × List (Observation F)) [
          | none ↦ retire_all make ids s
          | some (q, popped) ↦
              let o = make id q in
              let (after, retired) = retire_all make ids (add_observation o popped) in
              (after, o ∷ retired)
        ])
        e

  module _ (f : Pending F → Bool) (make : ℕ → Pending F → Observation F) where
    abbrev made : List (Pending F) → List (Observation F)
    made ps = map (λ p. make p.trial_id p) (keep f ps)

    -- What is left of the pending trials, and the observations made of the others.
    abbrev settled :
        State F
        → List (Pending F)
        → List (Pending F)
        → List (Observation F)
        → State F × List (Observation F)
    settled s done rest os =
        (moved s (done ++ keep (λ p. not (f p)) rest) (os ++ made rest), made rest)

    retire_all-settled :
        (s : State F) (done rest : List (Pending F)) (os : List (Observation F))
        → Distinct (done ++ rest)
        → retire_all make (map (λ p. p.trial_id) (keep f rest)) (moved s (done ++ rest) os)
          ≡ settled s done rest os
    retire_all-settled s done [] os h =
        retire_all-nil make (moved s (done ++ []) os)
        ∙ ap (λ l. (moved s (done ++ []) l, [])) (sym (append-nil os))
    retire_all-settled s done (p ∷ rest) os h =
        let o = make p.trial_id p in
        let ids = map (λ p. p.trial_id) (keep f rest) in
        let fewer : Distinct (done ++ rest) =
          λ k. omega (arith, h k, count_pending-middle k done rest p) in
        let along : Distinct ((done ++ p ∷ []) ++ rest) =
          subst Distinct (sym (append_assoc done (p ∷ []) rest)) h in
        elim (Bool-cases (f p)) [
          | inl e ↦ subst Goal (sym e) (
              retire_all-pop make p.trial_id ids (moved s (done ++ p ∷ rest) os)
                (pop_pending-middle s done rest os p h)
              ∙ ap (λ r. (r.0, o ∷ r.1)) (retire_all-settled s done rest (os ++ o ∷ []) fewer)
              ∙ ap (λ l. (moved s (done ++ keep (λ p. not (f p)) rest) l, o ∷ made rest))
                  (append_assoc os (o ∷ []) (made rest)))
          | inr e ↦ subst Goal (sym e) (
              ap (λ l. retire_all make ids (moved s l os)) (sym (append_assoc done (p ∷ []) rest))
              ∙ retire_all-settled s (done ++ p ∷ []) rest os along
              ∙ ap (λ l. (moved s l (os ++ made rest), made rest))
                  (append_assoc done (p ∷ []) (keep (λ p. not (f p)) rest)))
        ]
      where
        Goal : Bool → Type 0
        Goal b =
            retire_all make (map (λ p. p.trial_id) (if b then p ∷ keep f rest else keep f rest))
              (moved s (done ++ p ∷ rest) os)
            ≡ (
              moved s
                  (done
                    ++ (if not b
                        then p ∷ keep (λ p. not (f p)) rest
                        else keep (λ p. not (f p)) rest))
                  (os ++ map (λ p. make p.trial_id p) (if b then p ∷ keep f rest else keep f rest)),
              map (λ p. make p.trial_id p) (if b then p ∷ keep f rest else keep f rest),
            )

module _ (fl : Float) where
  -- Where the ids of the pending trials are different, the automatic retirement takes the stale
  -- ones out of the pending trials and keeps the others in their order; for each stale one, in
  -- their order too, it adds a killed observation behind the others, and returns it.
  pub retire_stale_pending_lem :
      (cfg : ObjectiveCfg fl.F) (max_age now : fl.F) (reason : String) (s : State fl.F)
      → Distinct s.pending
      → (let stale = keep (is_stale fl max_age now) s.pending in
          let fresh = keep (λ p. not (is_stale fl max_age now p)) s.pending in
          let retired = map (new_terminal_observation cfg reason now) stale in
          retire_stale_pending fl cfg max_age now reason s
          ≡ (record s { pending = fresh; observations = s.observations ++ retired }, retired))
  unfolding retire_stale_pending stale_ids
  retire_stale_pending_lem cfg max_age now reason s h =
      retire_all-settled (is_stale fl max_age now) (λ _. new_terminal_observation cfg reason now) s
        [] s.pending s.observations h
