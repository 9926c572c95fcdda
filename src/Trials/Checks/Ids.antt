-- ===== src/Trials/Checks/Ids.antt =====
-- The ids in the hard checks of templates/bo_client/run_bo.py.
use looptimum.Prelude.{
  ℕ, ◌+◌, ◌≤◌, ◌<◌, true, false, some, List, [], ◌∷◌, ◌++◌, ◌≡◌, refl, sym, subst, ◌↔◌, ◌⊎◌, inl,
  inr, map, length, ltb, leb, any_of, Bool-cases, arith,
}
use looptimum.Trials.{Pending, Observation, State}
use looptimum.Trials.Invariant.{hit, count_observed, count_pending}
use looptimum.Trials.Invariant.Files.{file_occurs}
use looptimum.Trials.Invariant.Unique.{IsWellFormed}
use looptimum.Trials.Checks.{
  is_member, set_of, highest, has_duplicates, observation_ids, pending_ids,
}

-- How often the id stands in the list.
abbrev pub count : ℕ → List ℕ → ℕ
count k [] = 0
count k (id ∷ ids) = hit id k + count k ids

is_member-count : (k : ℕ) (ids : List ℕ) → (is_member k ids ≡ false) ↔ (count k ids ≡ 0)
is_member-count k [] = (λ _. refl, λ _. refl)
is_member-count k (id ∷ ids) =
    let (there, back) = is_member-count k ids in (λ h. ground arith, λ h. ground arith)

length-set_of : (ids : List ℕ) → length (set_of ids) ≤ length ids
unfolding set_of
length-set_of [] = omega arith
length-set_of (id ∷ ids) = ground (arith, length-set_of ids)

unique_of_set : (ids : List ℕ) → length ids ≡ length (set_of ids) → (k : ℕ) → count k ids ≤ 1
unfolding set_of
unique_of_set [] h k = omega arith
unique_of_set (id ∷ ids) h k = elim (Bool-cases (is_member id ids)) [
  | inl twice ↦ absurd (ground (arith, length-set_of ids))
  | inr once ↦ ground (arith, unique_of_set ids (ground arith) k, (is_member-count id ids).0 once)
]

set_of_unique : (ids : List ℕ) → ((k : ℕ) → count k ids ≤ 1) → length ids ≡ length (set_of ids)
unfolding set_of
set_of_unique [] h = refl
set_of_unique (id ∷ ids) h =
    ground (arith, h id, (is_member-count id ids).1, set_of_unique ids (λ k. ground (arith, h k)))

pub has_duplicates_iff : (ids : List ℕ) → (has_duplicates ids ≡ false) ↔ ((k : ℕ) → count k ids ≤ 1)
unfolding has_duplicates
has_duplicates_iff ids =
    (λ h. unique_of_set ids (ground arith), λ h. ground (arith, set_of_unique ids h))

count-highest : (k : ℕ) (ids : List ℕ) → highest ids < k → count k ids ≡ 0
unfolding highest
count-highest k [] h = refl
count-highest k (id ∷ ids) h = ground (arith, count-highest k ids)

highest-later :
    (id : ℕ) (ids : List ℕ) → ltb id (highest ids) ≡ true → highest (id ∷ ids) ≡ highest ids
unfolding highest
highest-later id ids e = rw e

highest-here : (id : ℕ) (ids : List ℕ) → ltb id (highest ids) ≡ false → highest (id ∷ ids) ≡ id
unfolding highest
highest-here id ids e = rw e

highest-nil : highest [] ≡ 0
unfolding highest
highest-nil = refl

hit_self : (k : ℕ) → hit k k ≡ 1
hit_self k = ground arith

highest-count : (ids : List ℕ) → (highest ids ≡ 0) ⊎ (0 < count (highest ids) ids)
highest-count [] = inl highest-nil
highest-count (id ∷ ids) = elim (Bool-cases (ltb id (highest ids))) [
  | inl later ↦
      subst (λ m. (m ≡ 0) ⊎ (0 < count m (id ∷ ids))) (sym (highest-later id ids later))
        (elim (highest-count ids) [ inl none_ ↦ inl none_ | inr found ↦ inr (omega arith) ])
  | inr here ↦
      subst (λ m. (m ≡ 0) ⊎ (0 < count m (id ∷ ids))) (sym (highest-here id ids here))
        (inr (omega (arith, hit_self id)))
]

overlap_false :
    (xs ys : List ℕ)
    → any_of (λ k. is_member k ys) xs ≡ false
    → (k : ℕ) → 0 < count k xs
    → count k ys ≡ 0
overlap_false [] ys h k pos = absurd (omega arith)
overlap_false (x ∷ xs) ys h k pos =
    ground (arith, overlap_false xs ys (ground arith) k, (is_member-count x ys).0)

overlap_of :
    (xs ys : List ℕ)
    → ((k : ℕ) → count k xs + count k ys ≤ 1)
    → any_of (λ k. is_member k ys) xs ≡ false
overlap_of [] ys h = refl
overlap_of (x ∷ xs) ys h =
    ground (arith, overlap_of xs ys (λ k. ground (arith, h k)), h x, (is_member-count x ys).1)

count-append : (k : ℕ) (xs ys : List ℕ) → count k (xs ++ ys) ≡ count k xs + count k ys
count-append k [] ys = omega arith
count-append k (x ∷ xs) ys = omega (arith, count-append k xs ys)

module _ {F : Type 0} where
  count-observation_ids :
      (k : ℕ) (os : List (Observation F)) → count k (map (λ o. o.trial_id) os) ≡ count_observed k os
  unfolding count_observed
  count-observation_ids k [] = refl
  count-observation_ids k (o ∷ os) = omega (arith, count-observation_ids k os)

  count-pending_ids :
      (k : ℕ) (ps : List (Pending F)) → count k (map (λ p. p.trial_id) ps) ≡ count_pending k ps
  unfolding count_pending
  count-pending_ids k [] = refl
  count-pending_ids k (p ∷ ps) = omega (arith, count-pending_ids k ps)

  -- What the checks of the ids ask for.
  pub record IdsPass (s : State F) : Type 0 where
    pub low : ltb s.next_trial_id 1 ≡ false
    pub observed : has_duplicates (observation_ids s) ≡ false
    pub pending : has_duplicates (pending_ids s) ≡ false
    pub apart : any_of (λ k. is_member k (pending_ids s)) (observation_ids s) ≡ false
    pub above : leb s.next_trial_id (highest (observation_ids s ++ pending_ids s)) ≡ false

  module _ (s : State F) where
    counted :
        (k : ℕ) → file_occurs k (some s) ≡ count k (pending_ids s) + count k (observation_ids s)
    counted k = omega (arith, count-observation_ids k s.observations, count-pending_ids k s.pending)

    pub IdsPass-IsWellFormed : IdsPass s → IsWellFormed (some s) × (1 ≤ s.next_trial_id)
    IdsPass-IsWellFormed h = (
      record {
        unique = λ k. ground (
          arith,
          counted k,
          (has_duplicates_iff (observation_ids s)).0 h.observed k,
          (has_duplicates_iff (pending_ids s)).0 h.pending k,
          overlap_false (observation_ids s) (pending_ids s) h.apart k,
        );
        fresh = λ k after. ground (
          arith,
          counted k,
          h.above,
          count-highest k (observation_ids s ++ pending_ids s),
          count-append k (observation_ids s) (pending_ids s),
        );
      },
      ground (arith, h.low),
    )

    pub IsWellFormed-IdsPass : IsWellFormed (some s) → 1 ≤ s.next_trial_id → IdsPass s
    IsWellFormed-IdsPass h first = record {
      low = ground arith;
      observed =
          (has_duplicates_iff (observation_ids s)).1 (λ k. omega (arith, counted k, h.unique k));
      pending = (has_duplicates_iff (pending_ids s)).1 (λ k. omega (arith, counted k, h.unique k));
      apart =
          overlap_of (observation_ids s) (pending_ids s)
            (λ k. omega (arith, counted k, h.unique k));
      above = elim (Bool-cases (leb s.next_trial_id top)) [
        | inl high ↦ elim (highest-count (observation_ids s ++ pending_ids s)) [
          | inl none_ ↦ absurd (ground arith)
          | inr found ↦ absurd (
              ground (
                arith,
                h.fresh top,
                counted top,
                count-append top (observation_ids s) (pending_ids s),
              ))
        ]
        | inr low_ ↦ low_
      ];
    }
      where
        top : ℕ
        top = highest (observation_ids s ++ pending_ids s)
