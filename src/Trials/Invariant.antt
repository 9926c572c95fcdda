-- ===== src/Trials/Invariant.antt =====
-- Where trial ids stand in a campaign state, and how popping, adding and retiring move them.
pub mod Files
pub mod Conserve
pub mod Update
pub mod Allocate
pub mod Unique
use looptimum.Prelude.{
  ℕ, zero, suc, ◌+◌, ◌≤◌, ◌<◌, Bool, true, false, Option, none, some, String, List, [], ◌∷◌, ◌++◌,
  ◌≡◌, refl, arith, ◌==◌, Option-cases, inl, inr, if◌then◌else◌, length, ◌∙◌, sym, ap, subst,
}
use looptimum.Prelude.Maybe.{>>=-eq-some}
use looptimum.Objectives.{ObjectiveCfg}
use looptimum.Trials.{
  Pending, Observation, State, pending_index, pop_at, pop_pending, add_observation, retire_all,
  new_terminal_observation,
}

abbrev pub hit : ℕ → ℕ → ℕ
hit a k = if a == k then 1 else 0

module _ {F : Type 0} where
  unfoldable pub count_pending : ℕ → List (Pending F) → ℕ
  count_pending k [] = 0
  count_pending k (p ∷ ps) = hit p.trial_id k + count_pending k ps

  unfoldable pub count_observed : ℕ → List (Observation F) → ℕ
  count_observed k [] = 0
  count_observed k (o ∷ os) = hit o.trial_id k + count_observed k os

  -- How often the id `k` stands in the state, pending or observed.
  abbrev pub occurs : ℕ → State F → ℕ
  occurs k s = count_pending k s.pending + count_observed k s.observations

  -- The same ids, as often, and the same next id.
  pub record SameTrials (s t : State F) : Type 0 where
    pub same : (k : ℕ) → occurs k t ≡ occurs k s
    pub next : t.next_trial_id ≡ s.next_trial_id

  pub count_observed-append :
      (k : ℕ) (os : List (Observation F)) (o : Observation F)
      → count_observed k (os ++ o ∷ []) ≡ count_observed k os + hit o.trial_id k
  unfolding count_observed
  count_observed-append k [] o = omega arith
  count_observed-append k (x ∷ os) o = omega (arith, count_observed-append k os o)

  pub count_pending-append :
      (k : ℕ) (ps : List (Pending F)) (p : Pending F)
      → count_pending k (ps ++ p ∷ []) ≡ count_pending k ps + hit p.trial_id k
  unfolding count_pending
  count_pending-append k [] p = omega arith
  count_pending-append k (x ∷ ps) p = omega (arith, count_pending-append k ps p)

  pending_index-suc :
      (x : Pending F) (ps : List (Pending F)) (id i : ℕ)
      → pending_index (x ∷ ps) id ≡ some (suc i)
      → pending_index ps id ≡ some i
  unfolding pending_index
  pending_index-suc x ps id i e = ground arith

  pending_index-zero :
      (x : Pending F) (ps : List (Pending F)) (id : ℕ)
      → pending_index (x ∷ ps) id ≡ some 0
      → x.trial_id ≡ id
  unfolding pending_index
  pending_index-zero x ps id e = ground arith

  -- The popped entry has the id, and the others stay.
  pop_at-count :
      (k : ℕ) (ps : List (Pending F)) (id i : ℕ) {p : Pending F} {qs : List (Pending F)}
      → pending_index ps id ≡ some i
      → pop_at ps i ≡ some (p, qs)
      → (p.trial_id ≡ id) × (count_pending k qs + hit p.trial_id k ≡ count_pending k ps)
  unfolding pop_at count_pending
  pop_at-count k [] id i e f = cc
  pop_at-count k (x ∷ ps) id zero {p} {qs} e f =
      let named = pending_index-zero x ps id e in (ground arith, ground arith)
  pop_at-count k (x ∷ ps) id (suc i) {p} {qs} e f =
      let ((q, rest), found, same) = >>=-eq-some (pop_at ps i) (λ r. some (r.0, x ∷ r.1)) f in
      let (named, counted) =
        pop_at-count k ps id i {p = q} {qs = rest} (pending_index-suc x ps id i e) found in
      let tail : x ∷ rest ≡ qs = cc in
      (
        ground arith,
        subst (λ l. count_pending k l + hit p.trial_id k ≡ hit x.trial_id k + count_pending k ps)
            tail (ground arith),
      )

  pop_pending-count :
      (k : ℕ) (s : State F) (id : ℕ) {p : Pending F} {t : State F}
      → pop_pending s id ≡ some (p, t)
      → (p.trial_id ≡ id)
        × (count_pending k t.pending + hit p.trial_id k ≡ count_pending k s.pending)
        × (t.observations ≡ s.observations)
        × (t.next_trial_id ≡ s.next_trial_id)
  unfolding pop_pending
  pop_pending-count k s id {p} {t} e =
      let (i, found, rest) = >>=-eq-some (pending_index s.pending id) _ e in
      let ((q, qs), popped, same) = >>=-eq-some (pop_at s.pending i) _ rest in
      let (named, counted) = pop_at-count k s.pending id i {p = q} {qs = qs} found popped in
      (ground arith, ground arith, ground arith, ground arith)
