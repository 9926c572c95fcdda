-- ===== src/Space/Order/Rule.antt =====
-- A proof rule for one call of `visit`: what holds of each way it can go holds of the call.
use looptimum.Prelude.{
  ℕ, suc, true, false, none, some, String, List, ◌≡◌, ◌==◌, Bool-cases, Option-cases, inl, inr, sym,
  subst,
}
use looptimum.Prelude.Exec.{Result, ok, err}
use looptimum.Space.{Param, controllers}
use looptimum.Space.Order.{
  Visit, OrderError, cycle, unknown, find_param, visit_each, enter, leave, state_of, visit,
}
use looptimum.Prelude.Answer.{◌>>=◌}

module _ {F : Type 0} (params : List (Param F)) (fuel : ℕ) (name : String) (v : Visit F) where
  abbrev pub descend : Param F → Result OrderError (Visit F)
  descend p = visit_each (visit params fuel) (controllers p) (enter name v) >>= λ next.
      ok (leave p name next)

  visit_done : (state_of name v == 2) ≡ true → visit params (suc fuel) name v ≡ ok v
  unfolding visit
  visit_done e = rw e

  visit_busy :
      (state_of name v == 2) ≡ false
      → (state_of name v == 1) ≡ true
      → visit params (suc fuel) name v ≡ err (cycle name)
  unfolding visit
  visit_busy e f = rw (e, f)

  visit_missing :
      (state_of name v == 2) ≡ false
      → (state_of name v == 1) ≡ false
      → find_param name params ≡ none
      → visit params (suc fuel) name v ≡ err (unknown name)
  unfolding visit
  visit_missing e f g = rw (e, f, g)

  visit_found :
      (state_of name v == 2) ≡ false
      → (state_of name v == 1) ≡ false
      → {p : Param F} → find_param name params ≡ some p
      → visit params (suc fuel) name v ≡ descend p
  unfolding visit
  visit_found e f {p} g = rw (e, f, g)

  pub visit_cases :
      (P : Result OrderError (Visit F) → Type 0)
      → ((state_of name v == 2) ≡ true → P (ok v))
      → ((state_of name v == 1) ≡ true → P (err (cycle name)))
      → (find_param name params ≡ none → P (err (unknown name)))
      → ((p : Param F)
          → find_param name params ≡ some p
          → (state_of name v == 2) ≡ false
          → (state_of name v == 1) ≡ false
          → P (descend p))
      → P (visit params (suc fuel) name v)
  visit_cases P done busy missing found = elim (Bool-cases (state_of name v == 2)) [
    | inl e ↦ subst P (sym (visit_done e)) (done e)
    | inr e ↦ elim (Bool-cases (state_of name v == 1)) [
      | inl f ↦ subst P (sym (visit_busy e f)) (busy f)
      | inr f ↦ elim (Option-cases (find_param name params)) [
        | inl g ↦ subst P (sym (visit_missing e f g)) (missing g)
        | inr (p, g) ↦ subst P (sym (visit_found e f g)) (found p g e f)
      ]
    ]
  ]
