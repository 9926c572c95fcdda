-- ===== src/Space/Order/Bounded.antt =====
-- The fuel of the visit of `_ordered_parameters`.
use looptimum.Prelude.{
  text_eq_refl, ℕ, zero, suc, ◌+◌, ◌≤◌, ◌<◌, Bool, true, false, not, ◌&&◌, some, String, str_eq,
  eq_iff, List, [], ◌∷◌, ◌≡◌, ◌≢◌, arith, lookup-insert, length, if◌then◌else◌, ◌==◌, inl, inr,
  Bool-cases,
}
use looptimum.Prelude.Exec.{Result, ok, err}
use looptimum.Space.{Param, controllers}
use looptimum.Space.Order.Rule.{visit_cases}
use looptimum.Space.Order.{
  Visit, OrderError, cycle, unknown, out_of_fuel, find_param, visit_each, enter, leave, state_of,
  visit, names_of, ordered_parameters,
}
use looptimum.Prelude.Answer.{◌>>=◌}

module _ {F : Type 0} where
  pub state_of-enter :
      (name j : String) (v : Visit F)
      → state_of j (enter name v) ≡ (if str_eq name j then 1 else state_of j v)
  unfolding enter
  state_of-enter name j v = ground (arith, lookup-insert name j 1 v.visit_state)

  pub state_of-leave :
      (p : Param F) (name j : String) (v : Visit F)
      → state_of j (leave p name v) ≡ (if str_eq name j then 2 else state_of j v)
  unfolding leave
  state_of-leave p name j v = ground (arith, lookup-insert name j 2 v.visit_state)

  abbrev is_fresh : String → Visit F → Bool
  is_fresh name v = not (state_of name v == 2) && not (state_of name v == 1)

  fresh_count : List (Param F) → Visit F → ℕ
  fresh_count [] v = 0
  fresh_count (p ∷ ps) v = (if is_fresh p.name v then 1 else 0) + fresh_count ps v

  fresh_count-le : (params : List (Param F)) (v : Visit F) → fresh_count params v ≤ length params
  unfolding fresh_count
  fresh_count-le [] v = omega arith
  fresh_count-le (p ∷ ps) v = ground (arith, fresh_count-le ps v)

  fresh_count-enter-le :
      (params : List (Param F)) (name : String) (v : Visit F)
      → fresh_count params (enter name v) ≤ fresh_count params v
  unfolding fresh_count
  fresh_count-enter-le [] name v = omega arith
  fresh_count-enter-le (p ∷ ps) name v =
      ground (arith, fresh_count-enter-le ps name v, state_of-enter name p.name v)

  fresh_count-leave-le :
      (params : List (Param F)) (q : Param F) (name : String) (v : Visit F)
      → fresh_count params (leave q name v) ≤ fresh_count params v
  unfolding fresh_count
  fresh_count-leave-le [] q name v = omega arith
  fresh_count-leave-le (p ∷ ps) q name v =
      ground (arith, fresh_count-leave-le ps q name v, state_of-leave q name p.name v)

  not_fresh_entered : (name : String) (v : Visit F) → is_fresh name (enter name v) ≡ false
  not_fresh_entered name v = ground (arith, state_of-enter name name v, text_eq_refl name)

  -- To enter a fresh name of a parameter makes one fresh name less.
  fresh_count-enter-lt :
      (params : List (Param F)) (name : String) (v : Visit F) {p : Param F}
      → find_param name params ≡ some p
      → is_fresh name v ≡ true
      → fresh_count params (enter name v) < fresh_count params v
  unfolding fresh_count find_param
  fresh_count-enter-lt [] name v found fresh = cc
  fresh_count-enter-lt (q ∷ ps) name v {p} found fresh = elim (Bool-cases (str_eq q.name name)) [
    | inl e ↦
        let same = (eq_iff q.name name).0 e in
        rw same
          (rw (fresh, not_fresh_entered name v) (omega (arith, fresh_count-enter-le ps name v)))
    | inr e ↦
        let rest = fresh_count-enter-lt ps name v {p = p} (ground arith) fresh in
        ground (arith, rest, state_of-enter name q.name v, eq_iff q.name name, eq_iff name q.name)
  ]

  -- The outcome is not for want of fuel, and no name became fresh again.
  abbrev IsFine : List (Param F) → ℕ → Result OrderError (Visit F) → Type 0
  IsFine params bound (ok v) = fresh_count params v ≤ bound
  IsFine params bound (err out_of_fuel) = ⊥
  IsFine params bound (err (cycle _)) = Unit
  IsFine params bound (err (unknown _)) = Unit

  IsFine-bind :
      (params : List (Param F)) (bound : ℕ) (r : Result OrderError (Visit F))
      (k : Visit F → Result OrderError (Visit F))
      → IsFine params bound r
      → ((v : Visit F) → fresh_count params v ≤ bound → IsFine params bound (k v))
      → IsFine params bound (r >>= k)
  IsFine-bind params bound (ok v) k h g = g v h
  IsFine-bind params bound (err out_of_fuel) k h g = h
  IsFine-bind params bound (err (cycle _)) k h g = tt
  IsFine-bind params bound (err (unknown _)) k h g = tt

  visit_each-IsFine :
      (params : List (Param F)) (f : String → Visit F → Result OrderError (Visit F)) (bound : ℕ)
      → ((name : String) (v : Visit F)
          → fresh_count params v ≤ bound
          → IsFine params bound (f name v))
      → (names : List String) (v : Visit F) → fresh_count params v ≤ bound
      → IsFine params bound (visit_each f names v)
  unfolding visit_each
  visit_each-IsFine params f bound fine [] v h = h
  visit_each-IsFine params f bound fine (name ∷ names) v h =
      IsFine-bind params bound (f name v) (visit_each f names) (fine name v h)
        (visit_each-IsFine params f bound fine names)

  IsFine-weaken :
      (params : List (Param F)) (a b : ℕ) (r : Result OrderError (Visit F))
      → a ≤ b
      → IsFine params a r
      → IsFine params b r
  IsFine-weaken params a b (ok v) h k = omega arith
  IsFine-weaken params a b (err out_of_fuel) h k = k
  IsFine-weaken params a b (err (cycle _)) h k = tt
  IsFine-weaken params a b (err (unknown _)) h k = tt

  visit-IsFine :
      (params : List (Param F)) (fuel : ℕ) (name : String) (v : Visit F) (bound : ℕ)
      → fresh_count params v ≤ bound
      → bound < fuel
      → IsFine params bound (visit params fuel name v)
  visit-IsFine params zero name v bound h k = absurd (omega arith)
  visit-IsFine params (suc fuel) name v bound h k =
      visit_cases params fuel name v (IsFine params bound) (λ _. h) (λ _. tt) (λ _. tt)
        λ p found not_done not_busy.
          let entered = fresh_count-enter-lt params name v found (rw (not_done, not_busy)) in
          IsFine-bind params bound (visit_each (visit params fuel) (controllers p) (enter name v))
            (λ next. ok (leave p name next))
            (IsFine-weaken params (fresh_count params (enter name v)) bound
              (visit_each (visit params fuel) (controllers p) (enter name v)) (omega arith)
              (visit_each-IsFine params (visit params fuel) (fresh_count params (enter name v))
                (λ other w fits. visit-IsFine params fuel other w _ fits (omega arith))
                (controllers p) (enter name v) (omega arith)))
            (λ next fits. omega (arith, fresh_count-leave-le params p name next))

  no_fuel_needed :
      (params : List (Param F)) (bound : ℕ) (r : Result OrderError (Visit F))
      → IsFine params bound r
      → (r >>= λ v. ok v.ordered) ≢ err out_of_fuel
  no_fuel_needed params bound (ok v) h e = cc
  no_fuel_needed params bound (err out_of_fuel) h e = h
  no_fuel_needed params bound (err (cycle _)) h e = cc
  no_fuel_needed params bound (err (unknown _)) h e = cc

  -- The visit never stops for want of fuel: it orders the parameters, or meets a cycle or a name
  -- that no parameter has.
  pub ordered_parameters-ne-out_of_fuel :
      (params : List (Param F)) → ordered_parameters params ≢ err out_of_fuel
  unfolding ordered_parameters
  ordered_parameters-ne-out_of_fuel params =
      let start : Visit F = record { visit_state = []; ordered = [] } in
      no_fuel_needed params (length params) _ (
        visit_each-IsFine params (visit params (suc (length params))) (length params)
          (λ name v fits. visit-IsFine params (suc (length params)) name v _ fits (omega arith))
          (names_of params) start (fresh_count-le params start))
