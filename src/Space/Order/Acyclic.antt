-- ===== src/Space/Order/Acyclic.antt =====
-- When `_ordered_parameters` of templates/_shared/search_space.py returns.
use looptimum.Prelude.{
  ℕ, zero, suc, ◌<◌, true, some, String, str_eq, eq_iff, List, [], ◌∷◌, ◌≡◌, ◌≢◌, refl, arith,
  length, All, All-imp, ◌+◌, is_some, lookup, Bool-cases, inl, inr,
}
use looptimum.Prelude.Exec.{Result, ok, err}
use looptimum.Space.{Param, controllers}
use looptimum.Space.Order.{
  Visit, OrderError, cycle, unknown, out_of_fuel, find_param, visit_each, enter, leave, state_of,
  visit, names_of, ordered_parameters,
}
use looptimum.Prelude.Answer.{◌>>=◌}
use looptimum.Space.Order.Bounded.{
  state_of-enter, state_of-leave, ordered_parameters-ne-out_of_fuel,
}
use looptimum.Space.Order.Rule.{visit_cases}

module _ {F : Type 0} where
  abbrev pub IsKnown : List (Param F) → String → Type 0
  IsKnown params name = is_some (find_param name params) ≡ true

  -- The controllers of each parameter are parameters, of a lower rank.
  abbrev pub IsRanked : (String → ℕ) → List (Param F) → Type 0
  IsRanked rank params =
      (p : Param F) (name : String)
      → find_param name params ≡ some p
      → All (λ c. IsKnown params c × (rank c < rank name)) (controllers p)

  module _ (rank : String → ℕ) (params : List (Param F)) (ranked : IsRanked rank params) where
    -- Every name that is being visited stands above `n`.
    abbrev IsBelow : ℕ → Visit F → Type 0
    IsBelow n v = (j : String) → state_of j v ≡ 1 → n < rank j

    -- No cycle and no unknown name was met, and what is being visited was before.
    abbrev IsClear : Visit F → Result OrderError (Visit F) → Type 0
    IsClear v (ok w) = (j : String) → state_of j w ≡ 1 → state_of j v ≡ 1
    IsClear v (err out_of_fuel) = Unit
    IsClear v (err (cycle _)) = ⊥
    IsClear v (err (unknown _)) = ⊥

    IsClear-bind :
        (u v : Visit F) (r : Result OrderError (Visit F))
        (k : Visit F → Result OrderError (Visit F))
        → IsClear u r
        → ((w : Visit F) → IsClear u (ok w) → IsClear v (k w))
        → IsClear v (r >>= k)
    IsClear-bind u v (ok w) k h g = g w h
    IsClear-bind u v (err out_of_fuel) k h g = tt
    IsClear-bind u v (err (cycle _)) k h g = h
    IsClear-bind u v (err (unknown _)) k h g = h

    IsClear-trans :
        (v w : Visit F) (r : Result OrderError (Visit F))
        → IsClear v (ok w)
        → IsClear w r
        → IsClear v r
    IsClear-trans v w (ok x) h k = λ j e. h j (k j e)
    IsClear-trans v w (err out_of_fuel) h k = tt
    IsClear-trans v w (err (cycle _)) h k = k
    IsClear-trans v w (err (unknown _)) h k = k

    abbrev Fits : ℕ → String → Type 0
    Fits n name = IsKnown params name × (rank name < n)

    visit_each-IsClear :
        (f : String → Visit F → Result OrderError (Visit F)) (n : ℕ)
        → ((name : String) (v : Visit F)
            → IsKnown params name
            → IsBelow (rank name) v
            → IsClear v (f name v))
        → (names : List String) (v : Visit F) → All (Fits n) names
        → ((j : String) → state_of j v ≡ 1 → n < suc (rank j))
        → IsClear v (visit_each f names v)
    unfolding visit_each
    visit_each-IsClear f n clear [] v fits below = λ j e. e
    visit_each-IsClear f n clear (name ∷ names) v fits below =
        IsClear-bind v v (f name v) (visit_each f names)
          (clear name v fits.0.0 (λ j e. omega (arith, below j e, fits.0.1)))
          λ w h.
            IsClear-trans v w (visit_each f names w) h
              (visit_each-IsClear f n clear names w fits.1 (λ j e. below j (h j e)))

    above :
        (p : Param F) (name : String) (v : Visit F) (j : String)
        → IsBelow (rank name) v
        → state_of j (enter name v) ≡ 1
        → rank name < suc (rank j)
    above p name v j below e = elim (Bool-cases (str_eq name j)) [
      | inl same ↦ rw ((eq_iff name j).0 same) (omega arith)
      | inr other ↦ omega (arith, below j (ground (arith, state_of-enter name j v)))
    ]

    back :
        (p : Param F) (name : String) (v next : Visit F) (j : String)
        → IsClear (enter name v) (ok next)
        → state_of j (leave p name next) ≡ 1
        → state_of j v ≡ 1
    back p name v next j h e =
        ground (arith, state_of-leave p name j next, state_of-enter name j v, h j)

    visit-IsClear :
        (fuel : ℕ) (name : String) (v : Visit F)
        → IsKnown params name
        → IsBelow (rank name) v
        → IsClear v (visit params fuel name v)
    visit-IsClear zero name v known below = unfold visit in tt
    visit-IsClear (suc fuel) name v known below =
        visit_cases params fuel name v (IsClear v) (λ _ j e. e)
          (λ busy. omega (arith, below name (ground arith))) (λ e. ground (arith, known))
          λ p found not_done not_busy.
            IsClear-bind (enter name v) v
              (visit_each (visit params fuel) (controllers p) (enter name v))
              (λ next. ok (leave p name next))
              (visit_each-IsClear (visit params fuel) (rank name) (visit-IsClear fuel)
                (controllers p) (enter name v) (ranked p name found)
                (λ j e. above p name v j below e))
              (λ next h j e. back p name v next j h e)

    clear_ok :
        (v : Visit F) (r : Result OrderError (Visit F))
        → IsClear v r
        → (r >>= λ w. ok w.ordered) ≢ err out_of_fuel
        → (out : List (Param F)) × ((r >>= λ w. ok w.ordered) ≡ ok out)
    clear_ok v (ok w) h fuel = (w.ordered, refl)
    clear_ok v (err out_of_fuel) h fuel = absurd (fuel refl)
    clear_ok v (err (cycle _)) h fuel = absurd h
    clear_ok v (err (unknown _)) h fuel = absurd h

    -- A number above every rank in the list.
    abbrev top : List String → ℕ
    top [] = 1
    top (x ∷ xs) = rank x + top xs

    top_pos : (xs : List String) → 0 < top xs
    top_pos [] = omega arith
    top_pos (x ∷ xs) = omega (arith, top_pos xs)

    Fits-top : (xs : List String) → All (IsKnown params) xs → All (Fits (top xs)) xs
    Fits-top [] known = tt
    Fits-top (x ∷ xs) known = (
      (known.0, omega (arith, top_pos xs)),
      All-imp (Fits (top xs)) (Fits (top (x ∷ xs))) xs (λ y h. (h.0, omega (arith, h.1)))
          (Fits-top xs known.1),
    )

    none_busy : (j : String) → state_of {F = F} j (record { visit_state = []; ordered = [] }) ≢ 1
    unfolding lookup
    none_busy j e = omega arith

    -- Where every condition names given parameters only, each of a rank below the conditioned one,
    -- the ordering succeeds.
    pub ordered_parameters_total :
        All (IsKnown params) (names_of params)
        → (out : List (Param F)) × (ordered_parameters params ≡ ok out)
    unfolding ordered_parameters
    ordered_parameters_total known =
        clear_ok start (visit_each (visit params (suc (length params))) (names_of params) start)
          (visit_each-IsClear (visit params (suc (length params))) (top (names_of params))
            (visit-IsClear (suc (length params))) (names_of params) start
            (Fits-top (names_of params) known) (λ j e. absurd (none_busy j e)))
          (ordered_parameters-ne-out_of_fuel params)
      where
        start : Visit F
        start = record { visit_state = []; ordered = [] }
