-- ===== src/Space/Order/Sorted.antt =====
-- What `_ordered_parameters` of templates/_shared/search_space.py returns.
use looptimum.Prelude.{
  ℕ, zero, suc, true, false, some, String, str_eq, eq_iff, text_eq_refl, List, [], ◌∷◌, ◌++◌, ◌≡◌,
  refl, sym, subst, ◌∙◌, arith, length, text_mem, if◌then◌else◌, ◌==◌, lookup, All, All-append,
}
use looptimum.Prelude.Exec.{Result, ok, err}
use looptimum.Space.{Param, controllers}
use looptimum.Space.Order.{
  Visit, OrderError, find_param, visit_each, enter, leave, state_of, visit, names_of,
  ordered_parameters,
}
use looptimum.Prelude.Answer.{◌>>=◌}
use looptimum.Space.Order.Bounded.{state_of-enter, state_of-leave}
use looptimum.Space.Order.Rule.{visit_cases}

pub text_mem-cons :
    (k j : String) (js : List String)
    → text_mem k (j ∷ js) ≡ (if str_eq j k then true else text_mem k js)
unfolding text_mem
text_mem-cons k j js = refl

module _ {F : Type 0} where
  -- Each parameter comes behind its controllers, and no name comes twice; `seen` came before.
  abbrev pub IsSorted : List String → List (Param F) → Type 0
  IsSorted seen [] = Unit
  IsSorted seen (p ∷ ps) =
      All (λ c. text_mem c seen ≡ true) (controllers p)
      × (text_mem p.name seen ≡ false)
      × IsSorted (p.name ∷ seen) ps

  -- The names that have been seen after a list of parameters.
  abbrev pub behind : List String → List (Param F) → List String
  behind seen [] = seen
  behind seen (p ∷ ps) = behind (p.name ∷ seen) ps

  behind-snoc :
      (seen : List String) (xs : List (Param F)) (p : Param F)
      → behind seen (xs ++ p ∷ []) ≡ p.name ∷ behind seen xs
  behind-snoc seen [] p = refl
  behind-snoc seen (x ∷ xs) p = behind-snoc (x.name ∷ seen) xs p

  IsSorted-snoc :
      (seen : List String) (xs : List (Param F)) (p : Param F)
      → IsSorted seen xs
      → All (λ c. text_mem c (behind seen xs) ≡ true) (controllers p)
      → text_mem p.name (behind seen xs) ≡ false
      → IsSorted seen (xs ++ p ∷ [])
  IsSorted-snoc seen [] p s c n = (c, n, tt)
  IsSorted-snoc seen (x ∷ xs) p s c n = (s.0, s.1, IsSorted-snoc (x.name ∷ seen) xs p s.2 c n)

  pub find_param-name :
      (name : String) (params : List (Param F)) {p : Param F}
      → find_param name params ≡ some p
      → p.name ≡ name
  unfolding find_param
  find_param-name name [] found = cc
  find_param-name name (q ∷ ps) {p} found =
      ground (arith, find_param-name name ps {p = p}, eq_iff q.name name)

  module _ (params : List (Param F)) where
    record Inv (v : Visit F) : Type 0 where
      sorted : IsSorted [] v.ordered
      known : All (λ p. find_param p.name params ≡ some p) v.ordered
      done : (j : String) → (state_of j v == 2) ≡ text_mem j (behind [] v.ordered)

    record Post (v w : Visit F) : Type 0 where
      inv : Inv w
      kept :
          (j : String)
          → text_mem j (behind [] v.ordered) ≡ true
          → text_mem j (behind [] w.ordered) ≡ true
      busy : (j : String) → state_of j v ≡ 1 → state_of j w ≡ 1

    abbrev Placed : List String → Visit F → Type 0
    Placed names v = All (λ n. text_mem n (behind [] v.ordered) ≡ true) names

    abbrev OnOk : (Visit F → Type 0) → Result OrderError (Visit F) → Type 0
    OnOk Q (ok v) = Q v
    OnOk Q (err _) = Unit

    OnOk-bind :
        (P Q : Visit F → Type 0) (r : Result OrderError (Visit F))
        (k : Visit F → Result OrderError (Visit F))
        → OnOk P r
        → ((v : Visit F) → P v → OnOk Q (k v))
        → OnOk Q (r >>= k)
    OnOk-bind P Q (ok v) k h g = g v h
    OnOk-bind P Q (err e) k h g = tt

    OnOk-imp :
        (P Q : Visit F → Type 0) (r : Result OrderError (Visit F))
        → OnOk P r
        → ((v : Visit F) → P v → Q v)
        → OnOk Q r
    OnOk-imp P Q (ok v) h g = g v h
    OnOk-imp P Q (err e) h g = tt

    Post-refl : (v : Visit F) → Inv v → Post v v
    Post-refl v i = record { inv = i; kept = λ j h. h; busy = λ j h. h }

    Inv-enter :
        (name : String) (v : Visit F) → (state_of name v == 2) ≡ false → Inv v → Inv (enter name v)
    unfolding enter
    Inv-enter name v fresh i = record {
      sorted = i.sorted;
      known = i.known;
      done = λ j. ground (arith, state_of-enter name j v, i.done j, eq_iff name j);
    }

    -- `j` is placed after `p` is appended if it is `p`'s name or was placed before.
    placed-leave :
        (p : Param F) (name j : String) (v : Visit F)
        → p.name ≡ name
        → text_mem j (behind [] (leave p name v).ordered)
          ≡ (if str_eq name j then true else text_mem j (behind [] v.ordered))
    unfolding leave
    placed-leave p name j v e =
        subst
          (λ (l : List String).
            text_mem j l ≡ (if str_eq name j then true else text_mem j (behind [] v.ordered)))
          (sym (behind-snoc [] v.ordered p)) (text_mem-cons j p.name (behind [] v.ordered) ∙ rw e)

    module _ (p : Param F) (name : String) (v next : Visit F) (named : p.name ≡ name)
        (found : find_param name params ≡ some p) (not_done : (state_of name v == 2) ≡ false)
        (not_busy : (state_of name v == 1) ≡ false) (post : Post (enter name v) next)
        (placed : Placed (controllers p) next) where
      busy_next : state_of name next ≡ 1
      busy_next = post.busy name (ground (arith, state_of-enter name name v, text_eq_refl name))

      not_placed : text_mem p.name (behind [] next.ordered) ≡ false
      not_placed = rw named (ground (arith, post.inv.done name, busy_next))

      Inv-leave : Inv (leave p name next)
      unfolding leave
      Inv-leave = record {
        sorted = IsSorted-snoc [] next.ordered p post.inv.sorted placed not_placed;
        known =
            All-append (λ q. find_param q.name params ≡ some q) next.ordered (p ∷ []) post.inv.known
              (subst (λ n. find_param n params ≡ some p) (sym named) found, tt);
        done = λ j. ground (
          arith,
          placed-leave p name j next named,
          state_of-leave p name j next,
          post.inv.done j,
        );
      }

      kept_next :
          (j : String)
          → text_mem j (behind [] v.ordered) ≡ true
          → text_mem j (behind [] next.ordered) ≡ true
      unfolding enter
      kept_next j h = post.kept j h

      Post-leave : Post v (leave p name next)
      Post-leave = record {
        inv = Inv-leave;
        kept = λ j h. ground (arith, placed-leave p name j next named, kept_next j h);
        busy = λ j h. ground (
          arith,
          state_of-leave p name j next,
          state_of-enter name j v,
          post.busy j,
          eq_iff name j,
        );
      }

      Placed-leave : text_mem name (behind [] (leave p name next).ordered) ≡ true
      Placed-leave = ground (arith, placed-leave p name name next named, text_eq_refl name)

    Post-trans : (u v w : Visit F) → Post u v → Post v w → Post u w
    Post-trans u v w a b = record {
      inv = b.inv;
      kept = λ j h. b.kept j (a.kept j h);
      busy = λ j h. b.busy j (a.busy j h);
    }

    visit_each-Post :
        (f : String → Visit F → Result OrderError (Visit F))
        → ((name : String) (v : Visit F)
            → Inv v
            → OnOk (λ w. Post v w × (text_mem name (behind [] w.ordered) ≡ true)) (f name v))
        → (names : List String) (v : Visit F) → Inv v
        → OnOk (λ w. Post v w × Placed names w) (visit_each f names v)
    unfolding visit_each
    visit_each-Post f step [] v i = (Post-refl v i, tt)
    visit_each-Post f step (name ∷ names) v i =
        OnOk-bind _ (λ w. Post v w × Placed (name ∷ names) w) (f name v) (visit_each f names)
          (step name v i)
          λ u h.
            OnOk-imp (λ w. Post u w × Placed names w) (λ w. Post v w × Placed (name ∷ names) w)
              (visit_each f names u) (visit_each-Post f step names u h.0.inv)
              (λ w k. (Post-trans v u w h.0 k.0, (k.0.kept name h.1, k.1)))

    visit-Post :
        (fuel : ℕ) (name : String) (v : Visit F)
        → Inv v
        → OnOk
            (λ w. Post v w × (text_mem name (behind [] w.ordered) ≡ true))
            (visit params fuel name v)
    visit-Post zero name v i = unfold visit in tt
    visit-Post (suc fuel) name v i =
        visit_cases params fuel name v
          (OnOk (λ w. Post v w × (text_mem name (behind [] w.ordered) ≡ true)))
          (λ e. (Post-refl v i, ground (arith, i.done name))) (λ _. tt) (λ _. tt)
          λ p found not_done not_busy.
            let named = find_param-name name params found in
            OnOk-bind (λ w. Post (enter name v) w × Placed (controllers p) w) _
              (visit_each (visit params fuel) (controllers p) (enter name v))
              (λ next. ok (leave p name next))
              (visit_each-Post (visit params fuel) (visit-Post fuel) (controllers p) (enter name v)
                (Inv-enter name v not_done i))
              λ next h. (
                Post-leave p name v next named found not_done not_busy h.0 h.1,
                Placed-leave p name v next named found not_done not_busy h.0 h.1,
              )

    Inv-start : Inv (record { visit_state = []; ordered = [] })
    unfolding text_mem
    Inv-start = record { sorted = tt; known = tt; done = λ j. unfold lookup in refl }

  -- If the ordering succeeds, each parameter comes behind its controllers, no name comes twice,
  -- what comes are the given parameters, and every given parameter comes.
  pub ordered_parameters-IsSorted :
      (params out : List (Param F))
      → ordered_parameters params ≡ ok out
      → IsSorted [] out
        × All (λ p. find_param p.name params ≡ some p) out
        × All (λ n. text_mem n (behind [] out) ≡ true) (names_of params)
  unfolding ordered_parameters
  ordered_parameters-IsSorted params out e =
      finish (visit_each (visit params (suc (length params))) (names_of params) start)
        (visit_each-Post params (visit params (suc (length params)))
          (visit-Post params (suc (length params))) (names_of params) start (Inv-start params))
        e
    where
      start : Visit F
      start = record { visit_state = []; ordered = [] }

      finish :
          (r : Result OrderError (Visit F))
          → OnOk params (λ w. Post params start w × Placed params (names_of params) w) r
          → (r >>= λ v. ok v.ordered) ≡ ok out
          → IsSorted [] out
            × All (λ p. find_param p.name params ≡ some p) out
            × All (λ n. text_mem n (behind [] out) ≡ true) (names_of params)
      finish (ok w) h e =
          let same : w.ordered ≡ out = cc in
          subst
            (λ l.
              IsSorted [] l
              × All (λ p. find_param p.name params ≡ some p) l
              × All (λ n. text_mem n (behind [] l) ≡ true) (names_of params))
            same (h.0.inv.sorted, h.0.inv.known, h.1)
      finish (err x) h e = cc
