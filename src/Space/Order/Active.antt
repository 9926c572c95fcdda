-- ===== src/Space/Order/Active.antt =====
-- What `canonicalize_conditional_params` of templates/_shared/search_space.py returns.
use looptimum.Prelude.{
  Bool, true, false, Option, none, some, String, str_eq, eq_iff, List, [], ◌∷◌, map, ◌≡◌, refl, sym,
  ◌∙◌, ap, subst, if◌then◌else◌, All, lookup, insert, lookup-insert, text_mem, arith,
}
use looptimum.Prelude.Exec.{Result, ok, err}
use looptimum.Float.{Float}
use looptimum.Values.{Value, Dict}
use looptimum.Space.{Param, is_parameter_active, omit_inactive, add_unknown}
use looptimum.Space.Order.{
  OrderError, find_param, ordered_parameters, canonicalize_conditional_params,
}
use looptimum.Prelude.Answer.{◌>>=◌}
use looptimum.Space.Order.Sorted.{ordered_parameters-IsSorted}

module _ (fl : Float) (values : Dict (Value fl.F)) where
  -- The text names an active parameter, as the list of parameters has it.
  abbrev pub IsActiveIn : List (Param fl.F) → String → Type 0
  IsActiveIn params name =
      (p : Param fl.F) × (find_param name params ≡ some p)
      × (is_parameter_active fl p values ≡ true)

  -- Every value is one of the given values, of a name with the property.
  record IsFrom (Q : String → Type 0) (out : Dict (Value fl.F)) : Type 0 where
    at :
        (name : String) (v : Value fl.F)
        → lookup name out ≡ some v
        → (lookup name values ≡ some v) × Q name

  insert-IsFrom :
      (Q : String → Type 0) (out : Dict (Value fl.F)) (key : String) (x : Value fl.F)
      → lookup key values ≡ some x
      → Q key
      → IsFrom Q out
      → IsFrom Q (insert key x out)
  insert-IsFrom Q out key x found q h = record {
    at = λ name v e. split name v (str_eq key name) refl (sym (lookup-insert key name x out) ∙ e);
  }
    where
      split :
          (name : String) (v : Value fl.F) (b : Bool)
          → str_eq key name ≡ b
          → (if b then some x else lookup name out) ≡ some v
          → (lookup name values ≡ some v) × Q name
      split name v true e f =
          let same : key ≡ name = (eq_iff key name).0 e in
          (subst (λ n. lookup n values ≡ some v) same (found ∙ f), subst Q same q)
      split name v false e f = h.at name v f

  omit_inactive-IsFrom :
      (params ordered : List (Param fl.F)) (out : Dict (Value fl.F))
      → All (λ p. find_param p.name params ≡ some p) ordered
      → IsFrom (IsActiveIn params) out
      → IsFrom (IsActiveIn params) (omit_inactive fl values ordered out)
  unfolding omit_inactive
  omit_inactive-IsFrom params [] out known h = h
  omit_inactive-IsFrom params (p ∷ ps) out known h =
      omit_inactive-IsFrom params ps _ known.1
        (kept (lookup p.name values) refl (is_parameter_active fl p values) refl)
    where
      kept :
          (value : Option (Value fl.F))
          → lookup p.name values ≡ value
          → (b : Bool) → is_parameter_active fl p values ≡ b
          → IsFrom (IsActiveIn params) (elim value as (λ _. Dict (Value fl.F)) [
            | none ↦ out
            | some value ↦ if b then insert p.name value out else out
          ])
      kept none e b f = h
      kept (some value) e true f =
          insert-IsFrom (IsActiveIn params) out p.name value e (p, known.0, f) h
      kept (some value) e false f = h

module _ (fl : Float) where
  abbrev pub IsKnownName : List (Param fl.F) → String → Type 0
  IsKnownName params name = text_mem name (map (λ p. p.name) params) ≡ true

  add_unknown-lookup :
      (params : List (Param fl.F)) (rest out : Dict (Value fl.F)) (name : String)
      → IsKnownName params name
      → lookup name (add_unknown fl params rest out) ≡ lookup name out
  unfolding add_unknown
  add_unknown-lookup params [] out name h = refl
  add_unknown-lookup params ((key, x) ∷ rest) out name h =
      add_unknown-lookup params rest _ name h
      ∙ kept (text_mem key (map (λ p. p.name) params)) refl (str_eq key name) refl
    where
      kept :
          (b : Bool)
          → text_mem key (map (λ p. p.name) params) ≡ b
          → (c : Bool) → str_eq key name ≡ c
          → lookup name (if b then out else insert key x out) ≡ lookup name out
      kept true e c f = refl
      kept false e true f =
          let same : key ≡ name = (eq_iff key name).0 f in
          let known = subst (IsKnownName params) (sym same) h in cc
      kept false e false f =
          lookup-insert key name x out ∙ ap (λ b. if b then some x else lookup name out) f

  -- If canonicalization returns, each parameter that has a value in the result is active for the
  -- given values, and has its given value: an inactive parameter's value is dropped.
  pub canonicalize_conditional_params-IsActive :
      (values : Dict (Value fl.F)) (params : List (Param fl.F)) {out : Dict (Value fl.F)}
      → canonicalize_conditional_params fl values params ≡ ok out
      → (name : String) (v : Value fl.F) → IsKnownName params name
      → lookup name out ≡ some v
      → (lookup name values ≡ some v) × IsActiveIn fl values params name
  unfolding canonicalize_conditional_params lookup
  canonicalize_conditional_params-IsActive values params {out} e name v known found =
      split (ordered_parameters params) refl e
    where
      split :
          (r : Result OrderError (List (Param fl.F)))
          → ordered_parameters params ≡ r
          → (r >>= λ ordered.
              ok (add_unknown fl params values (omit_inactive fl values ordered [])))
            ≡ ok out
          → (lookup name values ≡ some v) × IsActiveIn fl values params name
      split (err x) f e = ground arith
      split (ok ordered) f e =
          let (_, from, _) = ordered_parameters-IsSorted params ordered f in
          let kept = omit_inactive fl values ordered [] in
          let same : add_unknown fl params values kept ≡ out = cc in
          (omit_inactive-IsFrom fl values params ordered [] from
              (record { at = λ _ _ absent. ground arith })).at
            name v
            (sym (add_unknown-lookup params values kept name known) ∙ ap (lookup name) same ∙ found)
