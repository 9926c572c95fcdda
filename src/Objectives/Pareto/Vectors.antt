-- ===== src/Objectives/Pareto/Vectors.antt =====
-- Canonical objective vectors of templates/_shared/objectives.py, given again as objectives.
use looptimum.Prelude.{
  Bool, true, false, none, some, String, str_eq, List, [], ◌∷◌, ◌≡◌, refl, sym, ap, ◌∙◌, Among,
  subst, inl, inr, map, lookup, has_key, text_mem, all_of, All, All-imp, All-Among, Bool-cases,
  eq_iff, text_eq_refl, or_else, if◌then◌else◌, arith,
}
use looptimum.Prelude.Maybe.{>>=-eq-some, some_injective}
use looptimum.Float.{Float}
use looptimum.Values.{Value, null, float, Dict, require_finite_number}
use looptimum.Objectives.{
  ObjectiveCfg, objective_names, same_names, collect_values, canonical_objective_vector,
}
use looptimum.Objectives.Pareto.{as_values}

-- No name stands twice.
abbrev pub AllDiffer : List String → Type 0
AllDiffer [] = Unit
AllDiffer (name ∷ names) = All (λ other. str_eq name other ≡ false) names × AllDiffer names

abbrev pub keys : {V : Type 0} → Dict V → List String
keys d = map (λ entry. entry.0) d

all_of-true :
    {A : Type 0} (p : A → Bool) (xs : List A) → All (λ x. p x ≡ true) xs → all_of p xs ≡ true
all_of-true p [] h = refl
all_of-true p (x ∷ xs) h = ground (arith, all_of-true p xs h.1)

keys-Among : {V : Type 0} (d : Dict V) → All (λ entry. Among entry.0 (keys d)) d
keys-Among [] = tt
keys-Among (entry ∷ d) = (
  inl refl,
  All-imp (λ e. Among e.0 (keys d)) (λ e. Among e.0 (keys (entry ∷ d))) d (λ e h. inr h)
      (keys-Among d),
)

has_key-Among :
    {V : Type 0} (name : String) (d : Dict V) → Among name (keys d) → has_key name d ≡ true
unfolding has_key lookup
has_key-Among name [] h = absurd h
has_key-Among name (entry ∷ d) (inl e) = ground (arith, eq_iff entry.0 name)
has_key-Among name (entry ∷ d) (inr h) = ground (arith, has_key-Among name d h)

pub lookup_here : {V : Type 0} (k : String) (w : V) (d : Dict V) → lookup k ((k, w) ∷ d) ≡ some w
unfolding lookup
lookup_here k w d = rw (text_eq_refl k)

text_mem-Among :
    (name : String) (names : List String) → Among name names → text_mem name names ≡ true
unfolding text_mem
text_mem-Among name [] h = absurd h
text_mem-Among name (j ∷ js) (inl e) = ground (arith, eq_iff j name)
text_mem-Among name (j ∷ js) (inr h) = ground (arith, text_mem-Among name js h)

module _ (fl : Float) where
  collect_values-keys :
      (names : List String) (raw : Dict (Value fl.F)) {v : Dict fl.F}
      → collect_values fl names raw ≡ some v
      → keys v ≡ names
  unfolding collect_values
  collect_values-keys [] raw e = ap keys (sym (some_injective _ _ e))
  collect_values-keys (name ∷ names) raw {v} e =
      let (x, _, more) =
        >>=-eq-some (require_finite_number fl (or_else (lookup name raw) null)) _ e in
      let (rest, tail, same) = >>=-eq-some (collect_values fl names raw) _ more in
      subst (λ d. keys d ≡ name ∷ names) (some_injective ((name, x) ∷ rest) v same)
        (ap (λ ns. name ∷ ns) (collect_values-keys names raw tail))

  as_values-keys : (v : Dict fl.F) → keys (as_values v) ≡ keys v
  as_values-keys [] = refl
  as_values-keys (entry ∷ v) = ap (λ ns. entry.0 ∷ ns) (as_values-keys v)

  finite_again :
      (value : Value fl.F) {x : fl.F}
      → require_finite_number fl value ≡ some x
      → require_finite_number fl (float x) ≡ some x
  unfolding require_finite_number
  finite_again (Value.int n) e = ground arith
  finite_again (float y) e = ground arith
  finite_again null e = cc
  finite_again (Value.bool b) e = cc
  finite_again (Value.str t) e = cc

  finite_value_lem :
      (value : Value fl.F) {x : fl.F}
      → require_finite_number fl value ≡ some x
      → fl.is_finite x ≡ true
  unfolding require_finite_number
  finite_value_lem (Value.int n) e = ground arith
  finite_value_lem (float y) e = ground arith
  finite_value_lem null e = cc
  finite_value_lem (Value.bool b) e = cc
  finite_value_lem (Value.str t) e = cc

  -- A key that is none of the names is passed over.
  collect_values-skip :
      (k : String) (w : Value fl.F) (names : List String) (raw : Dict (Value fl.F))
      → All (λ name. str_eq k name ≡ false) names
      → collect_values fl names ((k, w) ∷ raw) ≡ collect_values fl names raw
  unfolding collect_values lookup
  collect_values-skip k w [] raw h = refl
  collect_values-skip k w (name ∷ names) raw h = rw (h.0, collect_values-skip k w names raw h.1)

  collect_values-again :
      (names : List String) (raw : Dict (Value fl.F)) {v : Dict fl.F}
      → AllDiffer names
      → collect_values fl names raw ≡ some v
      → collect_values fl names (as_values v) ≡ some v
  unfolding collect_values
  collect_values-again [] raw d e = e
  collect_values-again (name ∷ names) raw {v} d e =
      let (x, found, more) =
        >>=-eq-some (require_finite_number fl (or_else (lookup name raw) null)) _ e in
      let (rest, tail, same) = >>=-eq-some (collect_values fl names raw) _ more in
      subst (λ u. collect_values fl (name ∷ names) (as_values u) ≡ some u)
        (some_injective ((name, x) ∷ rest) v same)
        (rw (
          lookup_here name (float x) (as_values rest),
          finite_again (or_else (lookup name raw) null) found,
          collect_values-skip name (float x) names (as_values rest) d.0,
          collect_values-again names raw d.1 tail,
        ))

  same_names_self : (raw : Dict (Value fl.F)) → same_names fl (keys raw) raw ≡ true
  unfolding same_names
  same_names_self raw = rw (
    all_of-true (λ name. has_key name raw) (keys raw)
        (All-imp (λ name. Among name (keys raw)) (λ name. has_key name raw ≡ true) (keys raw)
          (λ name. has_key-Among name raw) (All-Among (keys raw))),
    all_of-true (λ entry. text_mem entry.0 (keys raw)) raw
        (All-imp (λ entry. Among entry.0 (keys raw)) (λ entry. text_mem entry.0 (keys raw) ≡ true)
          raw (λ entry. text_mem-Among entry.0 (keys raw)) (keys-Among raw)),
  )

  same_names-keys :
      (names : List String) (raw : Dict (Value fl.F))
      → keys raw ≡ names
      → same_names fl names raw ≡ true
  same_names-keys names raw e = subst (λ ns. same_names fl ns raw ≡ true) e (same_names_self raw)

  module _ (cfg : ObjectiveCfg fl.F) (differ : AllDiffer (objective_names cfg)) where
    -- A canonical vector is its own canonical form.
    pub canonical_objective_vector-again :
        (raw : Dict (Value fl.F)) {v : Dict fl.F}
        → canonical_objective_vector fl raw cfg ≡ some v
        → canonical_objective_vector fl (as_values v) cfg ≡ some v
    unfolding canonical_objective_vector
    canonical_objective_vector-again raw {v} e = elim (Bool-cases (same_names fl names raw)) [
      | inl same ↦
          let found : collect_values fl names raw ≡ some v =
            subst (λ b. (if b then collect_values fl names raw else none) ≡ some v) same e in
          rw
            (same_names-keys names (as_values v)
              (as_values-keys v ∙ collect_values-keys names raw found))
            (collect_values-again names raw differ found)
      | inr no_match ↦ absurd (ground arith)
    ]
      where
        names : List String
        names = objective_names cfg

  collect_values-finite :
      (names : List String) (raw : Dict (Value fl.F)) {v : Dict fl.F}
      → collect_values fl names raw ≡ some v
      → All (λ entry. fl.is_finite entry.1 ≡ true) v
  unfolding collect_values
  collect_values-finite [] raw e =
      subst (All (λ entry. fl.is_finite entry.1 ≡ true)) (some_injective _ _ e) tt
  collect_values-finite (name ∷ names) raw {v} e =
      let (x, found, more) =
        >>=-eq-some (require_finite_number fl (or_else (lookup name raw) null)) _ e in
      let (rest, tail, same) = >>=-eq-some (collect_values fl names raw) _ more in
      subst (All (λ entry. fl.is_finite entry.1 ≡ true)) (some_injective ((name, x) ∷ rest) v same)
        (
          finite_value_lem (or_else (lookup name raw) null) found,
          collect_values-finite names raw tail,
        )

  lookup-finite :
      (name : String) (v : Dict fl.F) {x : fl.F}
      → All (λ entry. fl.is_finite entry.1 ≡ true) v
      → lookup name v ≡ some x
      → fl.is_finite x ≡ true
  unfolding lookup
  lookup-finite name [] h e = cc
  lookup-finite name (entry ∷ v) {x} h e = ground (arith, lookup-finite name v {x = x} h.1)

  pub canonical-finite :
      (cfg : ObjectiveCfg fl.F) (raw : Dict (Value fl.F)) (name : String) {v : Dict fl.F} {x : fl.F}
      → canonical_objective_vector fl raw cfg ≡ some v
      → lookup name v ≡ some x
      → fl.is_finite x ≡ true
  unfolding canonical_objective_vector
  canonical-finite cfg raw name {v} e at =
      lookup-finite name v (collect_values-finite (objective_names cfg) raw (ground arith)) at
