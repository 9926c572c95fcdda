-- ===== src/Contract/Sound.antt =====
-- What `normalize_ingest_payload` of templates/_shared/contract.py returns.
use looptimum.Prelude.{
  Bool, true, false, not, ◌⊎◌, inl, inr, Option, none, some, String, str_eq, List, [], ◌∷◌, ◌≡◌,
  refl, ◌∙◌, ap, subst, Bool-cases, if◌then◌else◌, All, lookup, insert, lookup-insert, text_eq_refl,
  or_else, any_of, is_some, arith,
}
use looptimum.Prelude.Maybe.{◌>>=◌, >>=-eq-some, some_injective}
use looptimum.Float.{Float}
use looptimum.Values.{Value, null, bool, int, float, str, Dict, require_finite_number}
use looptimum.Objectives.{ObjectiveCfg, objective_names, same_names}
use looptimum.Contract.{
  Status, is_ok, is_null, Payload, Report, normalize_status, normalize_numbers, clear_values,
  normalize_penalty, normalize_objectives, normalize_terminal_reason, first_reason,
  normalize_reason, normalize_ingest_payload,
}

module _ (fl : Float) where
  -- The name has a finite float.
  pub record IsNumberAt (d : Dict (Value fl.F)) (name : String) : Type 0 where
    pub number : fl.F
    pub found : lookup name d ≡ some (float number)
    pub finite : fl.is_finite number ≡ true

  require_finite_number-IsFinite :
      (v : Value fl.F) {x : fl.F} → require_finite_number fl v ≡ some x → fl.is_finite x ≡ true
  unfolding require_finite_number
  require_finite_number-IsFinite null e = cc
  require_finite_number-IsFinite (bool b) e = cc
  require_finite_number-IsFinite (int n) e = ground arith
  require_finite_number-IsFinite (float x) e = ground arith
  require_finite_number-IsFinite (str s) e = cc

  insert-IsNumberAt :
      (d : Dict (Value fl.F)) (key name : String) (x : fl.F)
      → fl.is_finite x ≡ true
      → (str_eq key name ≡ true) ⊎ IsNumberAt d name
      → IsNumberAt (insert key (float x) d) name
  insert-IsNumberAt d key name x finite h = elim (Bool-cases (str_eq key name)) [
    | inl e ↦ record {
      number = x;
      found =
          lookup-insert key name (float x) d
          ∙ ap (λ b. if b then some (float x) else lookup name d) e;
      finite = finite;
    }
    | inr e ↦ elim h [
      | inl f ↦ cc
      | inr at ↦ record {
        number = at.number;
        found =
            lookup-insert key name (float x) d
            ∙ ap (λ b. if b then some (float x) else lookup name d) e
            ∙ at.found;
        finite = at.finite;
      }
    ]
  ]

  normalize_numbers-IsNumberAt :
      (names : List String) (d : Dict (Value fl.F)) {out : Dict (Value fl.F)}
      → normalize_numbers fl names d ≡ some out
      → All (IsNumberAt out) names × ((name : String) → IsNumberAt d name → IsNumberAt out name)
  unfolding normalize_numbers
  normalize_numbers-IsNumberAt [] d {out} e =
      (tt, λ name h. subst (λ o. IsNumberAt o name) (some_injective d out e) h)
  normalize_numbers-IsNumberAt (name ∷ names) d {out} e =
      let value = or_else (lookup name d) null in
      let (x, read, rest) =
        >>=-eq-some (require_finite_number fl value)
          (λ x. normalize_numbers fl names (insert name (float x) d)) e in
      let finite = require_finite_number-IsFinite value read in
      let (all, keeps) = normalize_numbers-IsNumberAt names (insert name (float x) d) rest in
      (
        (keeps name (insert-IsNumberAt d name name x finite (inl (text_eq_refl name))), all),
        λ other h. keeps other (insert-IsNumberAt d name other x finite (inr h)),
      )

  abbrev pub IsNullAt : Dict (Value fl.F) → String → Type 0
  IsNullAt d name = lookup name d ≡ some null

  insert-IsNullAt :
      (d : Dict (Value fl.F)) (key name : String)
      → (str_eq key name ≡ true) ⊎ IsNullAt d name
      → IsNullAt (insert key null d) name
  insert-IsNullAt d key name (inl e) =
      lookup-insert key name null d ∙ ap (λ b. if b then some null else lookup name d) e
  insert-IsNullAt d key name (inr h) = lookup-insert key name null d ∙ either (str_eq key name)
    where
      either : (b : Bool) → (if b then some null else lookup name d) ≡ some null
      either true = refl
      either false = h

  clear_values-IsNullAt :
      (names : List String) (d : Dict (Value fl.F))
      → All (IsNullAt (clear_values fl names d)) names
        × ((name : String) → IsNullAt d name → IsNullAt (clear_values fl names d) name)
  unfolding clear_values
  clear_values-IsNullAt [] d = (tt, λ name h. h)
  clear_values-IsNullAt (name ∷ names) d =
      let (all, keeps) = clear_values-IsNullAt names (insert name null d) in
      (
        (keeps name (insert-IsNullAt d name name (inl (text_eq_refl name))), all),
        λ other h. keeps other (insert-IsNullAt d name other (inr h)),
      )

  -- Numbers for an ok status, and no penalty; nulls for every other.
  abbrev pub Fits : List String → Bool → Dict (Value fl.F) → Option fl.F → Type 0
  Fits names true objectives penalty = All (IsNumberAt objectives) names × (penalty ≡ none)
  Fits names false objectives penalty = All (IsNullAt objectives) names

  normalize_objectives-Fits :
      (objectives : Dict (Value fl.F)) (penalty : Option (Value fl.F)) (status : Status)
      (cfg : ObjectiveCfg fl.F) {out : Dict (Value fl.F) × Option fl.F}
      → normalize_objectives fl objectives penalty status cfg ≡ some out
      → Fits (objective_names cfg) (is_ok status) out.0 out.1
  unfolding normalize_objectives
  normalize_objectives-Fits objectives penalty status cfg {out} e =
      split (not (same_names fl (objective_names cfg) objectives)) (is_ok status) (is_some penalty)
        (any_of (λ name. not (is_null fl (lookup name objectives))) (objective_names cfg)) e
    where
      split :
          (bad is_good given full : Bool)
          → (if bad
              then none
              else if is_good
              then (if given then none else (do
                values ← normalize_numbers fl (objective_names cfg) objectives
                some (values, none)))
              else (do
                value ← normalize_penalty fl penalty
                if full
                    then none
                    else some (clear_values fl (objective_names cfg) objectives, value)))
            ≡ some out
          → Fits (objective_names cfg) is_good out.0 out.1
      split true is_good given full e = cc
      split false true true full e = cc
      split false true false full e =
          let names = objective_names cfg in
          let (values, made, same) =
            >>=-eq-some (normalize_numbers fl names objectives) (λ values. some (values, none)) e in
          subst (λ o. Fits names true o.0 o.1) (some_injective (values, none) out same)
            ((normalize_numbers-IsNumberAt names objectives made).0, refl)
      split false false given true e =
          let (value, made, same) = >>=-eq-some (normalize_penalty fl penalty) (λ _. none) e in cc
      split false false given false e =
          let names = objective_names cfg in
          let (value, made, same) =
            >>=-eq-some (normalize_penalty fl penalty)
              (λ value. some (clear_values fl names objectives, value)) e in
          subst (λ o. Fits names false o.0 o.1)
            (some_injective (clear_values fl names objectives, value) out same)
            (clear_values-IsNullAt names objectives).0

  -- A terminal reason for every status but ok.
  abbrev pub HasReason : Bool → Option String → Type 0
  HasReason true reason = reason ≡ none
  HasReason false reason = (text : String) × (reason ≡ some text)

  normalize_terminal_reason-HasReason :
      (terminal legacy : Option String) (status : Status)
      → HasReason (is_ok status) (normalize_terminal_reason terminal legacy status)
  unfolding normalize_terminal_reason
  normalize_terminal_reason-HasReason terminal legacy status = split (is_ok status)
    where
      split :
          (b : Bool)
          → HasReason b (
              if b
              then none
              else some (first_reason (normalize_reason terminal) (normalize_reason legacy) status))
      split true = refl
      split false = (_, refl)

  -- A payload that is normalized keeps its trial id and values. With status ok, every objective
  -- has become a finite float, and there is no penalty and no terminal reason; with any other
  -- status every objective is null and there is a terminal reason.
  pub normalize_ingest_payload-Fits :
      (payload : Payload fl.F) (cfg : ObjectiveCfg fl.F) {r : Report fl.F}
      → normalize_ingest_payload fl payload cfg ≡ some r
      → (r.trial_id ≡ payload.trial_id)
        × (r.params ≡ payload.params)
        × Fits (objective_names cfg) (is_ok r.status) r.objectives r.penalty_objective
        × HasReason (is_ok r.status) r.terminal_reason
  unfolding normalize_ingest_payload
  normalize_ingest_payload-Fits payload cfg {r} e =
      let (status, read, rest) = >>=-eq-some (normalize_status payload.status) _ e in
      let (outcome, made, same) =
        >>=-eq-some
          (normalize_objectives fl payload.objectives payload.penalty_objective status cfg) _
          rest in
      subst
        (λ r.
          (r.trial_id ≡ payload.trial_id)
          × (r.params ≡ payload.params)
          × Fits (objective_names cfg) (is_ok r.status) r.objectives r.penalty_objective
          × HasReason (is_ok r.status) r.terminal_reason)
        (some_injective _ r same)
        (
          refl,
          refl,
          normalize_objectives-Fits payload.objectives payload.penalty_objective status cfg made,
          normalize_terminal_reason-HasReason payload.terminal_reason payload.failure_reason status,
        )
