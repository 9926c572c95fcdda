-- ===== src/Constraints/Feasible.antt =====
-- What a feasible candidate is, for evaluate_constraints of templates/_shared/constraints.py.
use looptimum.Prelude.{
  Bool, true, false, not, ◌&&◌, Option, none, some, String, List, [], ◌∷◌, ◌++◌, ◌≡◌, refl, sym, ap,
  ◌∙◌, subst, inl, inr, ◌↔◌, lookup, has_key, any_of, all_of, is_nil, Among, Bool-cases,
  if◌then◌else◌, arith,
}
use looptimum.Prelude.Maybe.{◌>>=◌, >>=-eq-some}
use looptimum.Float.{Float}
use looptimum.Values.{Value, Dict}
use looptimum.Space.{allows}
use looptimum.Constraints.{
  BoundRule, LinearRule, ForbiddenRule, Constraints, Violation, Evaluation, below_min, above_max,
  breaks_bounds, broken_rules, judge_bound, finite_value, is_bound_broken, left_side, side_holds,
  is_linear_broken, match_allowed_values, evaluate_bound_tightening, evaluate_linear_inequalities,
  evaluate_forbidden_combinations, evaluation_of, all_violations, evaluate_constraints,
}

all_of-false :
    {A : Type 0} (p : A → Bool) (xs : List A)
    → (all_of p xs ≡ false) ↔ ((x : A) × Among x xs × (p x ≡ false))
all_of-false p [] = (λ e. absurd (ground arith), λ h. absurd h.1)
all_of-false p (x ∷ xs) = elim (Bool-cases (p x)) [
  | inl e ↦ (
    λ h. let (y, at, fails) = (all_of-false p xs).0 (ground arith) in (y, inr at, fails),
    λ h.
        let (y, at, fails) = h in
        elim at [
          | inl same ↦
              let holds : p y ≡ true = subst (λ z. p z ≡ true) same e in absurd (ground arith)
          | inr later ↦ let rest = (all_of-false p xs).1 (y, later, fails) in ground arith
        ],
  )
  | inr e ↦ (λ h. (x, inl refl, e), λ h. ground arith)
]

any_of_missing :
    {A : Type 0} (p : A → Bool) (xs : List A)
    → any_of (λ x. not (p x)) xs ≡ true
    → (x : A) × Among x xs × (p x ≡ false)
any_of_missing p [] e = absurd (ground arith)
any_of_missing p (x ∷ xs) e = elim (Bool-cases (p x)) [
  | inl holds ↦ let (y, at, fails) = any_of_missing p xs (ground arith) in (y, inr at, fails)
  | inr fails ↦ (x, inl refl, fails)
]

any_of_present :
    {A : Type 0} (p : A → Bool) (xs : List A)
    → any_of (λ x. not (p x)) xs ≡ false
    → (x : A) → Among x xs
    → p x ≡ true
any_of_present p [] e x at = absurd at
any_of_present p (y ∷ ys) e x (inl same) = subst (λ z. p z ≡ true) same (ground arith)
any_of_present p (y ∷ ys) e x (inr at) = any_of_present p ys (ground arith) x at

is_nil-append : {A : Type 0} (xs ys : List A) → is_nil (xs ++ ys) ≡ (is_nil xs && is_nil ys)
is_nil-append [] ys = refl
is_nil-append (x ∷ xs) ys = refl

module _ {R : Type 0} (is_broken : R → Option Bool) (violation : R → Violation) where
  -- Each rule is decided, and the list of the broken ones is empty exactly if none is broken.
  broken_rules-nil :
      (rules : List R) {out : List Violation}
      → broken_rules is_broken violation rules ≡ some out
      → (is_nil out ≡ true) ↔ ((r : R) → Among r rules → is_broken r ≡ some false)
  unfolding broken_rules
  broken_rules-nil [] {out} e = (λ n r at. absurd at, λ h. ground arith)
  broken_rules-nil (rule ∷ rules) {out} e =
      let (broken, decided, e1) = >>=-eq-some (is_broken rule) _ e in
      let (rest, later, e2) = >>=-eq-some (broken_rules is_broken violation rules) _ e1 in
      let (to, from) = broken_rules-nil rules {out = rest} later in
      elim (Bool-cases broken) [
        | inl is_broken ↦
            (λ n. absurd (ground arith), λ h. let kept = h rule (inl refl) in absurd (ground arith))
        | inr no_ ↦
            let same_rest : rest ≡ out = ground arith in
            (
              λ n r at. elim at [
                | inl same ↦ subst (λ q. is_broken q ≡ some false) same (decided ∙ ap some no_)
                | inr tail ↦ to (subst (λ o. is_nil o ≡ true) (sym same_rest) n) r tail
              ],
              λ h. subst (λ o. is_nil o ≡ true) same_rest (from (λ r at. h r (inr at))),
            )
      ]

  broken_rules-decides :
      (rules : List R) {out : List Violation}
      → broken_rules is_broken violation rules ≡ some out
      → (r : R) → Among r rules
      → (b : Bool) × (is_broken r ≡ some b)
  unfolding broken_rules
  broken_rules-decides [] e r at = absurd at
  broken_rules-decides (rule ∷ rules) e r at =
      let (broken, decided, e1) = >>=-eq-some (is_broken rule) _ e in
      let (rest, later, e2) = >>=-eq-some (broken_rules is_broken violation rules) _ e1 in
      elim at [
        | inl same ↦ (broken, subst (λ q. is_broken q ≡ some broken) same decided)
        | inr tail ↦ broken_rules-decides rules later r tail
      ]

module _ (fl : Float) (values : Dict (Value fl.F)) where
  evaluate_forbidden_combinations-nil :
      (rules : List (ForbiddenRule fl.F))
      → (is_nil (evaluate_forbidden_combinations fl values rules) ≡ true)
        ↔ ((r : ForbiddenRule fl.F) → Among r rules → match_allowed_values fl values r.when ≡ false)
  unfolding evaluate_forbidden_combinations
  evaluate_forbidden_combinations-nil [] = (λ e r at. absurd at, λ h. refl)
  evaluate_forbidden_combinations-nil (rule ∷ rules) =
      elim (Bool-cases (match_allowed_values fl values rule.when)) [
        | inl broken ↦
            (λ e. absurd (ground arith), λ h. let kept = h rule (inl refl) in absurd (ground arith))
        | inr kept ↦
            let (to, from) = evaluate_forbidden_combinations-nil rules in
            (
              λ e r at. elim at [
                | inl same ↦
                    subst
                      (λ (q : ForbiddenRule fl.F). match_allowed_values fl values q.when ≡ false)
                      same kept
                | inr later ↦ to (ground arith) r later
              ],
              λ h. let rest = from (λ r at. h r (inr at)) in ground arith,
            )
      ]

  -- A value that is there and finite stays within the bounds, up to the tolerance.
  abbrev pub InBounds : BoundRule fl.F → Type 0
  InBounds rule =
      (x : fl.F)
      → finite_value fl (lookup rule.param values) ≡ some (some x)
      → (below_min fl rule.min x ≡ false) × (above_max fl rule.max x ≡ false)

  -- The inequality holds where all its parameters have values.
  abbrev pub HoldsLinear : LinearRule fl.F → Type 0
  HoldsLinear rule =
      ((term : String × fl.F) → Among term rule.terms → has_key term.0 values ≡ true)
      → (lhs : fl.F) × (left_side fl values rule.terms fl.zero ≡ some lhs)
        × (side_holds fl rule.operator lhs rule.rhs ≡ true)

  -- A condition of the rule fails.
  abbrev pub Differs : ForbiddenRule fl.F → Type 0
  Differs rule =
      (c : String × List (Value fl.F)) × Among c rule.when
      × (allows fl (lookup c.0 values) c.1 ≡ false)

  -- A candidate that breaks no rule.
  pub record IsFeasible (constraints : Constraints fl.F) : Type 0 where
    pub bounds : (r : BoundRule fl.F) → Among r constraints.bound_tightening → InBounds r
    pub linear : (r : LinearRule fl.F) → Among r constraints.linear_inequalities → HoldsLinear r
    pub differs : (r : ForbiddenRule fl.F) → Among r constraints.forbidden_combinations → Differs r

  is_bound_broken-InBounds :
      (r : BoundRule fl.F) {broken : Bool}
      → is_bound_broken fl values r ≡ some broken
      → (is_bound_broken fl values r ≡ some false) ↔ InBounds r
  unfolding is_bound_broken breaks_bounds judge_bound
  is_bound_broken-InBounds r {broken} = go (finite_value fl (lookup r.param values))
    where
      go :
          (found : Option (Option fl.F))
          → (found >>= judge_bound fl r) ≡ some broken
          → ((found >>= judge_bound fl r) ≡ some false) ↔ (
              (x : fl.F)
              → found ≡ some (some x)
              → (below_min fl r.min x ≡ false) × (above_max fl r.max x ≡ false))
      go none d = absurd (ground arith)
      go (some none) d = (λ e x f. absurd (ground arith), λ h. refl)
      go (some (some y)) d = elim (Bool-cases (below_min fl r.min y)) [
        | inl below ↦
            (λ e. absurd (ground arith), λ h. let kept = (h y refl).0 in absurd (ground arith))
        | inr kept ↦ (
          λ e x f.
              let same : y ≡ x = cc in
              subst (λ z. (below_min fl r.min z ≡ false) × (above_max fl r.max z ≡ false)) same
                (kept, ground arith),
          λ h. let above = (h y refl).1 in ground arith,
        )
      ]

  abbrev lacks : LinearRule fl.F → Bool
  lacks r = any_of (λ term. not (has_key term.0 values)) r.terms

  abbrev judged : LinearRule fl.F → Option Bool
  judged r = do
    lhs ← left_side fl values r.terms fl.zero
    some (not (side_holds fl r.operator lhs r.rhs))

  is_linear_broken-lacks :
      (r : LinearRule fl.F) → lacks r ≡ true → is_linear_broken fl values r ≡ some false
  unfolding is_linear_broken
  is_linear_broken-lacks r e = ap (λ b. if b then some false else judged r) e

  is_linear_broken-judged :
      (r : LinearRule fl.F) → lacks r ≡ false → is_linear_broken fl values r ≡ judged r
  unfolding is_linear_broken
  is_linear_broken-judged r e = ap (λ b. if b then some false else judged r) e

  is_linear_broken-HoldsLinear :
      (r : LinearRule fl.F) {broken : Bool}
      → is_linear_broken fl values r ≡ some broken
      → (is_linear_broken fl values r ≡ some false) ↔ HoldsLinear r
  is_linear_broken-HoldsLinear r {broken} decided = elim (Bool-cases (lacks r)) [
    | inl e ↦ (
      λ d present.
          let (term, at, fails) = any_of_missing (λ t. has_key t.0 values) r.terms e in
          let there = present term at in absurd (ground arith),
      λ h. is_linear_broken-lacks r e,
    )
    | inr e ↦
        let (lhs, found, side) =
          >>=-eq-some (left_side fl values r.terms fl.zero) _
            (sym (is_linear_broken-judged r e) ∙ decided) in
        let is_side : not (side_holds fl r.operator lhs r.rhs) ≡ broken = cc in
        (
          λ d present.
              let not_broken : broken ≡ false =
                let both : some broken ≡ some false = sym decided ∙ d in cc in
              (lhs, found, ground arith),
          λ h.
              let (other, is_other, holds) =
                h (any_of_present (λ t. has_key t.0 values) r.terms e) in
              let same : other ≡ lhs =
                let both : some other ≡ some lhs = sym is_other ∙ found in cc in
              let right : side_holds fl r.operator lhs r.rhs ≡ true =
                subst (λ l. side_holds fl r.operator l r.rhs ≡ true) same holds in
              decided ∙ ap some (sym is_side ∙ ap not right),
        )
  ]

  match_allowed_values-Differs :
      (r : ForbiddenRule fl.F) → (match_allowed_values fl values r.when ≡ false) ↔ Differs r
  unfolding match_allowed_values
  match_allowed_values-Differs r =
      all_of-false (λ (c : String × List (Value fl.F)). allows fl (lookup c.0 values) c.1) r.when

  all_violations-nil :
      (constraints : Constraints fl.F) {bounds linear : List Violation}
      → evaluate_bound_tightening fl values constraints.bound_tightening ≡ some bounds
      → evaluate_linear_inequalities fl values constraints.linear_inequalities ≡ some linear
      → (is_nil (all_violations fl values constraints bounds linear) ≡ true)
        ↔ IsFeasible constraints
  unfolding evaluate_bound_tightening evaluate_linear_inequalities
  all_violations-nil constraints {bounds} {linear} d e =
      let forbidden =
        evaluate_forbidden_combinations fl values constraints.forbidden_combinations in
      let split = is_nil-append bounds (linear ++ forbidden) in
      let split_rest = is_nil-append linear forbidden in
      let (b_to, b_from) = broken_rules-nil _ _ constraints.bound_tightening {out = bounds} d in
      let (l_to, l_from) = broken_rules-nil _ _ constraints.linear_inequalities {out = linear} e in
      let (f_to, f_from) = evaluate_forbidden_combinations-nil constraints.forbidden_combinations in
      let decided : (r : LinearRule fl.F)
          → Among r constraints.linear_inequalities
          → (is_linear_broken fl values r ≡ some false) ↔ HoldsLinear r =
        λ r at.
          let (b, judged) = broken_rules-decides _ _ constraints.linear_inequalities e r at in
          is_linear_broken-HoldsLinear r {broken = b} judged in
      let bounded : (r : BoundRule fl.F)
          → Among r constraints.bound_tightening
          → (is_bound_broken fl values r ≡ some false) ↔ InBounds r =
        λ r at.
          let (b, judged) = broken_rules-decides _ _ constraints.bound_tightening d r at in
          is_bound_broken-InBounds r {broken = b} judged in
      (
        λ n. record {
          bounds = λ r at. (bounded r at).0 (b_to (ground arith) r at);
          linear = λ r at. (decided r at).0 (l_to (ground arith) r at);
          differs = λ r at. (match_allowed_values-Differs r).0 (f_to (ground arith) r at);
        },
        λ h.
            let no_bounds = b_from (λ r at. (bounded r at).1 (h.bounds r at)) in
            let no_linear = l_from (λ r at. (decided r at).1 (h.linear r at)) in
            let no_forbidden =
              f_from (λ r at. (match_allowed_values-Differs r).1 (h.differs r at)) in
            ground arith,
      )

-- If the constraints can be evaluated, then a candidate is found feasible exactly if each value with
-- a tightened bound that is a finite number keeps it, each inequality whose parameters all have
-- values holds, up to the tolerance, and of each forbidden combination some condition fails.
pub evaluate_constraints-IsFeasible :
    (fl : Float) (values : Dict (Value fl.F)) (constraints : Constraints fl.F) {e : Evaluation}
    → evaluate_constraints fl values constraints ≡ some e
    → (e.feasible ≡ true) ↔ IsFeasible fl values constraints
unfolding evaluate_constraints
evaluate_constraints-IsFeasible fl values constraints {e} h =
    let (bounds, bounded, h1) =
      >>=-eq-some (evaluate_bound_tightening fl values constraints.bound_tightening) _ h in
    let (linear, judged, h2) =
      >>=-eq-some (evaluate_linear_inequalities fl values constraints.linear_inequalities) _ h1 in
    let same : evaluation_of fl (all_violations fl values constraints bounds linear) ≡ e = cc in
    subst (λ (o : Evaluation). (o.feasible ≡ true) ↔ IsFeasible fl values constraints) same
      (all_violations-nil fl values constraints bounded judged)
