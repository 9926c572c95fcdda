-- ===== src/Objectives/Pareto/Dominance.antt =====
-- Dominance of objective vectors in templates/_shared/objectives.py.
use looptimum.Prelude.{
  Bool, true, false, some, String, str_eq, List, [], ◌∷◌, ◌≡◌, refl, sym, ◌∙◌, Among, subst, ◌↔◌,
  inl, inr, map, lookup, All, Bool-cases, if◌then◌else◌, arith,
}
use looptimum.Prelude.Maybe.{>>=-eq-some, some_injective}
use looptimum.Float.{Float, IsOrdered}
use looptimum.Values.{Dict}
use looptimum.Objectives.{
  Objective, ObjectiveCfg, objective_descriptors, objective_names, canonical_objective_vector,
  transformed_value, Direction, minimize, maximize,
}
use looptimum.Objectives.Pareto.{
  as_values, transform, transformed_vector, all_at_most, any_below, dominates,
}
use looptimum.Objectives.Pareto.Vectors.{AllDiffer, lookup_here, canonical-finite}

module _ (fl : Float) where
  -- Both vectors have the objective, and the first is there no worse than the second.
  pub record NoWorse (u v : Dict fl.F) (o : Objective fl.F) : Type 0 where
    pub left : fl.F
    pub right : fl.F
    pub at_left : lookup o.name u ≡ some left
    pub at_right : lookup o.name v ≡ some right
    pub le :
        fl.leb (transformed_value fl o.direction left) (transformed_value fl o.direction right)
        ≡ true

  pub record Better (u v : Dict fl.F) (o : Objective fl.F) : Type 0 where
    pub left : fl.F
    pub right : fl.F
    pub at_left : lookup o.name u ≡ some left
    pub at_right : lookup o.name v ≡ some right
    pub lt :
        fl.ltb (transformed_value fl o.direction left) (transformed_value fl o.direction right)
        ≡ true

  -- Better in one of the objectives.
  abbrev pub Somewhere : Dict fl.F → Dict fl.F → List (Objective fl.F) → Type 0
  Somewhere u v os = (o : Objective fl.F) × Among o os × Better u v o

  -- No worse in any objective, and better in one.
  pub record Dominates (cfg : ObjectiveCfg fl.F) (u v : Dict fl.F) : Type 0 where
    pub everywhere : All (NoWorse u v) (objective_descriptors cfg)
    pub somewhere : Somewhere u v (objective_descriptors cfg)

module _ (fl : Float) where
  -- What a transformed vector has at an objective.
  record At (u t : Dict fl.F) (o : Objective fl.F) : Type 0 where
    value : fl.F
    given : lookup o.name u ≡ some value
    moved : lookup o.name t ≡ some (transformed_value fl o.direction value)

  At-skip :
      (u t : Dict fl.F) (k : String) (w : fl.F) (os : List (Objective fl.F))
      → All (λ name. str_eq k name ≡ false) (map (λ o. o.name) os)
      → All (At u t) os
      → All (At u ((k, w) ∷ t)) os
  unfolding lookup transformed_value
  At-skip u t k w [] d h = tt
  At-skip u t k w (o ∷ os) d h = (
    record { value = h.0.value; given = h.0.given; moved = rw (d.0) (h.0.moved) },
    At-skip u t k w os d.1 h.1,
  )

  transform-At :
      (u : Dict fl.F) (os : List (Objective fl.F)) {t : Dict fl.F}
      → AllDiffer (map (λ o. o.name) os)
      → transform fl u os ≡ some t
      → All (At u t) os
  unfolding transform
  transform-At u [] d e = tt
  transform-At u (o ∷ os) {t} d e =
      let (x, found, more) = >>=-eq-some (lookup o.name u) _ e in
      let (rest, tail, same) = >>=-eq-some (transform fl u os) _ more in
      let here : String × fl.F = (o.name, transformed_value fl o.direction x) in
      subst (λ t'. All (At u t') (o ∷ os)) (some_injective (here ∷ rest) t same)
        (
          record { value = x; given = found; moved = lookup_here o.name here.1 rest },
          At-skip u rest o.name here.1 os d.0 (transform-At u os d.1 tail),
        )

  all_at_most-nil : (t r : Dict fl.F) → all_at_most fl [] t r ≡ some true
  unfolding all_at_most
  all_at_most-nil t r = refl

  any_below-nil : (t r : Dict fl.F) → any_below fl [] t r ≡ some false
  unfolding any_below
  any_below-nil t r = refl

  module _ (u v t r : Dict fl.F) (o : Objective fl.F) (hu : At u t o) (hv : At v r o) where
    abbrev moved_left : fl.F
    moved_left = transformed_value fl o.direction hu.value

    abbrev moved_right : fl.F
    moved_right = transformed_value fl o.direction hv.value

    NoWorse-le : NoWorse fl u v o → fl.leb moved_left moved_right ≡ true
    NoWorse-le h =
        rw
          (
            some_injective hu.value h.left (sym hu.given ∙ h.at_left),
            some_injective hv.value h.right (sym hv.given ∙ h.at_right),
          )
          (h.le)

    NoWorse-of_le : fl.leb moved_left moved_right ≡ true → NoWorse fl u v o
    NoWorse-of_le le = record {
      left = hu.value;
      right = hv.value;
      at_left = hu.given;
      at_right = hv.given;
      le = le;
    }

    Better-lt : Better fl u v o → fl.ltb moved_left moved_right ≡ true
    Better-lt h =
        rw
          (
            some_injective hu.value h.left (sym hu.given ∙ h.at_left),
            some_injective hv.value h.right (sym hv.given ∙ h.at_right),
          )
          (h.lt)

    Better-of_lt : fl.ltb moved_left moved_right ≡ true → Better fl u v o
    Better-of_lt lt = record {
      left = hu.value;
      right = hv.value;
      at_left = hu.given;
      at_right = hv.given;
      lt = lt;
    }

    all_at_most-cons :
        (os : List (Objective fl.F))
        → all_at_most fl (map (λ o. o.name) (o ∷ os)) t r ≡ (
            if fl.leb moved_left moved_right
            then all_at_most fl (map (λ o. o.name) os) t r
            else some false)
    unfolding all_at_most
    all_at_most-cons os = rw (hu.moved, hv.moved)

    any_below-cons :
        (os : List (Objective fl.F))
        → any_below fl (map (λ o. o.name) (o ∷ os)) t r ≡ (
            if fl.ltb moved_left moved_right
            then some true
            else any_below fl (map (λ o. o.name) os) t r)
    unfolding any_below
    any_below-cons os = rw (hu.moved, hv.moved)

  module _ (u v t r : Dict fl.F) where
    all_at_most_iff :
        (os : List (Objective fl.F)) {b : Bool}
        → All (At u t) os
        → All (At v r) os
        → all_at_most fl (map (λ o. o.name) os) t r ≡ some b
        → (b ≡ true) ↔ All (NoWorse fl u v) os
    all_at_most_iff [] {b} hu hv e =
        (λ _. tt, λ _. sym (some_injective true b (sym (all_at_most-nil t r) ∙ e)))
    all_at_most_iff (o ∷ os) {b} hu hv e =
        let step = sym (all_at_most-cons u v t r o hu.0 hv.0 os) ∙ e in
        elim (Bool-cases
          (fl.leb (moved_left u v t r o hu.0 hv.0) (moved_right u v t r o hu.0 hv.0))) [
            | inl le ↦
                let ih = all_at_most_iff os {b = b} hu.1 hv.1 (ground arith) in
                (λ h. (NoWorse-of_le u v t r o hu.0 hv.0 le, ih.0 h), λ all. ih.1 all.1)
            | inr gt ↦
                let no_ : b ≡ false = ground arith in
                (
                  λ h. absurd (ground arith),
                  λ all. ground (arith, NoWorse-le u v t r o hu.0 hv.0 all.0),
                )
          ]

    any_below_iff :
        (os : List (Objective fl.F)) {b : Bool}
        → All (At u t) os
        → All (At v r) os
        → any_below fl (map (λ o. o.name) os) t r ≡ some b
        → (b ≡ true) ↔ Somewhere fl u v os
    any_below_iff [] {b} hu hv e =
        let none_ : false ≡ b = some_injective false b (sym (any_below-nil t r) ∙ e) in
        (λ h. absurd (ground arith), λ found. absurd found.1)
    any_below_iff (o ∷ os) {b} hu hv e =
        let step = sym (any_below-cons u v t r o hu.0 hv.0 os) ∙ e in
        elim (Bool-cases
          (fl.ltb (moved_left u v t r o hu.0 hv.0) (moved_right u v t r o hu.0 hv.0))) [
            | inl lt ↦
                (λ h. (o, inl refl, Better-of_lt u v t r o hu.0 hv.0 lt), λ some_. ground arith)
            | inr ge ↦
                let ih = any_below_iff os {b = b} hu.1 hv.1 (ground arith) in
                (
                  λ h. let (x, among, better) = ih.0 h in (x, inr among, better),
                  λ found. ih.1 (rest found ge),
                )
          ]
      where
        rest :
            Somewhere fl u v (o ∷ os)
            → fl.ltb (moved_left u v t r o hu.0 hv.0) (moved_right u v t r o hu.0 hv.0) ≡ false
            → Somewhere fl u v os
        rest (x, inl same, better) ge = absurd (
            ground (arith, Better-lt u v t r o hu.0 hv.0 (subst (Better fl u v) (sym same) better)))
        rest (x, inr among, better) ge = (x, among, better)

  module _ (ordered : IsOrdered fl) (cfg : ObjectiveCfg fl.F)
      (differ : AllDiffer (objective_names cfg)) where
    -- A vector that is its own canonical form.
    abbrev pub IsVector : Dict fl.F → Type 0
    IsVector v = canonical_objective_vector fl (as_values v) cfg ≡ some v

    transformed_vector-At :
        (u : Dict fl.F) {t : Dict fl.F}
        → IsVector u
        → transformed_vector fl u cfg ≡ some t
        → All (At u t) (objective_descriptors cfg)
    unfolding transformed_vector objective_names
    transformed_vector-At u h e =
        transform-At u (objective_descriptors cfg) differ (ground (arith, h))

    pub dominates_iff :
        (u v : Dict fl.F) {b : Bool}
        → IsVector u
        → IsVector v
        → dominates fl u v cfg ≡ some b
        → (b ≡ true) ↔ Dominates fl cfg u v
    unfolding dominates objective_names
    dominates_iff u v {b} hu hv e =
        let (t, left, e2) = >>=-eq-some (transformed_vector fl u cfg) _ e in
        let (r, right, e3) = >>=-eq-some (transformed_vector fl v cfg) _ e2 in
        let (all, le, e4) = >>=-eq-some (all_at_most fl (objective_names cfg) t r) _ e3 in
        let at_u = transformed_vector-At u hu left in
        let at_v = transformed_vector-At v hv right in
        let os = objective_descriptors cfg in
        let no_worse = all_at_most_iff u v t r os at_u at_v le in
        elim (Bool-cases all) [
          | inl held ↦
              let better = any_below_iff u v t r os {b = b} at_u at_v (ground arith) in
              (
                λ h. record { everywhere = no_worse.0 held; somewhere = better.0 h },
                λ d. better.1 d.somewhere,
              )
          | inr failed ↦
              (λ h. absurd (ground arith), λ d. absurd (ground (arith, no_worse.1 d.everywhere)))
        ]

    transformed-not_nan :
        (o : Objective fl.F) (v : Dict fl.F) {x : fl.F}
        → IsVector v
        → lookup o.name v ≡ some x
        → fl.is_nan (transformed_value fl o.direction x) ≡ false
    unfolding transformed_value
    transformed-not_nan o v {x} h at = go o.direction
      where
        number : fl.is_nan x ≡ false
        number = ordered.finite_not_nan x (canonical-finite fl cfg (as_values v) o.name h at)

        go : (d : Direction) → fl.is_nan (transformed_value fl d x) ≡ false
        go minimize = number
        go maximize = ordered.neg_not_nan x number

    -- No vector dominates itself.
    pub Dominates-irrefl : (v : Dict fl.F) → IsVector v → ¬ Dominates fl cfg v v
    Dominates-irrefl v h d =
        let (o, _, better) = d.somewhere in
        let same = some_injective better.right better.left (sym better.at_right ∙ better.at_left) in
        let x = transformed_value fl o.direction better.left in
        let number = transformed-not_nan o v h better.at_left in
        let lt : fl.ltb x x ≡ true =
          subst (λ y. fl.ltb x (transformed_value fl o.direction y) ≡ true) same better.lt in
        ground (arith, ordered.ltb_not_leb x x number number, ordered.leb_total x x number number)
