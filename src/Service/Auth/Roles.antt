-- ===== src/Service/Auth/Roles.antt =====
-- The role of a token, in service/auth.py.
use looptimum.Prelude.{
  ℕ, true, false, Option, none, some, List, [], ◌∷◌, ◌≡◌, refl, sym, ap, ◌∙◌, subst, inl, inr, ◌↔◌,
  ◌≤◌, Among, Bool-cases, Option-cases, if◌then◌else◌, ltb, arith,
}
use looptimum.Prelude.Exec.{Result, ok, err}
use looptimum.Service.Auth.{
  Role, role_order, OidcConfig, Claim, text, items, other, AuthFailure, bad_roles, non_empty, strip,
  get_entry, role_values, map_roles, max_role, highest_role, resolve_role_from_claims,
}
use looptimum.Service.Auth.Login.{answered, Says, role_values-Among, non_empty-Among}

module _ (mapping : List (List ℕ × Role)) where
  abbrev one_more : List (List ℕ) → Option Role → List Role
  one_more values none = map_roles mapping values
  one_more values (some role) = role ∷ map_roles mapping values

  map_roles-skip :
      (v : List ℕ) (values : List (List ℕ))
      → get_entry v mapping ≡ none
      → map_roles mapping (v ∷ values) ≡ map_roles mapping values
  unfolding map_roles
  map_roles-skip v values e = ap (one_more values) e

  map_roles-cons :
      (v : List ℕ) (values : List (List ℕ)) {s : Role}
      → get_entry v mapping ≡ some s
      → map_roles mapping (v ∷ values) ≡ s ∷ map_roles mapping values
  unfolding map_roles
  map_roles-cons v values e = ap (one_more values) e

  map_roles-nil : map_roles mapping [] ≡ []
  unfolding map_roles
  map_roles-nil = refl

  -- A value of the list is mapped to the role.
  abbrev Gives : Role → List (List ℕ) → Type 0
  Gives r values = (v : List ℕ) × Among v values × (get_entry v mapping ≡ some r)

  map_roles-Among :
      (r : Role) (values : List (List ℕ)) → Among r (map_roles mapping values) ↔ Gives r values
  map_roles-Among r [] = (λ h. absurd (subst (λ rs. Among r rs) map_roles-nil h), λ h. absurd h.1)
  map_roles-Among r (v ∷ values) = elim (Option-cases (get_entry v mapping)) [
    | inl missing ↦
        subst (λ rs. Among r rs ↔ Gives r (v ∷ values)) (sym (map_roles-skip v values missing))
          (
            λ h. let (w, at, e) = (map_roles-Among r values).0 h in (w, inr at, e),
            λ h.
                let (w, at, e) = h in
                elim at [
                  | inl same ↦
                      let gone : get_entry w mapping ≡ none =
                        subst (λ u. get_entry u mapping ≡ none) same missing in
                      absurd (ground arith)
                  | inr later ↦ (map_roles-Among r values).1 (w, later, e)
                ],
          )
    | inr (s, found) ↦
        subst (λ rs. Among r rs ↔ Gives r (v ∷ values)) (sym (map_roles-cons v values found))
          (
            λ h. elim h [
              | inl same ↦ (v, inl refl, found ∙ ap some same)
              | inr later ↦ let (w, at, e) = (map_roles-Among r values).0 later in (w, inr at, e)
            ],
            λ h.
                let (w, at, e) = h in
                elim at [
                  | inl same ↦
                      let both : some s ≡ some r =
                        sym found ∙ ap (λ u. get_entry u mapping) same ∙ e in
                      inl cc
                  | inr later ↦ inr ((map_roles-Among r values).1 (w, later, e))
                ],
          )
  ]

max_role-next :
    (r next : Role) (rs : List Role)
    → ltb (role_order r) (role_order next) ≡ true
    → max_role r (next ∷ rs) ≡ max_role next rs
unfolding max_role
max_role-next r next rs e = ap (λ b. max_role (if b then next else r) rs) e

max_role-keep :
    (r next : Role) (rs : List Role)
    → ltb (role_order r) (role_order next) ≡ false
    → max_role r (next ∷ rs) ≡ max_role r rs
unfolding max_role
max_role-keep r next rs e = ap (λ b. max_role (if b then next else r) rs) e

max_role-nil : (r : Role) → max_role r [] ≡ r
unfolding max_role
max_role-nil r = refl

-- The greatest of the roles.
abbrev IsMax : List Role → Role → Type 0
IsMax rs m = Among m rs × ((s : Role) → Among s rs → role_order s ≤ role_order m)

max_role-IsMax : (r : Role) (rs : List Role) → IsMax (r ∷ rs) (max_role r rs)
max_role-IsMax r [] = subst (IsMax (r ∷ [])) (sym (max_role-nil r)) (
  inl refl,
  λ s h. elim h [
    | inl same ↦ subst (λ t. role_order t ≤ role_order r) same (omega arith)
    | inr no_ ↦ absurd no_
  ],
)
max_role-IsMax r (next ∷ rs) = elim (Bool-cases (ltb (role_order r) (role_order next))) [
  | inl e ↦
      let (from, upper) = max_role-IsMax next rs in
      let above = upper next (inl refl) in
      subst (IsMax (r ∷ next ∷ rs)) (sym (max_role-next r next rs e)) (
        inr from,
        λ s h. elim h [
          | inl same ↦ subst (λ t. role_order t ≤ role_order (max_role next rs)) same (ground arith)
          | inr at ↦ upper s at
        ],
      )
  | inr e ↦
      let (from, upper) = max_role-IsMax r rs in
      let above = upper r (inl refl) in
      subst (IsMax (r ∷ next ∷ rs)) (sym (max_role-keep r next rs e)) (
        elim from [ inl same ↦ inl same | inr at ↦ inr (inr at) ],
        λ s h. elim h [
          | inl same ↦ upper s (inl same)
          | inr (inl same) ↦
              subst (λ t. role_order t ≤ role_order (max_role r rs)) same (ground arith)
          | inr (inr at) ↦ upper s (inr at)
        ],
      )
]

highest_role-IsMax : (rs : List Role) {role : Role} → highest_role rs ≡ ok role → IsMax rs role
unfolding highest_role
highest_role-IsMax [] e = absurd (ground arith)
highest_role-IsMax (r ∷ rs) e = subst (IsMax (r ∷ rs)) (answered e) (max_role-IsMax r rs)

-- The role is mapped from one of the said values, and none of them is mapped to a higher one.
pub record IsHighest (mapping : List (List ℕ × Role)) (claim : Option Claim) (role : Role)
    : Type 0 where
  pub said : (v : List ℕ) × Says v claim × (get_entry v mapping ≡ some role)
  pub upper :
      (v : List ℕ) (r : Role)
      → Says v claim
      → get_entry v mapping ≡ some r
      → role_order r ≤ role_order role

highest_role-IsHighest :
    (mapping : List (List ℕ × Role)) (claim : Option Claim) (values : List (List ℕ)) {role : Role}
    → ((v : List ℕ) → Among v values ↔ Says v claim)
    → highest_role (map_roles mapping values) ≡ ok role
    → IsHighest mapping claim role
highest_role-IsHighest mapping claim values {role} said e = record {
  said =
      let (v, at, found) =
        (map_roles-Among mapping role values).0
          (highest_role-IsMax (map_roles mapping values) e).0 in
      (v, (said v).0 at, found);
  upper = λ v r says found.
      (highest_role-IsMax (map_roles mapping values) e).1 r
        ((map_roles-Among mapping r values).1 (v, (said v).1 says, found));
}

pub resolve_role_from_claims-IsHighest :
    (config : OidcConfig) (claims : List (List ℕ × Claim)) {role : Role}
    → resolve_role_from_claims config claims ≡ ok role
    → IsHighest config.role_mapping (get_entry config.role_claim claims) role
unfolding resolve_role_from_claims
resolve_role_from_claims-IsHighest config claims {role} e =
    go (get_entry config.role_claim claims) e
  where
    go :
        (claim : Option Claim)
        → (elim claim as (λ _. Result AuthFailure Role) [
          | some (text value) ↦
              highest_role (map_roles config.role_mapping (non_empty (strip value) []))
          | some (items values) ↦ highest_role (map_roles config.role_mapping (role_values values))
          | some other ↦ err bad_roles
          | none ↦ err bad_roles
        ])
          ≡ ok role
        → IsHighest config.role_mapping claim role
    go (some (text t)) e =
        highest_role-IsHighest config.role_mapping (some (text t)) (non_empty (strip t) [])
          (λ v. (
            λ h. elim ((non_empty-Among v (strip t) []).0 h) [
              | inl here ↦ here
              | inr later ↦ absurd later
            ],
            λ h. (non_empty-Among v (strip t) []).1 (inl h),
          ))
          e
    go (some (items ts)) e =
        highest_role-IsHighest config.role_mapping (some (items ts)) (role_values ts)
          (λ v. role_values-Among v ts) e
    go (some other) e = absurd (ground arith)
    go none e = absurd (ground arith)
