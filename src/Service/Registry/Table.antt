-- ===== src/Service/Registry/Table.antt =====
-- The list of the registered campaigns, in service/registry.py.
use looptimum.Prelude.{
  ℕ, Bool, true, false, Option, none, some, List, [], ◌∷◌, ◌++◌, ◌≡◌, ◌≢◌, refl, sym, ap, ◌∙◌,
  subst, ◌⊎◌, inl, inr, ◌↔◌, Among, find_first, any_of, same_codes, same_codes_refl, same_codes-eq,
  Bool-cases, arith,
}
use looptimum.Prelude.Exec.{Result, ok, err}
use looptimum.Service.Registry.{
  RegistryError, CampaignRecord, insert_campaign, sort_campaigns, codes_lt, find_campaign,
}

module _ {A : Type 0} (p : A → Bool) where
  find_first-none : (xs : List A) (a : A) → find_first p xs ≡ none → Among a xs → p a ≡ false
  find_first-none [] a e h = absurd h
  find_first-none (x ∷ xs) a e (inl same) = subst (λ y. p y ≡ false) same (ground arith)
  find_first-none (x ∷ xs) a e (inr h) = find_first-none xs a (ground arith) h

  find_first-some : (xs : List A) {a : A} → find_first p xs ≡ some a → Among a xs × (p a ≡ true)
  find_first-some [] e = cc
  find_first-some (x ∷ xs) {a} e = elim (Bool-cases (p x)) [
    | inl here ↦ let same : x ≡ a = ground arith in (inl same, subst (λ y. p y ≡ true) same here)
    | inr there ↦
        let (among, holds) = find_first-some xs {a = a} (ground arith) in (inr among, holds)
  ]

  pub any_of-false : (xs : List A) (a : A) → any_of p xs ≡ false → Among a xs → p a ≡ false
  any_of-false [] a e h = absurd h
  any_of-false (x ∷ xs) a e (inl same) = subst (λ y. p y ≡ false) same (ground arith)
  any_of-false (x ∷ xs) a e (inr h) = any_of-false xs a (ground arith) h

pub Among-append_last :
    {A : Type 0} (xs : List A) (x a : A) → Among a (xs ++ x ∷ []) ↔ (Among a xs ⊎ (x ≡ a))
Among-append_last [] x a = (
  λ h. elim h [ inl e ↦ inr e | inr no_ ↦ absurd no_ ],
  λ h. elim h [ inl no_ ↦ absurd no_ | inr e ↦ inl e ],
)
Among-append_last (y ∷ xs) x a =
    let (there, back) = Among-append_last xs x a in
    (
      λ h. elim h [
        | inl e ↦ inl (inl e)
        | inr rest ↦ elim (there rest) [ inl old ↦ inl (inr old) | inr new ↦ inr new ]
      ],
      λ h. elim h [
        | inl (inl e) ↦ inl e
        | inl (inr old) ↦ inr (back (inl old))
        | inr new ↦ inr (back (inr new))
      ],
    )

module _ {F : Type 0} where
  insert_campaign-Among :
      (r a : CampaignRecord F) (rs : List (CampaignRecord F))
      → Among a (insert_campaign r rs) ↔ ((r ≡ a) ⊎ Among a rs)
  unfolding insert_campaign
  insert_campaign-Among r a [] = (λ h. h, λ h. h)
  insert_campaign-Among r a (s ∷ ss) = elim (Bool-cases (codes_lt s.campaign_id r.campaign_id)) [
    | inl e ↦ rw e (
      λ h. elim h [
        | inl first ↦ inr (inl first)
        | inr later ↦ elim ((insert_campaign-Among r a ss).0 later) [
          | inl new ↦ inl new
          | inr old ↦ inr (inr old)
        ]
      ],
      λ h. elim h [
        | inl new ↦ inr ((insert_campaign-Among r a ss).1 (inl new))
        | inr (inl first) ↦ inl first
        | inr (inr old) ↦ inr ((insert_campaign-Among r a ss).1 (inr old))
      ],
    )
    | inr e ↦ rw e (λ h. h, λ h. h)
  ]

  pub sort_campaigns-Among :
      (a : CampaignRecord F) (rs : List (CampaignRecord F))
      → Among a (sort_campaigns rs) ↔ Among a rs
  unfolding sort_campaigns
  sort_campaigns-Among a [] = (λ h. h, λ h. h)
  sort_campaigns-Among a (r ∷ rs) =
      let (there, back) = insert_campaign-Among r a (sort_campaigns rs) in
      let (to, from) = sort_campaigns-Among a rs in
      (
        λ h. elim (there h) [ inl e ↦ inl e | inr old ↦ inr (to old) ],
        λ h. back (elim h [ inl e ↦ inl e | inr old ↦ inr (from old) ]),
      )

  -- Two registered campaigns have different ids and different roots.
  pub record IsRegistry (campaigns : List (CampaignRecord F)) : Type 0 where
    pub own_id :
        (r s : CampaignRecord F)
        → Among r campaigns
        → Among s campaigns
        → r.campaign_id ≡ s.campaign_id
        → r ≡ s
    pub own_root :
        (r s : CampaignRecord F)
        → Among r campaigns
        → Among s campaigns
        → r.root_path ≡ s.root_path
        → r ≡ s

  pub find_campaign-Among :
      (rs : List (CampaignRecord F)) (r : CampaignRecord F)
      → IsRegistry rs
      → Among r rs
      → find_campaign r.campaign_id (sort_campaigns rs) ≡ ok r
  unfolding find_campaign
  find_campaign-Among rs r h among = go (find_first p (sort_campaigns rs)) refl
    where
      p : CampaignRecord F → Bool
      p = λ s. same_codes s.campaign_id r.campaign_id

      go :
          (found : Option (CampaignRecord F))
          → find_first p (sort_campaigns rs) ≡ found
          → (elim found as (λ _. Result RegistryError (CampaignRecord F)) [
            | none ↦ err RegistryError.campaign_not_found
            | some s ↦ ok s
          ])
            ≡ ok r
      go none e =
          let missed =
            find_first-none p (sort_campaigns rs) r e ((sort_campaigns-Among r rs).1 among) in
          absurd (ground (arith, same_codes_refl r.campaign_id))
      go (some s) e =
          let (at, same) = find_first-some p (sort_campaigns rs) e in
          ap ok (
            h.own_id s r ((sort_campaigns-Among s rs).0 at) among
              (same_codes-eq s.campaign_id r.campaign_id same))

  pub find_campaign_sound :
      (rs : List (CampaignRecord F)) (target : List ℕ) {r : CampaignRecord F}
      → find_campaign target (sort_campaigns rs) ≡ ok r
      → Among r rs × (r.campaign_id ≡ target)
  unfolding find_campaign
  find_campaign_sound rs target {r} e =
      go (find_first (λ s. same_codes s.campaign_id target) (sort_campaigns rs)) refl e
    where
      go :
          (found : Option (CampaignRecord F))
          → find_first (λ s. same_codes s.campaign_id target) (sort_campaigns rs) ≡ found
          → (elim found as (λ _. Result RegistryError (CampaignRecord F)) [
            | none ↦ err RegistryError.campaign_not_found
            | some s ↦ ok s
          ])
            ≡ ok r
          → Among r rs × (r.campaign_id ≡ target)
      go none f e = absurd (ground arith)
      go (some s) f e =
          let (at, same) =
            find_first-some (λ s. same_codes s.campaign_id target) (sort_campaigns rs) f in
          let eq : s ≡ r = ground arith in
          subst (λ q. Among q rs × (q.campaign_id ≡ target)) eq
            ((sort_campaigns-Among s rs).0 at, same_codes-eq s.campaign_id target same)

  pub add-IsRegistry :
      (rs : List (CampaignRecord F)) (new : CampaignRecord F)
      → IsRegistry rs
      → any_of (λ r. same_codes r.campaign_id new.campaign_id) rs ≡ false
      → any_of (λ r. same_codes r.root_path new.root_path) rs ≡ false
      → IsRegistry (sort_campaigns (rs ++ new ∷ []))
  add-IsRegistry rs new h ids roots = record {
    own_id = λ r s at_r at_s same.
        split (λ x. x.campaign_id) ids h.own_id r s (from r at_r) (from s at_s) same;
    own_root = λ r s at_r at_s same.
        split (λ x. x.root_path) roots h.own_root r s (from r at_r) (from s at_s) same;
  }
    where
      from :
          (r : CampaignRecord F)
          → Among r (sort_campaigns (rs ++ new ∷ []))
          → Among r rs ⊎ (new ≡ r)
      from r at = (Among-append_last rs new r).0 ((sort_campaigns-Among r (rs ++ new ∷ [])).0 at)

      clash :
          (f : CampaignRecord F → List ℕ)
          → any_of (λ r. same_codes (f r) (f new)) rs ≡ false
          → (r : CampaignRecord F) → Among r rs
          → f r ≢ f new
      clash f none_ r at same =
          let differs = any_of-false (λ r. same_codes (f r) (f new)) rs r none_ at in
          let eq : same_codes (f r) (f new) ≡ true =
            subst (λ t. same_codes (f r) t ≡ true) same (same_codes_refl (f r)) in
          ground arith

      split :
          (f : CampaignRecord F → List ℕ)
          → any_of (λ r. same_codes (f r) (f new)) rs ≡ false
          → ((r s : CampaignRecord F) → Among r rs → Among s rs → f r ≡ f s → r ≡ s)
          → (r s : CampaignRecord F) → Among r rs ⊎ (new ≡ r)
          → Among s rs ⊎ (new ≡ s)
          → f r ≡ f s
          → r ≡ s
      split f none_ own r s (inl at_r) (inl at_s) same = own r s at_r at_s same
      split f none_ own r s (inl at_r) (inr e) same =
          absurd (clash f none_ r at_r (same ∙ ap f (sym e)))
      split f none_ own r s (inr e) (inl at_s) same =
          absurd (clash f none_ s at_s (sym same ∙ ap f (sym e)))
      split f none_ own r s (inr e) (inr e') same = sym e ∙ e'
