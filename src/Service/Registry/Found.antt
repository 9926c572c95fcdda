-- ===== src/Service/Registry/Found.antt =====
-- Looking up what was registered, in service/registry.py.
use looptimum.Prelude.{
  String, ℕ, Bool, true, false, not, some, List, [], ◌∷◌, ◌++◌, ◌≡◌, refl, sym, ap, ◌∙◌, subst, inl,
  inr, Among, any_of, same_codes, text_mem, arith,
}
use looptimum.Prelude.Exec.{Result, ok}
use looptimum.Prelude.Answer.{first_answer}
use looptimum.Service.Registry.{
  Flag, set_to, no_config, bad_config, flags_no_object, absent, not_boolean, RegistryError,
  CampaignRoot, CampaignRecord, RegistrationRequest, sort_campaigns, find_campaign, get_campaign,
  register_campaign, new_record, normalize_campaign_id, optional_label, validate_campaign_root,
  check_flag, when_, campaign_conflict, root_conflict, required_files, invalid_root,
  preview_disabled,
}
use looptimum.Service.Registry.Names.{
  IsPlain, normalize_campaign_id-again, normalize_campaign_id-IsPlain,
}
use looptimum.Service.Registry.Table.{
  IsRegistry, any_of-false, Among-append_last, sort_campaigns-Among, find_campaign-Among,
  find_campaign_sound, add-IsRegistry,
}

when_-false : (b : Bool) (e : RegistryError) {u : Unit} → when_ b e ≡ ok u → b ≡ false
when_-false true e h = absurd (ground arith)
when_-false false e h = refl

ok_injective : {A : Type 0} {a b : A} → ◌≡◌ {A = Result RegistryError A} (ok a) (ok b) → a ≡ b
ok_injective h = cc

validate_campaign_root-same :
    (given : CampaignRoot) {root : CampaignRoot}
    → validate_campaign_root given ≡ ok root
    → given ≡ root
unfolding validate_campaign_root
validate_campaign_root-same given e =
    let missing = any_of (λ file. not (text_mem file given.files)) required_files in
    let (_, _, e1) = first_answer (when_ (not given.is_directory) invalid_root) _ e in
    let (_, _, e2) = first_answer (when_ missing invalid_root) _ e1 in
    let (_, _, e3) =
      first_answer (check_flag preview_disabled (given.flag "enable_service_api_preview")) _ e2 in
    ok_injective e3

check_flag-eq :
    (disabled : RegistryError) (flag : Flag) {u : Unit}
    → check_flag disabled flag ≡ ok u
    → flag ≡ set_to true
unfolding check_flag
check_flag-eq disabled (set_to true) e = refl
check_flag-eq disabled (set_to false) e = absurd (ground arith)
check_flag-eq disabled absent e = absurd (ground arith)
check_flag-eq disabled no_config e = absurd (ground arith)
check_flag-eq disabled bad_config e = absurd (ground arith)
check_flag-eq disabled flags_no_object e = absurd (ground arith)
check_flag-eq disabled not_boolean e = absurd (ground arith)

-- A directory with the files of a campaign, whose configuration turns the service on.
pub record IsEnabled (root : CampaignRoot) : Type 0 where
  pub directory : root.is_directory ≡ true
  pub files : (file : String) → Among file required_files → text_mem file root.files ≡ true
  pub flag : root.flag "enable_service_api_preview" ≡ set_to true

validate_campaign_root-IsEnabled :
    (given : CampaignRoot) {root : CampaignRoot}
    → validate_campaign_root given ≡ ok root
    → IsEnabled given
unfolding validate_campaign_root
validate_campaign_root-IsEnabled given e =
    let missing = any_of (λ file. not (text_mem file given.files)) required_files in
    let (u, directory, e1) = first_answer (when_ (not given.is_directory) invalid_root) _ e in
    let (v, complete, e2) = first_answer (when_ missing invalid_root) _ e1 in
    let (w, enabled, e3) =
      first_answer (check_flag preview_disabled (given.flag "enable_service_api_preview")) _ e2 in
    let is_directory = when_-false (not given.is_directory) invalid_root {u = u} directory in
    let none_missing = when_-false missing invalid_root {u = v} complete in
    record {
      directory = ground arith;
      files = λ file at.
          let there =
            any_of-false (λ f. not (text_mem f given.files)) required_files file none_missing at in
          ground arith;
      flag =
          check_flag-eq preview_disabled (given.flag "enable_service_api_preview") {u = w} enabled;
    }

module _ (lower : List ℕ → List ℕ) where
  normalize-root :
      (raw one other : List ℕ)
      → normalize_campaign_id lower (some raw) one ≡ normalize_campaign_id lower (some raw) other
  unfolding normalize_campaign_id
  normalize-root raw one other = refl

module _ (lower : List ℕ → List ℕ) {F : Type 0} where
  -- What stands in the registry after a registration.
  pub record Registered (request : RegistrationRequest) (now : F)
      (campaigns after : List (CampaignRecord F)) (new : CampaignRecord F) : Type 0 where
    pub is_enabled : IsEnabled request.root
    pub is_registry : IsRegistry after
    pub root_path : new.root_path ≡ request.root.path
    pub created_at : new.created_at ≡ now
    -- The new campaign is found by its id, and by the id that was asked for.
    pub by_id : get_campaign lower new.campaign_id after ≡ ok new
    pub by_request :
        (raw : List ℕ) → request.campaign_id ≡ some raw → get_campaign lower raw after ≡ ok new
    -- Each other campaign is found as before.
    pub others :
        (name : List ℕ) (r : CampaignRecord F)
        → get_campaign lower name campaigns ≡ ok r
        → get_campaign lower name after ≡ ok r

  get_campaign-at :
      (name target : List ℕ) (rs : List (CampaignRecord F))
      → normalize_campaign_id lower (some name) name ≡ ok target
      → get_campaign lower name rs ≡ find_campaign target (sort_campaigns rs)
  unfolding get_campaign
  get_campaign-at name target rs e = rw e

  get_campaign-found :
      (name : List ℕ) (rs : List (CampaignRecord F)) {r : CampaignRecord F}
      → get_campaign lower name rs ≡ ok r
      → (target : List ℕ) × (normalize_campaign_id lower (some name) name ≡ ok target)
        × (find_campaign target (sort_campaigns rs) ≡ ok r)
  unfolding get_campaign
  get_campaign-found name rs e = first_answer (normalize_campaign_id lower (some name) name) _ e

  -- If a registration returns a record, then the root is a directory with the files of a campaign that
  -- turns the service on, the record is found under its id and under the id that was asked for, each
  -- other campaign is found under the names under which it was found before, and the campaigns in the
  -- file have different ids and different roots again, if they had them before. `lower` and `trim`
  -- leave texts of a-z, 0-9, `_` and `-` as they are, and `trim` the path of the root.
  pub register_campaign-Registered :
      ((t : List ℕ) → IsPlain t → lower t ≡ t)
      → (trim : List ℕ → List ℕ) → ((t : List ℕ) → IsPlain t → trim t ≡ t)
      → (request : RegistrationRequest) (now : F) (campaigns : List (CampaignRecord F))
        {new : CampaignRecord F} {after : List (CampaignRecord F)}
      → trim request.root.path ≡ request.root.path
      → IsRegistry campaigns
      → register_campaign lower trim request now campaigns ≡ ok (new, after)
      → Registered request now campaigns after new
  unfolding register_campaign
  register_campaign-Registered lower_plain trim trim_plain request now campaigns {new} {after}
        trim_root h e =
      let (root, valid, e1) = first_answer (validate_campaign_root request.root) _ e in
      let (id, named, e2) =
        first_answer (normalize_campaign_id lower request.campaign_id root.name) _ e1 in
      let (label, _, e3) = first_answer (optional_label lower request.label root.name) _ e2 in
      let taken = any_of (λ r. same_codes r.campaign_id id) campaigns in
      let (u, free_id, e4) = first_answer (when_ taken campaign_conflict) _ e3 in
      let used = any_of (λ r. same_codes r.root_path root.path) campaigns in
      let (v, free_root, e5) = first_answer (when_ used root_conflict) _ e4 in
      let made = new_record id root.path (trim label) now in
      let trimmed : new_record (trim id) (trim root.path) (trim label) now ≡ made =
        let same_id =
          trim_plain id
            (normalize_campaign_id-IsPlain lower lower_plain request.campaign_id root.name named) in
        let same_root : trim root.path ≡ root.path =
          subst (λ r. trim r.path ≡ r.path) (validate_campaign_root-same request.root valid)
            trim_root in
        ap (λ i. new_record i (trim root.path) (trim label) now) same_id
        ∙ ap (λ path. new_record id path (trim label) now) same_root in
      let same : (made, sort_campaigns (campaigns ++ made ∷ [])) ≡ (new, after) =
        subst
          (λ m.
            ◌≡◌ {A = CampaignRecord F × List (CampaignRecord F)}
              (m, sort_campaigns (campaigns ++ m ∷ [])) (new, after))
          trimmed (ok_injective e5) in
      let formed =
        add-IsRegistry campaigns made h (when_-false taken campaign_conflict {u = u} free_id)
          (when_-false used root_conflict {u = v} free_root) in
      let all = campaigns ++ made ∷ [] in
      let to : (r : CampaignRecord F) → Among r all → Among r (sort_campaigns all) =
        λ r. (sort_campaigns-Among r all).1 in
      let here : Among made (sort_campaigns all) =
        to made ((Among-append_last campaigns made made).1 (inr refl)) in
      let found_here : find_campaign id (sort_campaigns (sort_campaigns all)) ≡ ok made =
        find_campaign-Among (sort_campaigns all) made formed here in
      subst
        (λ (x : CampaignRecord F × List (CampaignRecord F)).
          Registered request now campaigns x.1 x.0)
        same
        (record {
          is_enabled = validate_campaign_root-IsEnabled request.root valid;
          is_registry = formed;
          root_path = ap (λ r. r.path) (sym (validate_campaign_root-same request.root valid));
          created_at = refl;
          by_id =
              get_campaign-at id id (sort_campaigns all) (
                normalize_campaign_id-again lower lower_plain request.campaign_id root.name id
                  named)
              ∙ found_here;
          by_request = λ raw asked.
              get_campaign-at raw id (sort_campaigns all) (
                normalize-root lower raw raw root.name
                ∙ subst (λ o. normalize_campaign_id lower o root.name ≡ ok id) asked named)
              ∙ found_here;
          others = λ name r found.
              let (target, named, old) = get_campaign-found name campaigns found in
              let (at, is_target) = find_campaign_sound campaigns target old in
              let still =
                find_campaign-Among (sort_campaigns all) r formed
                  (to r ((Among-append_last campaigns made r).1 (inl at))) in
              get_campaign-at name target (sort_campaigns all) named
              ∙ subst (λ t. find_campaign t (sort_campaigns (sort_campaigns all)) ≡ ok r) is_target
                  still;
        })
