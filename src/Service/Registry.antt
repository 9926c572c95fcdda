-- ===== src/Service/Registry.antt =====
-- service/registry.py: the campaigns that the service knows, in a file. Texts are lists of code
-- points. `str.lower` and the `trim` that pydantic does on the texts of a record
-- (`str_strip_whitespace`) are parameters. What the file system says of a campaign root is an argument.
pub mod Names
pub mod Table
pub mod Found
use looptimum.Prelude.{
  ℕ, Bool, true, false, not, ◌&&◌, ◌||◌, Option, none, some, String, List, [], ◌∷◌, ◌++◌, map,
  is_nil, find_first, any_of, same_codes, is_space, ltb, leb, ◌==◌, if◌then◌else◌, or_else, lookup,
  text_mem, keep,
}
use looptimum.Prelude.Exec.{Result, ok, err}
use looptimum.Prelude.Answer.{◌>>=◌}

-- The ways in which a request fails, the texts of the messages left out.
pub data RegistryError : Type 0 where
  invalid_root invalid_campaign_id invalid_label : RegistryError
  preview_disabled dashboard_preview_disabled auth_preview_disabled : RegistryError
  multi_controller_preview_disabled : RegistryError
  campaign_conflict root_conflict campaign_not_found : RegistryError

-- What `bo_config.json` says of a feature flag.
pub data Flag : Type 0 where
  no_config bad_config flags_no_object absent not_boolean : Flag
  set_to : Bool → Flag

pub record CampaignRoot : Type 0 where
  -- the resolved path, and its last part
  pub path : List ℕ
  pub name : List ℕ
  pub is_directory : Bool
  pub files : List String
  pub flag : String → Flag

pub record CampaignRecord (F : Type 0) : Type 0 where
  pub campaign_id : List ℕ
  pub root_path : List ℕ
  pub label : List ℕ
  pub created_at : F

pub record RegistrationRequest : Type 0 where
  pub root : CampaignRoot
  pub campaign_id : Option (List ℕ)
  pub label : Option (List ℕ)

unfoldable pub lstrip_by : (ℕ → Bool) → List ℕ → List ℕ
lstrip_by p [] = []
lstrip_by p (c ∷ cs) = let rest = lstrip_by p cs in if p c then rest else c ∷ cs

unfoldable pub rstrip_by : (ℕ → Bool) → List ℕ → List ℕ
rstrip_by p [] = []
rstrip_by p (c ∷ cs) = let rest = rstrip_by p cs in if is_nil rest && p c then [] else c ∷ rest

-- `text.strip(characters)`
unfoldable pub strip_by : (ℕ → Bool) → List ℕ → List ℕ
unfolding lstrip_by rstrip_by
strip_by p text = rstrip_by p (lstrip_by p text)

-- `[a-z0-9_-]`
abbrev pub is_allowed : ℕ → Bool
is_allowed c = (leb b'a' c && leb c b'z') || (leb b'0' c && leb c b'9') || c == b'_' || c == b'-'

abbrev pub is_dash : ℕ → Bool
is_dash c = c == b'-' || c == b'_'

-- `_CAMPAIGN_ID_PATTERN.sub("-", text)`: each run of other characters becomes one dash.
unfoldable pub replace_runs : Bool → List ℕ → List ℕ
replace_runs in_run [] = []
replace_runs in_run (c ∷ cs) =
    let rest = replace_runs (not (is_allowed c)) cs in
    if is_allowed c then c ∷ rest else if in_run then rest else b'-' ∷ rest

unfoldable pub check_flag : (disabled : RegistryError) → Flag → Result RegistryError Unit
check_flag disabled (set_to true) = ok tt
check_flag disabled (set_to false) = err disabled
check_flag disabled absent = err disabled
check_flag disabled _ = err invalid_root

abbrev pub required_files : List String
required_files =
    "bo_config.json" ∷ "objective_schema.json" ∷ "parameter_space.json" ∷ "run_bo.py" ∷ []

abbrev pub when_ : Bool → RegistryError → Result RegistryError Unit
when_ true e = err e
when_ false e = ok tt

unfoldable pub validate_campaign_root : CampaignRoot → Result RegistryError CampaignRoot
unfolding check_flag text_mem
validate_campaign_root root = do
  _ ← when_ (not root.is_directory) invalid_root
  _ ← when_ (any_of (λ file. not (text_mem file root.files)) required_files) invalid_root
  _ ← check_flag preview_disabled (root.flag "enable_service_api_preview")
  ok root

unfoldable pub validate_dashboard_root : CampaignRoot → Result RegistryError CampaignRoot
unfolding validate_campaign_root check_flag
validate_dashboard_root given = do
  root ← validate_campaign_root given
  _ ← check_flag dashboard_preview_disabled (root.flag "enable_dashboard_preview")
  ok root

unfoldable pub validate_auth_root : CampaignRoot → Result RegistryError CampaignRoot
unfolding validate_campaign_root check_flag
validate_auth_root given = do
  root ← validate_campaign_root given
  _ ← check_flag auth_preview_disabled (root.flag "enable_auth_preview")
  ok root

unfoldable pub validate_multi_controller_root : CampaignRoot → Result RegistryError CampaignRoot
unfolding validate_campaign_root check_flag
validate_multi_controller_root given = do
  root ← validate_campaign_root given
  _ ← check_flag multi_controller_preview_disabled (root.flag "enable_multi_controller_preview")
  ok root

-- Texts compare by code points.
unfoldable pub codes_lt : List ℕ → List ℕ → Bool
codes_lt [] [] = false
codes_lt [] (_ ∷ _) = true
codes_lt (_ ∷ _) [] = false
codes_lt (x ∷ xs) (y ∷ ys) = let rest = codes_lt xs ys in if x == y then rest else ltb x y

module _ {F : Type 0} where
  abbrev pub new_record : (campaign_id root_path label : List ℕ) → F → CampaignRecord F
  new_record campaign_id root_path label now = record {
    campaign_id = campaign_id;
    root_path = root_path;
    label = label;
    created_at = now;
  }

  unfoldable pub insert_campaign :
      CampaignRecord F → List (CampaignRecord F) → List (CampaignRecord F)
  unfolding codes_lt
  insert_campaign r [] = r ∷ []
  insert_campaign r (s ∷ ss) =
      let rest = insert_campaign r ss in
      if codes_lt s.campaign_id r.campaign_id then s ∷ rest else r ∷ s ∷ ss

  -- `sorted(campaigns, key=lambda item: item.campaign_id)`
  unfoldable pub sort_campaigns : List (CampaignRecord F) → List (CampaignRecord F)
  unfolding insert_campaign
  sort_campaigns [] = []
  sort_campaigns (r ∷ rs) = insert_campaign r (sort_campaigns rs)

  unfoldable pub find_campaign :
      List ℕ → List (CampaignRecord F) → Result RegistryError (CampaignRecord F)
  unfolding same_codes
  find_campaign target campaigns =
      elim (find_first (λ r. same_codes r.campaign_id target) campaigns) [
        | none ↦ err campaign_not_found
        | some r ↦ ok r
      ]

module _ (lower : List ℕ → List ℕ) where
  unfoldable pub normalize_campaign_id :
      Option (List ℕ) → (root_name : List ℕ) → Result RegistryError (List ℕ)
  unfolding strip_by replace_runs is_space
  normalize_campaign_id value root_name =
      let raw = or_else value root_name in
      let normalized = strip_by is_dash (replace_runs false (lower (strip_by is_space raw))) in
      if is_nil normalized then err invalid_campaign_id else ok normalized

  unfoldable pub optional_label :
      Option (List ℕ) → (root_name : List ℕ) → Result RegistryError (List ℕ)
  unfolding strip_by is_space
  optional_label none root_name = ok root_name
  optional_label (some value) root_name =
      let normalized = strip_by is_space value in
      if is_nil normalized then err invalid_label else ok normalized

  module _ {F : Type 0} where
    -- The registry file holds the campaigns.
    unfoldable pub get_campaign :
        List ℕ → List (CampaignRecord F) → Result RegistryError (CampaignRecord F)
    unfolding normalize_campaign_id sort_campaigns find_campaign
    get_campaign campaign_id campaigns = do
      target ← normalize_campaign_id (some campaign_id) campaign_id
      find_campaign target (sort_campaigns campaigns)

    -- The record, and the campaigns that are written.
    unfoldable pub register_campaign :
        (trim : List ℕ → List ℕ)
        → RegistrationRequest
        → F
        → List (CampaignRecord F)
        → Result RegistryError (CampaignRecord F × List (CampaignRecord F))
    unfolding validate_campaign_root normalize_campaign_id optional_label sort_campaigns same_codes
    register_campaign trim request now campaigns = do
      root ← validate_campaign_root request.root
      campaign_id ← normalize_campaign_id request.campaign_id root.name
      label ← optional_label request.label root.name
      _ ← when_ (any_of (λ r. same_codes r.campaign_id campaign_id) campaigns) campaign_conflict
      _ ← when_ (any_of (λ r. same_codes r.root_path root.path) campaigns) root_conflict
      let new = new_record (trim campaign_id) (trim root.path) (trim label) now
      ok (new, sort_campaigns (campaigns ++ new ∷ []))
