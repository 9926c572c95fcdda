-- ===== src/Tests/Registry.antt =====
-- A second campaign is registered.
use looptimum.Prelude.{
  ℕ, true, ◌&&◌, none, some, List, [], ◌∷◌, ◌≡◌, refl, ◌+◌, map, sym, ◌∙◌, Among, is_space, leb,
  if◌then◌else◌, inl, inr, arith,
}
use looptimum.Prelude.Exec.{ok}
use looptimum.Service.Registry.{
  CampaignRecord, RegistrationRequest, set_to, register_campaign, is_allowed, strip_by,
}
use looptimum.Service.Registry.Names.{IsPlain, IsPlain-no_space}
use looptimum.Service.Registry.Table.{IsRegistry}
use looptimum.Service.Registry.Found.{Registered, register_campaign-Registered}

abbrev lower_code : ℕ → ℕ
lower_code c = if leb b'A' c && leb c b'Z' then c + 32 else c

-- `str.lower` on ASCII
abbrev lower : List ℕ → List ℕ
lower t = map lower_code t

lower_code-plain : (c : ℕ) → is_allowed c ≡ true → lower_code c ≡ c
lower_code-plain c h = ground arith

lower-plain : (t : List ℕ) → IsPlain t → lower t ≡ t
lower-plain [] h = refl
lower-plain (c ∷ cs) h = rw (lower_code-plain c h.0, lower-plain cs h.1)

-- Without the spaces before and behind.
abbrev trim : List ℕ → List ℕ
unfolding strip_by is_space
trim t = strip_by is_space t

trim-plain : (t : List ℕ) → IsPlain t → trim t ≡ t
unfolding strip_by is_space
trim-plain t h = IsPlain-no_space t h

abbrev old : CampaignRecord ℕ
old = record {
  campaign_id = b'x' ∷ [];
  root_path = b'/' ∷ b'x' ∷ [];
  label = b'X' ∷ [];
  created_at = 3;
}

-- The root `/b`, asked for as ` A!1 `.
abbrev request : RegistrationRequest
request = record {
  root = record {
    path = b'/' ∷ b'b' ∷ [];
    name = b'b' ∷ [];
    is_directory = true;
    files = "run_bo.py" ∷ "bo_config.json" ∷ "objective_schema.json" ∷ "parameter_space.json" ∷ [];
    flag = λ _. set_to true;
  };
  campaign_id = some (b' ' ∷ b'A' ∷ b'!' ∷ b'1' ∷ b' ' ∷ []);
  label = none;
}

abbrev new : CampaignRecord ℕ
new = record {
  campaign_id = b'a' ∷ b'-' ∷ b'1' ∷ [];
  root_path = b'/' ∷ b'b' ∷ [];
  label = b'b' ∷ [];
  created_at = 5;
}

old-IsRegistry : IsRegistry (old ∷ [])
old-IsRegistry = record {
  own_id = λ r s a b same. one r s a b;
  own_root = λ r s a b same. one r s a b;
}
  where
    one : (r s : CampaignRecord ℕ) → Among r (old ∷ []) → Among s (old ∷ []) → r ≡ s
    one r s (inl a) (inl b) = sym a ∙ b
    one r s (inr a) b = absurd a
    one r s (inl a) (inr b) = absurd b

register_campaign_lem : register_campaign lower trim request 5 (old ∷ []) ≡ ok (new, new ∷ old ∷ [])
unfolding register_campaign strip_by is_space
register_campaign_lem = refl

register_campaign-Registered_example : Registered lower request 5 (old ∷ []) (new ∷ old ∷ []) new
unfolding trim
register_campaign-Registered_example =
    register_campaign-Registered lower lower-plain trim trim-plain request 5 (old ∷ []) refl
      old-IsRegistry register_campaign_lem
