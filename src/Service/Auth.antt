-- ===== src/Service/Auth.antt =====
-- service/auth.py: who may call a route. Texts are lists of code points. `str.lower`, the base64 codec
-- with the UTF-8 decoding, and the reading of a JSON object are parameters.
pub mod Requests
pub mod Login
pub mod Roles
pub mod Known
pub mod Enter
pub mod Password
use looptimum.Prelude.{
  ℕ, Bool, true, false, not, ◌&&◌, ◌||◌, Option, none, some, List, [], ◌∷◌, ◌++◌, is_nil, all_of,
  any_of, same_codes, is_space, ltb, leb, ◌==◌, ◌+◌, ◌-◌, ◌%◌, if◌then◌else◌, or_else, length,
}
use looptimum.Prelude.Exec.{Result, ok, err}
use looptimum.Prelude.Answer.{◌>>=◌}
use looptimum.Service.Registry.{strip_by}

pub data Role : Type 0 where
  viewer operator admin : Role

abbrev pub role_order : Role → ℕ
role_order viewer = 0
role_order operator = 1
role_order admin = 2

pub data AuthMode : Type 0 where
  disabled basic oidc : AuthMode

pub record Principal : Type 0 where
  pub username : List ℕ
  pub role : Role
  pub auth_mode : AuthMode

pub record LocalAuthUser : Type 0 where
  pub username : List ℕ
  pub password : List ℕ
  pub role : Role

pub record OidcConfig : Type 0 where
  pub issuer : List ℕ
  pub audience : List ℕ
  pub subject_claim : List ℕ
  pub role_claim : List ℕ
  pub role_mapping : List (List ℕ × Role)

pub record AuthConfig : Type 0 where
  pub mode : AuthMode
  pub local_users : List LocalAuthUser
  pub oidc : Option OidcConfig

-- A claim of a token; of a list, the items that are texts and that are not.
pub data Claim : Type 0 where
  text : List ℕ → Claim
  items : List (Option (List ℕ)) → Claim
  other : Claim

-- The exceptions by their messages: all are ValueErrors but `not_ascii`, which is a TypeError.
pub data AuthFailure : Type 0 where
  unsupported_mode no_header : AuthFailure
  not_basic not_base64 no_credentials wrong_credentials not_ascii : AuthFailure
  not_bearer not_base64url not_jwt not_object : AuthFailure
  wrong_issuer bad_audience wrong_audience no_subject bad_roles no_role : AuthFailure

abbrev pub check : Bool → AuthFailure → Result AuthFailure Unit
check true failure = ok tt
check false failure = err failure

abbrev pub strip : List ℕ → List ℕ
unfolding strip_by is_space
strip t = strip_by is_space t

-- `text.partition(separator)`: the text before, and the text behind where there is a separator.
unfoldable pub partition : ℕ → List ℕ → List ℕ × Option (List ℕ)
partition separator [] = ([], none)
partition separator (c ∷ cs) =
    let (before, behind) = partition separator cs in
    if c == separator then ([], some cs) else (c ∷ before, behind)

-- `text.split(separator)`: the first part, and the others.
unfoldable pub split : ℕ → List ℕ → List ℕ × List (List ℕ)
split separator [] = ([], [])
split separator (c ∷ cs) =
    let (first, rest) = split separator cs in
    if c == separator then ([], first ∷ rest) else (c ∷ first, rest)

unfoldable pub get_entry : {V : Type 0} → List ℕ → List (List ℕ × V) → Option V
unfolding same_codes
get_entry key [] = none
get_entry key ((k, v) ∷ entries) =
    let rest = get_entry key entries in if same_codes k key then some v else rest

-- `hmac.compare_digest` on texts
unfoldable pub compare_digest : List ℕ → List ℕ → Result AuthFailure Bool
unfolding same_codes
compare_digest a b =
    if all_of (λ c. ltb c 128) a && all_of (λ c. ltb c 128) b
    then ok (same_codes a b)
    else err not_ascii

unfoldable pub match_local_user :
    List LocalAuthUser → (username password : List ℕ) → Result AuthFailure (Option LocalAuthUser)
unfolding same_codes compare_digest
match_local_user [] username password = ok none
match_local_user (user ∷ users) username password =
    let rest = match_local_user users username password in
    if not (same_codes user.username username)
    then rest
    else do same ← compare_digest user.password password; ok (if same then some user else none)

abbrev pub non_empty : List ℕ → List (List ℕ) → List (List ℕ)
non_empty value rest = if is_nil value then rest else value ∷ rest

unfoldable pub audiences_of : List (Option (List ℕ)) → Result AuthFailure (List (List ℕ))
unfolding strip
audiences_of [] = ok []
audiences_of (none ∷ _) = err bad_audience
audiences_of (some item ∷ rest) = do
  audiences ← audiences_of rest
  ok (non_empty (strip item) audiences)

unfoldable pub normalize_token_audience : Option Claim → Result AuthFailure (List (List ℕ))
unfolding audiences_of strip
normalize_token_audience (some (text value)) = ok (non_empty (strip value) [])
normalize_token_audience (some (items values)) = audiences_of values
normalize_token_audience _ = err bad_audience

unfoldable pub role_values : List (Option (List ℕ)) → List (List ℕ)
unfolding strip
role_values [] = []
role_values (none ∷ rest) = role_values rest
role_values (some item ∷ rest) = non_empty (strip item) (role_values rest)

unfoldable pub map_roles : List (List ℕ × Role) → List (List ℕ) → List Role
unfolding get_entry
map_roles mapping [] = []
map_roles mapping (value ∷ values) =
    let rest = map_roles mapping values in
    elim (get_entry value mapping) [ none ↦ rest | some role ↦ role ∷ rest ]

-- `max(roles, key=order)`, the first of the greatest
unfoldable pub max_role : Role → List Role → Role
max_role role [] = role
max_role role (next ∷ roles) =
    max_role (if ltb (role_order role) (role_order next) then next else role) roles

unfoldable pub highest_role : List Role → Result AuthFailure Role
unfolding max_role
highest_role [] = err no_role
highest_role (role ∷ roles) = ok (max_role role roles)

unfoldable pub resolve_role_from_claims :
    OidcConfig → List (List ℕ × Claim) → Result AuthFailure Role
unfolding get_entry role_values map_roles highest_role strip
resolve_role_from_claims config claims = elim (get_entry config.role_claim claims) [
  | some (text value) ↦ highest_role (map_roles config.role_mapping (non_empty (strip value) []))
  | some (items values) ↦ highest_role (map_roles config.role_mapping (role_values values))
  | some other ↦ err bad_roles
  | none ↦ err bad_roles
]

abbrev pub required : {A : Type 0} → Option A → AuthFailure → Result AuthFailure A
required none failure = err failure
required (some a) failure = ok a

-- A claim that must be a text, stripped.
abbrev pub text_claim : Option Claim → AuthFailure → Result AuthFailure (List ℕ)
unfolding strip
text_claim (some (text value)) failure = ok (strip value)
text_claim _ failure = err failure
