-- ===== src/Service/Auth/Requests.antt =====
-- Requests to the routes, in service/auth.py: the principal of a request and the role that a route
-- requires. The audit log is a list of events.
use looptimum.Prelude.{
  ℕ, zero, suc, Bool, true, false, not, Option, none, some, List, [], ◌∷◌, ◌++◌, is_nil, any_of,
  same_codes, leb, ◌-◌, ◌%◌, if◌then◌else◌, or_else, length,
}
use looptimum.Prelude.Exec.{Result, ok, err}
use looptimum.Prelude.Answer.{◌>>=◌}
use looptimum.Service.Auth.{
  Role, role_order, AuthMode, disabled, basic, oidc, Principal, OidcConfig, AuthConfig, Claim,
  AuthFailure, unsupported_mode, no_header, not_basic, not_base64, no_credentials,
  wrong_credentials, not_ascii, not_bearer, not_base64url, not_jwt, not_object, wrong_issuer,
  wrong_audience, no_subject, bad_audience, bad_roles, no_role, check, strip, partition, split,
  get_entry, match_local_user, normalize_token_audience, resolve_role_from_claims, required,
  text_claim,
}

-- `lower` is `str.lower`, the others answer `none` for a ValueError: `decode` is b64decode and the
-- decoding from UTF-8, `decode_url` is urlsafe_b64decode, and `read_object` the decoding from UTF-8
-- and json.loads, for an object.
pub record Codecs : Type 0 where
  pub lower : List ℕ → List ℕ
  pub decode : List ℕ → Option (List ℕ)
  pub decode_url : List ℕ → Option (List ℕ)
  pub read_object : List ℕ → Option (List (List ℕ × Claim))

pub record AuditEvent : Type 0 where
  pub principal : Principal
  pub path : List ℕ
  pub required_role : Role

-- What the caller of a route gets instead of the route's answer.
pub data Refusal : Type 0 where
  auth_required invalid_credentials unsupported_auth_scheme : Refusal
  invalid_token_claims invalid_bearer_token forbidden server_error : Refusal

unfoldable pub equals : List ℕ → List ℕ → Bool
unfolding same_codes
equals a b = same_codes a b

abbrev pub is_basic : AuthMode → Bool
is_basic basic = true
is_basic _ = false

abbrev pub is_oidc : AuthMode → Bool
is_oidc oidc = true
is_oidc _ = false

abbrev pub health_path : List ℕ
health_path = b'/' ∷ b'h' ∷ b'e' ∷ b'a' ∷ b'l' ∷ b't' ∷ b'h' ∷ []

-- As many `=` as make the length a multiple of 4.
unfoldable pub padding : ℕ → List ℕ
padding zero = []
padding (suc n) = b'=' ∷ padding n

abbrev pub oidc_principal : List ℕ → Role → Principal
oidc_principal subject role = record { username = subject; role = role; auth_mode = oidc }

unfoldable pub claims_principal : OidcConfig → List (List ℕ × Claim) → Result AuthFailure Principal
unfolding get_entry strip equals normalize_token_audience resolve_role_from_claims
claims_principal oidc_config claims = do
  issuer ← text_claim (get_entry (b'i' ∷ b's' ∷ b's' ∷ []) claims) wrong_issuer
  _ ← check (equals issuer oidc_config.issuer) wrong_issuer
  audiences ← normalize_token_audience (get_entry (b'a' ∷ b'u' ∷ b'd' ∷ []) claims)
  _ ← check (any_of (λ audience. equals audience oidc_config.audience) audiences) wrong_audience
  subject ← text_claim (get_entry oidc_config.subject_claim claims) no_subject
  _ ← check (not (is_nil subject)) no_subject
  role ← resolve_role_from_claims oidc_config claims
  ok (oidc_principal subject role)

module _ (codecs : Codecs) where
  unfoldable pub decode_basic_authorization : List ℕ → Result AuthFailure (List ℕ × List ℕ)
  unfolding partition strip equals
  decode_basic_authorization header = do
    let (scheme, behind) = partition b' ' header
    let encoded = strip (or_else behind [])
    _ ← check (equals (codecs.lower scheme) (b'b' ∷ b'a' ∷ b's' ∷ b'i' ∷ b'c' ∷ [])) not_basic
    _ ← check (not (is_nil encoded)) not_basic
    decoded ← required (codecs.decode encoded) not_base64
    let (username, separated) = partition b':' decoded
    password ← required separated no_credentials
    _ ← check (not (is_nil username)) no_credentials
    ok (username, password)

  unfoldable pub decode_bearer_authorization : List ℕ → Result AuthFailure (List ℕ)
  unfolding partition strip equals
  decode_bearer_authorization header = do
    let (scheme, behind) = partition b' ' header
    let token = strip (or_else behind [])
    _ ←
        check (equals (codecs.lower scheme) (b'b' ∷ b'e' ∷ b'a' ∷ b'r' ∷ b'e' ∷ b'r' ∷ []))
          not_bearer
    _ ← check (not (is_nil token)) not_bearer
    ok token

  unfoldable pub decode_base64url_segment : List ℕ → Result AuthFailure (List ℕ)
  unfolding padding
  decode_base64url_segment segment =
      required (codecs.decode_url (segment ++ padding ((4 - length segment % 4) % 4))) not_base64url

  unfoldable pub decode_unverified_jwt_claims : List ℕ → Result AuthFailure (List (List ℕ × Claim))
  unfolding split decode_base64url_segment
  decode_unverified_jwt_claims token =
      let (header, parts) = split b'.' token in
      elim parts [
        | payload ∷ signature ∷ [] ↦ do
          bytes ← decode_base64url_segment payload
          required (codecs.read_object bytes) not_object
        | _ ↦ err not_jwt
      ]

  unfoldable pub resolve_local_dev_principal :
      AuthConfig → Option (List ℕ) → Result AuthFailure Principal
  unfolding decode_basic_authorization match_local_user
  resolve_local_dev_principal config header = do
    _ ← check (is_basic config.mode) unsupported_mode
    given ← required header no_header
    credentials ← decode_basic_authorization given
    found ← match_local_user config.local_users credentials.0 credentials.1
    user ← required found wrong_credentials
    ok (record { username = user.username; role = user.role; auth_mode = basic })

  unfoldable pub resolve_oidc_principal :
      AuthConfig → Option (List ℕ) → Result AuthFailure Principal
  unfolding decode_bearer_authorization decode_unverified_jwt_claims claims_principal
  resolve_oidc_principal config header = do
    _ ← check (is_oidc config.mode) unsupported_mode
    oidc_config ← required config.oidc unsupported_mode
    given ← required header no_header
    token ← decode_bearer_authorization given
    claims ← decode_unverified_jwt_claims token
    claims_principal oidc_config claims

-- The code of the answer, which the source reads off the message.
abbrev pub refusal_basic : AuthFailure → Refusal
refusal_basic wrong_credentials = invalid_credentials
refusal_basic not_base64 = invalid_credentials
refusal_basic not_basic = unsupported_auth_scheme
refusal_basic not_ascii = server_error
refusal_basic _ = auth_required

abbrev pub refusal_oidc : AuthFailure → Refusal
refusal_oidc wrong_issuer = invalid_token_claims
refusal_oidc bad_audience = invalid_token_claims
refusal_oidc wrong_audience = invalid_token_claims
refusal_oidc no_subject = invalid_token_claims
refusal_oidc bad_roles = invalid_token_claims
refusal_oidc no_role = invalid_token_claims
refusal_oidc not_jwt = invalid_bearer_token
refusal_oidc not_base64url = invalid_bearer_token
refusal_oidc not_bearer = unsupported_auth_scheme
refusal_oidc _ = auth_required

abbrev pub answer :
    (AuthFailure → Refusal) → Result AuthFailure Principal → Result Refusal (Option Principal)
answer refusal (ok principal) = ok (some principal)
answer refusal (err failure) = err (refusal failure)

module _ (codecs : Codecs) where
  -- The middleware: what `request.state.service_principal` is when the route runs.
  unfoldable pub dispatch :
      AuthConfig → (path : List ℕ) → (header : Option (List ℕ)) → Result Refusal (Option Principal)
  unfolding resolve_local_dev_principal resolve_oidc_principal equals
  dispatch config path header = if equals path health_path then ok none else elim config.mode [
    | disabled ↦ ok none
    | basic ↦ answer refusal_basic (resolve_local_dev_principal codecs config header)
    | oidc ↦ answer refusal_oidc (resolve_oidc_principal codecs config header)
  ]

-- The RuntimeError is answered by the server's error.
unfoldable pub require_authenticated_principal :
    AuthConfig → Option Principal → Result Refusal (Option Principal)
require_authenticated_principal config attached = elim config.mode [
  | disabled ↦ ok none
  | _ ↦ elim attached [ none ↦ err server_error | some principal ↦ ok (some principal) ]
]

abbrev pub check_role :
    Role
    → (path : List ℕ) → List AuditEvent
    → Option Principal
    → Result Refusal (Option Principal) × List AuditEvent
check_role role path log none = (ok none, log)
check_role role path log (some principal) =
    if leb (role_order role) (role_order principal.role) then (ok (some principal), log) else (
      err forbidden,
      log ++ record { principal = principal; path = path; required_role = role } ∷ [],
    )

abbrev pub then_check :
    Role
    → (path : List ℕ) → List AuditEvent
    → Result Refusal (Option Principal)
    → Result Refusal (Option Principal) × List AuditEvent
then_check role path log (err refusal) = (err refusal, log)
then_check role path log (ok principal) = check_role role path log principal

unfoldable pub require_role :
    AuthConfig
    → Role
    → (path : List ℕ) → Option Principal
    → List AuditEvent
    → Result Refusal (Option Principal) × List AuditEvent
unfolding require_authenticated_principal
require_role config role path attached log =
    then_check role path log (require_authenticated_principal config attached)

module _ (codecs : Codecs) where
  -- A request to a route that requires a role: the middleware, then the route's first step.
  unfoldable pub enter_route :
      AuthConfig
      → Role
      → (path : List ℕ) → (header : Option (List ℕ)) → List AuditEvent
      → Result Refusal (Option Principal) × List AuditEvent
  unfolding dispatch require_role
  enter_route config role path header log = elim (dispatch codecs config path header) [
    | err refusal ↦ (err refusal, log)
    | ok attached ↦ require_role config role path attached log
  ]
