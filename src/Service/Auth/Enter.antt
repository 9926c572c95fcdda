-- ===== src/Service/Auth/Enter.antt =====
-- Who enters a route, in service/auth.py.
use looptimum.Prelude.{
  ℕ, Bool, true, false, Option, none, some, List, [], ◌∷◌, ◌++◌, ◌≡◌, ◌≢◌, refl, inl, inr, ◌≤◌, ◌<◌,
  Bool-cases, if◌then◌else◌, leb, arith,
}
use looptimum.Prelude.Exec.{Result, ok, err}
use looptimum.Service.Auth.{
  Role, role_order, AuthMode, disabled, basic, oidc, Principal, AuthConfig, AuthFailure,
  unsupported_mode, no_header, not_basic, not_base64, no_credentials, wrong_credentials, not_ascii,
  not_bearer, not_base64url, not_jwt, not_object, wrong_issuer, wrong_audience, no_subject,
  bad_audience, bad_roles, no_role,
}
use looptimum.Service.Auth.Requests.{
  Codecs, AuditEvent, Refusal, forbidden, server_error, equals, health_path,
  resolve_local_dev_principal, resolve_oidc_principal, require_authenticated_principal,
  refusal_basic, refusal_oidc, answer, dispatch, require_role, enter_route, check_role, then_check,
}
use looptimum.Service.Auth.Known.{
  LoggedIn, resolve_local_dev_principal-LoggedIn, resolve_oidc_principal-LoggedIn,
}

refusal_basic-ne : (f : AuthFailure) → refusal_basic f ≢ forbidden
refusal_basic-ne unsupported_mode e = cc
refusal_basic-ne no_header e = cc
refusal_basic-ne not_basic e = cc
refusal_basic-ne not_base64 e = cc
refusal_basic-ne no_credentials e = cc
refusal_basic-ne wrong_credentials e = cc
refusal_basic-ne not_ascii e = cc
refusal_basic-ne not_bearer e = cc
refusal_basic-ne not_base64url e = cc
refusal_basic-ne not_jwt e = cc
refusal_basic-ne not_object e = cc
refusal_basic-ne wrong_issuer e = cc
refusal_basic-ne bad_audience e = cc
refusal_basic-ne wrong_audience e = cc
refusal_basic-ne no_subject e = cc
refusal_basic-ne bad_roles e = cc
refusal_basic-ne no_role e = cc

refusal_oidc-ne : (f : AuthFailure) → refusal_oidc f ≢ forbidden
refusal_oidc-ne unsupported_mode e = cc
refusal_oidc-ne no_header e = cc
refusal_oidc-ne not_basic e = cc
refusal_oidc-ne not_base64 e = cc
refusal_oidc-ne no_credentials e = cc
refusal_oidc-ne wrong_credentials e = cc
refusal_oidc-ne not_ascii e = cc
refusal_oidc-ne not_bearer e = cc
refusal_oidc-ne not_base64url e = cc
refusal_oidc-ne not_jwt e = cc
refusal_oidc-ne not_object e = cc
refusal_oidc-ne wrong_issuer e = cc
refusal_oidc-ne bad_audience e = cc
refusal_oidc-ne wrong_audience e = cc
refusal_oidc-ne no_subject e = cc
refusal_oidc-ne bad_roles e = cc
refusal_oidc-ne no_role e = cc

module _ (codecs : Codecs) (config : AuthConfig) (role : Role) (path : List ℕ)
    (header : Option (List ℕ)) (log : List AuditEvent) where
  -- How a request to a route ends: with what the route is given, and with the audit log.
  pub data Entered : Result Refusal (Option Principal) × List AuditEvent → Type 0 where
    unguarded : config.mode ≡ disabled → Entered (ok none, log)
    let_in :
        (p : Principal)
        → LoggedIn codecs config header p
        → role_order role ≤ role_order p.role
        → Entered (ok (some p), log)
    denied :
        (p : Principal)
        → LoggedIn codecs config header p
        → role_order p.role < role_order role
        → Entered
            (err forbidden, log ++ record { principal = p; path = path; required_role = role } ∷ [])
    refused : (r : Refusal) → config.mode ≢ disabled → r ≢ forbidden → Entered (err r, log)

  -- What the middleware hands on.
  abbrev Dispatched : Result Refusal (Option Principal) → Type 0
  Dispatched (ok none) = Unit
  Dispatched (ok (some p)) = LoggedIn codecs config header p
  Dispatched (err r) = (config.mode ≢ disabled) × (r ≢ forbidden)

  answer-Dispatched :
      (refusal : AuthFailure → Refusal) (out : Result AuthFailure Principal)
      → ((f : AuthFailure) → refusal f ≢ forbidden)
      → config.mode ≢ disabled
      → ((p : Principal) → out ≡ ok p → LoggedIn codecs config header p)
      → Dispatched (answer refusal out)
  answer-Dispatched refusal (ok p) not_forbidden guarded known = known p refl
  answer-Dispatched refusal (err f) not_forbidden guarded known = (guarded, not_forbidden f)

  dispatch-Dispatched : Dispatched (dispatch codecs config path header)
  unfolding dispatch
  dispatch-Dispatched = go (equals path health_path) config.mode refl
    where
      go :
          (is_health : Bool) (mode : AuthMode)
          → config.mode ≡ mode
          → Dispatched (
              if is_health then ok none else elim mode [
                | disabled ↦ ok none
                | basic ↦ answer refusal_basic (resolve_local_dev_principal codecs config header)
                | oidc ↦ answer refusal_oidc (resolve_oidc_principal codecs config header)
              ])
      go true mode e = tt
      go false disabled e = tt
      go false basic e =
          answer-Dispatched refusal_basic (resolve_local_dev_principal codecs config header)
            refusal_basic-ne (λ d. cc)
            (λ p e. resolve_local_dev_principal-LoggedIn codecs config header {p = p} e)
      go false oidc e =
          answer-Dispatched refusal_oidc (resolve_oidc_principal codecs config header)
            refusal_oidc-ne (λ d. cc)
            (λ p e. resolve_oidc_principal-LoggedIn codecs config header {p = p} e)

  check_role-Entered :
      (p : Principal)
      → LoggedIn codecs config header p
      → Entered (check_role role path log (some p))
  check_role-Entered p known = elim (Bool-cases (leb (role_order role) (role_order p.role))) [
    | inl e ↦ rw e (let_in p known (ground arith))
    | inr e ↦ rw e (denied p known (ground arith))
  ]

  require_role-Entered :
      (attached : Option Principal)
      → Dispatched (ok attached)
      → Entered (require_role config role path attached log)
  unfolding require_role require_authenticated_principal
  require_role-Entered attached known = go config.mode attached refl known
    where
      go :
          (mode : AuthMode) (attached : Option Principal)
          → config.mode ≡ mode
          → Dispatched (ok attached)
          → Entered (
              then_check role path log (elim mode [
                | disabled ↦ ok none
                | _ ↦ elim attached [
                  | none ↦ err server_error
                  | some principal ↦ ok (some principal)
                ]
              ]))
      go disabled attached e known = unguarded e
      go basic none e known = refused server_error (λ d. cc) (λ d. cc)
      go oidc none e known = refused server_error (λ d. cc) (λ d. cc)
      go basic (some p) e known = check_role-Entered p known
      go oidc (some p) e known = check_role-Entered p known

  -- A request to a route that requires a role runs the route only where authentication is disabled
  -- or the header lets in a principal of at least that role. A principal of a lower role is denied,
  -- with one event in the audit log, and on every other branch the log is as it was.
  pub enter_route-Entered : Entered (enter_route codecs config role path header log)
  unfolding enter_route
  enter_route-Entered = go (dispatch codecs config path header) dispatch-Dispatched
    where
      go :
          (out : Result Refusal (Option Principal))
          → Dispatched out
          → Entered (elim out [
            | err refusal ↦ (err refusal, log)
            | ok attached ↦ require_role config role path attached log
          ])
      go (ok attached) known = require_role-Entered attached known
      go (err r) known = refused r known.0 known.1
