-- ===== src/Service/Auth/Known.antt =====
-- The principals that a header lets in, in service/auth.py.
use looptimum.Prelude.{
  ℕ, Bool, true, false, not, Option, none, some, List, [], ◌∷◌, ◌≡◌, refl, sym, ap, ◌∙◌, subst, ◌⊎◌,
  inl, inr, Among, is_nil, any_of, same_codes-eq, Bool-cases, arith,
}
use looptimum.Prelude.Exec.{ok}
use looptimum.Prelude.Answer.{first_answer}
use looptimum.Service.Auth.{
  AuthMode, disabled, basic, oidc, Principal, LocalAuthUser, OidcConfig, AuthConfig, Claim, text,
  items, other, AuthFailure, unsupported_mode, no_header, wrong_credentials, wrong_issuer,
  wrong_audience, no_subject, check, strip, get_entry, match_local_user, normalize_token_audience,
  resolve_role_from_claims, required, text_claim,
}
use looptimum.Service.Auth.Requests.{
  Codecs, equals, decode_basic_authorization, decode_bearer_authorization,
  decode_unverified_jwt_claims, resolve_local_dev_principal, resolve_oidc_principal,
  claims_principal, oidc_principal, is_basic, is_oidc,
}
use looptimum.Service.Auth.Login.{
  Says, match_local_user_lem, normalize_token_audience-Says, answered,
}
use looptimum.Service.Auth.Roles.{IsHighest, resolve_role_from_claims-IsHighest}

check-eq : (b : Bool) (f : AuthFailure) {u : Unit} → check b f ≡ ok u → b ≡ true
check-eq true f e = refl
check-eq false f e = absurd (ground arith)

required-eq :
    {A : Type 0} (o : Option A) (f : AuthFailure) {a : A} → required o f ≡ ok a → o ≡ some a
required-eq none f e = absurd (ground arith)
required-eq (some a) f e = ap some (answered e)

text_claim-eq :
    (claim : Option Claim) (f : AuthFailure) {s : List ℕ}
    → text_claim claim f ≡ ok s
    → (t : List ℕ) × (claim ≡ some (text t)) × (strip t ≡ s)
unfolding text_claim
text_claim-eq none f e = absurd (ground arith)
text_claim-eq (some (text t)) f e = (t, refl, answered e)
text_claim-eq (some (items ts)) f e = absurd (ground arith)
text_claim-eq (some other) f e = absurd (ground arith)

pub equals-eq : (a b : List ℕ) → equals a b ≡ true → a ≡ b
unfolding equals
equals-eq a b e = same_codes-eq a b e

equals-Among : (a : List ℕ) (ts : List (List ℕ)) → any_of (λ t. equals t a) ts ≡ true → Among a ts
equals-Among a [] e = absurd (ground arith)
equals-Among a (t ∷ ts) e = elim (Bool-cases (equals t a)) [
  | inl same ↦ inl (equals-eq t a same)
  | inr differs ↦ inr (equals-Among a ts (ground arith))
]

-- The header has the name and the password of a configured user.
pub record ByPassword (codecs : Codecs) (config : AuthConfig) (given : List ℕ) (p : Principal)
    : Type 0 where
  pub mode : config.mode ≡ basic
  pub user : LocalAuthUser
  pub is_user : Among user config.local_users
  pub credentials : decode_basic_authorization codecs given ≡ ok (user.username, user.password)
  pub username : p.username ≡ user.username
  pub role : p.role ≡ user.role

-- The claims are of the configured issuer for the configured audience; the principal is their
-- subject, in the highest role that their role claim is mapped to.
pub record ClaimsFit (oidc_config : OidcConfig) (claims : List (List ℕ × Claim)) (p : Principal)
    : Type 0 where
  pub issuer :
      (t : List ℕ) × (get_entry (b'i' ∷ b's' ∷ b's' ∷ []) claims ≡ some (text t))
      × (strip t ≡ oidc_config.issuer)
  pub audience : Says oidc_config.audience (get_entry (b'a' ∷ b'u' ∷ b'd' ∷ []) claims)
  pub subject :
      (t : List ℕ) × (get_entry oidc_config.subject_claim claims ≡ some (text t))
      × (strip t ≡ p.username)
  pub role : IsHighest oidc_config.role_mapping (get_entry oidc_config.role_claim claims) p.role

-- The header has a token with claims that fit.
pub record ByToken (codecs : Codecs) (config : AuthConfig) (given : List ℕ) (p : Principal)
    : Type 0 where
  pub mode : config.mode ≡ oidc
  pub oidc_config : OidcConfig
  pub is_config : config.oidc ≡ some oidc_config
  pub token : List ℕ
  pub is_token : decode_bearer_authorization codecs given ≡ ok token
  pub claims : List (List ℕ × Claim)
  pub are_claims : decode_unverified_jwt_claims codecs token ≡ ok claims
  pub fits : ClaimsFit oidc_config claims p

-- The header lets the principal in.
abbrev pub LoggedIn : Codecs → AuthConfig → Option (List ℕ) → Principal → Type 0
LoggedIn codecs config header p =
    (given : List ℕ) × (header ≡ some given)
    × (ByPassword codecs config given p ⊎ ByToken codecs config given p)

is_basic-eq : (mode : AuthMode) → is_basic mode ≡ true → mode ≡ basic
is_basic-eq basic e = refl
is_basic-eq disabled e = absurd (ground arith)
is_basic-eq oidc e = absurd (ground arith)

is_oidc-eq : (mode : AuthMode) → is_oidc mode ≡ true → mode ≡ oidc
is_oidc-eq oidc e = refl
is_oidc-eq disabled e = absurd (ground arith)
is_oidc-eq basic e = absurd (ground arith)

claims_principal-ClaimsFit :
    (oidc_config : OidcConfig) (claims : List (List ℕ × Claim)) {p : Principal}
    → claims_principal oidc_config claims ≡ ok p
    → ClaimsFit oidc_config claims p
unfolding claims_principal
claims_principal-ClaimsFit oidc_config claims {p} e =
    let iss = get_entry (b'i' ∷ b's' ∷ b's' ∷ []) claims in
    let (issuer, issued, e1) = first_answer (text_claim iss wrong_issuer) _ e in
    let issuer_test = equals issuer oidc_config.issuer in
    let (u1, right_issuer, e2) = first_answer (check issuer_test wrong_issuer) _ e1 in
    let aud = get_entry (b'a' ∷ b'u' ∷ b'd' ∷ []) claims in
    let (audiences, listed, e3) = first_answer (normalize_token_audience aud) _ e2 in
    let audience_test = any_of (λ audience. equals audience oidc_config.audience) audiences in
    let (u2, right_audience, e4) = first_answer (check audience_test wrong_audience) _ e3 in
    let sub = get_entry oidc_config.subject_claim claims in
    let (subject, named, e5) = first_answer (text_claim sub no_subject) _ e4 in
    let (u3, _, e6) = first_answer (check (not (is_nil subject)) no_subject) _ e5 in
    let (role, mapped, e7) = first_answer (resolve_role_from_claims oidc_config claims) _ e6 in
    let made : oidc_principal subject role ≡ p = answered e7 in
    let (t, is_iss, stripped) = text_claim-eq iss wrong_issuer issued in
    let (s, is_sub, is_subject) = text_claim-eq sub no_subject named in
    record {
      issuer = (
        t,
        is_iss,
        stripped
            ∙ equals-eq issuer oidc_config.issuer
                (check-eq issuer_test wrong_issuer {u = u1} right_issuer),
      );
      audience = normalize_token_audience-Says oidc_config.audience aud listed (
          equals-Among oidc_config.audience audiences
            (check-eq audience_test wrong_audience {u = u2} right_audience));
      subject = (s, is_sub, is_subject ∙ ap (λ (q : Principal). q.username) made);
      role =
          subst
            (λ (q : Principal).
              IsHighest oidc_config.role_mapping (get_entry oidc_config.role_claim claims) q.role)
            made (resolve_role_from_claims-IsHighest oidc_config claims mapped);
    }

module _ (codecs : Codecs) (config : AuthConfig) (header : Option (List ℕ)) where
  pub resolve_local_dev_principal-LoggedIn :
      {p : Principal}
      → resolve_local_dev_principal codecs config header ≡ ok p
      → LoggedIn codecs config header p
  unfolding resolve_local_dev_principal
  resolve_local_dev_principal-LoggedIn e =
      let mode_test = check (is_basic config.mode) unsupported_mode in
      let (u, mode, e1) = first_answer mode_test _ e in
      let (given, has, e2) = first_answer (required header no_header) _ e1 in
      let (credentials, decoded, e3) =
        first_answer (decode_basic_authorization codecs given) _ e2 in
      let (found, matched, e4) =
        first_answer (match_local_user config.local_users credentials.0 credentials.1) _ e3 in
      let (user, is_found, e5) = first_answer (required found wrong_credentials) _ e4 in
      let same = required-eq found wrong_credentials is_found in
      let (among, name, word) =
        match_local_user_lem config.local_users credentials.0 credentials.1
          (matched ∙ ap ok same) in
      (
        given,
        required-eq header no_header has,
        inl (record {
          mode =
              is_basic-eq config.mode
                (check-eq (is_basic config.mode) unsupported_mode {u = u} mode);
          user = user;
          is_user = among;
          credentials =
              decoded
              ∙ ap (λ n. ok (n, credentials.1)) (sym name)
              ∙ ap (λ w. ok (user.username, w)) (sym word);
          username = ap (λ q. q.username) (sym (answered e5));
          role = ap (λ q. q.role) (sym (answered e5));
        }),
      )

  pub resolve_oidc_principal-LoggedIn :
      {p : Principal}
      → resolve_oidc_principal codecs config header ≡ ok p
      → LoggedIn codecs config header p
  unfolding resolve_oidc_principal
  resolve_oidc_principal-LoggedIn e =
      let mode_test = check (is_oidc config.mode) unsupported_mode in
      let (u, mode, e1) = first_answer mode_test _ e in
      let (oidc_config, configured, e2) =
        first_answer (required config.oidc unsupported_mode) _ e1 in
      let (given, has, e3) = first_answer (required header no_header) _ e2 in
      let (token, bearer, e4) = first_answer (decode_bearer_authorization codecs given) _ e3 in
      let (claims, decoded, e5) = first_answer (decode_unverified_jwt_claims codecs token) _ e4 in
      (
        given,
        required-eq header no_header has,
        inr (record {
          mode =
              is_oidc-eq config.mode (check-eq (is_oidc config.mode) unsupported_mode {u = u} mode);
          oidc_config = oidc_config;
          is_config = required-eq config.oidc unsupported_mode configured;
          token = token;
          is_token = bearer;
          claims = claims;
          are_claims = decoded;
          fits = claims_principal-ClaimsFit oidc_config claims e5;
        }),
      )
