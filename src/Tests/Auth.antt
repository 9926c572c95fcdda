-- ===== src/Tests/Auth.antt =====
-- A user logs in by password, and another by a token.
use looptimum.Prelude.{
  ℕ, ◌&&◌, none, some, List, [], ◌∷◌, ◌≡◌, refl, sym, ◌∙◌, ◌+◌, map, leb, inl, inr, if◌then◌else◌,
  arith,
}
use looptimum.Prelude.Exec.{ok, err}
use looptimum.Service.Auth.{
  viewer, operator, admin, basic, oidc, LocalAuthUser, AuthConfig, text, items,
}
use looptimum.Service.Auth.Requests.{Codecs, forbidden, decode_basic_authorization, enter_route}
use looptimum.Service.Auth.Enter.{Entered, enter_route-Entered}
use looptimum.Service.Auth.Password.{HasOwnNames, user_principal, enter_route_lem}

abbrev lower_code : ℕ → ℕ
lower_code c = if leb b'A' c && leb c b'Z' then c + 32 else c

-- The texts are not encoded; a token's claims name the user `t`, an operator and a guest.
abbrev codecs : Codecs
codecs = record {
  lower = map lower_code;
  decode = λ t. some t;
  decode_url = λ t. some t;
  read_object = λ _. some (
      (b'i' ∷ b's' ∷ b's' ∷ [], text (b'i' ∷ []))
      ∷ (b'a' ∷ b'u' ∷ b'd' ∷ [], items (some (b' ' ∷ b'a' ∷ []) ∷ []))
      ∷ (b's' ∷ [], text (b't' ∷ []))
      ∷ (b'r' ∷ [], items (some (b'g' ∷ []) ∷ none ∷ some (b'o' ∷ []) ∷ []))
      ∷ []);
}

abbrev ann : LocalAuthUser
ann = record { username = b'a' ∷ []; password = b'p' ∷ []; role = operator }

abbrev by_password : AuthConfig
by_password = record { mode = basic; local_users = ann ∷ []; oidc = none }

abbrev by_token : AuthConfig
by_token = record {
  mode = oidc;
  local_users = [];
  oidc = some (record {
    issuer = b'i' ∷ [];
    audience = b'a' ∷ [];
    subject_claim = b's' ∷ [];
    role_claim = b'r' ∷ [];
    role_mapping = (b'g' ∷ [], viewer) ∷ (b'o' ∷ [], operator) ∷ [];
  });
}

-- `Basic a:p` and `bearer x.y.z`
abbrev basic_header : List ℕ
basic_header = b'B' ∷ b'a' ∷ b's' ∷ b'i' ∷ b'c' ∷ b' ' ∷ b'a' ∷ b':' ∷ b'p' ∷ []

abbrev bearer_header : List ℕ
bearer_header =
    b'b' ∷ b'e' ∷ b'a' ∷ b'r' ∷ b'e' ∷ b'r' ∷ b' ' ∷ b'x' ∷ b'.' ∷ b'y' ∷ b'.' ∷ b'z' ∷ []

abbrev route : List ℕ
route = b'/' ∷ b'c' ∷ []

-- The token's user may not enter a route of administrators.
enter_route-Entered_example : Entered codecs by_token admin route (some bearer_header) [] (
  err forbidden,
  record {
    principal = record { username = b't' ∷ []; role = operator; auth_mode = oidc };
    path = route;
    required_role = admin;
  }
      ∷ [],
)
unfolding enter_route
enter_route-Entered_example =
    enter_route-Entered codecs by_token admin route (some bearer_header) []

one_user-HasOwnNames : HasOwnNames (ann ∷ [])
one_user-HasOwnNames u v (inl a) (inl b) same = sym a ∙ b
one_user-HasOwnNames u v (inr a) b same = absurd a
one_user-HasOwnNames u v (inl a) (inr b) same = absurd b

credentials : decode_basic_authorization codecs basic_header ≡ ok (b'a' ∷ [], b'p' ∷ [])
unfolding decode_basic_authorization
credentials = refl

enter_route_lem_example :
    enter_route codecs by_password viewer route (some basic_header) []
    ≡ (ok (some (user_principal ann)), [])
enter_route_lem_example =
    enter_route_lem codecs by_password basic_header ann viewer route [] refl one_user-HasOwnNames
      (inl refl) refl credentials (λ e. cc) (omega arith)
