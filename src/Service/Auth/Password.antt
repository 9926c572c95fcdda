-- ===== src/Service/Auth/Password.antt =====
-- A configured user's password, in service/auth.py.
use looptimum.Prelude.{
  ℕ, Bool, true, false, Option, none, some, List, [], ◌∷◌, ◌≡◌, ◌≢◌, refl, sym, ap, ◌∙◌, subst, inl,
  inr, ◌≤◌, Among, same_codes, same_codes_refl, same_codes-eq, Bool-cases, if◌then◌else◌, ltb, leb,
  all_of, arith,
}
use looptimum.Prelude.Exec.{Result, ok, err}
use looptimum.Service.Auth.{
  Role, role_order, AuthMode, disabled, basic, oidc, Principal, LocalAuthUser, AuthConfig,
  compare_digest, match_local_user,
}
use looptimum.Service.Auth.Requests.{
  Codecs, AuditEvent, Refusal, equals, health_path, decode_basic_authorization,
  resolve_local_dev_principal, resolve_oidc_principal, refusal_basic, refusal_oidc, answer,
  dispatch, require_role, require_authenticated_principal, enter_route,
}
use looptimum.Service.Auth.Known.{equals-eq}

compare_digest_self : (a : List ℕ) → all_of (λ c. ltb c 128) a ≡ true → compare_digest a a ≡ ok true
unfolding compare_digest
compare_digest_self a e = ground (arith, same_codes_refl a)

match_local_user-skip :
    (first : LocalAuthUser) (users : List LocalAuthUser) (username password : List ℕ)
    → same_codes first.username username ≡ false
    → match_local_user (first ∷ users) username password ≡ match_local_user users username password
unfolding match_local_user
match_local_user-skip first users username password e = ground arith

match_local_user-here :
    (first : LocalAuthUser) (users : List LocalAuthUser)
    → all_of (λ c. ltb c 128) first.password ≡ true
    → match_local_user (first ∷ users) first.username first.password ≡ ok (some first)
unfolding match_local_user
match_local_user-here first users ascii =
    rw (same_codes_refl first.username, compare_digest_self first.password ascii) refl

-- No two users share a name.
abbrev pub HasOwnNames : List LocalAuthUser → Type 0
HasOwnNames users =
    (u v : LocalAuthUser) → Among u users → Among v users → u.username ≡ v.username → u ≡ v

match_local_user-finds :
    (users : List LocalAuthUser) (user : LocalAuthUser)
    → HasOwnNames users
    → Among user users
    → all_of (λ c. ltb c 128) user.password ≡ true
    → match_local_user users user.username user.password ≡ ok (some user)
match_local_user-finds [] user own at ascii = absurd at
match_local_user-finds (first ∷ users) user own at ascii =
    elim (Bool-cases (same_codes first.username user.username)) [
      | inl same ↦
          let is_first : first ≡ user =
            own first user (inl refl) at (same_codes-eq first.username user.username same) in
          subst (λ u. match_local_user (first ∷ users) u.username u.password ≡ ok (some u)) is_first
            (match_local_user-here first users
              (subst (λ u. all_of (λ c. ltb c 128) u.password ≡ true) (sym is_first) ascii))
      | inr differs ↦
          match_local_user-skip first users user.username user.password differs ∙ elim at [
            | inl same ↦
                let again : same_codes first.username user.username ≡ true =
                  subst (λ u. same_codes first.username u.username ≡ true) same
                    (same_codes_refl first.username) in
                absurd (ground arith)
            | inr later ↦
                match_local_user-finds users user (λ u v a b. own u v (inr a) (inr b)) later ascii
          ]
    ]

abbrev pub user_principal : LocalAuthUser → Principal
user_principal user = record { username = user.username; role = user.role; auth_mode = basic }

module _ (codecs : Codecs) (config : AuthConfig) (given : List ℕ) (user : LocalAuthUser) where
  resolve_local_dev_principal-finds :
      config.mode ≡ basic
      → match_local_user config.local_users user.username user.password ≡ ok (some user)
      → decode_basic_authorization codecs given ≡ ok (user.username, user.password)
      → resolve_local_dev_principal codecs config (some given) ≡ ok (user_principal user)
  unfolding resolve_local_dev_principal
  resolve_local_dev_principal-finds mode found decoded = rw (mode, decoded, found) refl

  abbrev by_mode : Bool → AuthMode → Result Refusal (Option Principal)
  by_mode is_health mode = if is_health then ok none else elim mode [
    | disabled ↦ ok none
    | basic ↦ answer refusal_basic (resolve_local_dev_principal codecs config (some given))
    | oidc ↦ answer refusal_oidc (resolve_oidc_principal codecs config (some given))
  ]

  dispatch-basic :
      (path : List ℕ)
      → config.mode ≡ basic
      → equals path health_path ≡ false
      → dispatch codecs config path (some given)
        ≡ answer refusal_basic (resolve_local_dev_principal codecs config (some given))
  unfolding dispatch
  dispatch-basic path mode e = ap (λ b. by_mode b config.mode) e ∙ ap (by_mode false) mode

  require_role-passes :
      (role : Role) (path : List ℕ) (p : Principal) (log : List AuditEvent)
      → config.mode ≡ basic
      → role_order role ≤ role_order p.role
      → require_role config role path (some p) log ≡ (ok (some p), log)
  unfolding require_role require_authenticated_principal
  require_role-passes role path p log mode enough =
      let passes : leb (role_order role) (role_order p.role) ≡ true = ground arith in
      rw (mode, passes) refl

  abbrev enter_with :
      Role
      → (path : List ℕ) → List AuditEvent
      → Result Refusal (Option Principal)
      → Result Refusal (Option Principal) × List AuditEvent
  enter_with role path log (err refusal) = (err refusal, log)
  enter_with role path log (ok attached) = require_role config role path attached log

  enter_route-dispatched :
      (role : Role) (path : List ℕ) (log : List AuditEvent) {attached : Option Principal}
      → dispatch codecs config path (some given) ≡ ok attached
      → enter_route codecs config role path (some given) log
        ≡ require_role config role path attached log
  unfolding enter_route
  enter_route-dispatched role path log e = ap (enter_with role path log) e

  -- In the mode for passwords a configured user with a password of ASCII characters, whose name is no
  -- other user's, enters every route but the one of the health check that requires no more than the
  -- user's role, with a header that holds the name and the password; the audit log stays.
  pub enter_route_lem :
      (role : Role) (path : List ℕ) (log : List AuditEvent)
      → config.mode ≡ basic
      → HasOwnNames config.local_users
      → Among user config.local_users
      → all_of (λ c. ltb c 128) user.password ≡ true
      → decode_basic_authorization codecs given ≡ ok (user.username, user.password)
      → path ≢ health_path
      → role_order role ≤ role_order user.role
      → enter_route codecs config role path (some given) log
        ≡ (ok (some (user_principal user)), log)
  enter_route_lem role path log mode own at ascii decoded not_health enough =
      let found = match_local_user-finds config.local_users user own at ascii in
      let no_health : equals path health_path ≡ false =
        elim (Bool-cases (equals path health_path)) [
          | inl e ↦ absurd (not_health (equals-eq path health_path e))
          | inr e ↦ e
        ] in
      let attached =
        dispatch-basic path mode no_health
        ∙ ap (answer refusal_basic) (resolve_local_dev_principal-finds mode found decoded) in
      enter_route-dispatched role path log attached
      ∙ require_role-passes role path (user_principal user) log mode enough
