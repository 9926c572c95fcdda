-- ===== src/Service/Auth/Login.antt =====
-- Principals and their roles, in service/auth.py.
use looptimum.Prelude.{
  ℕ, true, false, Option, none, some, List, [], ◌∷◌, ◌≡◌, refl, sym, ap, ◌∙◌, subst, ◌⊎◌, inl, inr,
  ◌↔◌, Among, is_nil, same_codes, same_codes-eq, Bool-cases, if◌then◌else◌, arith,
}
use Prim.{⊥}
use looptimum.Prelude.Exec.{Result, ok}
use looptimum.Prelude.Answer.{first_answer}
use looptimum.Service.Auth.{
  LocalAuthUser, Claim, text, items, other, AuthFailure, non_empty, strip, compare_digest,
  match_local_user, audiences_of, normalize_token_audience, role_values,
}

pub answered : {A : Type 0} {a b : A} → ◌≡◌ {A = Result AuthFailure A} (ok a) (ok b) → a ≡ b
answered h = cc

compare_digest-eq : (a b : List ℕ) → compare_digest a b ≡ ok true → a ≡ b
unfolding compare_digest
compare_digest-eq a b e = same_codes-eq a b (ground arith)

pub match_local_user_lem :
    (users : List LocalAuthUser) (username password : List ℕ) {user : LocalAuthUser}
    → match_local_user users username password ≡ ok (some user)
    → Among user users × (user.username ≡ username) × (user.password ≡ password)
unfolding match_local_user
match_local_user_lem [] username password e = absurd (ground arith)
match_local_user_lem (first ∷ users) username password {user} e =
    elim (Bool-cases (same_codes first.username username)) [
      | inr differs ↦
          let (among, name, word) =
            match_local_user_lem users username password {user = user} (ground arith) in
          (inr among, name, word)
      | inl same ↦
          let (equal, compared, e1) =
            first_answer (compare_digest first.password password)
              (λ equal. ok (if equal then some first else none)) {last = some user}
              (ground arith) in
          let is_equal : equal ≡ true = ground arith in
          let is_first : first ≡ user = ground arith in
          (
            inl is_first,
            ap (λ u. u.username) (sym is_first) ∙ same_codes-eq first.username username same,
            ap (λ u. u.password) (sym is_first)
                ∙ compare_digest-eq first.password password (compared ∙ ap ok is_equal),
          )
    ]

-- The claim says the text, or lists it, with white space around it or without.
abbrev pub Says : List ℕ → Option Claim → Type 0
Says value (some (text t)) = (strip t ≡ value) × (is_nil value ≡ false)
Says value (some (items ts)) =
    (t : List ℕ) × Among (some t) ts × (strip t ≡ value) × (is_nil value ≡ false)
Says value (some other) = ⊥
Says value none = ⊥

pub non_empty-Among :
    (v x : List ℕ) (rest : List (List ℕ))
    → Among v (non_empty x rest) ↔ (((x ≡ v) × (is_nil v ≡ false)) ⊎ Among v rest)
non_empty-Among v [] rest =
    (λ h. inr h, λ h. elim h [ inl (e, some_) ↦ absurd (ground arith) | inr old ↦ old ])
non_empty-Among v (c ∷ cs) rest = (
  λ h. elim h [ inl e ↦ inl (e, subst (λ t. is_nil t ≡ false) e refl) | inr old ↦ inr old ],
  λ h. elim h [ inl (e, _) ↦ inl e | inr old ↦ inr old ],
)

pub role_values-Among :
    (v : List ℕ) (ts : List (Option (List ℕ))) → Among v (role_values ts) ↔ Says v (some (items ts))
unfolding role_values
role_values-Among v [] = (λ h. absurd h, λ h. absurd h.1)
role_values-Among v (none ∷ ts) = (
  λ h. let (t, at, same, some_) = (role_values-Among v ts).0 h in (t, inr at, same, some_),
  λ h.
      let (t, at, same, some_) = h in
      elim at [
        | inl e ↦ absurd (ground arith)
        | inr later ↦ (role_values-Among v ts).1 (t, later, same, some_)
      ],
)
role_values-Among v (some x ∷ ts) = (
  λ h. elim ((non_empty-Among v (strip x) (role_values ts)).0 h) [
    | inl here ↦ (x, inl refl, here.0, here.1)
    | inr later ↦
        let (t, at, same, some_) = (role_values-Among v ts).0 later in (t, inr at, same, some_)
  ],
  λ h.
      let (t, at, same, some_) = h in
      (non_empty-Among v (strip x) (role_values ts)).1 (elim at [
        | inl e ↦ let same_text : x ≡ t = cc in inl (ap strip same_text ∙ same, some_)
        | inr later ↦ inr ((role_values-Among v ts).1 (t, later, same, some_))
      ]),
)

audiences_of-Among :
    (v : List ℕ) (ts : List (Option (List ℕ))) {out : List (List ℕ)}
    → audiences_of ts ≡ ok out
    → Among v out
    → Says v (some (items ts))
unfolding audiences_of
audiences_of-Among v [] e h = absurd (subst (Among v) (sym (answered e)) h)
audiences_of-Among v (none ∷ ts) e h = absurd (ground arith)
audiences_of-Among v (some x ∷ ts) e h =
    let (rest, e0, e1) =
      first_answer (audiences_of ts) (λ audiences. ok (non_empty (strip x) audiences)) e in
    elim ((non_empty-Among v (strip x) rest).0 (subst (Among v) (sym (answered e1)) h)) [
      | inl here ↦ (x, inl refl, here.0, here.1)
      | inr later ↦
          let (t, at, same, some_) = audiences_of-Among v ts e0 later in (t, inr at, same, some_)
    ]

pub normalize_token_audience-Says :
    (v : List ℕ) (claim : Option Claim) {out : List (List ℕ)}
    → normalize_token_audience claim ≡ ok out
    → Among v out
    → Says v claim
unfolding normalize_token_audience
normalize_token_audience-Says v (some (text t)) e h =
    elim ((non_empty-Among v (strip t) []).0 (subst (Among v) (sym (answered e)) h)) [
      | inl here ↦ here
      | inr later ↦ absurd later
    ]
normalize_token_audience-Says v (some (items ts)) e h = audiences_of-Among v ts e h
normalize_token_audience-Says v (some other) e h = absurd (ground arith)
normalize_token_audience-Says v none e h = absurd (ground arith)
