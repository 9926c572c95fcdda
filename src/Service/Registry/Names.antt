-- ===== src/Service/Registry/Names.antt =====
-- The normalized ids of service/registry.py.
use looptimum.Prelude.{
  ℕ, Bool, true, false, not, ◌&&◌, Option, some, List, [], ◌∷◌, ◌≡◌, refl, sym, ap, ◌∙◌, subst, All,
  All-imp, is_nil, is_space, or_else, Bool-cases, inl, inr, if◌then◌else◌, arith,
}
use looptimum.Prelude.Exec.{ok}
use looptimum.Service.Registry.{
  lstrip_by, rstrip_by, strip_by, is_allowed, is_dash, replace_runs, normalize_campaign_id,
}

-- The text is empty, or begins with no character that is stripped.
abbrev Headed : (ℕ → Bool) → List ℕ → Type 0
Headed p [] = Unit
Headed p (c ∷ cs) = p c ≡ false

lstrip_by-Headed : (p : ℕ → Bool) (t : List ℕ) → Headed p (lstrip_by p t)
unfolding lstrip_by
lstrip_by-Headed p [] = tt
lstrip_by-Headed p (c ∷ cs) = elim (Bool-cases (p c)) [
  | inl e ↦ rw e (lstrip_by-Headed p cs)
  | inr e ↦ rw e e
]

lstrip_by-id : (p : ℕ → Bool) (t : List ℕ) → Headed p t → lstrip_by p t ≡ t
unfolding lstrip_by
lstrip_by-id p [] h = refl
lstrip_by-id p (c ∷ cs) h = rw h

rstrip_by-Headed : (p : ℕ → Bool) (t : List ℕ) → Headed p t → Headed p (rstrip_by p t)
unfolding rstrip_by
rstrip_by-Headed p [] h = tt
rstrip_by-Headed p (c ∷ cs) h = elim (Bool-cases (is_nil (rstrip_by p cs) && p c)) [
  | inl e ↦ rw e tt
  | inr e ↦ rw e h
]

rstrip_by-drop :
    (p : ℕ → Bool) (c : ℕ) (cs : List ℕ)
    → (is_nil (rstrip_by p cs) && p c) ≡ true
    → rstrip_by p (c ∷ cs) ≡ []
unfolding rstrip_by
rstrip_by-drop p c cs e = rw e

rstrip_by-keep :
    (p : ℕ → Bool) (c : ℕ) (cs : List ℕ)
    → (is_nil (rstrip_by p cs) && p c) ≡ false
    → rstrip_by p (c ∷ cs) ≡ c ∷ rstrip_by p cs
unfolding rstrip_by
rstrip_by-keep p c cs e = rw e

rstrip_by-nil : (p : ℕ → Bool) → rstrip_by p [] ≡ []
unfolding rstrip_by
rstrip_by-nil p = refl

rstrip_by-again : (p : ℕ → Bool) (t : List ℕ) → rstrip_by p (rstrip_by p t) ≡ rstrip_by p t
rstrip_by-again p [] = ap (rstrip_by p) (rstrip_by-nil p)
rstrip_by-again p (c ∷ cs) = elim (Bool-cases (is_nil (rstrip_by p cs) && p c)) [
  | inl e ↦ subst (λ t. rstrip_by p t ≡ t) (sym (rstrip_by-drop p c cs e)) (rstrip_by-nil p)
  | inr e ↦
      let again = rstrip_by-again p cs in
      subst (λ t. rstrip_by p t ≡ t) (sym (rstrip_by-keep p c cs e))
        (rstrip_by-keep p c (rstrip_by p cs) (ap (λ t. is_nil t && p c) again ∙ e)
          ∙ ap (λ t. c ∷ t) again)
]

strip_by-again : (p : ℕ → Bool) (t : List ℕ) → strip_by p (strip_by p t) ≡ strip_by p t
unfolding strip_by
strip_by-again p t =
    ap (rstrip_by p) (
      lstrip_by-id p (rstrip_by p (lstrip_by p t))
        (rstrip_by-Headed p (lstrip_by p t) (lstrip_by-Headed p t)))
    ∙ rstrip_by-again p (lstrip_by p t)

lstrip_by-All : (Q : ℕ → Type 0) (p : ℕ → Bool) (t : List ℕ) → All Q t → All Q (lstrip_by p t)
unfolding lstrip_by
lstrip_by-All Q p [] h = tt
lstrip_by-All Q p (c ∷ cs) h = elim (Bool-cases (p c)) [
  | inl e ↦ rw e (lstrip_by-All Q p cs h.1)
  | inr e ↦ rw e h
]

rstrip_by-All : (Q : ℕ → Type 0) (p : ℕ → Bool) (t : List ℕ) → All Q t → All Q (rstrip_by p t)
unfolding rstrip_by
rstrip_by-All Q p [] h = tt
rstrip_by-All Q p (c ∷ cs) h = elim (Bool-cases (is_nil (rstrip_by p cs) && p c)) [
  | inl e ↦ rw e tt
  | inr e ↦ rw e (h.0, rstrip_by-All Q p cs h.1)
]

-- A text with none of the characters is left as it is.
rstrip_by-none : (p : ℕ → Bool) (t : List ℕ) → All (λ c. p c ≡ false) t → rstrip_by p t ≡ t
unfolding rstrip_by
rstrip_by-none p [] h = refl
rstrip_by-none p (c ∷ cs) h = ground (arith, h.0, rstrip_by-none p cs h.1)

strip_by-none : (p : ℕ → Bool) (t : List ℕ) → All (λ c. p c ≡ false) t → strip_by p t ≡ t
unfolding strip_by
strip_by-none p [] h = rstrip_by-none p [] h
strip_by-none p (c ∷ cs) h =
    ap (rstrip_by p) (lstrip_by-id p (c ∷ cs) h.0) ∙ rstrip_by-none p (c ∷ cs) h

abbrev pub IsPlain : List ℕ → Type 0
IsPlain t = All (λ c. is_allowed c ≡ true) t

allowed_no_space : (c : ℕ) → is_allowed c ≡ true → is_space c ≡ false
unfolding is_space
allowed_no_space c h = ground arith

IsPlain-if :
    (c : ℕ) (rest : List ℕ) (run b : Bool)
    → IsPlain rest
    → (b ≡ true → is_allowed c ≡ true)
    → IsPlain (if b then c ∷ rest else if run then rest else b'-' ∷ rest)
IsPlain-if c rest run true h g = (g refl, h)
IsPlain-if c rest true false h g = h
IsPlain-if c rest false false h g = (refl, h)

replace_runs-IsPlain : (run : Bool) (t : List ℕ) → IsPlain (replace_runs run t)
unfolding replace_runs
replace_runs-IsPlain run [] = tt
replace_runs-IsPlain run (c ∷ cs) =
    IsPlain-if c (replace_runs (not (is_allowed c)) cs) run (is_allowed c)
      (replace_runs-IsPlain (not (is_allowed c)) cs) (λ h. h)

replace_runs-id : (t : List ℕ) → IsPlain t → replace_runs false t ≡ t
unfolding replace_runs
replace_runs-id [] h = refl
replace_runs-id (c ∷ cs) h = rw (h.0, replace_runs-id cs h.1)

strip_by-All : (Q : ℕ → Type 0) (p : ℕ → Bool) (t : List ℕ) → All Q t → All Q (strip_by p t)
unfolding strip_by
strip_by-All Q p t h = rstrip_by-All Q p (lstrip_by p t) (lstrip_by-All Q p t h)

pub IsPlain-no_space : (t : List ℕ) → IsPlain t → strip_by is_space t ≡ t
IsPlain-no_space t h =
    strip_by-none is_space t
      (All-imp (λ c. is_allowed c ≡ true) (λ c. is_space c ≡ false) t allowed_no_space h)

module _ (lower : List ℕ → List ℕ) (lower_plain : (t : List ℕ) → IsPlain t → lower t ≡ t) where
  pub normalize_campaign_id-IsPlain :
      (value : Option (List ℕ)) (root_name : List ℕ) {id : List ℕ}
      → normalize_campaign_id lower value root_name ≡ ok id
      → IsPlain id
  unfolding normalize_campaign_id
  normalize_campaign_id-IsPlain value root_name {id} e =
      let text = lower (strip_by is_space (or_else value root_name)) in
      let found : strip_by is_dash (replace_runs false text) ≡ id = ground arith in
      subst IsPlain found (
        strip_by-All (λ c. is_allowed c ≡ true) is_dash (replace_runs false text)
          (replace_runs-IsPlain false text))

  -- An id that was normalized is its own normal form.
  pub normalize_campaign_id-again :
      (value : Option (List ℕ)) (root_name other : List ℕ) {id : List ℕ}
      → normalize_campaign_id lower value root_name ≡ ok id
      → normalize_campaign_id lower (some id) other ≡ ok id
  unfolding normalize_campaign_id
  normalize_campaign_id-again value root_name other {id} e =
      let runs = replace_runs false (lower (strip_by is_space (or_else value root_name))) in
      let found : strip_by is_dash runs ≡ id = ground arith in
      let plain = normalize_campaign_id-IsPlain value root_name {id = id} e in
      let trimmed : strip_by is_dash id ≡ id =
        subst (λ t. strip_by is_dash t ≡ t) found (strip_by-again is_dash runs) in
      let some_ : is_nil id ≡ false = ground arith in
      rw (IsPlain-no_space id plain, lower_plain id plain, replace_runs-id id plain, trimmed, some_)
