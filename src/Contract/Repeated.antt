-- ===== src/Contract/Repeated.antt =====
-- What it means that diff_contract_records of templates/_shared/contract.py finds no difference.
use Prim.Native.Nat.{Ordering}
use Prim.Native.String.{compare}
use text.Mathlib.TextEquality.{path_by_compare}
use looptimum.Prelude.{
  ℕ, ◌==◌, Bool, true, false, Option, none, some, String, str_eq, List, [], ◌∷◌, ◌++◌, ◌≡◌, refl,
  sym, ap, ◌∙◌, subst, inl, inr, Among, lookup, is_nil, eq_iff, Bool-cases, arith,
}
use looptimum.Float.{Float}
use looptimum.Values.{Value, Dict, py_eq}
use looptimum.Contract.{Status, ok, failed, killed, timeout, same_status, Report}
use looptimum.Contract.Replay.{
  sort_insert, sorted_keys, same_entry, diff_dicts, same_number, same_reason, note,
  diff_contract_records,
}

sort_insert-new : (k : String) (keys : List String) → Among k (sort_insert k keys)
unfolding sort_insert
sort_insert-new k [] = inl refl
sort_insert-new k (j ∷ js) = split (compare k j) refl (sort_insert-new k js)
  where
    split :
        (o : Ordering)
        → compare k j ≡ o
        → Among k (sort_insert k js)
        → Among k (elim o [
          | Ordering.lt ↦ k ∷ j ∷ js
          | Ordering.eq ↦ j ∷ js
          | Ordering.gt ↦ j ∷ sort_insert k js
        ])
    split Ordering.lt e rest = inl refl
    split Ordering.eq e rest = inl (sym (path_by_compare k j e))
    split Ordering.gt e rest = inr rest

sort_insert-old : (k i : String) (keys : List String) → Among i keys → Among i (sort_insert k keys)
unfolding sort_insert
sort_insert-old k i [] among = absurd among
sort_insert-old k i (j ∷ js) among = split (compare k j) among (sort_insert-old k i js)
  where
    split :
        (o : Ordering)
        → Among i (j ∷ js)
        → (Among i js → Among i (sort_insert k js))
        → Among i (elim o [
          | Ordering.lt ↦ k ∷ j ∷ js
          | Ordering.eq ↦ j ∷ js
          | Ordering.gt ↦ j ∷ sort_insert k js
        ])
    split Ordering.lt among rest = inr among
    split Ordering.eq among rest = among
    split Ordering.gt (inl e) rest = inl e
    split Ordering.gt (inr among) rest = inr (rest among)

sorted_keys-old :
    {V : Type 0} (d : Dict V) (i : String) (keys : List String)
    → Among i keys
    → Among i (sorted_keys d keys)
unfolding sorted_keys
sorted_keys-old [] i keys among = among
sorted_keys-old ((k, _) ∷ d) i keys among =
    sort_insert-old k i (sorted_keys d keys) (sorted_keys-old d i keys among)

sorted_keys-own :
    {V : Type 0} (d : Dict V) (i : String) (keys : List String) {v : V}
    → lookup i d ≡ some v
    → Among i (sorted_keys d keys)
unfolding sorted_keys lookup
sorted_keys-own [] i keys e = cc
sorted_keys-own (entry ∷ d) i keys {v} e = elim (Bool-cases (str_eq entry.0 i)) [
  | inl here ↦
      subst (λ k. Among k (sort_insert entry.0 (sorted_keys d keys))) ((eq_iff entry.0 i).0 here)
        (sort_insert-new entry.0 (sorted_keys d keys))
  | inr there ↦
      sort_insert-old entry.0 i (sorted_keys d keys)
        (let later : lookup i d ≡ some v = ground arith in sorted_keys-own d i keys later)
]

is_nil-append :
    {A : Type 0} (xs ys : List A)
    → is_nil (xs ++ ys) ≡ true
    → (is_nil xs ≡ true) × (is_nil ys ≡ true)
is_nil-append [] ys e = (refl, e)
is_nil-append (x ∷ xs) ys e = cc

-- Both are absent, or both are there and the test holds of them.
abbrev pub Agree : {A : Type 0} → (A → A → Bool) → Option A → Option A → Type 0
Agree same none none = Unit
Agree same none (some b) = ⊥
Agree same (some a) none = ⊥
Agree same (some a) (some b) = same a b ≡ true

module _ (fl : Float) where
  diff_dicts-nil :
      (field : String) (keys : List String) (left right : Dict (Value fl.F))
      → is_nil (diff_dicts fl field keys left right) ≡ true
      → (k : String) → Among k keys
      → same_entry fl (lookup k left) (lookup k right) ≡ true
  unfolding diff_dicts
  diff_dicts-nil field [] left right e k among = absurd among
  diff_dicts-nil field (key ∷ keys) left right e k (inl here) =
      subst (λ j. same_entry fl (lookup j left) (lookup j right) ≡ true) here (ground arith)
  diff_dicts-nil field (key ∷ keys) left right e k (inr among) =
      diff_dicts-nil field keys left right (ground arith) k among

  same_entry-Agree : (a b : Option (Value fl.F)) → same_entry fl a b ≡ true → Agree (py_eq fl) a b
  unfolding same_entry
  same_entry-Agree none none e = tt
  same_entry-Agree none (some b) e = cc
  same_entry-Agree (some a) none e = cc
  same_entry-Agree (some a) (some b) e = e

  -- At every key, whether it stands in the dictionaries or not.
  dicts-Agree :
      (field : String) (left right : Dict (Value fl.F))
      → is_nil (diff_dicts fl field (sorted_keys left (sorted_keys right [])) left right) ≡ true
      → (k : String) → Agree (py_eq fl) (lookup k left) (lookup k right)
  dicts-Agree field left right e k = split (lookup k left) (lookup k right) refl refl
    where
      keys : List String
      keys = sorted_keys left (sorted_keys right [])

      at_key : Among k keys → same_entry fl (lookup k left) (lookup k right) ≡ true
      at_key = diff_dicts-nil field keys left right e k

      split :
          (a b : Option (Value fl.F))
          → lookup k left ≡ a
          → lookup k right ≡ b
          → Agree (py_eq fl) a b
      split none none ea eb = tt
      split (some a) b ea eb = same_entry-Agree (some a) b (
          ap (λ o. same_entry fl o b) (sym ea)
          ∙ ap (same_entry fl (lookup k left)) (sym eb)
          ∙ at_key (sorted_keys-own left k (sorted_keys right []) ea))
      split none (some b) ea eb = same_entry-Agree none (some b) (
          ap (λ o. same_entry fl o (some b)) (sym ea)
          ∙ ap (same_entry fl (lookup k left)) (sym eb)
          ∙ at_key (sorted_keys-old left k (sorted_keys right []) (sorted_keys-own right k [] eb)))

  same_number-Agree : (a b : Option fl.F) → same_number fl a b ≡ true → Agree fl.eqb a b
  same_number-Agree none none e = tt
  same_number-Agree none (some b) e = cc
  same_number-Agree (some a) none e = cc
  same_number-Agree (some a) (some b) e = e

same_number-eq : (a b : ℕ) → (a == b) ≡ true → a ≡ b
same_number-eq a b e = ground arith

same_status-eq : (a b : Status) → same_status a b ≡ true → a ≡ b
same_status-eq ok ok e = refl
same_status-eq failed failed e = refl
same_status-eq killed killed e = refl
same_status-eq timeout timeout e = refl
same_status-eq ok failed e = cc
same_status-eq ok killed e = cc
same_status-eq ok timeout e = cc
same_status-eq failed ok e = cc
same_status-eq failed killed e = cc
same_status-eq failed timeout e = cc
same_status-eq killed ok e = cc
same_status-eq killed failed e = cc
same_status-eq killed timeout e = cc
same_status-eq timeout ok e = cc
same_status-eq timeout failed e = cc
same_status-eq timeout killed e = cc

module _ (fl : Float) where
  note-nil : (b : Bool) (field : String) → is_nil (note fl b field) ≡ true → b ≡ true
  note-nil true field e = refl
  note-nil false field e = cc

  same_reason-eq : (a b : Option String) → same_reason fl a b ≡ true → a ≡ b
  same_reason-eq none none e = refl
  same_reason-eq none (some b) e = cc
  same_reason-eq (some a) none e = cc
  same_reason-eq (some a) (some b) e = ap some ((eq_iff a b).0 e)

  -- The two reports say the same, entry by entry; numbers are compared as Python's `==` does.
  pub record SaySame (expected received : Report fl.F) : Type 0 where
    pub trial_id : expected.trial_id ≡ received.trial_id
    pub status : expected.status ≡ received.status
    pub params :
        (k : String) → Agree (py_eq fl) (lookup k expected.params) (lookup k received.params)
    pub objectives :
        (k : String)
        → Agree (py_eq fl) (lookup k expected.objectives) (lookup k received.objectives)
    pub penalty : Agree fl.eqb expected.penalty_objective received.penalty_objective
    pub reason : expected.terminal_reason ≡ received.terminal_reason

  pub diff_contract_records-SaySame :
      (expected received : Report fl.F)
      → is_nil (diff_contract_records fl expected received) ≡ true
      → SaySame expected received
  unfolding diff_contract_records
  diff_contract_records-SaySame expected received e =
      let a = is_nil-append _ _ e in
      let b = is_nil-append _ _ a.1 in
      let c = is_nil-append _ _ b.1 in
      let d = is_nil-append _ _ c.1 in
      let f = is_nil-append _ _ d.1 in
      record {
        objectives = dicts-Agree fl "objectives" expected.objectives received.objectives a.0;
        params = dicts-Agree fl "params" expected.params received.params b.0;
        penalty = same_number-Agree fl _ _ (note-nil _ "penalty_objective" c.0);
        status = same_status-eq _ _ (note-nil _ "status" d.0);
        reason = same_reason-eq _ _ (note-nil _ "terminal_reason" f.0);
        trial_id = same_number-eq _ _ (note-nil _ "trial_id" f.1);
      }
