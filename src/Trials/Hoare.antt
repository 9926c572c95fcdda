-- ===== src/Trials/Hoare.antt =====
-- Pre- and postconditions of the actions on a campaign's files. A postcondition speaks of the
-- result and the world after; a raised error has its own.
use looptimum.Prelude.{
  Bool, true, false, Option, none, some, List, [], ◌∷◌, ◌≡◌, refl, subst, sym, ap, ◌∙◌,
  if◌then◌else◌,
}
use looptimum.Prelude.Exec.{
  Result, ok, err, pure, raise, gets, modify, try_finally, closed, for_each, ◌>>=◌, continue,
}
use looptimum.Trials.{State}
use looptimum.Float.{Float}
use looptimum.Trials.World.{World, Row, Written, write_failed, Error, Action}
use looptimum.Trials.Effects.{Env, require, write}

module _ {F A : Type 0} where
  abbrev pub After : (A → World F → Type 0) → (World F → Type 0) → Result Error A × World F → Type 0
  After Q E (ok a, w) = Q a w
  After Q E (err _, w) = E w

  pub record Triple (P : World F → Type 0) (m : Action F A) (Q : A → World F → Type 0)
      (E : World F → Type 0) : Type 0 where
    pub at : (w : World F) → P w → After Q E (m w)

-- The files that hold the trials: the state, and the rows of its observations.
abbrev pub tables : {F : Type 0} → World F → Option (State F) × List (Row F)
tables w = (w.state_file, w.observations_csv)

-- The action writes neither of them.
pub record IsQuiet {F A : Type 0} (m : Action F A) : Type 0 where
  pub keeps : (w : World F) → tables (m w).1 ≡ tables w

module _ {F A : Type 0} where
  pub IsQuiet-pure : (a : A) → IsQuiet {F = F} (pure a)
  unfolding pure
  IsQuiet-pure a = record { keeps = λ w. refl }

  pub IsQuiet-raise : (e : Error) → IsQuiet {F = F} {A = A} (raise e)
  unfolding raise
  IsQuiet-raise e = record { keeps = λ w. refl }

  pub IsQuiet-gets : (f : World F → A) → IsQuiet (gets f)
  unfolding gets
  IsQuiet-gets f = record { keeps = λ w. refl }

  pub IsQuiet-require : (e : Error) (o : Option A) → IsQuiet {F = F} (require e o)
  IsQuiet-require e none = record { keeps = λ w. refl }
  IsQuiet-require e (some a) = record { keeps = λ w. refl }

  pub IsQuiet-if :
      (b : Bool) (m n : Action F A) → IsQuiet m → IsQuiet n → IsQuiet (if b then m else n)
  IsQuiet-if true m n h k = h
  IsQuiet-if false m n h k = k

  pub Triple-pure :
      {P E : World F → Type 0} (a : A) {Q : A → World F → Type 0}
      → ((w : World F) → P w → Q a w)
      → Triple P (pure a) Q E
  unfolding pure
  Triple-pure a h = record { at = h }

  pub Triple-raise :
      {P E : World F → Type 0} {Q : A → World F → Type 0} (e : Error)
      → ((w : World F) → P w → E w)
      → Triple P (raise e) Q E
  unfolding raise
  Triple-raise e h = record { at = h }

  pub Triple-require :
      {P : World F → Type 0} (e : Error) (o : Option A)
      → Triple P (require e o) (λ a w. P w × (o ≡ some a)) P
  Triple-require e none = record { at = λ w h. h }
  Triple-require e (some a) = record { at = λ w h. (h, refl) }

  pub Triple-if :
      {P E : World F → Type 0} {Q : A → World F → Type 0} (b : Bool) (m n : Action F A)
      → (b ≡ true → Triple P m Q E)
      → (b ≡ false → Triple P n Q E)
      → Triple P (if b then m else n) Q E
  Triple-if true m n h k = h refl
  Triple-if false m n h k = k refl

  pub Triple-option :
      {B : Type 0} {P E : World F → Type 0} {Q : A → World F → Type 0} (o : Option B)
      (m : Action F A) (f : B → Action F A)
      → (o ≡ none → Triple P m Q E)
      → ((b : B) → o ≡ some b → Triple P (f b) Q E)
      → Triple P (elim o [ none ↦ m | some b ↦ f b ]) Q E
  Triple-option none m f h k = h refl
  Triple-option (some b) m f h k = k b refl

  -- A stronger precondition, and weaker postconditions.
  pub Triple-imp :
      {P P' E E' : World F → Type 0} {Q Q' : A → World F → Type 0} (m : Action F A)
      → ((w : World F) → P' w → P w)
      → ((a : A) (w : World F) → Q a w → Q' a w)
      → ((w : World F) → E w → E' w)
      → Triple P m Q E
      → Triple P' m Q' E'
  Triple-imp {P} {P'} {E} {E'} {Q} {Q'} m p q e t = record {
    at = λ w h. weaken (m w) (t.at w (p w h));
  }
    where
      weaken : (r : Result Error A × World F) → After Q E r → After Q' E' r
      weaken (ok a, w) h = q a w h
      weaken (err x, w) h = e w h

  -- A quiet action leaves what is said of the state file.
  pub Triple-quiet :
      (p : Option (State F) → Type 0) (m : Action F A)
      → IsQuiet m
      → Triple (λ w. p w.state_file) m (λ _ w. p w.state_file) (λ w. p w.state_file)
  Triple-quiet p m q = record {
    at = λ w h. split (m w) (subst p (sym (ap (λ t. t.0) (q.keeps w))) h);
  }
    where
      split :
          (r : Result Error A × World F)
          → p r.1.state_file
          → After (λ _ w. p w.state_file) (λ w. p w.state_file) r
      split (ok a, w) h = h
      split (err x, w) h = h

  -- It leaves what is said of both.
  pub Triple-still :
      (p : Option (State F) × List (Row F) → Type 0) (m : Action F A)
      → IsQuiet m
      → Triple (λ w. p (tables w)) m (λ _ w. p (tables w)) (λ w. p (tables w))
  Triple-still p m q = record { at = λ w h. split (m w) (subst p (sym (q.keeps w)) h) }
    where
      split :
          (r : Result Error A × World F)
          → p (tables r.1)
          → After (λ _ w. p (tables w)) (λ w. p (tables w)) r
      split (ok a, w) h = h
      split (err x, w) h = h

  -- Two pairs of conditions on one action.
  pub Triple-both :
      {P P' E E' : World F → Type 0} {Q Q' : A → World F → Type 0} (m : Action F A)
      → Triple P m Q E
      → Triple P' m Q' E'
      → Triple (λ w. P w × P' w) m (λ a w. Q a w × Q' a w) (λ w. E w × E' w)
  Triple-both {P} {P'} {E} {E'} {Q} {Q'} m t u = record {
    at = λ w h. split (m w) (t.at w h.0) (u.at w h.1);
  }
    where
      split :
          (r : Result Error A × World F)
          → After Q E r
          → After Q' E' r
          → After (λ a w. Q a w × Q' a w) (λ w. E w × E' w) r
      split (ok a, w) h k = (h, k)
      split (err x, w) h k = (h, k)

  pub Triple-try_finally :
      {P E : World F → Type 0} {Q : A → World F → Type 0} (last : Action F Unit) (m : Action F A)
      → ((a : A) → Triple (Q a) last (λ _. Q a) E)
      → Triple E last (λ _. E) E
      → Triple P m Q E
      → Triple P (try_finally last m) Q E
  unfolding try_finally
  Triple-try_finally {P} {E} {Q} last m q e t = record { at = λ w h. split (m w) (t.at w h) }
    where
      closed_ok :
          (a : A) (s : Result Error Unit × World F)
          → After (λ _. Q a) E s
          → After Q E (closed (ok a) s.0, s.1)
      closed_ok a (ok _, w) h = h
      closed_ok a (err _, w) h = h

      closed_err :
          (x : Error) (s : Result Error Unit × World F)
          → After (λ _. E) E s
          → After Q E (closed (err x) s.0, s.1)
      closed_err x (ok _, w) h = h
      closed_err x (err _, w) h = h

      split :
          (r : Result Error A × World F)
          → After Q E r
          → After Q E (let s = last r.1 in (closed r.0 s.0, s.1))
      split (ok a, w) h = closed_ok a (last w) ((q a).at w h)
      split (err x, w) h = closed_err x (last w) (e.at w h)

module _ {F : Type 0} where
  pub IsQuiet-modify :
      (f : World F → World F) → ((w : World F) → tables (f w) ≡ tables w) → IsQuiet (modify f)
  unfolding modify
  IsQuiet-modify f h = record { keeps = h }

module _ {F A B : Type 0} where
  quiet_rest :
      (r : Result Error A) (f : A → Action F B) (w : World F)
      → ((a : A) → IsQuiet (f a))
      → tables (continue r f w).1 ≡ tables w
  quiet_rest (ok a) f w h = (h a).keeps w
  quiet_rest (err e) f w h = refl

  pub IsQuiet-bind :
      (m : Action F A) (f : A → Action F B)
      → IsQuiet m
      → ((a : A) → IsQuiet (f a))
      → IsQuiet (m >>= f)
  unfolding ◌>>=◌
  IsQuiet-bind m f h k = record {
    keeps = λ w. let (r, w') = m w in quiet_rest r f w' k ∙ h.keeps w;
  }

  pub Triple-bind :
      {P E : World F → Type 0} {Q : A → World F → Type 0} {R : B → World F → Type 0}
      (m : Action F A) (f : A → Action F B)
      → Triple P m Q E
      → ((a : A) → Triple (Q a) (f a) R E)
      → Triple P (m >>= f) R E
  unfolding ◌>>=◌
  Triple-bind {P} {E} {Q} {R} m f t k = record { at = λ w h. split (m w) (t.at w h) }
    where
      split : (r : Result Error A × World F) → After Q E r → After R E (continue r.0 f r.1)
      split (ok a, w) h = (k a).at w h
      split (err x, w) h = h

module _ {F A : Type 0} where
  pub IsQuiet-for_each :
      (xs : List A) (f : A → Action F Unit) → ((a : A) → IsQuiet (f a)) → IsQuiet (for_each xs f)
  unfolding for_each
  IsQuiet-for_each [] f h = record { keeps = λ w. refl }
  IsQuiet-for_each (x ∷ xs) f h = record {
    keeps = λ w.
        let (r, w') = f x w in
        quiet_rest r (λ _. for_each xs f) w' (λ _. IsQuiet-for_each xs f h) ∙ (h x).keeps w;
  }

module _ (fl : Float) (env : Env fl.F) where
  pub IsQuiet-write :
      (file : Written) (f : World fl.F → World fl.F)
      → ((w : World fl.F) → tables (f w) ≡ tables w)
      → IsQuiet (write fl env file f)
  unfolding write
  IsQuiet-write file f h = record { keeps = λ w. split (env.write_fails file w.ticks) w }
    where
      split :
          (b : Bool) (w : World fl.F)
          → tables
              (if◌then◌else◌ {A = Result Error Unit × World fl.F} b
                (err (write_failed file), w)
                (ok tt, f w)).1
            ≡ tables w
      split true w = refl
      split false w = h w

  -- What holds after a write, and what holds where it fails and nothing is changed.
  pub Triple-write :
      {P E : World fl.F → Type 0} {Q : Unit → World fl.F → Type 0} (file : Written)
      (f : World fl.F → World fl.F)
      → ((w : World fl.F) → P w → Q tt (f w))
      → ((w : World fl.F) → P w → E w)
      → Triple P (write fl env file f) Q E
  unfolding write
  Triple-write {P} {E} {Q} file f done failed = record {
    at = λ w h. split (env.write_fails file w.ticks) w h;
  }
    where
      split :
          (b : Bool) (w : World fl.F)
          → P w
          → After Q E (if b then (err (write_failed file), w) else (ok tt, f w))
      split true w h = failed w h
      split false w h = done w h

pub ruleset quiet_rules = (
  IsQuiet-pure, IsQuiet-raise, IsQuiet-gets, IsQuiet-require, IsQuiet-if, IsQuiet-modify,
  IsQuiet-bind, IsQuiet-for_each,
)
