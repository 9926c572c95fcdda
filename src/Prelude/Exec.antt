-- ===== src/Prelude/Exec.antt =====
-- Procedures that change the world outside and may raise: what was written before an exception
-- stays written, so the world comes back beside the error too.
use mathlib.Core.List.{List, [], ◌∷◌}

pub data Result (E A : Type 0) : Type 0 where
  ok : A → Result E A
  err : E → Result E A

abbrev pub Exec : Type 0 → Type 0 → Type 0 → Type 0
Exec W E A = W → Result E A × W

module _ {E A : Type 0} where
  -- The result of a body, after what stands under its `finally`, which may raise.
  abbrev pub closed : Result E A → Result E Unit → Result E A
  closed r (ok _) = r
  closed r (err e) = err e

module _ {W E A : Type 0} where
  unfoldable pub pure : A → Exec W E A
  pure a w = (ok a, w)

  unfoldable pub raise : E → Exec W E A
  raise e w = (err e, w)

  unfoldable pub lift : Result E A → Exec W E A
  lift r w = (r, w)

  unfoldable pub gets : (W → A) → Exec W E A
  gets f w = (ok (f w), w)

  -- `try: m finally: last`
  unfoldable pub try_finally : Exec W E Unit → Exec W E A → Exec W E A
  try_finally last m w = let (r, w') = m w in let (s, w'') = last w' in (closed r s, w'')

module _ {W E : Type 0} where
  unfoldable pub modify : (W → W) → Exec W E Unit
  modify f w = (ok tt, f w)

module _ {W E A B : Type 0} where
  abbrev pub continue : Result E A → (A → Exec W E B) → Exec W E B
  continue (ok a) f w = f a w
  continue (err e) f w = (err e, w)

  infixl 5 ◌>>=◌ ◌>>◌
  unfoldable pub ◌>>=◌ : Exec W E A → (A → Exec W E B) → Exec W E B
  ◌>>=◌ m f w = let (r, w') = m w in continue r f w'

  abbrev pub ◌>>◌ : Exec W E A → Exec W E B → Exec W E B
  m >> n = m >>= λ _. n

module _ {W E A : Type 0} where
  -- `for x in xs: f(x)`
  unfoldable pub for_each : List A → (A → Exec W E Unit) → Exec W E Unit
  for_each [] f w = (ok tt, w)
  for_each (x ∷ xs) f w = let (r, w') = f x w in continue r (λ _. for_each xs f) w'
