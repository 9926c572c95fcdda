-- ===== src/Prelude/Answer.antt =====
-- Operations that answer with a value or fail, in do blocks, where no file is written between.
use looptimum.Prelude.Exec.{Result, ok, err}
use mathlib.Core.Path.{◌≡◌, refl}
use native.Mathlib.Omega.{arith}

module _ {E A B : Type 0} where
  infixl 5 ◌>>=◌
  abbrev pub ◌>>=◌ : Result E A → (A → Result E B) → Result E B
  err failed >>= next = err failed
  ok value >>= next = next value

  -- A chain that ends well has gone through a first value.
  pub first_answer :
      (first : Result E A) (next : A → Result E B) {last : B}
      → (first >>= next) ≡ ok last
      → (value : A) × (first ≡ ok value) × (next value ≡ ok last)
  first_answer (err failed) next h = absurd (ground arith)
  first_answer (ok value) next h = (value, refl, h)
