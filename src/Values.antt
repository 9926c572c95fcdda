-- ===== src/Values.antt =====
-- Scalars as JSON documents carry them, with the comparisons that the shared modules make:
-- templates/_shared/search_space.py, constraints.py and objectives.py.
use looptimum.Prelude.{Bool, true, false, Option, none, some, String, str_eq, List, if◌then◌else◌}
use looptimum.Prelude.Int.{ℤ, pos, eqb_ℤ}
use looptimum.Float.{Float}

pub data Value (F : Type 0) : Type 0 where
  null : Value F
  bool : Bool → Value F
  int : ℤ → Value F
  float : F → Value F
  str : String → Value F

abbrev pub Dict : Type 0 → Type 0
Dict V = List (String × V)

abbrev pub same_bool : Bool → Bool → Bool
same_bool true true = true
same_bool false false = true
same_bool _ _ = false

abbrev pub as_int : Bool → ℤ
as_int true = pos 1
as_int false = pos 0

module _ (fl : Float) where
  -- `_choice_key(a) == _choice_key(b)`: the JSON texts agree only for one type and one value.
  unfoldable pub same_choice : Value fl.F → Value fl.F → Bool
  same_choice null null = true
  same_choice (bool a) (bool b) = same_bool a b
  same_choice (int a) (int b) = eqb_ℤ a b
  same_choice (float a) (float b) = fl.same_text a b
  same_choice (str a) (str b) = str_eq a b
  same_choice _ _ = false

  -- Python's `a == b`, which compares numbers and booleans across their types.
  unfoldable pub py_eq : Value fl.F → Value fl.F → Bool
  py_eq null null = true
  py_eq (bool a) (bool b) = same_bool a b
  py_eq (bool a) (int b) = eqb_ℤ (as_int a) b
  py_eq (bool a) (float b) = fl.eqb_int (as_int a) b
  py_eq (int a) (bool b) = eqb_ℤ a (as_int b)
  py_eq (int a) (int b) = eqb_ℤ a b
  py_eq (int a) (float b) = fl.eqb_int a b
  py_eq (float a) (bool b) = fl.eqb_int (as_int b) a
  py_eq (float a) (int b) = fl.eqb_int b a
  py_eq (float a) (float b) = fl.eqb a b
  py_eq (str a) (str b) = str_eq a b
  py_eq _ _ = false

  -- `_require_finite_number`: `none` stands for the ValueError.
  unfoldable pub require_finite_number : Value fl.F → Option fl.F
  require_finite_number (int n) =
      let out = fl.of_int n in if fl.is_finite out then some out else none
  require_finite_number (float x) = if fl.is_finite x then some x else none
  require_finite_number _ = none
