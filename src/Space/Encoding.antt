-- ===== src/Space/Encoding.antt =====
-- templates/_shared/search_space.py: points as vectors of numbers, normalize_numeric_point and
-- denormalize_numeric_point. `none` stands for a raised exception. The bounds of a parameter on a log
-- scale are positive after normalization, so their logarithms exist.
pub mod Choices
use looptimum.Prelude.{
  ℕ, zero, suc, ◌+◌, ◌==◌, Bool, true, false, ◌&&◌, Option, none, some, List, [], ◌∷◌, ◌++◌, lookup,
  insert, length, if◌then◌else◌,
}
use looptimum.Prelude.Int.{ℤ, ltb_ℤ}
use looptimum.Prelude.Exec.{Result, ok, err}
use looptimum.Prelude.Maybe.{◌>>=◌}
use looptimum.Float.{Float}
use looptimum.Values.{Value, null, bool, int, float, str, Dict, same_choice, require_finite_number}
use looptimum.Space.{
  Param, Kind, real, whole, boolean, categorical, Scale, linear, log, is_parameter_active,
}
use looptimum.Space.Order.{ordered_parameters}

-- What the encoding uses of Python's `math` and of `float`, beside the operations of Float.
pub record Math (F : Type 0) : Type 0 where
  pub one : F
  pub half : F
  pub log_of : F → F
  pub exp_of : F → F
  pub is_integer : F → Bool
  -- none for nan and the infinities, which raise
  pub round : F → Option ℤ

unfoldable pub encoded_size : {F : Type 0} → Kind F → ℕ
encoded_size (real lo hi scale) = 1
encoded_size (whole lo hi scale) = 1
encoded_size boolean = 1
encoded_size (categorical choices) = length choices

-- `items[start : start + count]`
unfoldable pub segment : {A : Type 0} → (start count : ℕ) → List A → List A
segment start count [] = []
segment (suc start) count (x ∷ xs) = segment start count xs
segment zero zero (x ∷ xs) = []
segment zero (suc count) (x ∷ xs) = x ∷ segment zero count xs

module _ (fl : Float) (m : Math fl.F) where
  unfoldable pub clamp_unit_interval : fl.F → fl.F
  clamp_unit_interval value =
      let floor = if fl.ltb fl.zero value then value else fl.zero in
      if fl.ltb floor m.one then floor else m.one

  -- Where a value lies between the bounds, from 0 to 1.
  unfoldable pub unit_of : (lo hi : fl.F) → Scale → fl.F → Option fl.F
  unfolding clamp_unit_interval
  unit_of lo hi linear value =
      let span = fl.sub hi lo in
      if fl.ltb (fl.abs span) fl.tolerance
      then some fl.zero
      else some (clamp_unit_interval (fl.div (fl.sub value lo) span))
  unit_of lo hi log value =
      let log_lo = m.log_of lo in
      let span = fl.sub (m.log_of hi) log_lo in
      if fl.leb value fl.zero
      then none
      else if fl.ltb (fl.abs span) fl.tolerance
      then some fl.zero
      else some (clamp_unit_interval (fl.div (fl.sub (m.log_of value) log_lo) span))

  abbrev pub integral : fl.F → Option fl.F
  integral x = if m.is_integer x then some x else none

  -- The number of a value of an `int` parameter.
  unfoldable pub whole_number : Value fl.F → Option fl.F
  whole_number (int n) = integral (fl.of_int n)
  whole_number (float x) = integral x
  whole_number _ = none

  unfoldable pub raw_value : (lo hi : fl.F) → Scale → fl.F → fl.F
  unfolding clamp_unit_interval
  raw_value lo hi linear value =
      if fl.ltb (fl.abs (fl.sub hi lo)) fl.tolerance
      then lo
      else fl.add lo (fl.mul (clamp_unit_interval value) (fl.sub hi lo))
  raw_value lo hi log value =
      let log_lo = m.log_of lo in
      let span = fl.sub (m.log_of hi) log_lo in
      if fl.ltb (fl.abs span) fl.tolerance
      then lo
      else m.exp_of (fl.add log_lo (fl.mul (clamp_unit_interval value) span))

  -- `min(hi, max(lo, value))`
  abbrev pub clamp : (lo hi value : ℤ) → ℤ
  clamp lo hi value =
      let raised = if ltb_ℤ lo value then value else lo in if ltb_ℤ raised hi then raised else hi

  unfoldable pub is_supported_choice : Value fl.F → Bool
  is_supported_choice (str t) = true
  is_supported_choice (int n) = fl.is_finite (fl.of_int n)
  is_supported_choice (float x) = fl.is_finite x
  is_supported_choice _ = false

  unfoldable pub choice_index : Value fl.F → List (Value fl.F) → Option ℕ
  unfolding same_choice
  choice_index value [] = none
  choice_index value (choice ∷ choices) =
      let rest = (choice_index value choices >>= λ i. some (suc i)) in
      if same_choice fl choice value then some zero else rest

  unfoldable pub zeros : ℕ → List fl.F
  zeros zero = []
  zeros (suc n) = fl.zero ∷ zeros n

  -- 1 at the index, 0 elsewhere
  unfoldable pub one_hot : (size index : ℕ) → List fl.F
  unfolding zeros
  one_hot zero index = []
  one_hot (suc n) zero = m.one ∷ zeros n
  one_hot (suc n) (suc index) = fl.zero ∷ one_hot n index

  abbrev pub single : Option fl.F → Option (List fl.F)
  single none = none
  single (some x) = some (x ∷ [])

  unfoldable pub encode_value : Kind fl.F → Value fl.F → Option (List fl.F)
  unfolding unit_of whole_number require_finite_number is_supported_choice choice_index one_hot
  encode_value (real lo hi scale) value =
      single (require_finite_number fl value >>= unit_of lo hi scale)
  encode_value (whole lo hi scale) value =
      single (whole_number value >>= unit_of (fl.of_int lo) (fl.of_int hi) scale)
  encode_value boolean (bool b) = some ((if b then m.one else fl.zero) ∷ [])
  encode_value boolean _ = none
  encode_value (categorical choices) value =
      if is_supported_choice value
      then (choice_index value choices >>= λ i. some (one_hot (length choices) i))
      else none

  -- The choice at the first of the greatest numbers.
  unfoldable pub best_choice : Value fl.F → fl.F → List (Value fl.F) → List fl.F → Value fl.F
  best_choice choice x [] ys = choice
  best_choice choice x (other ∷ others) [] = choice
  best_choice choice x (other ∷ others) (y ∷ ys) =
      best_choice (if fl.ltb x y then other else choice) (if fl.ltb x y then y else x) others ys

  unfoldable pub decode_value : Kind fl.F → List fl.F → Option (Value fl.F)
  unfolding raw_value best_choice clamp_unit_interval
  decode_value (real lo hi scale) (x ∷ []) = some (float (raw_value lo hi scale x))
  decode_value (whole lo hi scale) (x ∷ []) = do
    rounded ← m.round (raw_value (fl.of_int lo) (fl.of_int hi) scale x)
    some (int (clamp lo hi rounded))
  decode_value boolean (x ∷ []) = some (bool (fl.leb m.half (clamp_unit_interval x)))
  decode_value (categorical (choice ∷ choices)) (x ∷ xs) =
      if length xs == length choices then some (best_choice choice x choices xs) else none
  decode_value _ _ = none

  abbrev pub encode_if : Bool → Kind fl.F → Option (Value fl.F) → Option (List fl.F)
  unfolding encode_value zeros encoded_size
  encode_if false kind value = some (zeros (encoded_size kind))
  encode_if true kind none = none
  encode_if true kind (some value) = encode_value kind value

  unfoldable pub normalize_each : Dict (Value fl.F) → List (Param fl.F) → Option (List fl.F)
  unfolding encode_if is_parameter_active lookup
  normalize_each vec [] = some []
  normalize_each vec (p ∷ ps) = do
    part ← encode_if (is_parameter_active fl p vec) p.kind (lookup p.name vec)
    rest ← normalize_each vec ps
    some (part ++ rest)

  unfoldable pub normalize_numeric_point :
      Dict (Value fl.F) → List (Param fl.F) → Option (List fl.F)
  unfolding ordered_parameters normalize_each
  normalize_numeric_point vec params = elim (ordered_parameters params) [
    | err failure ↦ none
    | ok ordered ↦ normalize_each vec ordered
  ]

  abbrev pub decode_if :
      Bool → Param fl.F → List fl.F → Dict (Value fl.F) → Option (Dict (Value fl.F))
  unfolding decode_value insert
  decode_if false p part out = some out
  decode_if true p part out = do value ← decode_value p.kind part; some (insert p.name value out)

  unfoldable pub denormalize_each :
      List fl.F → List (Param fl.F) → (offset : ℕ) → Dict (Value fl.F) → Option (Dict (Value fl.F))
  unfolding decode_if is_parameter_active encoded_size segment
  denormalize_each vals [] offset out = if offset == length vals then some out else none
  denormalize_each vals (p ∷ ps) offset out = do
    let part = segment offset (encoded_size p.kind) vals
    next ← decode_if (is_parameter_active fl p out) p part out
    denormalize_each vals ps (offset + encoded_size p.kind) next

  unfoldable pub denormalize_numeric_point :
      List fl.F → List (Param fl.F) → Option (Dict (Value fl.F))
  unfolding ordered_parameters denormalize_each
  denormalize_numeric_point vals params = elim (ordered_parameters params) [
    | err failure ↦ none
    | ok ordered ↦ denormalize_each vals ordered 0 []
  ]
