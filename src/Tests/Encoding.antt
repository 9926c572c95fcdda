-- ===== src/Tests/Encoding.antt =====
-- A choice, encoded and decoded over whole numbers.
use looptimum.Prelude.{true, some, List, [], ◌∷◌, ◌≡◌, refl}
use looptimum.Prelude.Int.{pos}
use looptimum.Float.{integers}
use looptimum.Values.{Value, str}
use looptimum.Space.{Kind}
use looptimum.Space.Encoding.{Math, encode_value, decode_value, choice_index, one_hot}
use looptimum.Space.Encoding.Choices.{IsUnit, IsBack, decode_value-encode_value}

abbrev whole_math : Math integers.F
unfolding integers
whole_math = record {
  one = pos 1;
  half = pos 1;
  log_of = λ x. x;
  exp_of = λ x. x;
  is_integer = λ _. true;
  round = λ x. some x;
}

whole_unit : IsUnit integers whole_math
unfolding integers whole_math
whole_unit = record {
  zero_one = refl;
  one_zero = refl;
  zero_zero = refl;
  one_one = refl;
  half_one = refl;
  half_zero = refl;
}

abbrev levels : Kind integers.F
unfolding integers
levels = Kind.categorical (str "flat" ∷ str "deep" ∷ [])

abbrev deep_vector : List integers.F
unfolding integers
deep_vector = pos 0 ∷ pos 1 ∷ []

deep_encoded : encode_value integers whole_math levels (str "deep") ≡ some deep_vector
unfolding integers whole_math levels deep_vector encode_value choice_index one_hot
deep_encoded = refl

decode_value-encode_value_example :
    (decoded : Value integers.F) × (decode_value integers whole_math levels deep_vector
      ≡ some decoded)
    × IsBack integers whole_math levels (str "deep") decoded
unfolding integers levels
decode_value-encode_value_example =
    decode_value-encode_value integers whole_math whole_unit levels (str "deep") refl deep_encoded
